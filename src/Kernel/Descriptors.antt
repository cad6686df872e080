-- ===== src/Kernel/Descriptors.antt =====
-- The semaphore descriptors of phase1/asl.c over the whole kernel, an instance of Kernel/Closed.
use sistemi_operativi_proget.Common.{
  ℕ, ◌≤◌, ◌≡◌, ◌∷◌, refl, subst, ap, ◌∙◌, ltb, false, Option, none, some, List, arith, Option-cases,
  inl, inr, if_cases, ◌==◌,
}
use sistemi_operativi_proget.Const.{Platform, page_size, max_proc}
use sistemi_operativi_proget.Types.{State}
use sistemi_operativi_proget.Pcb.{
  Pcbs, out_proc_q, init_pcbs, alloc_pcb, alloc_from, insert_proc_q, insert_child,
}
use sistemi_operativi_proget.Asl.{Asl, find_semd, out_blocked, init_asl}
use sistemi_operativi_proget.Asl.Cases.{out-unknown, out-known}
use sistemi_operativi_proget.Asl.Count.{
  descriptors, descriptors-insert_blocked, descriptors-remove_blocked, length-set_procq,
}
use sistemi_operativi_proget.Kernel.{Kernel, pcb, set_pcb}
use sistemi_operativi_proget.Kernel.Scheduler.{scheduler, schedule, dispatch}
use sistemi_operativi_proget.Kernel.Functions.{join_semaphore}
use sistemi_operativi_proget.Kernel.Functions.Terminate.{
  give_back, leave_semaphore, release_pcb, detach, enough, recursive_terminate_process,
}
use sistemi_operativi_proget.Kernel.Syscalls.{admit, adopt}
use sistemi_operativi_proget.Kernel.Init.{init_globals, start_root, init_kernel}
use sistemi_operativi_proget.Kernel.Closed.{Closed}
use sistemi_operativi_proget.Kernel.Closed.Terminate.{Answers, recursive_terminate-keeps}

descriptors-out_blocked :
    (s : Pcbs) (a : Asl) (p : ℕ) → descriptors (out_blocked s a p).0 ≡ descriptors a
descriptors-out_blocked s a p = elim (Option-cases (find_semd (s.table p).p_sem_add a.semd_h)) [
  | inl e ↦ rw (out-unknown s a p e)
  | inr (d, e) ↦
      rw (out-known s a p d e)
        (omega (arith, length-set_procq (s.table p).p_sem_add (out_proc_q d.s_procq p).0 a.semd_h))
]

-- As many descriptors as n, in use and free.
abbrev Holds : ℕ → Kernel → Type 0
Holds n k = descriptors k.asl ≡ n

module _ (c : Platform) (n : ℕ) where
  give_back-asl : (k : Kernel) (sem : ℕ) (r : Asl × Option ℕ) → (give_back c k sem r).asl ≡ r.0
  unfolding give_back
  give_back-asl k sem (a, none) = refl
  give_back-asl k sem (a, some p) = ground arith

  leave_semaphore-Holds : (k : Kernel) (t : ℕ) → Holds n k → Holds n (leave_semaphore c k t)
  unfolding leave_semaphore
  leave_semaphore-Holds k t h =
      let sem = (pcb k t).p_sem_add in
      let r = out_blocked k.pcbs k.asl t in
      if_cases {A = Kernel} (Holds n) (sem == 0) k (give_back c k sem r) (λ _. h)
        (λ _. ap descriptors (give_back-asl k sem r) ∙ descriptors-out_blocked k.pcbs k.asl t ∙ h)

  detach-Holds : (k : Kernel) (t : ℕ) → Holds n k → Holds n (detach c k t)
  unfolding detach release_pcb
  detach-Holds k t h = leave_semaphore-Holds k t h

  terminated-Holds :
      (k k1 : Kernel) (t : ℕ)
      → recursive_terminate_process (enough k) c k t ≡ some k1
      → Holds n k
      → Holds n k1
  terminated-Holds k k1 t r h = subst (Answers (Holds n)) r (
      recursive_terminate-keeps (Holds n) c (λ k2 p g. g) (λ k2 p q g. g) detach-Holds (enough k) k
        t h)

created-Holds :
    (n : ℕ) (k : Kernel) (state : State) (cur p : ℕ) (q : List ℕ)
    → Holds n k
    → Holds n (admit (adopt (record k { pcbs = (alloc_from k.pcbs (p ∷ q)).0 }) p state) cur p)
unfolding alloc_from admit insert_child
created-Holds n k state cur p q h = h

-- Every kind of change keeps the number of descriptors.
pub descriptors-Closed : (n : ℕ) → Closed (λ k. descriptors k.asl ≡ n) (λ k sem. Unit)
unfolding join_semaphore
descriptors-Closed n = record {
  quiet = λ k k' q h. ap descriptors q.1.asl ∙ h;
  fits = λ k k' sem q f. f;
  dispatched = λ k p q e i h. h;
  released = λ k p e h. h;
  blocked = λ k sem p f e h.
      descriptors-insert_blocked (set_pcb k p (record (pcb k p) { p_sem_add = sem })).pcbs k.asl sem
        p
      ∙ h;
  missed = λ k sem e h. descriptors-remove_blocked k.asl sem ∙ h;
  woken = λ k k' sem p e w h. ap descriptors w.asl ∙ descriptors-remove_blocked k.asl sem ∙ h;
  created = λ k state cur p q i e h. created-Holds n k state cur p q h;
  killed = λ c k k1 t target r h. terminated-Holds c n k k1 t r h;
  killed_current = λ c k k1 t e r h. terminated-Holds c n k k1 t r h;
}

-- initKernel leaves MAXPROC descriptors, all of them free.
pub init_kernel-descriptors :
    (c : Platform) (ramtop sizeof_pcb : ℕ) (k : Kernel)
    → sizeof_pcb ≤ page_size
    → descriptors (init_kernel c ramtop sizeof_pcb k).0.asl ≡ max_proc
unfolding init_kernel init_globals start_root init_pcbs alloc_pcb alloc_from insert_proc_q scheduler
    schedule dispatch init_asl
init_kernel-descriptors c ramtop sizeof_pcb k fits =
    let small : ltb page_size sizeof_pcb ≡ false = ground arith in rw small refl
