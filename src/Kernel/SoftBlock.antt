-- ===== src/Kernel/SoftBlock.antt =====
-- softBlockCount of phase2, which tells the scheduler a wait from a deadlock, against the processes
-- that wait on device semaphores.
pub mod Holds
use sistemi_operativi_proget.Common.{
  ℕ, suc, ◌+◌, ◌≡◌, ◌≢◌, sym, ap, ◌∙◌, subst, ℤ, pos, ◌+ℤ◌, Bool, true, false, Option, none, some,
  [], arith, if◌then◌else◌, if_cases, Bool-cases, ◌==◌, inl, inr,
}
use sistemi_operativi_proget.Const.{Platform}
use sistemi_operativi_proget.Asl.{Asl, insert_blocked, out_blocked}
use sistemi_operativi_proget.Asl.Sleepers.{
  within, sleepers, taken, sleepers-insert_blocked, sleepers-out_blocked,
}
use sistemi_operativi_proget.Kernel.{Kernel, pcb, incr, decr}
use sistemi_operativi_proget.Kernel.Scheduler.{scheduler}
use sistemi_operativi_proget.Kernel.Functions.{
  update_cpu_time, is_soft_block_semaphore, mark_blocked, join_semaphore, block_process,
  block_current_process,
}
use sistemi_operativi_proget.Kernel.Functions.Terminate.{
  give_back, leave_semaphore, release_pcb, detach, recursive_terminate_process,
}
use sistemi_operativi_proget.Kernel.Tracked.{scheduler-Untouched}
use sistemi_operativi_proget.Kernel.Closed.Terminate.{Answers, recursive_terminate-keeps}

-- softBlockCount is the number of processes that wait on device semaphores.
abbrev pub Counted : Platform → Kernel → Type 0
Counted c k = k.soft_block_count ≡ pos (sleepers (is_soft_block_semaphore c) k.asl.semd_h)

decr-suc : (n : ℕ) → decr (pos (suc n)) ≡ pos n
unfolding ◌+ℤ◌
decr-suc n = ground arith

pub Counted-down : (z : ℤ) (m n : ℕ) → m + 1 ≡ n → z ≡ pos n → decr z ≡ pos m
Counted-down z m n e h = ap decr (h ∙ ap pos (one_more m n e)) ∙ decr-suc m
  where
    one_more : (m n : ℕ) → m + 1 ≡ n → n ≡ suc m
    one_more m n e = omega (arith, e)

Counted-up : (z : ℤ) (n : ℕ) → z ≡ pos n → incr z ≡ pos (1 + n)
unfolding ◌+ℤ◌
Counted-up z n h = ap incr h ∙ ground arith

counted :
    (b : Bool) (z : ℤ) (m n : ℕ)
    → n ≡ (if b then 1 else 0) + m
    → z ≡ pos m
    → (if b then incr z else z) ≡ pos n
counted true z m n e h = Counted-up z m h ∙ ap pos (sym e)
counted false z m n e h = h ∙ ap pos (omega (arith, e))

module _ (c : Platform) where
  abbrev soft : ℕ → Bool
  soft = is_soft_block_semaphore c

  -- The queues and the count are as they were.
  abbrev pub Same : Kernel → Kernel → Type 0
  Same k k' = (k'.asl ≡ k.asl) × (k'.soft_block_count ≡ k.soft_block_count)

  pub Same-Counted : (k k' : Kernel) → Same k k' → Counted c k → Counted c k'
  Same-Counted k k' (e, f) h = f ∙ h ∙ ap (λ (a : Asl). pos (sleepers soft a.semd_h)) (sym e)

  scheduler-Counted : (k : Kernel) → Counted c k → Counted c (scheduler k).0
  scheduler-Counted k h =
      let same = scheduler-Untouched k in
      Same-Counted k (scheduler k).0 (same.asl, same.soft_block_count) h

  marked :
      (k : Kernel) (sem p : ℕ)
      → (let k1 = mark_blocked c (update_cpu_time k (some p)) sem p in
          (k1.asl ≡ k.asl)
          × (k1.soft_block_count
              ≡ (if soft sem then incr k.soft_block_count else k.soft_block_count)))
  unfolding mark_blocked update_cpu_time
  marked k sem p = (ground arith, ground arith)

  -- A process that goes to wait on a device is counted, and no other.
  block_process-Counted :
      (k : Kernel) (sem p : ℕ)
      → k.asl.semd_free ≢ []
      → Counted c k
      → Counted c (block_process c k sem (some p)).0
  unfolding block_process join_semaphore
  block_process-Counted k sem p free h =
      let k1 = mark_blocked c (update_cpu_time k (some p)) sem p in
      let m = marked k sem p in
      let more =
        ap (λ a. sleepers soft (insert_blocked k1.pcbs a sem p).1.semd_h) m.0
        ∙ sleepers-insert_blocked soft k1.pcbs k.asl sem p free in
      scheduler-Counted _ (m.1 ∙ counted (soft sem) k.soft_block_count _ _ more h)

  pub block_current-Counted :
      (k : Kernel) (sem : ℕ)
      → k.asl.semd_free ≢ []
      → Counted c k
      → Counted c (block_current_process c k sem).0
  unfolding block_current_process
  block_current-Counted k sem free h = by_current k.current_process
    where
      by_current : (o : Option ℕ) → Counted c (block_process c k sem o).0
      by_current none = unfold block_process in h
      by_current (some p) = block_process-Counted k sem p free h

  give_back-Counted :
      (k : Kernel) (sem : ℕ) (a : Asl) (o : Option ℕ)
      → sleepers soft a.semd_h + within soft sem (taken o) ≡ sleepers soft k.asl.semd_h
      → Counted c k
      → Counted c (give_back c k sem (a, o))
  unfolding give_back
  give_back-Counted k sem a none l h =
      h
      ∙ ap pos (elim (Bool-cases (soft sem)) [
        | inl e ↦ ground (arith, l, e)
        | inr e ↦ ground (arith, l, e)
      ])
  give_back-Counted k sem a (some p) l h =
      if_cases {A = Kernel} (Counted c) (soft sem) _ _
        (λ e. Counted-down k.soft_block_count _ _ (ground (arith, l, e)) h)
        (λ e. h ∙ ap pos (ground (arith, l, e)))

  leave_semaphore-Counted : (k : Kernel) (t : ℕ) → Counted c k → Counted c (leave_semaphore c k t)
  unfolding leave_semaphore
  leave_semaphore-Counted k t h =
      let sem = (pcb k t).p_sem_add in
      let r = out_blocked k.pcbs k.asl t in
      if_cases {A = Kernel} (Counted c) (sem == 0) k (give_back c k sem r) (λ _. h)
        (λ _. give_back-Counted k sem r.0 r.1 (sleepers-out_blocked soft k.pcbs k.asl t) h)

  detach-Counted : (k : Kernel) (t : ℕ) → Counted c k → Counted c (detach c k t)
  unfolding detach release_pcb
  detach-Counted k t h = leave_semaphore-Counted k t h

  -- A recursive termination, however deep, counts each process out that waited on a device.
  pub recursive_terminate-Counted :
      (n : ℕ) (k k1 : Kernel) (t : ℕ)
      → recursive_terminate_process n c k t ≡ some k1
      → Counted c k
      → Counted c k1
  recursive_terminate-Counted n k k1 t r h =
      subst (Answers (Counted c)) r (
        recursive_terminate-keeps (Counted c) c (λ k2 p g. g) (λ k2 p q g. g) detach-Counted n k t
          h)
