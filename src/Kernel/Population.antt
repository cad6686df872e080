-- ===== src/Kernel/Population.antt =====
-- processCount of phase2/initial.c and the list of free blocks of phase1/pcb.c, in phase2/functions.c.
pub mod Start
use sistemi_operativi_proget.Common.{
  ℕ, suc, ◌+◌, ◌-◌, ◌≡◌, refl, sym, subst, ap, ◌∙◌, ℤ, pos, negsuc, ◌+ℤ◌, +ℤ_parts, eq_of_parts,
  Option, none, some, List, [], ◌∷◌, arith, if◌then◌else◌, length, if_cases, ◌==◌,
}
use sistemi_operativi_proget.Const.{Platform}
use sistemi_operativi_proget.Types.{State}
use sistemi_operativi_proget.Pcb.{
  Pcbs, alloc_from, insert_child, take_child, out_child, leave_parent, free_pcb,
}
use sistemi_operativi_proget.Asl.{Asl, out_blocked}
use sistemi_operativi_proget.Kernel.{Kernel, pcb, set_pcb, incr, decr}
use sistemi_operativi_proget.Kernel.Functions.{join_semaphore}
use sistemi_operativi_proget.Kernel.Functions.Terminate.{
  give_back, leave_semaphore, release_pcb, detach, recursive_terminate_process, enough,
}
use sistemi_operativi_proget.Kernel.Syscalls.{admit, adopt}
use sistemi_operativi_proget.Kernel.Closed.{Closed, Steady}
use sistemi_operativi_proget.Kernel.Closed.Terminate.{Answers, recursive_terminate-keeps}
use sistemi_operativi_proget.Kernel.Placement.{insert_blocked-pcb_free}

-- The processes that exist and the blocks that are free.
abbrev pub population : Kernel → ℤ
population k = k.process_count +ℤ pos (length k.pcbs.pcb_free)

decr-suc : (z : ℤ) (n : ℕ) → decr z +ℤ pos (suc n) ≡ z +ℤ pos n
decr-suc z n =
    eq_of_parts _ _
      (omega (arith, +ℤ_parts z (negsuc 0), +ℤ_parts (decr z) (pos (suc n)), +ℤ_parts z (pos n)))

incr-suc : (z : ℤ) (n : ℕ) → incr z +ℤ pos n ≡ z +ℤ pos (suc n)
incr-suc z n =
    eq_of_parts _ _
      (omega (arith, +ℤ_parts z (pos 1), +ℤ_parts (incr z) (pos n), +ℤ_parts z (pos (suc n))))

module _ (c : Platform) where
  give_back-population :
      (k : Kernel) (sem : ℕ) (r : Asl × Option ℕ) → population (give_back c k sem r) ≡ population k
  unfolding give_back
  give_back-population k sem (a, none) = refl
  give_back-population k sem (a, some p) = ground arith

  leave_semaphore-population :
      (k : Kernel) (t : ℕ) → population (leave_semaphore c k t) ≡ population k
  unfolding leave_semaphore
  leave_semaphore-population k t =
      if_cases {A = Kernel} (λ k1. population k1 ≡ population k) ((pcb k t).p_sem_add == 0) k
        (give_back c k (pcb k t).p_sem_add (out_blocked k.pcbs k.asl t)) (λ _. refl)
        (λ _. give_back-population k (pcb k t).p_sem_add (out_blocked k.pcbs k.asl t))

  leave_parent-pcb_free :
      (s : Pcbs) (p : ℕ) (o : Option ℕ) → (leave_parent s p o).0.pcb_free ≡ s.pcb_free
  unfolding leave_parent
  leave_parent-pcb_free s p none = refl
  leave_parent-pcb_free s p (some prnt) = refl

  detach-population : (k : Kernel) (t : ℕ) → population (detach c k t) ≡ population k
  unfolding detach release_pcb free_pcb out_child
  detach-population k t =
      let k1 = leave_semaphore c k t in
      ap (λ (q : List ℕ). decr k1.process_count +ℤ pos (suc (length q)))
        (leave_parent-pcb_free k1.pcbs t (k1.pcbs.table t).p_parent)
      ∙ decr-suc k1.process_count (length k1.pcbs.pcb_free)
      ∙ leave_semaphore-population k t

  take_child-population :
      (k : Kernel) (t : ℕ) (q : List ℕ)
      → population (record k { pcbs = (take_child k.pcbs t q).0 }) ≡ population k
  unfolding take_child
  take_child-population k t [] = refl
  take_child-population k t (x ∷ q) = refl

  pub recursive_terminate-population :
      (n : ℤ) (fuel : ℕ) (k : Kernel) (t : ℕ)
      → population k ≡ n
      → Answers (λ k1. population k1 ≡ n) (recursive_terminate_process fuel c k t)
  recursive_terminate-population n =
      recursive_terminate-keeps (λ k. population k ≡ n) c (λ k t h. h)
        (λ k t q h. take_child-population k t q ∙ h) (λ k t h. detach-population k t ∙ h)

Steady-population : (k k' : Kernel) → Steady k k' → population k' ≡ population k
Steady-population k k' e =
    ap (λ (q : List ℕ). k'.process_count +ℤ pos (length q)) e.free
    ∙ ap (λ z. z +ℤ pos (length k.pcbs.pcb_free)) e.alive

admitted-population :
    (k : Kernel) (state : State) (cur p : ℕ) (q : List ℕ)
    → k.pcbs.pcb_free ≡ p ∷ q
    → population (admit (adopt (record k { pcbs = (alloc_from k.pcbs (p ∷ q)).0 }) p state) cur p)
      ≡ population k
unfolding alloc_from admit insert_child
admitted-population k state cur p q h =
    incr-suc k.process_count (length q)
    ∙ ap (λ (l : List ℕ). k.process_count +ℤ pos (length l)) (sym h)

-- Every kind of change keeps the count.
pub population-Closed : (n : ℤ) → Closed (λ k. population k ≡ n) (λ k sem. Unit)
unfolding join_semaphore
population-Closed n = record {
  quiet = λ k k' q h. Steady-population k k' q.0 ∙ h;
  fits = λ k k' sem q f. f;
  dispatched = λ k p q e h g. g;
  released = λ k p e g. g;
  blocked = λ k sem p f e g.
      ap (λ (q : List ℕ). k.process_count +ℤ pos (length q))
        (insert_blocked-pcb_free (set_pcb k p (record (pcb k p) { p_sem_add = sem })) sem p)
      ∙ g;
  missed = λ k sem e g. g;
  woken = λ k k' sem p e w g. Steady-population k k' w.steady ∙ g;
  created = λ k state cur p q e h g. admitted-population k state cur p q h ∙ g;
  killed = λ c k k1 t g r h. terminated-population c k k1 t r h;
  killed_current = λ c k k1 t g r h. terminated-population c k k1 t r h;
}
  where
    terminated-population :
        (c : Platform) (k k1 : Kernel) (t : ℕ)
        → recursive_terminate_process (enough k) c k t ≡ some k1
        → population k ≡ n
        → population k1 ≡ n
    terminated-population c k k1 t r h =
        subst (Answers (λ k2. population k2 ≡ n)) r
          (recursive_terminate-population c n (enough k) k t h)
