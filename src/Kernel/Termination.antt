-- ===== src/Kernel/Termination.antt =====
-- The termination of recursiveTerminateProcess of phase2/functions.c. A call marks a process that
-- was not marked, and a round of its loop removes a child link: that is the measure.
pub mod Work
use sistemi_operativi_proget.Common.{
  ℕ, zero, suc, ◌≤◌, ◌<◌, ◌≡◌, refl, ap, ◌∙◌, pos, negsuc, ltb_ℤ, Option, none, some, List, [], ◌∷◌,
  arith, Bool-cases, inl, inr, if_cases, ◌==◌,
}
use sistemi_operativi_proget.Const.{Platform, max_proc}
use sistemi_operativi_proget.Pcb.{Pcbs, remove_child, take_child, out_child, free_pcb}
use sistemi_operativi_proget.Asl.{Asl, out_blocked}
use sistemi_operativi_proget.Kernel.{Kernel, pcb, set_pcb}
use sistemi_operativi_proget.Kernel.Functions.{is_soft_block_semaphore}
use sistemi_operativi_proget.Kernel.Functions.Terminate.{
  give_back, leave_semaphore, release_pcb, detach, children_loop, recursive_terminate_process,
  and_then, enough,
}
use sistemi_operativi_proget.Kernel.Termination.Work.{
  InRange, work, mark-work, mark-InRange, take_child-work, take_child-InRange, leave_parent-work,
  leave_parent-InRange,
}

module _ (c : Platform) where
  give_back-pcbs : (k : Kernel) (sem : ℕ) (r : Asl × Option ℕ) → (give_back c k sem r).pcbs ≡ k.pcbs
  unfolding give_back
  give_back-pcbs k sem (a, none) = refl
  give_back-pcbs k sem (a, some p) =
      if_cases {A = Kernel} (λ k1. k1.pcbs ≡ k.pcbs) (is_soft_block_semaphore c sem) _ _ (λ _. refl)
        (λ _. refl)

  leave_semaphore-pcbs : (k : Kernel) (t : ℕ) → (leave_semaphore c k t).pcbs ≡ k.pcbs
  unfolding leave_semaphore
  leave_semaphore-pcbs k t =
      if_cases {A = Kernel} (λ k1. k1.pcbs ≡ k.pcbs) ((pcb k t).p_sem_add == 0) k
        (give_back c k (pcb k t).p_sem_add (out_blocked k.pcbs k.asl t)) (λ _. refl)
        (λ _. give_back-pcbs k (pcb k t).p_sem_add (out_blocked k.pcbs k.asl t))

  -- Where a termination ends, nothing new is left to do.
  pub record Done (k k1 : Kernel) : Type 0 where
    pub range : InRange k1.pcbs.table
    pub less : work k1.pcbs.table ≤ work k.pcbs.table

  detach-Done : (k : Kernel) (t : ℕ) → InRange k.pcbs.table → Done k (detach c k t)
  unfolding detach release_pcb out_child free_pcb
  detach-Done k t r = rw (leave_semaphore-pcbs k t) (record {
    range = leave_parent-InRange k.pcbs t (k.pcbs.table t).p_parent r;
    less = leave_parent-work k.pcbs t (k.pcbs.table t).p_parent;
  })

  abbrev pub Ends : Kernel → Option Kernel → Type 0
  Ends k o = (k1 : Kernel) × (o ≡ some k1) × Done k k1

  -- One round of the loop over the children.
  abbrev next_child :
      (Kernel → ℕ → Option Kernel) → ℕ → Kernel → ℕ → Pcbs × Option ℕ → Option Kernel
  next_child kill n k t (s, none) = some k
  next_child kill n k t (s, some p) =
      and_then (kill (record k { pcbs = s }) p) (λ k1. children_loop kill n k1 t)

  children_round :
      (kill : Kernel → ℕ → Option Kernel) (n : ℕ) (k : Kernel) (t : ℕ)
      → children_loop kill (suc n) k t ≡ next_child kill n k t (remove_child k.pcbs t)
  unfolding children_loop
  children_round kill n k t = by_result (remove_child k.pcbs t).0 (remove_child k.pcbs t).1
    where
      by_result :
          (s : Pcbs) (o : Option ℕ)
          → ◌≡◌ {A = Option Kernel}
              (elim o [
                | none ↦ some k
                | some p ↦
                    and_then (kill (record k { pcbs = s }) p) (λ k1. children_loop kill n k1 t)
              ])
              (next_child kill n k t (s, o))
      by_result s none = refl
      by_result s (some p) = refl

  Ends-bind :
      (k k1 : Kernel) (o : Option Kernel) (f : Kernel → Option Kernel)
      → work k1.pcbs.table ≤ work k.pcbs.table
      → Ends k1 o
      → ((k2 : Kernel) → Done k1 k2 → Ends k2 (f k2))
      → Ends k (and_then o f)
  Ends-bind k k1 o f le (k2, e, d) next =
      let rest = next k2 d in
      (
        rest.0,
        ap (λ r. and_then r f) e ∙ rest.1,
        record { range = rest.2.range; less = omega (arith, rest.2.less, d.less, le) },
      )

  module _ (kill : Kernel → ℕ → Option Kernel) (f t : ℕ) (lt : t < max_proc) where
    children_loop-Ends :
        (n : ℕ) (k : Kernel) (q : List ℕ)
        → (k.pcbs.table t).p_child ≡ q
        → InRange k.pcbs.table
        → work k.pcbs.table < n
        → n ≤ f
        → ((k1 : Kernel) (p : ℕ)
            → p < max_proc
            → InRange k1.pcbs.table
            → work k1.pcbs.table < f
            → Ends k1 (kill k1 p))
        → Ends k (children_loop kill n k t)
    unfolding remove_child take_child
    children_loop-Ends zero k q e r fuel le ih = absurd (omega arith)
    children_loop-Ends (suc n) k [] e r fuel le ih = (
      k,
      children_round kill n k t ∙ ap (λ l. next_child kill n k t (take_child k.pcbs t l)) e ∙ refl,
      record { range = r; less = omega arith },
    )
    children_loop-Ends (suc n) k (p ∷ q) e r fuel le ih =
        let taken = take_child k.pcbs t (p ∷ q) in
        let k1 : Kernel = record k { pcbs = taken.0 } in
        let fall = take_child-work k.pcbs t p q lt e in
        let range = take_child-InRange k.pcbs t p q lt e r in
        let result =
          Ends-bind k k1 (kill k1 p) (λ k2. children_loop kill n k2 t) (omega arith)
            (ih k1 p range.1 range.0 (omega arith))
            (λ k2 d.
              children_loop-Ends n k2 (k2.pcbs.table t).p_child refl d.range (omega (arith, d.less))
                (omega arith) ih) in
        (
          result.0,
          children_round kill n k t
              ∙ ap (λ l. next_child kill n k t (take_child k.pcbs t l)) e
              ∙ result.1,
          result.2,
        )

  -- With more fuel than there is work left, recursiveTerminateProcess ends, whatever the tree of
  -- processes looks like, and there is no more work left than before.
  pub recursive_terminate-Ends :
      (f : ℕ) (k : Kernel) (t : ℕ)
      → t < max_proc
      → InRange k.pcbs.table
      → work k.pcbs.table < f
      → Ends k (recursive_terminate_process f c k t)
  unfolding recursive_terminate_process
  recursive_terminate-Ends zero k t lt r fuel = absurd (omega arith)
  recursive_terminate-Ends (suc f) k t lt r fuel =
      elim (Bool-cases (ltb_ℤ (pcb k t).p_pid (pos 0))) [
        | inl dead ↦ (k, rw dead, record { range = r; less = omega arith })
        | inr live ↦
            let marked : Kernel = set_pcb k t (record (pcb k t) { p_pid = negsuc 0 }) in
            let kill : Kernel → ℕ → Option Kernel = λ k1 p. recursive_terminate_process f c k1 p in
            let falls = mark-work k.pcbs.table t lt live in
            let loop =
              children_loop-Ends kill f t lt f marked (marked.pcbs.table t).p_child refl
                (mark-InRange k.pcbs.table t r) (omega arith) (omega arith)
                (λ k1 p pl pr pf. recursive_terminate-Ends f k1 p pl pr pf) in
            let done =
              Ends-bind k marked (children_loop kill f marked t) (λ k1. some (detach c k1 t))
                (omega arith) loop (λ k1 d. (detach c k1 t, refl, detach-Done k1 t d.range)) in
            (done.0, rw live done.1, done.2)
      ]

  -- recursiveTerminateProcess ends on the fuel that the handlers give, one more than the number of
  -- unmarked blocks and child links, whatever the process tree looks like, as long as every child
  -- link names a process block; in the result they still do, and no more of them are left.
  pub kill_fuel_enough :
      (k : Kernel) (t : ℕ)
      → t < max_proc
      → InRange k.pcbs.table
      → Ends k (recursive_terminate_process (enough k) c k t)
  unfolding enough
  kill_fuel_enough k t lt r = recursive_terminate-Ends (enough k) k t lt r (omega arith)
