-- ===== src/Kernel/Balance/Killing.antt =====
-- recursiveTerminateProcess of phase2/functions.c and terminateProcess of phase2/exception.c: what
-- they do to the value of a semaphore and to its queue.
use sistemi_operativi_proget.Common.{
  ℕ, suc, ◌+◌, ◌≡◌, sym, ap, ◌∙◌, ℤ, pos, negsuc, ◌+ℤ◌, neg_part, true, false, Option, none, some,
  arith, if◌then◌else◌, if_cases, Bool-cases, ◌==◌, ==→eq, length, inl, inr, subst,
}
use sistemi_operativi_proget.Const.{Platform}
use sistemi_operativi_proget.Asl.{Asl, out_blocked}
use sistemi_operativi_proget.Asl.Queues.{queue_of, DistinctKeys}
use sistemi_operativi_proget.Asl.Refines.{out_blocked-refines}
use sistemi_operativi_proget.Kernel.{Kernel, pcb, incr}
use sistemi_operativi_proget.Kernel.Functions.{is_soft_block_semaphore}
use sistemi_operativi_proget.Kernel.Functions.Terminate.{
  give_back, leave_semaphore, release_pcb, detach, recursive_terminate_process,
}
use sistemi_operativi_proget.Kernel.Closed.Terminate.{Answers, recursive_terminate-keeps}
use sistemi_operativi_proget.Kernel.Balance.{InStep, Ordered}
use sistemi_operativi_proget.Asl.Sleepers.{taken, length-out_proc_q}

neg_part-incr_down : (z : ℤ) (n : ℕ) → suc n ≡ neg_part z → neg_part (incr z) ≡ n
unfolding ◌+ℤ◌
neg_part-incr_down (pos m) n h = ground (arith, h)
neg_part-incr_down (negsuc m) n h = ground (arith, h)

-- Semaphores and descriptors are as they were.
pub Ordered-frame :
    (x : ℕ) (k k' : Kernel) → k'.asl ≡ k.asl → k'.sems ≡ k.sems → Ordered x k → Ordered x k'
Ordered-frame x k k' e f (u, h) = (
  subst (λ (a : Asl). DistinctKeys a.semd_h) (sym e) u,
  ap (λ (a : Asl). length (queue_of x a.semd_h)) e ∙ h ∙ ap (λ (g : ℕ → ℤ). neg_part (g x)) (sym f),
)

module _ (c : Platform) (x : ℕ) (generic : is_soft_block_semaphore c x ≡ false) where
  give_back-Ordered :
      (k : Kernel) (sem : ℕ) (a : Asl) (o : Option ℕ)
      → DistinctKeys a.semd_h
      → length (queue_of x a.semd_h) + (if x == sem then taken o else 0)
        ≡ length (queue_of x k.asl.semd_h)
      → InStep k x
      → Ordered x (give_back c k sem (a, o))
  unfolding give_back
  give_back-Ordered k sem a none u l h = (u, ground (arith, l, h))
  give_back-Ordered k sem a (some p) u l h = elim (Bool-cases (is_soft_block_semaphore c sem)) [
    | inl soft ↦ rw soft (
      u,
      elim (Bool-cases (x == sem)) [
        | inl same ↦
            let both : is_soft_block_semaphore c x ≡ true =
              ap (is_soft_block_semaphore c) (==→eq x sem same) ∙ soft in
            ground (arith, both, generic)
        | inr other ↦ ground (arith, l, h, other)
      ],
    )
    | inr plain ↦ rw plain (
      u,
      elim (Bool-cases (x == sem)) [
        | inl same ↦
            let one : suc (length (queue_of x a.semd_h)) ≡ neg_part (k.sems sem) =
              ground (arith, l, h, same, ap k.sems (==→eq x sem same)) in
            ground (arith, same, neg_part-incr_down (k.sems sem) _ one)
        | inr other ↦ ground (arith, l, h, other)
      ],
    )
  ]

  out_blocked-length :
      (k : Kernel) (t : ℕ)
      → DistinctKeys k.asl.semd_h
      → (let r = out_blocked k.pcbs k.asl t in
          length (queue_of x r.0.semd_h) + (if x == (pcb k t).p_sem_add then taken r.1 else 0)
          ≡ length (queue_of x k.asl.semd_h))
  out_blocked-length k t u =
      let w = out_blocked-refines k.pcbs k.asl t u in
      let sem = (pcb k t).p_sem_add in
      elim (Bool-cases (x == sem)) [
        | inl same ↦ ground (
          arith,
          same,
          ap length (w.queues x),
          ap taken w.returned,
          length-out_proc_q (queue_of sem k.asl.semd_h) t,
          ap (λ y. length (queue_of y k.asl.semd_h)) (==→eq x sem same),
        )
        | inr other ↦ ground (arith, other, ap length (w.queues x))
      ]

  leave_semaphore-Ordered : (k : Kernel) (t : ℕ) → Ordered x k → Ordered x (leave_semaphore c k t)
  unfolding leave_semaphore
  leave_semaphore-Ordered k t (u, h) =
      let sem = (pcb k t).p_sem_add in
      let r = out_blocked k.pcbs k.asl t in
      if_cases {A = Kernel} (Ordered x) (sem == 0) k (give_back c k sem r) (λ _. (u, h))
        (λ _.
          give_back-Ordered k sem r.0 r.1 (out_blocked-refines k.pcbs k.asl t u).distinct
            (out_blocked-length k t u) h)

  detach-Ordered : (k : Kernel) (t : ℕ) → Ordered x k → Ordered x (detach c k t)
  unfolding detach release_pcb
  detach-Ordered k t h = leave_semaphore-Ordered k t h

  -- A recursive termination, however deep, gives a unit back to a semaphore that is not a device's
  -- for each process that it takes off the queue.
  pub recursive_terminate-Ordered :
      (n : ℕ) (k k1 : Kernel) (t : ℕ)
      → recursive_terminate_process n c k t ≡ some k1
      → Ordered x k
      → Ordered x k1
  recursive_terminate-Ordered n k k1 t r h =
      subst (Answers (Ordered x)) r (
        recursive_terminate-keeps (Ordered x) c (λ k2 p g. g) (λ k2 p q g. g) detach-Ordered n k t
          h)
