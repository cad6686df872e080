-- ===== src/Kernel/Balance/Holds.antt =====
-- exceptionHandler of phase2/exception.c and the semaphores that are not a device's, an instance of
-- Kernel/Tracked.
use sistemi_operativi_proget.Common.{ℕ, ◌<◌, ◌≡◌, ◌≢◌, false, [], arith, ◌==◌}
use sistemi_operativi_proget.Const.{Platform, device_semaphore, sem_dev_len}
use sistemi_operativi_proget.Types.{State}
use sistemi_operativi_proget.Asl.{remove_blocked}
use sistemi_operativi_proget.Asl.Refines.{remove_blocked-refines}
use sistemi_operativi_proget.Asl.Queues.{DistinctKeys}
use sistemi_operativi_proget.Kernel.{Kernel, set_sem, decr}
use sistemi_operativi_proget.Kernel.Functions.{is_soft_block_semaphore}
use sistemi_operativi_proget.Kernel.Interrupt.{complete}
use sistemi_operativi_proget.Kernel.Exception.{exception_handler}
use sistemi_operativi_proget.Kernel.Tracked.{Tracked}
use sistemi_operativi_proget.Kernel.Tracked.Entries.{exception_handler-tracks}
use sistemi_operativi_proget.Kernel.Balance.{
  InStep, Ordered, block-Ordered, passeren-Ordered, verhogen-Ordered,
}
use sistemi_operativi_proget.Kernel.Balance.Killing.{Ordered-frame, recursive_terminate-Ordered}

module _ (c : Platform) (x : ℕ) (generic : is_soft_block_semaphore c x ≡ false) where
  -- The semaphore is not a device's.
  not_device : (i : ℕ) → i < sem_dev_len → (x == device_semaphore c i) ≡ false
  unfolding is_soft_block_semaphore
  not_device i h = ground (arith, generic)

  removed-Ordered :
      (k : Kernel) (i : ℕ)
      → i < sem_dev_len
      → Ordered x k
      → Ordered x (record k { asl = (remove_blocked k.asl (device_semaphore c i)).0 })
  removed-Ordered k i lt (u, h) =
      let r = remove_blocked-refines k.asl (device_semaphore c i) u in
      (r.distinct, ground (arith, not_device i lt, h, r.queues x))

  completed-Ordered : (k : Kernel) (p status : ℕ) → Ordered x k → Ordered x (complete k p status)
  unfolding complete
  completed-Ordered k p status h = h

  -- Every operation keeps the semaphore in step.
  Ordered-Tracked : Tracked c (Ordered x) (λ sem. Unit)
  Ordered-Tracked = record {
    untouched = λ k k' e h. Ordered-frame x k k' e.asl e.sems h;
    valued = λ k i z lt (u, h). (u, ground (arith, not_device i lt, h));
    missed = λ k i lt e h. removed-Ordered k i lt h;
    completed = λ k i p status lt e h. completed-Ordered _ p status (removed-Ordered k i lt h);
    waited = λ k p i lt e free (u, h).
        let sem = device_semaphore c i in
        block-Ordered c (set_sem k sem (decr (k.sems sem))) sem p x e u free
          (ground (arith, h, not_device i lt));
    passed = λ k state free h. passeren-Ordered c k state x free h;
    signalled = λ k state s h. verhogen-Ordered k state x h;
    killed = λ n k k1 t r h. recursive_terminate-Ordered c x generic n k k1 t r h;
  }

  -- The semaphore is not one of the kernel's own, no two descriptors in use have one key and one
  -- descriptor is free. Then every exception, whatever its cause and however it is answered (P, V,
  -- the other calls, interrupts, a termination with all its progeny), keeps this: as many processes
  -- wait on the semaphore as its value is below zero, and none if it is not.
  pub exception_handler-InStep :
      (k : Kernel) (state : State) (bad_vaddr : ℕ)
      → DistinctKeys k.asl.semd_h
      → k.asl.semd_free ≢ []
      → InStep k x
      → InStep (exception_handler c k state bad_vaddr).0 x
  exception_handler-InStep k state bad_vaddr u free h =
      (exception_handler-tracks Ordered-Tracked k state bad_vaddr (λ i e. tt) free (u, h)).1
