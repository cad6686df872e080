-- ===== src/Kernel/SoftBlock/Holds.antt =====
-- exceptionHandler of phase2/exception.c and softBlockCount, an instance of Kernel/Tracked; and what
-- the count is for, scheduler's choice between a wait and a PANIC.
use sistemi_operativi_proget.Common.{
  ℕ, ◌+◌, ◌<◌, ◌≡◌, ◌≢◌, sym, ap, ◌∙◌, pos, negsuc, ltb_ℤ, eqb_ℤ, to_int, true, false, some, [],
  arith, if_cases, ◌<ℤ◌, ◌≤ℤ◌, ◌⊎◌, inl, inr, subst,
}
use sistemi_operativi_proget.Const.{Platform, device_semaphore, sem_dev_len}
use sistemi_operativi_proget.Types.{State, Outcome}
use sistemi_operativi_proget.Asl.{remove_blocked}
use sistemi_operativi_proget.Asl.Sleepers.{sleepers, within, taken, sleepers-remove_blocked}
use sistemi_operativi_proget.Kernel.{Kernel, pcb, set_sem, incr, decr, with_current_cases}
use sistemi_operativi_proget.Kernel.Functions.{
  is_soft_block_semaphore, save_state, update_cpu_time, block_current_process,
}
use sistemi_operativi_proget.Kernel.Syscalls.{passeren, verhogen, make_ready, wake_first}
use sistemi_operativi_proget.Kernel.Interrupt.{complete}
use sistemi_operativi_proget.Kernel.Exception.{exception_handler}
use sistemi_operativi_proget.Kernel.Closed.Exceptions.{IsCall}
use sistemi_operativi_proget.Kernel.Scheduler.{scheduler}
use sistemi_operativi_proget.Kernel.Choice.{scheduler_idle}
use sistemi_operativi_proget.Kernel.Tracked.{Tracked}
use sistemi_operativi_proget.Kernel.Tracked.Entries.{exception_handler-tracks}
use sistemi_operativi_proget.Kernel.SoftBlock.{
  Counted, Counted-down, Same-Counted, block_current-Counted, recursive_terminate-Counted,
}

module _ (c : Platform) where
  device_soft : (i : ℕ) → i < sem_dev_len → is_soft_block_semaphore c (device_semaphore c i) ≡ true
  unfolding is_soft_block_semaphore
  device_soft i h = ground (arith, h)

  -- What removeBlocked took off a semaphore, in the count of the device semaphores.
  removed :
      (k : Kernel) (sem n : ℕ)
      → within (is_soft_block_semaphore c) sem (taken (remove_blocked k.asl sem).1) ≡ n
      → sleepers (is_soft_block_semaphore c) (remove_blocked k.asl sem).0.semd_h + n
        ≡ sleepers (is_soft_block_semaphore c) k.asl.semd_h
  removed k sem n e =
      omega (arith, e, sleepers-remove_blocked (is_soft_block_semaphore c) k.asl sem)

  stays :
      (k : Kernel) (sem : ℕ)
      → within (is_soft_block_semaphore c) sem (taken (remove_blocked k.asl sem).1) ≡ 0
      → Counted c k
      → Counted c (record k { asl = (remove_blocked k.asl sem).0 })
  stays k sem e h = h ∙ ap pos (omega (arith, removed k sem 0 e))

  completed-Counted :
      (k : Kernel) (i p status : ℕ)
      → i < sem_dev_len
      → (remove_blocked k.asl (device_semaphore c i)).1 ≡ some p
      → Counted c k
      → Counted c
          (complete (record k { asl = (remove_blocked k.asl (device_semaphore c i)).0 }) p status)
  unfolding complete
  completed-Counted k i p status lt e h =
      Counted-down k.soft_block_count _ _
        (removed k (device_semaphore c i) 1 (ground (arith, device_soft i lt, ap taken e))) h

  passeren-Counted :
      (k : Kernel) (state : State)
      → k.asl.semd_free ≢ []
      → Counted c k
      → Counted c (passeren c k state).0
  unfolding passeren update_cpu_time
  passeren-Counted k state free h =
      with_current_cases (λ r. Counted c r.0) k _ h
        λ p e.
          let sem = state.reg_a1 in
          let k1 = save_state (update_cpu_time k (some p)) p state in
          let k2 = set_sem k1 sem (decr (k1.sems sem)) in
          if_cases {A = Kernel × Outcome} (λ r. Counted c r.0) (ltb_ℤ (k2.sems sem) (pos 0))
            (block_current_process c k2 sem) (k2, Outcome.ldst (pcb k2 p).p_s)
            (λ _. block_current-Counted c k2 sem free h) (λ _. h)

  wake_first-Counted :
      (k : Kernel) (sem : ℕ)
      → is_soft_block_semaphore c sem ≡ false
      → Counted c k
      → Counted c (wake_first k sem)
  unfolding wake_first make_ready
  wake_first-Counted k sem generic h =
      Same-Counted c (record k { asl = (remove_blocked k.asl sem).0 }) (wake_first k sem)
        (ground arith, ground arith) (stays k sem (ground (arith, generic)) h)

  verhogen-Counted :
      (k : Kernel) (state : State)
      → is_soft_block_semaphore c state.reg_a1 ≡ false
      → Counted c k
      → Counted c (verhogen k state).0
  unfolding verhogen update_cpu_time
  verhogen-Counted k state generic h =
      with_current_cases (λ r. Counted c r.0) k _ h
        λ p e.
          let sem = state.reg_a1 in
          let k1 = save_state (update_cpu_time k (some p)) p state in
          let k2 = set_sem k1 sem (incr (k1.sems sem)) in
          if_cases {A = Kernel} (Counted c) (ltb_ℤ (pos 0) (k2.sems sem)) k2 (wake_first k2 sem)
            (λ _. h) (λ _. wake_first-Counted k2 sem generic h)

  -- Every operation keeps the count, where a V names no device semaphore.
  Counted-Tracked : Tracked c (Counted c) (λ sem. is_soft_block_semaphore c sem ≡ false)
  Counted-Tracked = record {
    untouched = λ k k' e h. Same-Counted c k k' (e.asl, e.soft_block_count) h;
    valued = λ k i z lt h. h;
    missed = λ k i lt e h. stays k (device_semaphore c i) (ground (arith, ap taken e)) h;
    completed = λ k i p status lt e h. completed-Counted k i p status lt e h;
    waited = λ k p i lt e free h. block_current-Counted c _ (device_semaphore c i) free h;
    passed = λ k state free h. passeren-Counted k state free h;
    signalled = λ k state generic h. verhogen-Counted k state generic h;
    killed = λ n k k1 t r h. recursive_terminate-Counted c n k k1 t r h;
  }

  -- Where a descriptor is free and no call V names a device semaphore, every exception, whatever its
  -- cause and however it is answered, keeps softBlockCount the number of processes that wait on
  -- device semaphores.
  pub exception_handler-Counted :
      (k : Kernel) (state : State) (bad_vaddr : ℕ)
      → (IsCall c state
          → eqb_ℤ (to_int state.reg_a0) (negsuc 3) ≡ true
          → is_soft_block_semaphore c state.reg_a1 ≡ false)
      → k.asl.semd_free ≢ []
      → Counted c k
      → Counted c (exception_handler c k state bad_vaddr).0
  exception_handler-Counted k state bad_vaddr generic free h =
      exception_handler-tracks Counted-Tracked k state bad_vaddr generic free h

  -- Where softBlockCount is the number of processes that wait on device semaphores, no process is
  -- ready and processCount is not negative, the scheduler halts the machine if no process is left,
  -- waits if one waits on a device, and panics if processes are left and none of them waits on a
  -- device: a wait is never taken for a deadlock, nor a deadlock for a wait.
  pub scheduler_detects :
      (k : Kernel)
      → k.ready_queue ≡ []
      → pos 0 ≤ℤ k.process_count
      → Counted c k
      → (let asleep = sleepers (is_soft_block_semaphore c) k.asl.semd_h in
          (((scheduler k).1 ≡ Outcome.halt) × (k.process_count ≡ pos 0))
          ⊎ (((scheduler k).1 ≡ Outcome.wait) × (pos 0 <ℤ k.process_count) × (asleep ≢ 0))
          ⊎ (((scheduler k).1 ≡ Outcome.panic) × (pos 0 <ℤ k.process_count) × (asleep ≡ 0)))
  scheduler_detects k e alive h =
      elim (scheduler_idle k e alive (subst (λ z. pos 0 ≤ℤ z) (sym h) (omega arith))) [
        | inl halts ↦ inl halts
        | inr (inl (o, p, s)) ↦ inr (inl (o, p, λ z. ground (arith, s, h, z)))
        | inr (inr (o, p, s)) ↦ inr (inr (o, p, ground (arith, s, h)))
      ]
