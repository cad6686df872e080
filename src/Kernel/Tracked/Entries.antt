-- ===== src/Kernel/Tracked/Entries.antt =====
-- exceptionHandler of phase2/exception.c keeps what each operation on a semaphore keeps.
use sistemi_operativi_proget.Common.{
  ℕ, ◌+◌, ◌%◌, ◌^◌, ◌<◌, ◌≡◌, ◌≢◌, refl, pos, negsuc, ltb, leb_ℤ, eqb_ℤ, to_int, bit_and, ◌||◌,
  Bool, true, false, Option, none, some, List, [], ◌∷◌, arith, if◌then◌else◌, if_cases, ◌==◌,
}
use sistemi_operativi_proget.Const.{
  Platform, sem_dev_len, start_devreg, word_len, general_except, mstatus_mpp_mask, mstatus_mpp_u,
}
use sistemi_operativi_proget.Types.{State, Outcome, Event}
use sistemi_operativi_proget.Pcb.{alloc_from, alloc_pcb}
use sistemi_operativi_proget.Kernel.{Kernel, pcb, emit, with_current_cases}
use sistemi_operativi_proget.Kernel.Scheduler.{scheduler}
use sistemi_operativi_proget.Kernel.Functions.{save_state, update_cpu_time}
use sistemi_operativi_proget.Kernel.Functions.Terminate.{
  kill, enough, recursive_terminate_process, pass_up_or_die,
}
use sistemi_operativi_proget.Kernel.Syscalls.{
  create_process, finish_create, admit, terminate_process, term_target, resume_caller, points_at,
  do_io, sem_index, get_cpu_time, wait_for_clock, get_support_data, get_process_id, yield,
}
use sistemi_operativi_proget.Kernel.Exception.{
  dispatch_syscall, privileged_cause, system_call_handler, exception_handler,
}
use sistemi_operativi_proget.Kernel.Closed.Exceptions.{IsCall}
use sistemi_operativi_proget.Kernel.Tracked.{Tracked, scheduler-tracks, beside}
use sistemi_operativi_proget.Kernel.Tracked.Interrupts.{interrupt_handler-tracks}

sem_index_bound :
    (addr : ℕ)
    → (ltb addr start_devreg || ltb 0x100002D4 addr) ≡ false
    → sem_index addr < sem_dev_len
unfolding sem_index
sem_index_bound addr h = ground (arith, h)

module _ {c : Platform} {P : Kernel → Type 0} {Signals : ℕ → Type 0}
    (laws : Tracked c P Signals) where
  abbrev After : Kernel × Outcome → Type 0
  After r = P r.0

  update_cpu_time-tracks : (k : Kernel) (o : Option ℕ) → P k → P (update_cpu_time k o)
  unfolding update_cpu_time
  update_cpu_time-tracks k none h = h
  update_cpu_time-tracks k (some p) h = beside laws k _ refl refl refl h

  create_process-tracks : (k : Kernel) (state : State) → P k → P (create_process k state).0
  unfolding create_process alloc_pcb
  create_process-tracks k state h =
      with_current_cases After k _ h λ cur e. by_free cur k.pcbs.pcb_free
    where
      by_free : (cur : ℕ) (q : List ℕ) → P (finish_create k state cur (alloc_from k.pcbs q)).0
      by_free cur [] = unfold finish_create alloc_from in beside laws k _ refl refl refl h
      by_free cur (p ∷ q) =
          unfold finish_create alloc_from admit in beside laws k _ refl refl refl h

  kill-tracks :
      (k : Kernel) (t : ℕ) (next : Kernel → Kernel × Outcome)
      → P k
      → ((k1 : Kernel) → P k1 → P (next k1).0)
      → P (kill c k t next).0
  kill-tracks k t next h go = by_result (recursive_terminate_process (enough k) c k t) refl
    where
      by_result :
          (o : Option Kernel)
          → recursive_terminate_process (enough k) c k t ≡ o
          → After (elim o [ none ↦ (k, Outcome.out_of_fuel) | some k1 ↦ next k1 ])
      by_result none e = h
      by_result (some k1) e = go k1 (laws.killed (enough k) k k1 t e h)

  stop_current : (k : Kernel) → P k → P (scheduler (record k { current_process = none })).0
  stop_current k h = scheduler-tracks laws _ (beside laws k _ refl refl refl h)

  resume_caller-tracks :
      (b : Bool) (state : State) (k : Kernel) → P k → After (resume_caller b state k)
  unfolding resume_caller
  resume_caller-tracks true state k h = stop_current k h
  resume_caller-tracks false state k h = by_current k.current_process
    where
      by_current :
          (o : Option ℕ)
          → After (elim o [
            | none ↦ scheduler k
            | some cur ↦ (save_state k cur state, Outcome.ldst state)
          ])
      by_current none = scheduler-tracks laws k h
      by_current (some cur) = beside laws k _ refl refl refl h

  terminate_process-tracks : (k : Kernel) (state : State) → P k → P (terminate_process c k state).0
  unfolding terminate_process
  terminate_process-tracks k state h =
      let k1 = update_cpu_time k k.current_process in
      by_target k1 (update_cpu_time-tracks k k.current_process h) (term_target k1 state)
    where
      by_target :
          (k1 : Kernel)
          → P k1
          → (o : Option (Option ℕ))
          → After (elim o [
            | none ↦ (k1, Outcome.out_of_fuel)
            | some none ↦ (k1, Outcome.ldst state)
            | some (some t) ↦ kill c k1 t (resume_caller (points_at k1.current_process t) state)
          ])
      by_target k1 g none = g
      by_target k1 g (some none) = g
      by_target k1 g (some (some t)) =
          let b = points_at k1.current_process t in
          kill-tracks k1 t (resume_caller b state) g (resume_caller-tracks b state)

  pass_up_or_die-tracks :
      (k : Kernel) (kind : ℕ) (state : State) → P k → P (pass_up_or_die c k kind state).0
  unfolding pass_up_or_die
  pass_up_or_die-tracks k kind state h = with_current_cases After k _ h λ p e.
      let k1 = update_cpu_time k (some p) in
      if_cases {A = Kernel × Outcome} After ((pcb k p).p_support_struct == 0) _ _
        (λ _.
          kill-tracks k1 p (λ k2. scheduler (record k2 { current_process = none }))
            (update_cpu_time-tracks k (some p) h) stop_current)
        (λ _. beside laws k _ refl refl refl h)

  do_io-tracks : (k : Kernel) (state : State) → k.asl.semd_free ≢ [] → P k → P (do_io c k state).0
  unfolding do_io update_cpu_time
  do_io-tracks k state free h =
      if_cases {A = Kernel × Outcome} After
        (ltb state.reg_a1 start_devreg || ltb 0x100002D4 state.reg_a1) _ _ (λ _. h)
        (λ inside. with_current_cases After k _ h λ p e.
          let k1 = save_state (update_cpu_time k (some p)) p state in
          let k2 = emit k1 (Event.write_register state.reg_a1 state.reg_a2) in
          laws.waited k2 p (sem_index state.reg_a1) (sem_index_bound state.reg_a1 inside) e free
            (beside laws k k2 refl refl refl h))

  wait_for_clock-tracks :
      (k : Kernel) (state : State) → k.asl.semd_free ≢ [] → P k → P (wait_for_clock c k state).0
  unfolding wait_for_clock update_cpu_time
  wait_for_clock-tracks k state free h = with_current_cases After k _ h λ p e.
      let k1 = save_state (update_cpu_time k (some p)) p state in
      laws.waited k1 p 48 (omega arith) e free (beside laws k k1 refl refl refl h)

  yield-tracks : (k : Kernel) (state : State) → P k → After (yield k state)
  unfolding yield update_cpu_time
  yield-tracks k state h =
      with_current_cases After k _ h
        λ p e. scheduler-tracks laws _ (beside laws k _ refl refl refl h)

  reads-tracks :
      (k : Kernel) (state : State)
      → P k
      → After (get_cpu_time k state)
        × After (get_support_data k state)
        × After (get_process_id k state)
  unfolding get_cpu_time get_support_data get_process_id
  reads-tracks k state h = (
    with_current_cases After k _ h (λ p e. update_cpu_time-tracks k (some p) h),
    with_current_cases After k _ h (λ p e. h),
    with_current_cases After k _ h (λ p e. h),
  )

  pick : (b : Bool) (r s : Kernel × Outcome) → After r → After s → After (if b then r else s)
  pick true r s h g = h
  pick false r s h g = g

  dispatch_syscall-tracks :
      (k : Kernel) (state : State)
      → (eqb_ℤ (to_int state.reg_a0) (negsuc 3) ≡ true → Signals state.reg_a1)
      → k.asl.semd_free ≢ []
      → P k
      → After (dispatch_syscall c k state (to_int state.reg_a0))
  unfolding dispatch_syscall
  dispatch_syscall-tracks k state signals free h =
      let code = to_int state.reg_a0 in
      let reads = reads-tracks k state h in
      pick (eqb_ℤ code (negsuc 0)) _ _ (create_process-tracks k state h) (
        pick (eqb_ℤ code (negsuc 1)) _ _ (terminate_process-tracks k state h) (
          pick (eqb_ℤ code (negsuc 2)) _ _ (laws.passed k state free h) (
            if_cases {A = Kernel × Outcome} (λ r. P r.0) (eqb_ℤ code (negsuc 3)) _ _
              (λ e. laws.signalled k state (signals e) h)
              (λ _. pick (eqb_ℤ code (negsuc 4)) _ _ (do_io-tracks k state free h) (
                pick (eqb_ℤ code (negsuc 5)) _ _ reads.0 (
                  pick (eqb_ℤ code (negsuc 6)) _ _ (wait_for_clock-tracks k state free h) (
                    pick (eqb_ℤ code (negsuc 7)) _ _ reads.1 (
                      pick (eqb_ℤ code (negsuc 8)) _ _ reads.2 (
                        pick (eqb_ℤ code (negsuc 9)) _ _ (yield-tracks k state h)
                          (pass_up_or_die-tracks k general_except state h))))))))))

  system_call_handler-tracks :
      (k : Kernel) (state : State)
      → (eqb_ℤ (to_int state.reg_a0) (negsuc 3) ≡ true → Signals state.reg_a1)
      → k.asl.semd_free ≢ []
      → P k
      → After (system_call_handler c k state)
  unfolding system_call_handler
  system_call_handler-tracks k state signals free h =
      pick (leb_ℤ (pos 1) (to_int state.reg_a0)) _ _
        (pass_up_or_die-tracks k general_except state h)
        (pick (bit_and state.status mstatus_mpp_mask == mstatus_mpp_u) _ _
          (pass_up_or_die-tracks k general_except
            (record state { cause = privileged_cause state.cause }) h)
          (dispatch_syscall-tracks k state signals free h))

  -- Where a call V names a semaphore that Signals admits, and a descriptor is free.
  pub exception_handler-tracks :
      (k : Kernel) (state : State) (bad_vaddr : ℕ)
      → (IsCall c state → eqb_ℤ (to_int state.reg_a0) (negsuc 3) ≡ true → Signals state.reg_a1)
      → k.asl.semd_free ≢ []
      → P k
      → P (exception_handler c k state bad_vaddr).0
  unfolding exception_handler
  exception_handler-tracks k state bad_vaddr signals free h =
      let code = bit_and state.cause c.cause_exccode_mask in
      let state1 = record state { pc_epc = (state.pc_epc + word_len) % 2 ^ 32; cause = 11 } in
      if_cases {A = Kernel × Outcome} (λ r. P r.0) (c.cause_is_int state.cause) _ _
        (λ _. interrupt_handler-tracks laws k state h)
        (λ e.
          if_cases {A = Kernel × Outcome} (λ r. P r.0) (code == 8 || code == 11) _ _
            (λ f. system_call_handler-tracks k state1 (signals (e, f)) free h)
            (λ _. pass_up_or_die-tracks k _ state h))
