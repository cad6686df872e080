-- ===== src/Kernel/Sound/Returns.antt =====
-- The loops of exceptionHandler of phase2/exception.c come to an end.
use sistemi_operativi_proget.Common.{
  ℕ, suc, ◌+◌, ◌-◌, ◌%◌, ◌^◌, ◌≢◌, refl, ℤ, pos, negsuc, leb, leb_ℤ, eqb_ℤ, to_int, Option, none,
  some, arith, if◌then◌else◌, if_cases, Bool, true, false, ◌==◌, ◌||◌, ◌&&◌, bit_and,
}
use sistemi_operativi_proget.Const.{
  Platform, device_semaphore, psecond, never, kuseg, word_len, general_except, pgfault_except,
  mstatus_mpp_mask, mstatus_mpp_u,
}
use sistemi_operativi_proget.Types.{State, Outcome, Event}
use sistemi_operativi_proget.Asl.{blocked_count}
use sistemi_operativi_proget.Asl.Queues.{queue_of}
use sistemi_operativi_proget.Asl.Refines.{head_and_count_refine}
use sistemi_operativi_proget.Kernel.{Kernel, set_sem, emit}
use sistemi_operativi_proget.Kernel.Interrupt.{
  account, resume, resume_at, preempt, timer_interrupt, finish_clock, clock_interrupt,
  serve_pending, serve_line, device_interrupt, interrupt_handler, get_highest_priority_device,
  int_bitmap,
}
use sistemi_operativi_proget.Kernel.Exception.{
  dispatch_syscall, privileged_cause, system_call_handler, exception_handler,
}
use sistemi_operativi_proget.Kernel.Conservation.Clock.{wake_all_total}
use sistemi_operativi_proget.Kernel.Closed.Interrupts.{account-Quiet}
use sistemi_operativi_proget.Kernel.Sound.{Sound}
use sistemi_operativi_proget.Kernel.Sound.Moves.{Quiet-Sound}
use sistemi_operativi_proget.Kernel.Sound.Calls.{
  Stops, scheduler-Stops, pass_up_or_die-Stops, terminate_process-Stops, passeren-Stops,
  do_io-Stops, wait_for_clock-Stops, create_process-Stops, verhogen-Stops, get_cpu_time-Stops,
  get_support_data-Stops, get_process_id-Stops, yield-Stops,
}

resume-Stops : (k : Kernel) (saved : State) → Stops (resume k saved)
unfolding resume resume_at
resume-Stops k saved = by_current k.current_process
  where
    by_current : (o : Option ℕ) → Stops (resume_at k saved o)
    by_current none = scheduler-Stops k
    by_current (some p) = λ e. cc

preempt-Stops : (k : Kernel) (saved : State) (o : Option ℕ) → Stops (preempt k saved o)
unfolding preempt
preempt-Stops k saved none = scheduler-Stops k
preempt-Stops k saved (some p) = scheduler-Stops _

clock_interrupt-Stops :
    (c : Platform) (k : Kernel) (saved : State) → Sound k → Stops (clock_interrupt c k saved)
unfolding clock_interrupt finish_clock
clock_interrupt-Stops c k saved s =
    let sem = device_semaphore c 48 in
    let k1 : Kernel = emit k (Event.load_interval psecond) in
    let end =
      wake_all_total (suc (blocked_count k1.asl sem)) k1 sem (queue_of sem k1.asl.semd_h)
        s.0.distinct refl (omega (arith, (head_and_count_refine k1.asl sem).1)) in
    rw end.1 (resume-Stops (set_sem end.0 sem (pos 0)) saved)

interrupt_handler-Stops :
    (c : Platform) (k : Kernel) (saved : State) → Sound k → Stops (interrupt_handler c k saved)
unfolding interrupt_handler timer_interrupt device_interrupt serve_pending
interrupt_handler-Stops c k saved s =
    let code = bit_and saved.cause c.cause_exccode_mask in
    let k1 = account k in
    if_cases {A = Kernel × Outcome} Stops (code == 7) _ _
      (λ _. preempt-Stops (emit k1 (Event.set_timer never)) saved k1.current_process)
      (λ _.
        if_cases {A = Kernel × Outcome} Stops (code == 3) _ _
          (λ _. clock_interrupt-Stops c k1 saved (Quiet-Sound k k1 (account-Quiet k) s))
          (λ _.
            if_cases {A = Kernel × Outcome} Stops (leb 17 code && leb code 21) _ _
              (λ _. pending (code - 14) (get_highest_priority_device (int_bitmap k1 (code - 14))))
              (λ _. resume-Stops k1 saved)))
  where
    pending : (line : ℕ) (o : Option ℕ) → Stops (serve_pending c (account k) saved line o)
    pending line none = resume-Stops (account k) saved
    pending line (some dev) = resume-Stops (serve_line c (account k) line dev) saved

module _ (c : Platform) (k : Kernel) (s : Sound k) where
  pick : (b : Bool) (x y : Kernel × Outcome) → Stops x → Stops y → Stops (if b then x else y)
  pick true x y h g = h
  pick false x y h g = g

  dispatch_syscall-Stops : (state : State) (code : ℤ) → Stops (dispatch_syscall c k state code)
  unfolding dispatch_syscall
  dispatch_syscall-Stops state code =
      pick (eqb_ℤ code (negsuc 0)) _ _ (create_process-Stops k state) (
        pick (eqb_ℤ code (negsuc 1)) _ _ (terminate_process-Stops c k state s) (
          pick (eqb_ℤ code (negsuc 2)) _ _ (passeren-Stops c k state) (
            pick (eqb_ℤ code (negsuc 3)) _ _ (verhogen-Stops k state) (
              pick (eqb_ℤ code (negsuc 4)) _ _ (do_io-Stops c k state) (
                pick (eqb_ℤ code (negsuc 5)) _ _ (get_cpu_time-Stops k state) (
                  pick (eqb_ℤ code (negsuc 6)) _ _ (wait_for_clock-Stops c k state) (
                    pick (eqb_ℤ code (negsuc 7)) _ _ (get_support_data-Stops k state) (
                      pick (eqb_ℤ code (negsuc 8)) _ _ (get_process_id-Stops k state) (
                        pick (eqb_ℤ code (negsuc 9)) _ _ (yield-Stops k state)
                          (pass_up_or_die-Stops c k general_except state s))))))))))

  system_call_handler-Stops : (state : State) → Stops (system_call_handler c k state)
  unfolding system_call_handler
  system_call_handler-Stops state =
      pick (leb_ℤ (pos 1) (to_int state.reg_a0)) _ _
        (pass_up_or_die-Stops c k general_except state s)
        (pick (bit_and state.status mstatus_mpp_mask == mstatus_mpp_u) _ _
          (pass_up_or_die-Stops c k general_except
            (record state { cause = privileged_cause state.cause }) s)
          (dispatch_syscall-Stops state (to_int state.reg_a0)))

  pub exception_handler-Stops :
      (state : State) (bad_vaddr : ℕ)
      → (exception_handler c k state bad_vaddr).1 ≢ Outcome.out_of_fuel
  unfolding exception_handler
  exception_handler-Stops state bad_vaddr =
      let code = bit_and state.cause c.cause_exccode_mask in
      let state1 = record state { pc_epc = (state.pc_epc + word_len) % 2 ^ 32; cause = 11 } in
      let kind = if leb kuseg bad_vaddr then pgfault_except else general_except in
      pick (c.cause_is_int state.cause) _ _ (interrupt_handler-Stops c k state s) (
        pick (code == 8 || code == 11) _ _ (system_call_handler-Stops state1)
          (pass_up_or_die-Stops c k kind state s))
