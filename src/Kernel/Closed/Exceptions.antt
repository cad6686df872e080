-- ===== src/Kernel/Closed/Exceptions.antt =====
-- exceptionHandler and uTLB_RefillHandler of phase2/exception.c keep what each kind of change keeps.
use sistemi_operativi_proget.Common.{
  ℕ, ◌+◌, ◌%◌, ◌^◌, ◌≡◌, pos, negsuc, eqb_ℤ, leb_ℤ, to_int, if◌then◌else◌, ◌==◌, ◌||◌, leb, bit_and,
  Bool, true, false, Option, none, some, get_elem?, if_cases,
}
use sistemi_operativi_proget.Const.{
  Platform, general_except, pgfault_except, kuseg, word_len, mstatus_mpp_mask, mstatus_mpp_u,
  device_semaphore,
}
use sistemi_operativi_proget.Types.{State, Outcome, PteEntry, Event}
use sistemi_operativi_proget.Kernel.{Kernel, pcb, emit, with_current_cases}
use sistemi_operativi_proget.Kernel.Syscalls.{sem_index}
use sistemi_operativi_proget.Kernel.Exception.{
  dispatch_syscall, privileged_cause, system_call_handler, exception_handler, tlb_refill_handler,
  page_index,
}
use sistemi_operativi_proget.Kernel.Closed.{Closed, Quiet-refl}
use sistemi_operativi_proget.Kernel.Closed.Syscalls.{
  create_process-keeps, passeren-keeps, verhogen-keeps, do_io-keeps, get_cpu_time-keeps,
  wait_for_clock-keeps, get_support_data-keeps, get_process_id-keeps, yield-keeps,
}
use sistemi_operativi_proget.Kernel.Closed.Killing.{terminate_process-keeps, pass_up_or_die-keeps}
use sistemi_operativi_proget.Kernel.Closed.Interrupts.{interrupt_handler-keeps}

-- A process may wait on each device semaphore, and on the one that its call P names.
abbrev Asks : (Kernel → ℕ → Type 0) → Platform → Kernel → State → Type 0
Asks Fits c k state =
    ((i : ℕ) → Fits k (device_semaphore c i))
    × (eqb_ℤ (to_int state.reg_a0) (negsuc 2) ≡ true → Fits k state.reg_a1)

-- The exception is a system call.
abbrev pub IsCall : Platform → State → Type 0
IsCall c state =
    (c.cause_is_int state.cause ≡ false)
    × ((let code = bit_and state.cause c.cause_exccode_mask in code == 8 || code == 11) ≡ true)

abbrev pub Calls : (Kernel → ℕ → Type 0) → Platform → Kernel → State → Type 0
Calls Fits c k state =
    ((i : ℕ) → Fits k (device_semaphore c i))
    × (IsCall c state → eqb_ℤ (to_int state.reg_a0) (negsuc 2) ≡ true → Fits k state.reg_a1)

module _ {P : Kernel → Type 0} {Fits : Kernel → ℕ → Type 0} (laws : Closed P Fits) (c : Platform)
    (k : Kernel) (p : P k) where
  abbrev After : Kernel × Outcome → Type 0
  After r = P r.0

  pick : (b : Bool) (x y : Kernel × Outcome) → P x.0 → P y.0 → P (if b then x else y).0
  pick true x y h g = h
  pick false x y h g = g

  dispatch_syscall-keeps :
      (state : State) → Asks Fits c k state → P (dispatch_syscall c k state (to_int state.reg_a0)).0
  unfolding dispatch_syscall
  dispatch_syscall-keeps state f =
      let code = to_int state.reg_a0 in
      pick (eqb_ℤ code (negsuc 0)) _ _ (create_process-keeps laws k state p) (
        pick (eqb_ℤ code (negsuc 1)) _ _ (terminate_process-keeps laws c k state p) (
          if_cases {A = Kernel × Outcome} (λ r. P r.0) (eqb_ℤ code (negsuc 2)) _ _
            (λ e. passeren-keeps laws c k state (f.1 e) p)
            (λ _. pick (eqb_ℤ code (negsuc 3)) _ _ (verhogen-keeps laws k state p) (
              pick (eqb_ℤ code (negsuc 4)) _ _
                (do_io-keeps laws c k state (f.0 (sem_index state.reg_a1)) p)
                (pick (eqb_ℤ code (negsuc 5)) _ _ (get_cpu_time-keeps laws k state p) (
                  pick (eqb_ℤ code (negsuc 6)) _ _ (wait_for_clock-keeps laws c k state (f.0 48) p)
                    (pick (eqb_ℤ code (negsuc 7)) _ _ (get_support_data-keeps laws k state p) (
                      pick (eqb_ℤ code (negsuc 8)) _ _ (get_process_id-keeps laws k state p) (
                        pick (eqb_ℤ code (negsuc 9)) _ _ (yield-keeps laws k state p)
                          (pass_up_or_die-keeps laws c k general_except state p))))))))))

  system_call_handler-keeps :
      (state : State) → Asks Fits c k state → P (system_call_handler c k state).0
  unfolding system_call_handler
  system_call_handler-keeps state f =
      pick (leb_ℤ (pos 1) (to_int state.reg_a0)) _ _
        (pass_up_or_die-keeps laws c k general_except state p)
        (pick (bit_and state.status mstatus_mpp_mask == mstatus_mpp_u) _ _
          (pass_up_or_die-keeps laws c k general_except
            (record state { cause = privileged_cause state.cause }) p)
          (dispatch_syscall-keeps state f))

  pub exception_handler-keeps :
      (state : State) (bad_vaddr : ℕ)
      → Calls Fits c k state
      → P (exception_handler c k state bad_vaddr).0
  unfolding exception_handler
  exception_handler-keeps state bad_vaddr f =
      let code = bit_and state.cause c.cause_exccode_mask in
      let state1 = record state { pc_epc = (state.pc_epc + word_len) % 2 ^ 32; cause = 11 } in
      let kind = if leb kuseg bad_vaddr then pgfault_except else general_except in
      if_cases {A = Kernel × Outcome} After (c.cause_is_int state.cause) _ _
        (λ _. interrupt_handler-keeps laws c k state p)
        (λ e.
          if_cases {A = Kernel × Outcome} After (code == 8 || code == 11) _ _
            (λ h. system_call_handler-keeps state1 (f.0, f.1 (e, h)))
            (λ _. pass_up_or_die-keeps laws c k kind state p))

  by_entry :
      (saved : State) (o : Option PteEntry)
      → After (elim o [
        | none ↦ (k, Outcome.fault)
        | some pte ↦
            (emit k (Event.tlb_write pte.pte_entry_hi pte.pte_entry_lo), Outcome.ldst saved)
      ])
  by_entry saved none = p
  by_entry saved (some pte) =
      laws.quiet k (emit k (Event.tlb_write pte.pte_entry_hi pte.pte_entry_lo)) (Quiet-refl k) p

  pub tlb_refill_handler-keeps : (saved : State) → P (tlb_refill_handler c k saved).0
  unfolding tlb_refill_handler
  tlb_refill_handler-keeps saved =
      with_current_cases (λ r. P r.0) k _ p
        λ cur e.
          let sup = (pcb k cur).p_support_struct in
          let entry = get_elem? (k.supports sup).sup_private_pg_tbl (page_index c saved.entry_hi) in
          pick (sup == 0) _ _ p (by_entry saved entry)
