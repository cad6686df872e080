-- ===== src/Kernel/Exception.antt =====
-- phase2/exception.c: the entry points of the kernel. Each takes the state that the BIOS saved.
use sistemi_operativi_proget.Common.{
  ℕ, ◌+◌, ◌-◌, ◌*◌, ◌/◌, ◌%◌, ◌^◌, ℤ, pos, negsuc, leb, leb_ℤ, eqb_ℤ, to_int, bit_and, bit_or, ◌||◌,
  none, some, ◌==◌, if◌then◌else◌, get_elem?,
}
use sistemi_operativi_proget.Const.{
  Platform, word_len, kuseg, pgfault_except, general_except, mstatus_mpp_mask, mstatus_mpp_u,
  get_exec_code, priv_instr, vpn_shift, max_pages,
}
use sistemi_operativi_proget.Types.{State, Outcome, Event}
use sistemi_operativi_proget.Kernel.{Kernel, pcb, emit, with_current}
use sistemi_operativi_proget.Kernel.Functions.Terminate.{pass_up_or_die}
use sistemi_operativi_proget.Kernel.Syscalls.{
  create_process, terminate_process, passeren, verhogen, do_io, get_cpu_time, wait_for_clock,
  get_support_data, get_process_id, yield,
}
use sistemi_operativi_proget.Kernel.Interrupt.{interrupt_handler}

-- The page table's index of a saved EntryHi.
unfoldable pub page_index : Platform → ℕ → ℕ
page_index c entry_hi =
    let vpn = bit_and entry_hi c.entryhi_vpn_mask / 2 ^ vpn_shift in
    if vpn == 0x3FFFF then max_pages - 1 else vpn

-- A NULL support structure and an index beyond the page table are wild reads.
unfoldable pub tlb_refill_handler : Platform → Kernel → State → Kernel × Outcome
tlb_refill_handler c k saved = with_current k λ cur.
    let sup = (pcb k cur).p_support_struct in
    let entry = get_elem? (k.supports sup).sup_private_pg_tbl (page_index c saved.entry_hi) in
    if sup == 0 then (k, Outcome.fault) else elim entry [
      | none ↦ (k, Outcome.fault)
      | some pte ↦ (emit k (Event.tlb_write pte.pte_entry_hi pte.pte_entry_lo), Outcome.ldst saved)
    ]

-- The switch over the service code.
unfoldable pub dispatch_syscall : Platform → Kernel → State → ℤ → Kernel × Outcome
dispatch_syscall c k state code =
    if eqb_ℤ code (negsuc 0)
    then create_process k state
    else if eqb_ℤ code (negsuc 1)
    then terminate_process c k state
    else if eqb_ℤ code (negsuc 2)
    then passeren c k state
    else if eqb_ℤ code (negsuc 3)
    then verhogen k state
    else if eqb_ℤ code (negsuc 4)
    then do_io c k state
    else if eqb_ℤ code (negsuc 5)
    then get_cpu_time k state
    else if eqb_ℤ code (negsuc 6)
    then wait_for_clock c k state
    else if eqb_ℤ code (negsuc 7)
    then get_support_data k state
    else if eqb_ℤ code (negsuc 8)
    then get_process_id k state
    else if eqb_ℤ code (negsuc 9)
    then yield k state
    else pass_up_or_die c k general_except state

-- `(cause & ~GETEXECCODE) | (PRIVINSTR << CAUSESHIFT)`
abbrev pub privileged_cause : ℕ → ℕ
privileged_cause cause = bit_or (bit_and cause (0xFFFFFFFF - get_exec_code)) (priv_instr * 4)

unfoldable pub system_call_handler : Platform → Kernel → State → Kernel × Outcome
system_call_handler c k state =
    let code = to_int state.reg_a0 in
    if leb_ℤ (pos 1) code
    then pass_up_or_die c k general_except state
    else if bit_and state.status mstatus_mpp_mask == mstatus_mpp_u
    then pass_up_or_die c k general_except (record state { cause = privileged_cause state.cause })
    else dispatch_syscall c k state code

unfoldable pub exception_handler : Platform → Kernel → State → ℕ → Kernel × Outcome
exception_handler c k state bad_vaddr =
    let code = bit_and state.cause c.cause_exccode_mask in
    let state1 = record state { pc_epc = (state.pc_epc + word_len) % 2 ^ 32; cause = 11 } in
    let kind = if leb kuseg bad_vaddr then pgfault_except else general_except in
    if c.cause_is_int state.cause
    then interrupt_handler c k state
    else if code == 8 || code == 11
    then system_call_handler c k state1
    else pass_up_or_die c k kind state
