-- ===== src/Support/Init.antt =====
-- phase3/initProc.c: the support structure of a user process, its start, and test(), the process
-- that starts the support level. The lines that it logs are left out.
use sistemi_operativi_proget.Common.{
  ℕ, zero, suc, ◌+◌, ◌-◌, ◌*◌, ◌^◌, ℤ, pos, List, write, set, bit_or,
}
use sistemi_operativi_proget.Const.{
  max_pages, vpn_shift, asid_shift, dirty_on, pgfault_except, general_except, mstatus_mie_mask,
  mstatus_mpie_mask, mstatus_mpp_m, mie_all, user_stack_top, uproc_start_addr,
}
use sistemi_operativi_proget.Types.{State, zero_state, Support, PteEntry, Context}
use sistemi_operativi_proget.Support.{Action, Level, Layout, Ending, act}
use sistemi_operativi_proget.Support.Vm.{init_swap_structs}

-- An entry for a page that is not in memory.
abbrev pub new_entry : (vpn asid : ℕ) → PteEntry
new_entry vpn asid = record {
  pte_entry_hi = bit_or (vpn * 2 ^ vpn_shift) (asid * 2 ^ asid_shift);
  pte_entry_lo = dirty_on;
}

-- The rounds i, i + 1, ... of the loop over the text and data pages.
unfoldable pub page_rounds : ℕ → ℕ → ℕ → List PteEntry → List PteEntry
page_rounds zero i asid t = t
page_rounds (suc n) i asid t = page_rounds n (i + 1) asid (set t i (new_entry (0x80000 + i) asid))

unfoldable pub init_page_table : Support → ℕ → Support
init_page_table s asid = record s {
  sup_private_pg_tbl =
      set (page_rounds (max_pages - 1) 0 asid s.sup_private_pg_tbl) (max_pages - 1)
        (new_entry 0xBFFFF asid);
}

unfoldable pub init_support_contexts : Layout → Support → ℕ → Support
init_support_contexts l s sup =
    let handler_status = mstatus_mpie_mask + mstatus_mpp_m + mstatus_mie_mask in
    let fault : Context = record {
      stack_ptr = l.stack_tlb sup;
      status = handler_status;
      pc = l.pager_entry;
    } in
    let general : Context = record {
      stack_ptr = l.stack_gen sup;
      status = handler_status;
      pc = l.general_entry;
    } in
    record s {
      sup_except_context =
          write (write s.sup_except_context pgfault_except fault) general_except general;
    }

unfoldable pub init_support_struct : Layout → Level → ℕ → ℕ → Level
init_support_struct l m sup asid =
    let s = record (m.supports sup) { sup_asid = pos asid } in
    record m {
      supports = write m.supports sup (init_support_contexts l (init_page_table s asid) sup);
    }

-- The state in which a user process starts.
abbrev pub uproc_state : ℕ → State
uproc_state asid = record zero_state {
  pc_epc = uproc_start_addr;
  reg_sp = user_stack_top;
  status = mstatus_mpie_mask + mstatus_mie_mask;
  mie = mie_all;
  entry_hi = asid * 2 ^ asid_shift;
}

unfoldable pub launch_uproc : Layout → Level → ℕ → Level
launch_uproc l m asid =
    let sup = l.support_structures (asid - 1) in
    act (init_support_struct l m sup asid) (Action.create_process (uproc_state asid) 0 sup)

-- The rounds i, i + 1, ... of the loop over the flash devices.
unfoldable pub free_mutexes : ℕ → ℕ → Layout → (ℕ → ℤ) → ℕ → ℤ
free_mutexes zero i l sems = sems
free_mutexes (suc n) i l sems = free_mutexes n (i + 1) l (write sems (l.flash_mutex i) (pos 1))

-- test() up to the launch of the shell.
unfoldable pub init_semaphores : Layout → Level → Level
init_semaphores l m =
    let s1 = free_mutexes l.dev_per_int 0 l m.sems in
    let s2 = write (write s1 l.term_mutex_tx (pos 1)) l.term_mutex_rx (pos 1) in
    record m { sems = write (write s2 l.master_semaphore (pos 0)) l.shell_semaphore (pos 0) }

unfoldable pub test : Layout → Level → Level × Ending
test l m =
    let m1 = launch_uproc l (init_semaphores l (init_swap_structs l m)) 1 in
    (act (act m1 (Action.passeren l.master_semaphore)) Action.terminate, Ending.terminated)
