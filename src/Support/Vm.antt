-- ===== src/Support/Vm.antt =====
-- phase3/vmSupport.c: the swap pool and the pager. The lines that it logs are left out.
use sistemi_operativi_proget.Common.{
  ℕ, zero, suc, ◌+◌, ◌-◌, ◌^◌, ◌%◌, ◌-ℤ◌, to_word, ◌*◌, ◌%◌, ℤ, pos, negsuc, pos_part, eqb_ℤ,
  Option, none, some, ◌==◌, if◌then◌else◌, write, bit_and, bit_or, get_elem?, set,
}
use sistemi_operativi_proget.Const.{
  Platform, start_devreg, page_size, mstatus_mie_mask, pgfault_except, pool_size, flash_read,
  flash_write, flash_ready, present_flag, dirty_on, valid_on, swap_pool_start,
}
use sistemi_operativi_proget.Types.{PteEntry}
use sistemi_operativi_proget.Kernel.Exception.{page_index}
use sistemi_operativi_proget.Support.{
  Swap, Action, Level, Layout, Ending, act, answer, heard, fatal_fault,
}

-- The rounds i, i + 1, ... of the loop of initSwapStructs.
unfoldable pub free_frames : ℕ → ℕ → (ℕ → Swap) → ℕ → Swap
free_frames zero i pool = pool
free_frames (suc n) i pool = free_frames n (i + 1) (
    write pool i (record { sw_asid = negsuc 0; sw_page_no = negsuc 0; sw_owner = 0; sw_entry = 0 }))

unfoldable pub init_swap_structs : Layout → Level → Level
init_swap_structs l m = record m {
  sems = write m.sems l.swap_pool_sem (pos 1);
  swap_frame_clock = 0;
  swap_pool = free_frames pool_size 0 m.swap_pool;
}

-- `setSTATUS(savedStatus & ~MSTATUS_MIE_MASK)` to `setSTATUS(savedStatus)`
unfoldable pub update_tlb_entry : Level → PteEntry → Level
update_tlb_entry m pte =
    let saved = m.status_register in
    let m1 = record m { status_register = bit_and saved (0xFFFFFFFF - mstatus_mie_mask) } in
    let m2 = act (act m1 (Action.set_entry_hi pte.pte_entry_hi)) Action.tlb_probe in
    let m3 = record m2 { probes = m2.probes + 1 } in
    let m4 =
      if bit_and (m2.index_reads m2.probes) present_flag == 0
      then act (act m3 (Action.set_entry_lo pte.pte_entry_lo)) Action.tlb_write_indexed
      else m3 in
    record m4 { status_register = saved }

-- The number of the flash device of a process, from its ASID, in 32 bits.
abbrev pub dev_no : ℤ → ℕ
dev_no asid = to_word (asid -ℤ pos 1)

abbrev pub flash_register : ℤ → ℕ
flash_register asid = (start_devreg + 0x80 + dev_no asid * 0x10) % 2 ^ 32

-- Between P and V on the device's mutex: the buffer's address, then the command. The result is the
-- device's status.
unfoldable pub flash_io : Layout → Level → ℤ → ℕ → ℕ → ℕ → Level × ℕ
flash_io l m asid page_no frame_addr rw_command =
    let reg = flash_register asid in
    let mutex = l.flash_mutex (dev_no asid) in
    let m1 = act (act m (Action.passeren mutex)) (Action.write_register (reg + 8) frame_addr) in
    let m2 = act m1 (Action.do_io (reg + 4) (bit_or (page_no * 256) rw_command)) in
    (act (heard m2) (Action.verhogen mutex), answer m2)

-- The page table entry that an index names; beyond the table there is none.
abbrev pub pte_at : Level → ℕ → ℕ → Option PteEntry
pte_at m sup page = get_elem? (m.supports sup).sup_private_pg_tbl page

-- `pte->pte_entryLO = lo`
abbrev pub set_pte : Level → ℕ → ℕ → PteEntry → ℕ → Level
set_pte m sup page pte lo =
    let s = m.supports sup in
    record m {
      supports = write m.supports sup (record s {
        sup_private_pg_tbl = set s.sup_private_pg_tbl page (record pte { pte_entry_lo = lo });
      });
    }

-- The pager gives the swap pool back, and the process dies.
unfoldable pub give_up : Layout → Level → ℕ → Level × Ending
give_up l m sup = fatal_fault l (act m (Action.verhogen l.swap_pool_sem)) sup

abbrev pub frame_address : ℕ → ℕ
frame_address frame = swap_pool_start + frame * page_size

-- The last part of the pager: the new owner of the frame, its page table entry, the TLB.
unfoldable pub map_page : Layout → Level → ℕ → ℕ → ℕ → Option PteEntry → Level × Ending
map_page l m sup page frame none = (m, Ending.wild)
map_page l m sup page frame (some pte) =
    let s = m.supports sup in
    let lo = bit_or (bit_or (frame_address frame) dirty_on) valid_on in
    let owner : Swap = record {
      sw_asid = s.sup_asid;
      sw_page_no = pos page;
      sw_owner = sup;
      sw_entry = page;
    } in
    let m1 = set_pte (record m { swap_pool = write m.swap_pool frame owner }) sup page pte lo in
    let m2 = update_tlb_entry m1 (record pte { pte_entry_lo = lo }) in
    (act m2 (Action.verhogen l.swap_pool_sem), Ending.resumes (s.sup_except_state pgfault_except))

-- Loading: the page comes from the flash device of the process.
unfoldable pub load_page : Layout → Level → ℕ → ℕ → ℕ → Level × Ending
load_page l m sup page frame =
    let (m1, status) =
      flash_io l m (m.supports sup).sup_asid page (frame_address frame) flash_read in
    if status == flash_ready
    then map_page l m1 sup page frame (pte_at m1 sup page)
    else give_up l m1 sup

-- Eviction: the entry of the page in the frame becomes invalid, and the frame goes to its flash
-- device. Then the pager goes on.
unfoldable pub write_back :
    Layout → Level → ℕ → ℕ → Swap → (Level → Level × Ending) → Option PteEntry → Level × Ending
write_back l m sup frame old next none = (m, Ending.wild)
write_back l m sup frame old next (some pte) =
    let lo = bit_and pte.pte_entry_lo (0xFFFFFFFF - valid_on) in
    let m1 = set_pte m old.sw_owner old.sw_entry pte lo in
    let m2 = update_tlb_entry m1 (record pte { pte_entry_lo = lo }) in
    let (m3, status) =
      flash_io l m2 old.sw_asid (pos_part old.sw_page_no) (frame_address frame) flash_write in
    if status == flash_ready then next m3 else give_up l m3 sup

unfoldable pub evict : Layout → Level → ℕ → ℕ → (Level → Level × Ending) → Level × Ending
evict l m sup frame next =
    let old = m.swap_pool frame in
    if eqb_ℤ old.sw_asid (negsuc 0)
    then next m
    else write_back l m sup frame old next (pte_at m old.sw_owner old.sw_entry)

-- `sup` is the answer to GETSUPPORTPTR.
unfoldable pub pager : Platform → Layout → Level → ℕ → Level × Ending
pager c l m sup =
    let state = (m.supports sup).sup_except_state pgfault_except in
    let page = page_index c state.entry_hi in
    let frame = m.swap_frame_clock in
    let m1 = record (act m (Action.passeren l.swap_pool_sem)) {
      swap_frame_clock = (frame + 1) % pool_size;
    } in
    if bit_and state.cause c.cause_exccode_mask == l.exc_mod
    then fatal_fault l m sup
    else evict l m1 sup frame (λ m2. load_page l m2 sup page frame)
