-- ===== src/Kernel/Reachable/Counted.antt =====
-- softBlockCount in the states that the kernel reaches.
use sistemi_operativi_proget.Common.{
  ℕ, ◌≤◌, ◌≡◌, ◌≢◌, refl, negsuc, eqb_ℤ, to_int, ltb, true, false, Option, none, some, [], arith,
  get_elem?, if_cases, ◌==◌,
}
use sistemi_operativi_proget.Const.{Platform, page_size}
use sistemi_operativi_proget.Types.{State, Outcome, PteEntry, Event}
use sistemi_operativi_proget.Pcb.{init_pcbs, alloc_pcb, alloc_from, insert_proc_q}
use sistemi_operativi_proget.Asl.{init_asl}
use sistemi_operativi_proget.Kernel.{Kernel, pcb, emit, with_current_cases}
use sistemi_operativi_proget.Kernel.Functions.{is_soft_block_semaphore}
use sistemi_operativi_proget.Kernel.Scheduler.{scheduler, schedule, dispatch}
use sistemi_operativi_proget.Kernel.Init.{init_kernel, init_globals, start_root}
use sistemi_operativi_proget.Kernel.Exception.{tlb_refill_handler, page_index}
use sistemi_operativi_proget.Kernel.Closed.Exceptions.{IsCall}
use sistemi_operativi_proget.Kernel.SoftBlock.{Counted}
use sistemi_operativi_proget.Kernel.SoftBlock.Holds.{exception_handler-Counted}
use sistemi_operativi_proget.Kernel.Reachable.{Reachable, booted, excepted, refilled, ran}

-- A descriptor is free, and a call V does not name a device semaphore.
abbrev pub SpareAndPlain : Platform → Kernel → State → Type 0
SpareAndPlain c k state =
    (k.asl.semd_free ≢ [])
    × (IsCall c state
        → eqb_ℤ (to_int state.reg_a0) (negsuc 3) ≡ true
        → is_soft_block_semaphore c state.reg_a1 ≡ false)

init_kernel-Counted :
    (c : Platform) (ramtop sizeof_pcb : ℕ) (k : Kernel)
    → sizeof_pcb ≤ page_size
    → Counted c (init_kernel c ramtop sizeof_pcb k).0
unfolding init_kernel init_globals start_root init_pcbs alloc_pcb alloc_from insert_proc_q scheduler
    schedule dispatch init_asl
init_kernel-Counted c ramtop sizeof_pcb k fits =
    let small : ltb page_size sizeof_pcb ≡ false = ground arith in rw small refl

abbrev After : Platform → Kernel × Outcome → Type 0
After c r = Counted c r.0

refill-Counted :
    (c : Platform) (k : Kernel) (saved : State)
    → Counted c k
    → Counted c (tlb_refill_handler c k saved).0
unfolding tlb_refill_handler
refill-Counted c k saved h =
    with_current_cases (λ r. Counted c r.0) k _ h
      λ cur e.
        let sup = (pcb k cur).p_support_struct in
        let entry = get_elem? (k.supports sup).sup_private_pg_tbl (page_index c saved.entry_hi) in
        if_cases {A = Kernel × Outcome} (λ r. Counted c r.0) (sup == 0) _ _ (λ _. h)
          (λ _. by_entry entry)
  where
    by_entry :
        (o : Option PteEntry)
        → After c (elim o [
          | none ↦ (k, Outcome.fault)
          | some pte ↦
              (emit k (Event.tlb_write pte.pte_entry_hi pte.pte_entry_lo), Outcome.ldst saved)
        ])
    by_entry none = h
    by_entry (some pte) = h

-- In every state that the kernel reaches, where each exception finds a free descriptor and no call V
-- names a device semaphore, softBlockCount is the number of processes that wait on device
-- semaphores.
pub Reachable-Counted :
    (c : Platform) (Boots : Kernel → Type 0) (k : Kernel)
    → Reachable c Boots (SpareAndPlain c) k
    → Counted c k
Reachable-Counted c Boots k (booted ramtop sizeof_pcb k0 fits b) =
    init_kernel-Counted c ramtop sizeof_pcb k0 fits
Reachable-Counted c Boots k (excepted k0 state bad_vaddr i r) =
    exception_handler-Counted c k0 state bad_vaddr i.1 i.0 (Reachable-Counted c Boots k0 r)
Reachable-Counted c Boots k (refilled k0 state r) =
    refill-Counted c k0 state (Reachable-Counted c Boots k0 r)
Reachable-Counted c Boots k (ran k0 sems supports states registers r) =
    Reachable-Counted c Boots k0 r
