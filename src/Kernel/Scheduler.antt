-- ===== src/Kernel/Scheduler.antt =====
-- phase2/scheduler.c
use sistemi_operativi_proget.Common.{
  ℕ, pos, ltb_ℤ, eqb_ℤ, ◌&&◌, some, List, [], ◌∷◌, if◌then◌else◌, ◌-◌,
}
use sistemi_operativi_proget.Const.{time_slice, mie_all, mie_mtie_mask, mstatus_mie_mask}
use sistemi_operativi_proget.Types.{Outcome, Event}
use sistemi_operativi_proget.Kernel.{Kernel, pcb, emit, tod, tick}

-- The first process of the ready queue gets a full time slice and the processor.
unfoldable pub dispatch : Kernel → ℕ → List ℕ → Kernel × Outcome
dispatch k p rest =
    let k1 =
      emit (record k { ready_queue = rest; current_process = some p })
        (Event.set_timer time_slice) in
    (tick (record k1 { start_time = tod k1 }), Outcome.ldst (pcb k p).p_s)

-- No process is ready. `MIE_ALL & ~MIE_MTIE_MASK` clears a bit that is set.
unfoldable pub idle : Kernel → Kernel × Outcome
idle k =
    if eqb_ℤ k.process_count (pos 0)
    then (k, Outcome.halt)
    else if ltb_ℤ (pos 0) k.process_count && ltb_ℤ (pos 0) k.soft_block_count
    then (
      emit (emit k (Event.set_mie (mie_all - mie_mtie_mask)))
          (Event.set_status_bits mstatus_mie_mask),
      Outcome.wait,
    )
    else if ltb_ℤ (pos 0) k.process_count && eqb_ℤ k.soft_block_count (pos 0)
    then (k, Outcome.panic)
    else (k, Outcome.returns)

-- By what the ready queue holds.
unfoldable pub schedule : Kernel → List ℕ → Kernel × Outcome
schedule k [] = idle k
schedule k (p ∷ rest) = dispatch k p rest

unfoldable pub scheduler : Kernel → Kernel × Outcome
scheduler k = schedule k k.ready_queue
