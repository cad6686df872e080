-- ===== src/Kernel/Init.antt =====
-- phase2/initial.c: initKernel, which phase2/main.c calls.
use sistemi_operativi_proget.Common.{
  ℕ, zero, suc, ◌+◌, pos, ℤ, ltb, none, some, [], if◌then◌else◌, write,
}
use sistemi_operativi_proget.Const.{
  Platform, sem_dev_len, page_size, psecond, mie_all, mstatus_mpie_mask, mstatus_mpp_m,
  mstatus_mie_mask, kernel_stack, device_semaphore,
}
use sistemi_operativi_proget.Types.{Outcome, Event}
use sistemi_operativi_proget.Pcb.{init_pcbs, alloc_pcb, insert_proc_q}
use sistemi_operativi_proget.Asl.{init_asl}
use sistemi_operativi_proget.Kernel.{Kernel, pcb, set_pcb, emit, incr}
use sistemi_operativi_proget.Kernel.Scheduler.{scheduler}

-- The rounds i, i + 1, ... of the loop that zeroes the device semaphores.
unfoldable pub zero_semaphores : ℕ → ℕ → Platform → (ℕ → ℤ) → ℕ → ℤ
zero_semaphores zero i c sems = sems
zero_semaphores (suc n) i c sems =
    zero_semaphores n (i + 1) c (write sems (device_semaphore c i) (pos 0))

-- Everything up to the allocation of the first process.
unfoldable pub init_globals : Platform → Kernel → Kernel
init_globals c k = record k {
  pcbs = init_pcbs k.pcbs;
  asl = init_asl;
  ready_queue = [];
  current_process = none;
  process_count = pos 0;
  soft_block_count = pos 0;
  global_lock = pos 0;
  sems = zero_semaphores sem_dev_len 0 c k.sems;
  trace =
      (emit
        (emit k
          (Event.set_passup_vector c.refill_entry kernel_stack c.exception_entry kernel_stack))
        (Event.load_interval psecond)).trace;
}

-- The root process runs test() in kernel mode, with interrupts enabled and its stack at ramtop.
unfoldable pub start_root : Platform → ℕ → Kernel → ℕ → Kernel
start_root c ramtop k p =
    let b = pcb k p in
    let k1 = set_pcb k p (record b {
      p_time = pos 0;
      p_parent = none;
      p_sem_add = 0;
      p_support_struct = 0;
      p_prio = pos 0;
      p_s = record (b.p_s) {
        mie = mie_all;
        status = mstatus_mpie_mask + mstatus_mpp_m + mstatus_mie_mask;
        pc_epc = c.test_entry;
        reg_sp = ramtop;
      };
    }) in
    record k1 {
      root_process = some p;
      ready_queue = insert_proc_q k1.pcbs.table k1.ready_queue p;
      process_count = incr k1.process_count;
    }

unfoldable pub init_kernel : Platform → (ramtop sizeof_pcb : ℕ) → Kernel → Kernel × Outcome
init_kernel c ramtop sizeof_pcb k =
    let k1 = init_globals c k in
    let (s, p) = alloc_pcb k1.pcbs in
    if ltb page_size sizeof_pcb then (k, Outcome.panic) else elim p [
      | none ↦ (k1, Outcome.fault)
      | some root ↦ scheduler (start_root c ramtop (record k1 { pcbs = s }) root)
    ]
