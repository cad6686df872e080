-- ===== src/Kernel/Interrupt.antt =====
-- phase2/interrupt.c. The device registers keep the values of `registers` while the handler runs.
use sistemi_operativi_proget.Common.{
  ℕ, zero, suc, ◌+◌, ◌-◌, ◌*◌, ◌/◌, ◌%◌, ◌^◌, ℤ, pos, ◌+ℤ◌, ◌-ℤ◌, ltb_ℤ, leb, ◌&&◌, bit_and, bit_or,
  Option, none, some, ◌==◌, if◌then◌else◌,
}
use sistemi_operativi_proget.Const.{
  Platform, device_semaphore, start_devreg, ack, psecond, never, mstatus_mie_mask,
}
use sistemi_operativi_proget.Types.{State, Outcome, Event}
use sistemi_operativi_proget.Pcb.{insert_proc_q}
use sistemi_operativi_proget.Asl.{Asl, remove_blocked, blocked_count}
use sistemi_operativi_proget.Kernel.{Kernel, pcb, set_pcb, set_sem, emit, tod, tick, incr, decr}
use sistemi_operativi_proget.Kernel.Scheduler.{scheduler}
use sistemi_operativi_proget.Kernel.Functions.{save_state}
use sistemi_operativi_proget.Kernel.Syscalls.{with_a0}

-- `bitmap & (1u << i)` asks for bit i. The rounds i, i + 1, ... of the scan; none stands for -1.
unfoldable pub scan_bits : ℕ → ℕ → ℕ → Option ℕ
scan_bits zero i bitmap = none
scan_bits (suc n) i bitmap =
    let rest = scan_bits n (i + 1) bitmap in if bitmap / 2 ^ i % 2 == 1 then some i else rest

unfoldable pub get_highest_priority_device : ℕ → Option ℕ
get_highest_priority_device bitmap = scan_bits 8 0 bitmap

-- The time spent so far is charged to the current process; the reference moves in any case.
unfoldable pub charge : Kernel → ℤ → Option ℕ → Kernel
charge k now none = k
charge k now (some p) =
    set_pcb k p (record (pcb k p) { p_time = (pcb k p).p_time +ℤ (now -ℤ k.start_time) })

unfoldable pub account : Kernel → Kernel
account k = record (charge (tick k) (tod k) k.current_process) { start_time = tod k }

-- Back to the interrupted process, or to the scheduler where there was none.
unfoldable pub resume_at : Kernel → State → Option ℕ → Kernel × Outcome
resume_at k saved none = scheduler k
resume_at k saved (some p) = (k, Outcome.ldst saved)

unfoldable pub resume : Kernel → State → Kernel × Outcome
resume k saved = resume_at k saved k.current_process

-- `p->p_s.reg_a0 = status; p->p_semAdd = NULL; insertProcQ(&readyQueue, p); softBlockCount--`
unfoldable pub complete : Kernel → ℕ → ℕ → Kernel
complete k p status =
    let k1 = set_pcb k p (record (pcb k p) { p_s = with_a0 (pcb k p).p_s status; p_sem_add = 0 }) in
    record k1 {
      ready_queue = insert_proc_q k1.pcbs.table k1.ready_queue p;
      soft_block_count = decr k1.soft_block_count;
    }

-- What a finished device does with the result of removeBlocked.
unfoldable pub hand_status : Kernel → ℕ → Asl × Option ℕ → Kernel
hand_status k status (a, none) = record k { asl = a }
hand_status k status (a, some p) = complete (record k { asl = a }) p status

-- The V that a finished device does, if a process waits for it.
unfoldable pub serve_device : Kernel → ℕ → ℕ → Kernel
serve_device k sem status =
    if ltb_ℤ (k.sems sem) (pos 0)
    then hand_status (set_sem k sem (incr (k.sems sem))) status (remove_blocked k.asl sem)
    else k

-- `while ((p = removeBlocked(sem)) != NULL)`; one round for each blocked process and one to stop.
unfoldable pub wake_all : ℕ → Kernel → ℕ → Option Kernel
wake_all zero k sem = none
wake_all (suc n) k sem =
    let (a, released) = remove_blocked k.asl sem in
    let k1 = record k { asl = a } in
    elim released [ none ↦ some k1 | some p ↦ wake_all n (complete k1 p 0) sem ]

-- The quantum is over: by currentProcess.
unfoldable pub preempt : Kernel → State → Option ℕ → Kernel × Outcome
preempt k saved none = scheduler k
preempt k saved (some p) =
    let state = record saved { status = bit_or saved.status mstatus_mie_mask } in
    let k1 = save_state k p state in
    scheduler (record k1 {
      ready_queue = insert_proc_q k1.pcbs.table k1.ready_queue p;
      current_process = none;
    })

unfoldable pub timer_interrupt : Kernel → State → Kernel × Outcome
timer_interrupt k saved = preempt (emit k (Event.set_timer never)) saved k.current_process

-- After the loop the pseudo-clock semaphore is set to 0.
unfoldable pub finish_clock : ℕ → Kernel → State → Option Kernel → Kernel × Outcome
finish_clock sem k saved none = (k, Outcome.out_of_fuel)
finish_clock sem k saved (some k1) = resume (set_sem k1 sem (pos 0)) saved

unfoldable pub clock_interrupt : Platform → Kernel → State → Kernel × Outcome
clock_interrupt c k saved =
    let sem = device_semaphore c 48 in
    let k1 = emit k (Event.load_interval psecond) in
    finish_clock sem k1 saved (wake_all (suc (blocked_count k1.asl sem)) k1 sem)

abbrev pub int_bitmap : Kernel → ℕ → ℕ
int_bitmap k line = k.registers (0x10000040 + (line - 3) * 4)

abbrev pub dev_reg_base : ℕ → ℕ → ℕ
dev_reg_base line dev = start_devreg + (line - 3) * 0x80 + dev * 0x10

abbrev pub dev_sem_base : ℕ → ℕ → ℕ
dev_sem_base line dev = (line - 3) * 8 + dev

-- One sub-device of a terminal: its status register, and its command register behind it.
unfoldable pub serve_terminal : Kernel → ℕ → ℕ → Kernel
serve_terminal k reg sem =
    let status = k.registers reg in
    if status % 256 == 0
    then k
    else serve_device (emit k (Event.write_register (reg + 4) ack)) sem status

unfoldable pub serve_line : Platform → Kernel → ℕ → ℕ → Kernel
serve_line c k line dev =
    let base = dev_reg_base line dev in
    if line == 7
    then serve_terminal (serve_terminal k (base + 8) (device_semaphore c (40 + dev))) base
        (device_semaphore c (32 + dev))
    else serve_device (emit k (Event.write_register (base + 4) ack))
        (device_semaphore c (dev_sem_base line dev)) (k.registers base)

unfoldable pub serve_pending : Platform → Kernel → State → ℕ → Option ℕ → Kernel × Outcome
serve_pending c k saved line none = resume k saved
serve_pending c k saved line (some dev) = resume (serve_line c k line dev) saved

unfoldable pub device_interrupt : Platform → Kernel → State → ℕ → Kernel × Outcome
device_interrupt c k saved line =
    serve_pending c k saved line (get_highest_priority_device (int_bitmap k line))

unfoldable pub interrupt_handler : Platform → Kernel → State → Kernel × Outcome
interrupt_handler c k saved =
    let code = bit_and saved.cause c.cause_exccode_mask in
    let k1 = account k in
    if code == 7
    then timer_interrupt k1 saved
    else if code == 3
    then clock_interrupt c k1 saved
    else if leb 17 code && leb code 21
    then device_interrupt c k1 saved (code - 14)
    else resume k1 saved
