-- ===== src/Kernel/Syscalls.antt =====
-- phase2/exception.c: the ten system calls. Each takes the saved state of the caller; what it
-- writes into that state is in the state that it loads or saves.
use sistemi_operativi_proget.Common.{
  ℕ, suc, ◌+◌, ◌-◌, ◌*◌, ◌/◌, ◌%◌, pos, negsuc, ltb, leb, ltb_ℤ, eqb_ℤ, to_int, to_word, Bool, true,
  false, ◌||◌, Option, none, some, ◌==◌, if◌then◌else◌,
}
use sistemi_operativi_proget.Const.{Platform, device_semaphore, start_devreg, max_proc}
use sistemi_operativi_proget.Types.{State, Outcome, Event}
use sistemi_operativi_proget.Pcb.{Pcbs, alloc_pcb, insert_child, insert_proc_q}
use sistemi_operativi_proget.Asl.{remove_blocked}
use sistemi_operativi_proget.Kernel.{Kernel, pcb, set_pcb, set_sem, emit, incr, decr, with_current}
use sistemi_operativi_proget.Kernel.Scheduler.{scheduler}
use sistemi_operativi_proget.Kernel.Functions.{
  save_state, update_cpu_time, block_current_process, find_in_tree,
}
use sistemi_operativi_proget.Kernel.Functions.Terminate.{kill}

abbrev pub with_a0 : State → ℕ → State
with_a0 s v = record s { reg_a0 = v }

-- What createProcess writes into the new block.
abbrev pub adopt : Kernel → ℕ → State → Kernel
adopt k p state = set_pcb k p (record (pcb k p) {
  p_s = k.states state.reg_a1;
  p_support_struct = state.reg_a3;
  p_prio = to_int state.reg_a2;
  p_time = pos 0;
  p_sem_add = 0;
})

-- The new process, with its block filled in, enters the tree and the ready queue.
unfoldable pub admit : Kernel → ℕ → ℕ → Kernel
admit k cur p =
    let s = insert_child k.pcbs cur p in
    record k {
      pcbs = s;
      ready_queue = insert_proc_q s.table k.ready_queue p;
      process_count = incr k.process_count;
    }

-- What createProcess does with the result of allocPcb.
unfoldable pub finish_create : Kernel → State → ℕ → Pcbs × Option ℕ → Kernel × Outcome
finish_create k state cur (s, none) =
    let state1 = with_a0 state (to_word (negsuc 0)) in
    (save_state k cur state1, Outcome.ldst state1)
finish_create k state cur (s, some p) =
    let k1 = admit (adopt (record k { pcbs = s }) p state) cur p in
    let state1 = with_a0 state (to_word (pcb k1 p).p_pid) in
    (save_state k1 cur state1, Outcome.ldst state1)

unfoldable pub create_process : Kernel → State → Kernel × Outcome
create_process k state = with_current k λ cur. finish_create k state cur (alloc_pcb k.pcbs)

-- The target of TERMPROCESS; the outer none is a search that ran out of fuel.
unfoldable pub term_target : Kernel → State → Option (Option ℕ)
term_target k state =
    if eqb_ℤ (to_int state.reg_a1) (pos 0)
    then some k.current_process
    else find_in_tree (suc (suc max_proc)) k.pcbs (to_int state.reg_a1) k.root_process

abbrev pub points_at : Option ℕ → ℕ → Bool
points_at none p = false
points_at (some q) p = p == q

-- The end of terminateProcess, by whether the target was the current process.
unfoldable pub resume_caller : Bool → State → Kernel → Kernel × Outcome
resume_caller true state k = scheduler (record k { current_process = none })
resume_caller false state k = elim k.current_process [
  | none ↦ scheduler k
  | some cur ↦ (save_state k cur state, Outcome.ldst state)
]

unfoldable pub terminate_process : Platform → Kernel → State → Kernel × Outcome
terminate_process c k state =
    let k1 = update_cpu_time k k.current_process in
    elim (term_target k1 state) [
      | none ↦ (k1, Outcome.out_of_fuel)
      | some none ↦ (k1, Outcome.ldst state)
      | some (some t) ↦ kill c k1 t (resume_caller (points_at k1.current_process t) state)
    ]

unfoldable pub passeren : Platform → Kernel → State → Kernel × Outcome
passeren c k state = with_current k λ cur.
    let sem = state.reg_a1 in
    let k1 = save_state (update_cpu_time k (some cur)) cur state in
    let k2 = set_sem k1 sem (decr (k1.sems sem)) in
    if ltb_ℤ (k2.sems sem) (pos 0)
    then block_current_process c k2 sem
    else (k2, Outcome.ldst (pcb k2 cur).p_s)

-- A process taken off a semaphore's queue becomes ready.
unfoldable pub make_ready : Kernel → ℕ → Kernel
make_ready k p =
    let k1 = set_pcb k p (record (pcb k p) { p_sem_add = 0 }) in
    record k1 { ready_queue = insert_proc_q k1.pcbs.table k1.ready_queue p }

unfoldable pub wake_first : Kernel → ℕ → Kernel
wake_first k sem =
    let (a, released) = remove_blocked k.asl sem in
    elim released [ none ↦ record k { asl = a } | some p ↦ make_ready (record k { asl = a }) p ]

unfoldable pub verhogen : Kernel → State → Kernel × Outcome
verhogen k state = with_current k λ cur.
    let sem = state.reg_a1 in
    let k1 = save_state (update_cpu_time k (some cur)) cur state in
    let k2 = set_sem k1 sem (incr (k1.sems sem)) in
    let k3 = if ltb_ℤ (pos 0) (k2.sems sem) then k2 else wake_first k2 sem in
    (k3, Outcome.ldst (pcb k3 cur).p_s)

-- The line, the device and the semaphore index that doIO reads off a register address.
abbrev pub dev_line : ℕ → ℕ
dev_line addr = (addr - start_devreg) / 0x80 + 3

abbrev pub dev_number : ℕ → ℕ
dev_number addr = (addr - start_devreg) % 0x80 / 0x10

unfoldable pub sem_index : ℕ → ℕ
sem_index addr =
    if dev_line addr == 7
    then if leb 0x8 ((addr - start_devreg) % 0x10)
      then 40 + dev_number addr
      else 32 + dev_number addr
    else (dev_line addr - 3) * 8 + dev_number addr

unfoldable pub do_io : Platform → Kernel → State → Kernel × Outcome
do_io c k state =
    let addr = state.reg_a1 in
    let sem = device_semaphore c (sem_index addr) in
    if ltb addr start_devreg || ltb 0x100002D4 addr
    then (k, Outcome.ldst (with_a0 state (to_word (negsuc 0))))
    else with_current k λ cur.
      let k1 = save_state (update_cpu_time k (some cur)) cur state in
      let k2 = set_sem k1 sem (decr (k1.sems sem)) in
      block_current_process c (emit k2 (Event.write_register addr state.reg_a2)) sem

unfoldable pub get_cpu_time : Kernel → State → Kernel × Outcome
get_cpu_time k state = with_current k λ cur.
    let k1 = update_cpu_time k (some cur) in
    (k1, Outcome.ldst (with_a0 state (to_word (pcb k1 cur).p_time)))

unfoldable pub wait_for_clock : Platform → Kernel → State → Kernel × Outcome
wait_for_clock c k state = with_current k λ cur.
    let sem = device_semaphore c 48 in
    let k1 = save_state (update_cpu_time k (some cur)) cur state in
    block_current_process c (set_sem k1 sem (decr (k1.sems sem))) sem

unfoldable pub get_support_data : Kernel → State → Kernel × Outcome
get_support_data k state =
    with_current k λ cur. (k, Outcome.ldst (with_a0 state (pcb k cur).p_support_struct))

unfoldable pub get_process_id : Kernel → State → Kernel × Outcome
get_process_id k state = with_current k λ cur.
    let parent_pid : ℕ = elim (pcb k cur).p_parent [
      | none ↦ 0
      | some prnt ↦ to_word (pcb k prnt).p_pid
    ] in
    let answer =
      if eqb_ℤ (to_int state.reg_a1) (pos 0) then to_word (pcb k cur).p_pid else parent_pid in
    (k, Outcome.ldst (with_a0 state answer))

unfoldable pub yield : Kernel → State → Kernel × Outcome
yield k state = with_current k λ cur.
    let k1 = save_state (update_cpu_time k (some cur)) cur state in
    scheduler (record k1 {
      ready_queue = insert_proc_q k1.pcbs.table k1.ready_queue cur;
      current_process = none;
    })
