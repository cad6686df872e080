-- ===== src/Tests.antt =====
-- Small machines on which the operations of phase1/ and phase2/ run, and the theorems at them.
pub mod Pager
pub mod Logging
pub mod Calls
pub mod Runs
pub mod Lines
pub mod Waiting
pub mod Rings
pub mod Tools
use sistemi_operativi_proget.Common.{
  ℕ, ◌+◌, ◌<◌, ◌≤◌, ◌≡◌, ◌≢◌, refl, ◌++◌, pos, negsuc, none, some, [], ◌∷◌, arith, leb, length,
  write,
}
use sistemi_operativi_proget.Const.{Platform}
use sistemi_operativi_proget.Types.{State, zero_state, Support, Pcb}
use sistemi_operativi_proget.Pcb.{Pcbs, fresh_pcb, insert_proc_q}
use sistemi_operativi_proget.Pcb.Queue.{insert_proc_q-split, upper, lower}
use sistemi_operativi_proget.Asl.{Asl, find_semd, insert_blocked, remove_blocked, out_blocked}
use sistemi_operativi_proget.Asl.Refines.{
  BlockResult, Unblocked, Withdrawn, insert_blocked-refines, remove_blocked-refines,
  out_blocked-refines,
}
use sistemi_operativi_proget.Asl.Order.{
  IsAscending, insert_blocked-not-IsAscending, out_blocked_keeps_descriptor,
}
use sistemi_operativi_proget.Kernel.{Kernel}
use sistemi_operativi_proget.Kernel.Functions.Terminate.{recursive_terminate_process, enough}
use sistemi_operativi_proget.Kernel.Syscalls.{sem_index}
use sistemi_operativi_proget.Kernel.Interrupt.{
  interrupt_handler, get_highest_priority_device, dev_reg_base, dev_sem_base,
}
use sistemi_operativi_proget.Kernel.Devices.{
  Lowest, sem_index_agrees, get_highest_priority_device-Lowest,
}
use sistemi_operativi_proget.Kernel.Placement.{placed}
use sistemi_operativi_proget.Kernel.Conservation.Interrupts.{interrupt_handler-Conserves}
use sistemi_operativi_proget.Kernel.Termination.{kill_fuel_enough, Ends}

abbrev pub platform : Platform
platform = record {
  cause_exccode_mask = 31;
  cause_is_int = λ cause. leb 0x80000000 cause;
  entryhi_vpn_mask = 0xFFFFF000;
  device_semaphores = 0x20002000;
  test_entry = 0x20003000;
  refill_entry = 0x20004000;
  exception_entry = 0x20005000;
}

-- Process p has identifier p + 1 and priority p, and no tree.
abbrev blocks : ℕ → Pcb
blocks p = record (fresh_pcb (pos (p + 1))) { p_prio = pos p }

abbrev pub mutex : ℕ
mutex = 0x20006000

-- Process 4 waits on the mutex.
abbrev one_blocked : Asl
one_blocked = record {
  semd_h = record { s_key = mutex; s_procq = 4 ∷ [] } ∷ [];
  semd_free = record { s_key = 0; s_procq = [] } ∷ record { s_key = 0; s_procq = [] } ∷ [];
}

abbrev pub no_support : Support
no_support = record {
  sup_asid = pos 0;
  sup_except_state = λ i. zero_state;
  sup_except_context = λ i. record { stack_ptr = 0; status = 0; pc = 0 };
  sup_private_pg_tbl = [];
}

-- Process 1 runs, 3 and 2 are ready, 4 is blocked, and 5 and 6 are free blocks.
abbrev pub busy : Kernel
busy = record {
  pcbs = record { table = blocks; pcb_free = 5 ∷ 6 ∷ []; next_pid = pos 5 };
  asl = one_blocked;
  ready_queue = 3 ∷ 2 ∷ [];
  current_process = some 1;
  root_process = some 1;
  process_count = pos 4;
  soft_block_count = pos 0;
  start_time = pos 10;
  global_lock = pos 0;
  sems = write (λ a. pos 0) mutex (negsuc 0);
  supports = λ a. no_support;
  states = λ a. zero_state;
  registers = λ a. 0;
  clock = λ i. pos (10 + i);
  clock_reads = 1;
  trace = [];
}

abbrev on_mutex : State
on_mutex = record zero_state { reg_a1 = mutex }

abbrev on_disk : State
on_disk = record zero_state { reg_a1 = 0x10000054; reg_a2 = 7 }

pub free_left : busy.asl.semd_free ≢ []
free_left h = cc

abbrev quantum_over : State
quantum_over = record zero_state { cause = 0x80000007 }

interrupt_handler-Conserves_example :
    placed (interrupt_handler platform busy quantum_over).0 1 ≡ placed busy 1
interrupt_handler-Conserves_example = interrupt_handler-Conserves platform busy quantum_over 1

-- Process 1 is the parent of 2 and 3, and 3 that of 4.
abbrev family : Kernel
family = record busy {
  pcbs = record (busy.pcbs) {
    table =
        write (write blocks 1 (record (blocks 1) { p_child = 2 ∷ 3 ∷ [] })) 3
          (record (blocks 3) { p_child = 4 ∷ [] });
  };
}

kill_fuel_enough_example :
    Ends platform family (recursive_terminate_process (enough family) platform family 1)
kill_fuel_enough_example = kill_fuel_enough platform family 1 (omega arith) (λ p lt. ground arith)

insert_proc_q-split_example :
    insert_proc_q blocks (3 ∷ 2 ∷ []) 2
    ≡ upper blocks (pos 2) (3 ∷ 2 ∷ []) ++ 2 ∷ lower blocks (pos 2) (3 ∷ 2 ∷ [])
insert_proc_q-split_example = insert_proc_q-split blocks (3 ∷ 2 ∷ []) 2 (ground arith)

found_mutex : find_semd mutex one_blocked.semd_h ≡ some (record { s_key = mutex; s_procq = 4 ∷ [] })
unfolding find_semd
found_mutex = refl

no_other : find_semd 8 one_blocked.semd_h ≡ none
unfolding find_semd
no_other = refl

abbrev pcbs : Pcbs
pcbs = busy.pcbs

insert_blocked-refines_example :
    BlockResult pcbs one_blocked mutex 1 (insert_blocked pcbs one_blocked mutex 1)
insert_blocked-refines_example = insert_blocked-refines pcbs one_blocked mutex 1 (tt, tt)

remove_blocked-refines_example : Unblocked one_blocked mutex (remove_blocked one_blocked mutex)
remove_blocked-refines_example = remove_blocked-refines one_blocked mutex (tt, tt)

-- The blocks of `pcbs`, with process 4 knowing that it waits on the mutex.
abbrev blocked_pcbs : Pcbs
blocked_pcbs = record pcbs { table = write blocks 4 (record (blocks 4) { p_sem_add = mutex }) }

out_blocked-refines_example :
    Withdrawn blocked_pcbs one_blocked 4 (out_blocked blocked_pcbs one_blocked 4)
out_blocked-refines_example = out_blocked-refines blocked_pcbs one_blocked 4 (tt, tt)

insert_blocked-not-IsAscending_example :
    ¬ IsAscending (insert_blocked pcbs one_blocked 8 1).1.semd_h
insert_blocked-not-IsAscending_example =
    insert_blocked-not-IsAscending pcbs one_blocked 8 1 (record { s_key = mutex; s_procq = 4 ∷ [] })
      (record { s_key = 0; s_procq = [] }) [] (record { s_key = 0; s_procq = [] } ∷ []) refl refl
      no_other

out_blocked_keeps_descriptor_example :
    let b = (out_blocked blocked_pcbs one_blocked 4).0 in
    (find_semd mutex b.semd_h ≡ some (record { s_key = mutex; s_procq = [] }))
    × (length b.semd_h ≡ 1)
    × (b.semd_free ≡ one_blocked.semd_free)
out_blocked_keeps_descriptor_example =
    out_blocked_keeps_descriptor blocked_pcbs one_blocked 4
      (record { s_key = mutex; s_procq = 4 ∷ [] }) found_mutex refl

abbrev disk : ℕ
disk = 3

sem_index_agrees_example :
    (disk < 7 → sem_index (dev_reg_base disk 3 + 4) ≡ dev_sem_base disk 3)
    × (disk ≡ 7 → 4 < 8 → sem_index (dev_reg_base disk 3 + 4) ≡ 32 + 3)
    × (disk ≡ 7 → 8 ≤ 4 → sem_index (dev_reg_base disk 3 + 4) ≡ 40 + 3)
sem_index_agrees_example = sem_index_agrees disk 3 4 (omega arith) (omega arith) (omega arith)

get_highest_priority_device-Lowest_example : Lowest 0 8 12 (get_highest_priority_device 12)
get_highest_priority_device-Lowest_example = get_highest_priority_device-Lowest 12
