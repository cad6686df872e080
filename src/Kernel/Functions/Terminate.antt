-- ===== src/Kernel/Functions/Terminate.antt =====
-- phase2/functions.c: recursiveTerminateProcess and passUpOrDie. The two loops of the termination
-- run on one fuel.
use sistemi_operativi_proget.Common.{
  ℕ, zero, suc, ◌+◌, ℤ, pos, negsuc, ltb_ℤ, Option, none, some, ◌==◌, if◌then◌else◌, write, length,
}
use sistemi_operativi_proget.Const.{Platform, max_proc}
use sistemi_operativi_proget.Types.{State, Outcome}
use sistemi_operativi_proget.Pcb.{remove_child, out_child, free_pcb, out_proc_q}
use sistemi_operativi_proget.Asl.{Asl, out_blocked}
use sistemi_operativi_proget.Kernel.{Kernel, pcb, set_pcb, set_sem, incr, decr, with_current}
use sistemi_operativi_proget.Kernel.Scheduler.{scheduler}
use sistemi_operativi_proget.Kernel.Functions.{is_soft_block_semaphore, update_cpu_time}

-- A process that outBlocked found is uncounted, or gives its unit back to the semaphore.
unfoldable pub give_back : Platform → Kernel → ℕ → Asl × Option ℕ → Kernel
give_back c k sem (a, none) = record k { asl = a }
give_back c k sem (a, some p) =
    let k1 : Kernel = record k { asl = a } in
    if is_soft_block_semaphore c sem
    then record k1 { soft_block_count = decr k1.soft_block_count }
    else set_sem k1 sem (incr (k1.sems sem))

-- The semaphore on which the dying process was blocked, if it was.
unfoldable pub leave_semaphore : Platform → Kernel → ℕ → Kernel
leave_semaphore c k t =
    let sem = (pcb k t).p_sem_add in
    if sem == 0 then k else give_back c k sem (out_blocked k.pcbs k.asl t)

-- `if (target == currentProcess) currentProcess = NULL`
abbrev pub clear_current : Option ℕ → ℕ → Option ℕ
clear_current none t = none
clear_current (some p) t = if p == t then none else some p

-- Out of the ready queue, off the processor, off the tree, and back to the free blocks.
unfoldable pub release_pcb : Kernel → ℕ → Kernel
release_pcb k t = record k {
  ready_queue = (out_proc_q k.ready_queue t).0;
  current_process = clear_current k.current_process t;
  pcbs = free_pcb (out_child k.pcbs t).0 t;
  process_count = decr k.process_count;
}

unfoldable pub detach : Platform → Kernel → ℕ → Kernel
detach c k t = release_pcb (leave_semaphore c k t) t

abbrev pub and_then : Option Kernel → (Kernel → Option Kernel) → Option Kernel
and_then none f = none
and_then (some k) f = f k

-- `while ((child = removeChild(target)) != NULL) kill(child)`
unfoldable pub children_loop : (Kernel → ℕ → Option Kernel) → ℕ → Kernel → ℕ → Option Kernel
children_loop kill zero k t = none
children_loop kill (suc n) k t =
    let (s, child) = remove_child k.pcbs t in
    elim child [
      | none ↦ some k
      | some p ↦ and_then (kill (record k { pcbs = s }) p) (λ k1. children_loop kill n k1 t)
    ]

unfoldable pub recursive_terminate_process : ℕ → Platform → Kernel → ℕ → Option Kernel
recursive_terminate_process zero c k t = none
recursive_terminate_process (suc f) c k t =
    let marked = set_pcb k t (record (pcb k t) { p_pid = negsuc 0 }) in
    let rest = children_loop (λ k1 p. recursive_terminate_process f c k1 p) f marked t in
    if ltb_ℤ (pcb k t).p_pid (pos 0) then some k else and_then rest (λ k1. some (detach c k1 t))

-- 1 for a process that is not marked as terminated.
abbrev pub alive : ℤ → ℕ
alive pid = if ltb_ℤ pid (pos 0) then 0 else 1

-- The processes of the first n blocks that are not marked, and their child links.
unfoldable pub work_left : ℕ → (ℕ → ℕ) → ℕ
work_left zero w = 0
work_left (suc n) w = w n + work_left n w

abbrev pub weight : Kernel → ℕ → ℕ
weight k p = alive (pcb k p).p_pid + length (pcb k p).p_child

unfoldable pub enough : Kernel → ℕ
enough k = suc (work_left max_proc (weight k))

-- The case of recursiveTerminateProcess for the calls in the handlers.
abbrev pub kill : Platform → Kernel → ℕ → (Kernel → Kernel × Outcome) → Kernel × Outcome
kill c k t next = elim (recursive_terminate_process (enough k) c k t) [
  | none ↦ (k, Outcome.out_of_fuel)
  | some k1 ↦ next k1
]

unfoldable pub pass_up_or_die : Platform → Kernel → ℕ → State → Kernel × Outcome
pass_up_or_die c k kind state = with_current k λ p.
    let sup = (pcb k p).p_support_struct in
    let s = k.supports sup in
    if sup == 0
    then kill c (update_cpu_time k (some p)) p
        (λ k1. scheduler (record k1 { current_process = none }))
    else (
      record k {
        supports =
            write k.supports sup
              (record s { sup_except_state = write s.sup_except_state kind state });
      },
      Outcome.ldcxt (s.sup_except_context kind),
    )
