-- ===== src/Kernel/Reachable/Placed.antt =====
-- Where the process blocks are in the states that the kernel reaches.
use sistemi_operativi_proget.Common.{ℕ, ◌<◌, ◌≤◌, ◌≡◌, ◌≢◌, ltb, false, [], arith}
use sistemi_operativi_proget.Const.{Platform, page_size, max_proc}
use sistemi_operativi_proget.Types.{State}
use sistemi_operativi_proget.Pcb.{init_pcbs, alloc_pcb, alloc_from, insert_proc_q}
use sistemi_operativi_proget.Asl.{init_asl}
use sistemi_operativi_proget.Kernel.{Kernel}
use sistemi_operativi_proget.Kernel.Placement.{placed}
use sistemi_operativi_proget.Kernel.Scheduler.{scheduler, schedule, dispatch}
use sistemi_operativi_proget.Kernel.Init.{init_kernel, init_globals, start_root}
use sistemi_operativi_proget.Kernel.Sound.Start.{Zeroed, init_kernel-Sound}
use sistemi_operativi_proget.Kernel.Sound.Exact.{Exact-Closed}
use sistemi_operativi_proget.Kernel.Reachable.{Reachable, Reachable-keeps, NamesSemaphore}

-- A descriptor is free, and a call P names a semaphore.
abbrev pub SpareAndNamed : Platform → Kernel → State → Type 0
SpareAndNamed c k state = (k.asl.semd_free ≢ []) × NamesSemaphore c k state

-- Every block of the table is free or the root's.
init_kernel-placed :
    (c : Platform) (ramtop sizeof_pcb : ℕ) (k : Kernel) (x : ℕ)
    → sizeof_pcb ≤ page_size
    → x < max_proc
    → placed (init_kernel c ramtop sizeof_pcb k).0 x ≡ 1
unfolding init_kernel init_globals start_root init_pcbs alloc_pcb alloc_from insert_proc_q scheduler
    schedule dispatch init_asl
init_kernel-placed c ramtop sizeof_pcb k x fits lt =
    let small : ltb page_size sizeof_pcb ≡ false = ground arith in rw small (ground (arith, lt))

-- In every state that the kernel reaches from zeroed process blocks, where device semaphores have
-- addresses, each exception finds a free descriptor and no call P names NULL, each of the MAXPROC
-- process control blocks is in exactly one place: on the list of free blocks, in the ready queue, in
-- one semaphore's queue or on the processor. None is lost, and none is in two places.
pub Reachable-placed :
    (c : Platform) (k : Kernel) (x : ℕ)
    → c.device_semaphores ≢ 0
    → Reachable c Zeroed (SpareAndNamed c) k
    → x < max_proc
    → placed k x ≡ 1
Reachable-placed c k x dev r lt =
    (Reachable-keeps (Exact-Closed x) c Zeroed (SpareAndNamed c)
      (λ ramtop sizeof_pcb k0 fits z. (
        init_kernel-Sound c ramtop sizeof_pcb k0 fits z,
        init_kernel-placed c ramtop sizeof_pcb k0 x fits lt,
      ))
      (λ k0 state i. ((λ j. ((λ z. dev (omega (arith, z))), i.0)), λ call e. (i.1 call e, i.0))) k
      r).1
