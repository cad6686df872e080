-- ===== src/Kernel/Population/Start.antt =====
-- initKernel of phase2/initial.c: where the count of processes and free blocks starts.
use sistemi_operativi_proget.Common.{ℕ, ◌≤◌, ◌≡◌, refl, pos, ◌+ℤ◌, ltb, false, arith}
use sistemi_operativi_proget.Const.{Platform, page_size, max_proc}
use sistemi_operativi_proget.Pcb.{init_pcbs, alloc_pcb, alloc_from, insert_proc_q}
use sistemi_operativi_proget.Kernel.{Kernel}
use sistemi_operativi_proget.Kernel.Scheduler.{scheduler, schedule, dispatch}
use sistemi_operativi_proget.Kernel.Init.{init_globals, start_root, init_kernel}
use sistemi_operativi_proget.Kernel.Population.{population}

-- As long as a pcb_t fits in a page, initKernel leaves MAXPROC processes and free blocks together,
-- one of them the root process, which runs.
pub init_kernel-population :
    (c : Platform) (ramtop sizeof_pcb : ℕ) (k : Kernel)
    → sizeof_pcb ≤ page_size
    → (population (init_kernel c ramtop sizeof_pcb k).0 ≡ pos max_proc)
      × ((init_kernel c ramtop sizeof_pcb k).0.current_process
          ≡ (init_kernel c ramtop sizeof_pcb k).0.root_process)
      × ((init_kernel c ramtop sizeof_pcb k).0.process_count ≡ pos 1)
unfolding init_kernel init_globals start_root init_pcbs alloc_pcb alloc_from insert_proc_q scheduler
    schedule dispatch ◌+ℤ◌
init_kernel-population c ramtop sizeof_pcb k fits =
    let small : ltb page_size sizeof_pcb ≡ false = ground arith in rw small (refl, refl, refl)
