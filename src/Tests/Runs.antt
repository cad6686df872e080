-- ===== src/Tests/Runs.antt =====
-- Runs of the nucleus from initKernel, and the theorems on the states reached.
use sistemi_operativi_proget.Common.{
  ℕ, Option, ◌+◌, inl, some, ◌≡◌, ◌≢◌, refl, pos, negsuc, eqb_ℤ, to_int, true, false, [], arith,
  length, ◌+ℤ◌,
}
use sistemi_operativi_proget.Types.{State, zero_state, Outcome}
use sistemi_operativi_proget.Pcb.{fresh_pcb, alloc_pcb, alloc_from, init_pcbs, insert_proc_q}
use sistemi_operativi_proget.Asl.{init_asl}
use sistemi_operativi_proget.Kernel.{Kernel}
use sistemi_operativi_proget.Kernel.Init.{init_kernel, init_globals, start_root}
use sistemi_operativi_proget.Kernel.Scheduler.{scheduler, schedule, dispatch}
use sistemi_operativi_proget.Kernel.Exception.{
  exception_handler, system_call_handler, dispatch_syscall,
}
use sistemi_operativi_proget.Kernel.Choice.{HandsOver, yield-HandsOver}
use sistemi_operativi_proget.Kernel.Syscalls.{yield, create_process, finish_create, admit}
use sistemi_operativi_proget.Kernel.Placement.{placed}
use sistemi_operativi_proget.Kernel.Functions.Terminate.{enough, recursive_terminate_process}
use sistemi_operativi_proget.Kernel.Sound.{Sound}
use sistemi_operativi_proget.Kernel.Functions.{find_in_tree, is_soft_block_semaphore}
use sistemi_operativi_proget.Kernel.Sound.Target.{SearchResult, find_in_tree-SearchResult}
use sistemi_operativi_proget.Kernel.Sound.Terminate.{FamilyFreed, recursive_terminate-FamilyFreed}
use sistemi_operativi_proget.Kernel.Sound.Start.{Zeroed, init_kernel-Sound}
use sistemi_operativi_proget.Kernel.Reachable.{
  Reachable, NamesSemaphore, Reachable-population, Reachable-descriptors, Reachable-Sound,
  Reachable-Stops,
}
use sistemi_operativi_proget.Kernel.Reachable.Placed.{Reachable-placed}
use sistemi_operativi_proget.Kernel.Reachable.Counted.{Reachable-Counted}
use sistemi_operativi_proget.Kernel.SoftBlock.{Counted}
use sistemi_operativi_proget.Kernel.Closed.Exceptions.{IsCall}
use sistemi_operativi_proget.Tests.{platform, busy}

-- Memory as it is before main.
abbrev powered : Kernel
powered = record busy {
  pcbs = record { table = λ x. fresh_pcb (pos 0); pcb_free = []; next_pid = pos 1 };
}

powered-Zeroed : Zeroed powered
powered-Zeroed = record { pid = λ x. refl; child = λ x. refl; next = refl }

abbrev started : Kernel
started = (init_kernel platform 0x20100000 400 powered).0

abbrev yielding : State
yielding = record zero_state { cause = 11; status = 0x1800; reg_a0 = 0xFFFFFFF6 }

-- TERMPROCESS of the caller.
abbrev leaving : State
leaving = record zero_state { cause = 11; status = 0x1800; reg_a0 = 0xFFFFFFFE }

yielding_names : (k : Kernel) → NamesSemaphore platform k yielding
yielding_names k call e = cc

leaving_names : (k : Kernel) → NamesSemaphore platform k leaving
leaving_names k call e = cc

abbrev after_yield : Kernel
after_yield = (exception_handler platform started yielding 0).0

semaphores_placed : platform.device_semaphores ≢ 0
semaphores_placed e = omega (arith, e)

yield_reached : Reachable platform Zeroed (NamesSemaphore platform) after_yield
yield_reached =
    Reachable.excepted started yielding 0 (yielding_names started)
      (Reachable.booted 0x20100000 400 powered (omega arith) powered-Zeroed)

Reachable-population_example :
    after_yield.process_count +ℤ pos (length after_yield.pcbs.pcb_free) ≡ pos 20
Reachable-population_example =
    Reachable-population platform Zeroed (NamesSemaphore platform) after_yield yield_reached

Reachable-descriptors_example :
    length after_yield.asl.semd_h + length after_yield.asl.semd_free ≡ 20
Reachable-descriptors_example =
    Reachable-descriptors platform Zeroed (NamesSemaphore platform) after_yield yield_reached

Reachable-Sound_example : Sound after_yield
Reachable-Sound_example = Reachable-Sound platform after_yield semaphores_placed yield_reached

Reachable-Stops_example : (exception_handler platform after_yield leaving 0).1 ≢ Outcome.out_of_fuel
Reachable-Stops_example =
    Reachable-Stops platform after_yield leaving 0 semaphores_placed yield_reached

started-Sound : Sound started
started-Sound = init_kernel-Sound platform 0x20100000 400 powered (omega arith) powered-Zeroed

spare_left : started.asl.semd_free ≢ []
unfolding init_kernel alloc_pcb alloc_from init_globals init_pcbs scheduler schedule start_root
    insert_proc_q dispatch init_asl
spare_left e = cc

Reachable-placed_example : placed after_yield 19 ≡ 1
Reachable-placed_example =
    Reachable-placed platform after_yield 19 semaphores_placed
      (Reachable.excepted started yielding 0 (spare_left, yielding_names started)
        (Reachable.booted 0x20100000 400 powered (omega arith) powered-Zeroed))
      (omega arith)

-- It is no V.
yielding_plain :
    IsCall platform yielding
    → eqb_ℤ (to_int yielding.reg_a0) (negsuc 3) ≡ true
    → is_soft_block_semaphore platform yielding.reg_a1 ≡ false
yielding_plain call e = cc

Reachable-Counted_example : Counted platform after_yield
Reachable-Counted_example = Reachable-Counted platform Zeroed after_yield (
    Reachable.excepted started yielding 0 (spare_left, yielding_plain)
      (Reachable.booted 0x20100000 400 powered (omega arith) powered-Zeroed))

-- CREATEPROCESS, so that the root process has a child.
abbrev creating : State
creating = record zero_state { cause = 11; status = 0x1800; reg_a0 = 0xFFFFFFFF }

creating_names : (k : Kernel) → NamesSemaphore platform k creating
creating_names k call e = cc

abbrev parent : Kernel
parent = (exception_handler platform started creating 0).0

parent-Sound : Sound parent
parent-Sound = Reachable-Sound platform parent semaphores_placed (
    Reachable.excepted started creating 0 (creating_names started)
      (Reachable.booted 0x20100000 400 powered (omega arith) powered-Zeroed))

parent_runs : parent.current_process ≡ some 19
unfolding exception_handler system_call_handler dispatch_syscall create_process init_kernel
    alloc_pcb alloc_from init_globals init_pcbs scheduler schedule start_root insert_proc_q dispatch
    finish_create admit
parent_runs = refl

recursive_terminate-FamilyFreed_example :
    (k1 : Kernel) × (recursive_terminate_process (enough parent) platform parent 19 ≡ some k1)
    × FamilyFreed parent k1 19
recursive_terminate-FamilyFreed_example =
    recursive_terminate-FamilyFreed platform parent 19 parent-Sound (inl parent_runs)

yield-HandsOver_example : HandsOver parent zero_state 19 (yield parent zero_state)
yield-HandsOver_example = yield-HandsOver parent zero_state 19 parent-Sound parent_runs

find_in_tree-SearchResult_example :
    (r : Option ℕ) × (find_in_tree 22 parent.pcbs (pos 2) (some 19) ≡ some r)
    × SearchResult parent.pcbs.table 19 (pos 2) r
find_in_tree-SearchResult_example = find_in_tree-SearchResult parent (pos 2) 19 parent-Sound
