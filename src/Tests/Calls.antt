-- ===== src/Tests/Calls.antt =====
-- A process that writes two characters to the terminal, and the theorems on its system call.
use sistemi_operativi_proget.Common.{◌+◌, ◌≡◌, refl, [], ◌∷◌, arith, write}
use sistemi_operativi_proget.Types.{State, zero_state}
use sistemi_operativi_proget.Kernel.Syscalls.{with_a0}
use sistemi_operativi_proget.Support.{Level, Ending, Action}
use sistemi_operativi_proget.Support.Locks.{taken, given}
use sistemi_operativi_proget.Support.Sys.{sys4_write_terminal, support_general_ex_handler}
use sistemi_operativi_proget.Support.Terminal.{commands, general_handler_settles, sys4_writes_all}
use sistemi_operativi_proget.Tests.{platform, no_support}
use sistemi_operativi_proget.Tests.Pager.{layout, faulting}

abbrev write_call : State
write_call = record zero_state { cause = 8; reg_a0 = 4; reg_a1 = 0x80000000; reg_a2 = 2 }

abbrev writing : Level
writing = record faulting {
  supports = λ a. record no_support { sup_except_state = λ i. write_call };
  memory = write (write (λ a. 0) 0x80000000 72) 0x80000001 105;
  answers = λ n. 5;
}

general_handler_settles_example :
    taken 0x2000700C (support_general_ex_handler platform layout writing 1).0.actions + 0
    ≡ given 0x2000700C (support_general_ex_handler platform layout writing 1).0.actions + 0
general_handler_settles_example =
    general_handler_settles platform layout writing 1 0x2000700C (omega arith) (omega arith)

sys4_writes_all_example :
    ((sys4_write_terminal layout writing 1).1 ≡ Ending.resumes (with_a0 write_call 2))
    × ((sys4_write_terminal layout writing 1).0.actions
        ≡ Action.verhogen 0x2000700C
          ∷ commands 2 writing.memory 0x80000000 0 (Action.passeren 0x2000700C ∷ []))
sys4_writes_all_example = sys4_writes_all layout writing 1 (λ j. refl) (omega arith) (omega arith)
