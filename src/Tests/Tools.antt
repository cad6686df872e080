-- ===== src/Tests/Tools.antt =====
-- The test programs of the repository at concrete machines.
use sistemi_operativi_proget.Common.{ℕ, ◌≡◌, refl, pos, [], ◌∷◌, arith}
use sistemi_operativi_proget.Types.{State, zero_state}
use sistemi_operativi_proget.Programs.Terminal.{
  Terminal, Settles, Prints, termprint, termprint-Prints,
}
use sistemi_operativi_proget.Programs.Testers.{
  newborn, EndsWell, Completes, uname_main, date_main, sl_main, fib_eight_main, fib_eleven_main,
  testers_terminate,
}
use sistemi_operativi_proget.Programs.Phase2.{
  Entries, Spaced, states_of, set_up_states, set_up_states-Spaced,
}
use sistemi_operativi_proget.Programs.Phase2.Pairs.{Moved, v_rounds, p_rounds, v_then_p}
use sistemi_operativi_proget.Tests.{platform, busy}

-- A terminal that has transmitted whatever it was sent.
abbrev terminal : Terminal
terminal = record { readings = λ i. 5; reads = 0; commands = [] }

terminal-Settles : Settles 1 terminal.readings
terminal-Settles i = (0, omega arith, λ e. omega (arith, e))

termprint-Prints_example :
    Prints (111 ∷ 107 ∷ []) terminal (termprint 1 (111 ∷ 107 ∷ []) 0 terminal)
termprint-Prints_example = termprint-Prints 1 (111 ∷ 107 ∷ []) 0 terminal terminal-Settles

testers_terminate_example :
    EndsWell (λ i. pos 1) (uname_main (λ i. pos 1) newborn)
    × EndsWell (λ i. pos 1) (date_main (λ i. pos 1) newborn)
    × EndsWell (λ i. pos 1) (sl_main (λ i. pos 1) newborn)
    × Completes (λ i. pos 1) (fib_eight_main (λ i. pos 1) newborn)
    × Completes (λ i. pos 1) (fib_eleven_main (λ i. pos 1) newborn)
testers_terminate_example = testers_terminate (λ i. pos 1) newborn refl

abbrev entries : Entries
entries = record {
  hp_p1 = 1;
  hp_p2 = 2;
  p2 = 3;
  p3 = 4;
  p4 = 5;
  p5 = 6;
  p6 = 7;
  p7 = 8;
  p8root = 9;
  child1 = 10;
  child2 = 11;
  p8leaf1 = 12;
  p8leaf2 = 13;
  p8leaf3 = 14;
  p8leaf4 = 15;
  p9 = 16;
  p10 = 17;
}

abbrev stored : ℕ → State
stored i = record zero_state { reg_sp = 0x20100000 }

set_up_states-Spaced_example : Spaced 0x20100000 (states_of (set_up_states stored entries))
set_up_states-Spaced_example = set_up_states-Spaced stored entries (omega arith) (omega arith)

-- Where sem_testsem stands.
abbrev sem_testsem : ℕ
sem_testsem = 0x20010000

v_then_p_example :
    (let raised = v_rounds 3 sem_testsem zero_state busy in
      (raised.sems sem_testsem ≡ pos 3)
      × Moved busy (p_rounds 3 platform sem_testsem zero_state raised) 1 sem_testsem (pos 0))
v_then_p_example = v_then_p 3 platform busy zero_state 1 sem_testsem 0 refl (ground arith)
