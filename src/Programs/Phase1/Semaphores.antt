-- ===== src/Programs/Phase1/Semaphores.antt =====
-- phase1/p1test.c: the checks of the active semaphore list, and main. The addresses of the array
-- sem and of onesem are parameters.
use Prim.Native.String.{String}
use sistemi_operativi_proget.Common.{ℕ, ◌-◌, not, none, List}
use sistemi_operativi_proget.Programs.Phase1.{
  M, ◌>>=◌, ◌>>◌, require, follow, same, for_range, codes, addokbuf, procp_at, get, alloc, init_a,
  insert_b, remove_b, out_b, head_b, put_procp, set_q, set_p,
}
use sistemi_operativi_proget.Programs.Phase1.Queues.{
  check_alloc, check_out, check_remove, check_prio,
}
use sistemi_operativi_proget.Programs.Phase1.Trees.{check_tree}

module _ {T : Type 0} (print : T → List ℕ → T) (sem : ℕ → ℕ) (onesem : ℕ) where
  abbrev ok : String → M T (Unit {0})
  ok text = addokbuf print (codes text)

  block_round : ℕ → M T (Unit {0})
  block_round i = do
    o ← alloc
    put_procp i o
    x ← follow o
    full ← insert_b (sem i) x
    require (not full)

  -- Twenty processes on twenty semaphores: then no descriptor is left.
  unfoldable pub check_insert : M T (Unit {0})
  unfolding addokbuf block_round
  check_insert = do
    init_a
    ok "Initialized active semaphore list   \n"
    ok "insertBlocked test #1 started  \n"
    for_range 10 10 block_round
    ok "insertBlocked test #2 started  \n"
    for_range 10 0 block_round
    o ← remove_b (sem 11)
    set_p o
    x ← follow o
    full ← insert_b (sem 11) x
    require (not full)
    y ← procp_at 9
    full1 ← insert_b onesem y
    require full1

  move_round : ℕ → M T (Unit {0})
  move_round i = do
    o ← remove_b (sem i)
    set_q o
    require (not (same o none))
    old ← get (λ s. s.procp i)
    require (same o old)
    x ← follow o
    full ← insert_b (sem (i - 10)) x
    require (not full)

  -- The ten of the upper half move to the semaphores of the lower half.
  unfoldable pub check_move : M T (Unit {0})
  unfolding addokbuf move_round
  check_move = do
    ok "removeBlocked test started   \n"
    for_range 10 10 move_round
    o ← remove_b (sem 11)
    require (same o none)
    ok "insertBlocked and removeBlocked ok   \n"

  -- headBlocked and outBlocked on a queue of two.
  unfoldable pub check_head : M T (Unit {0})
  unfolding addokbuf
  check_head = do
    o ← head_b (sem 11)
    require (same o none)
    a ← head_b (sem 9)
    set_q a
    require (not (same a none))
    nine ← get (λ s. s.procp 9)
    require (same a nine)
    x ← follow a
    b ← out_b x
    set_p b
    require (same b a)
    c ← head_b (sem 9)
    set_q c
    require (not (same c none))
    nineteen ← get (λ s. s.procp 19)
    require (same c nineteen)
    y ← follow c
    d ← out_b y
    set_p d
    require (same d c)
    e ← out_b y
    set_p e
    require (same e none)
    f ← head_b (sem 9)
    require (same f none)
    ok "headBlocked and outBlocked ok   \n"
    ok "ASL module ok   \n"
    ok "So Long and Thanks for All the Fish\n"

  unfoldable pub phase1_main : M T (Unit {0})
  phase1_main = do
    check_alloc print
    check_out print
    check_remove print
    check_prio print
    check_tree print
    check_insert
    check_move
    check_head
