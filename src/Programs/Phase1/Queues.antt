-- ===== src/Programs/Phase1/Queues.antt =====
-- phase1/p1test.c: the checks of the process queues.
use Prim.Native.String.{String}
use sistemi_operativi_proget.Common.{ℕ, ◌-◌, not, Option, none, some, List, [], ◌==◌, if◌then◌else◌}
use sistemi_operativi_proget.Const.{max_proc}
use sistemi_operativi_proget.Pcb.{empty_proc_q, head_proc_q}
use sistemi_operativi_proget.Programs.Phase1.{
  Phase1, M, ◌>>=◌, ◌>>◌, require, follow, same, for_range, codes, addokbuf, procp_at, get, init_p,
  alloc, free, insert_q, remove_q, out_q, set_prio, put_procp, set_q,
}

module _ {T : Type 0} (print : T → List ℕ → T) where
  abbrev ok : String → M T (Unit {0})
  ok text = addokbuf print (codes text)

  alloc_round : ℕ → M T (Unit {0})
  alloc_round i = do o ← alloc; put_procp i o; require (not (same o none))

  -- The checks of allocPcb, up to "freed 10 entries".
  unfoldable pub check_alloc : M T (Unit {0})
  unfolding addokbuf alloc_round
  check_alloc = do
    init_p
    ok "Initialized process control blocks   \n"
    for_range max_proc 0 alloc_round
    o ← alloc
    require (same o none)
    ok "allocPcb ok   \n"
    for_range (max_proc - 10) 10 (λ i. do x ← procp_at i; free x)
    ok "freed 10 entries   \n"

  -- The switch over i.
  abbrev note_place : ℕ → Option ℕ → M T (Unit {0})
  note_place i o s = some (
    tt,
    if i == 0
        then record s { firstproc = o }
        else if i == 5
        then record s { midproc = o }
        else if i == 9
        then record s { lastproc = o }
        else s,
  )

  insert_round : ℕ → M T (Unit {0})
  insert_round i = do o ← alloc; set_q o; x ← follow o; note_place i o; insert_q x

  -- Insertion, outProcQ and headProcQ on a queue of ten, up to "outProcQ ok".
  unfoldable pub check_out : M T (Unit {0})
  unfolding addokbuf insert_round
  check_out = do
    (λ s. some (tt, record s { qa = [] }))
    e ← get (λ s. empty_proc_q s.qa)
    require e
    ok "Inserting...   \n"
    for_range 10 0 insert_round
    ok "inserted 10 elements   \n"
    e1 ← get (λ s. empty_proc_q s.qa)
    require (not e1)
    first ← get Phase1.firstproc
    h ← get (λ s. head_proc_q s.qa)
    require (same h first)
    f ← follow first
    o ← out_q f
    require (same o first)
    x ← follow o
    free x
    mid ← get Phase1.midproc
    g ← follow mid
    o1 ← out_q g
    require (same o1 mid)
    y ← follow o1
    free y
    z ← procp_at 0
    o2 ← out_q z
    require (same o2 none)
    ok "outProcQ ok   \n"

  remove_round : ℕ → M T (Unit {0})
  remove_round i = do o ← remove_q; set_q o; x ← follow o; free x

  -- Eight removals in order, and no ninth.
  unfoldable pub check_remove : M T (Unit {0})
  unfolding addokbuf remove_round
  check_remove = do
    ok "Removing...   \n"
    for_range 8 0 remove_round
    o ← get Phase1.q
    last ← get Phase1.lastproc
    require (same o last)
    o1 ← remove_q
    require (same o1 none)
    e ← get (λ s. empty_proc_q s.qa)
    require e

  with_prio : ℕ → M T ℕ
  with_prio n = do o ← alloc; x ← follow o; set_prio x n; insert_q x; (λ s. some (x, s))

  -- Four processes of three priorities leave by priority, and in order among equals.
  unfoldable pub check_prio : M T (Unit {0})
  unfolding addokbuf with_prio
  check_prio = do
    ok "Stating priority queue tests...   \n"
    p1 ← with_prio 20
    p2 ← with_prio 10
    p3 ← with_prio 5
    p2bis ← with_prio 10
    a ← remove_q
    require (same a (some p1))
    b ← remove_q
    require (same b (some p2))
    c ← remove_q
    require (same c (some p2bis))
    d ← remove_q
    require (same d (some p3))
    free p1
    free p2
    free p2bis
    free p3
    ok "insertProcQ, removeProcQ and emptyProcQ ok   \n"
    ok "process queues module ok      \n"
