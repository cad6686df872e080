-- ===== src/Programs/Phase1/Trees.antt =====
-- phase1/p1test.c: the checks of the process tree.
use Prim.Native.String.{String}
use sistemi_operativi_proget.Common.{ℕ, not, none, some, List}
use sistemi_operativi_proget.Pcb.{empty_child}
use sistemi_operativi_proget.Programs.Phase1.{
  M, ◌>>=◌, ◌>>◌, require, same, for_range, codes, addokbuf, procp_at, get, free, add_child,
  first_child, drop_child,
}

module _ {T : Type 0} (print : T → List ℕ → T) where
  abbrev ok : String → M T (Unit {0})
  ok text = addokbuf print (codes text)

  child_round : ℕ → M T (Unit {0})
  child_round i = do root ← procp_at 0; x ← procp_at i; add_child root x

  orphan_round : ℕ → M T (Unit {0})
  orphan_round i = do root ← procp_at 0; o ← first_child root; require (not (same o none))

  -- Nine children, two taken out, and the seven others removed one by one.
  unfoldable pub check_tree : M T (Unit {0})
  unfolding addokbuf child_round orphan_round
  check_tree = do
    ok "checking process trees...\n"
    two ← procp_at 2
    e ← get (λ s. empty_child s.pcbs two)
    require e
    ok "Inserting...   \n"
    for_range 9 1 child_round
    ok "Inserted 9 children   \n"
    root ← procp_at 0
    e1 ← get (λ s. empty_child s.pcbs root)
    require (not e1)
    one ← procp_at 1
    o ← drop_child one
    require (same o (some one))
    four ← procp_at 4
    o1 ← drop_child four
    require (same o1 (some four))
    o2 ← drop_child root
    require (same o2 none)
    ok "outChild ok   \n"
    ok "Removing...   \n"
    for_range 7 0 orphan_round
    o3 ← first_child root
    require (same o3 none)
    e2 ← get (λ s. empty_child s.pcbs root)
    require e2
    ok "insertChild, removeChild and emptyChild ok   \n"
    ok "process tree module ok      \n"
    for_range 10 0 (λ i. do x ← procp_at i; free x)
