-- ===== src/Kernel/Sound/Search.antt =====
-- findInTree of phase2/functions.c comes to an end: identifiers grow along a path down the tree.
use sistemi_operativi_proget.Common.{
  ℕ, zero, suc, ◌≢◌, ◌≤◌, ◌<◌, ℤ, pos, ◌<ℤ◌, ltb_ℤ, eqb_ℤ, Option, none, some, List, [], ◌∷◌, arith,
  count, inl, inr, if◌then◌else◌, if_cases,
}
use sistemi_operativi_proget.Const.{max_proc}
use sistemi_operativi_proget.Types.{Pcb}
use sistemi_operativi_proget.Pcb.{Pcbs}
use sistemi_operativi_proget.Kernel.{Kernel}
use sistemi_operativi_proget.Kernel.Functions.{find_first, find_in_tree}
use sistemi_operativi_proget.Kernel.Functions.Terminate.{work_left}
use sistemi_operativi_proget.Kernel.Termination.Work.{work_left-less}
use sistemi_operativi_proget.Kernel.Sound.Kill.{GoodAt}
use sistemi_operativi_proget.Kernel.Sound.Sweep.{pid_near}

-- The search ran to its end.
abbrev pub Ended : Option (Option ℕ) → Type 0
Ended none = ⊥
Ended (some r) = Unit

find_first-Ended :
    (f : ℕ → Option (Option ℕ)) (l : List ℕ)
    → ((x : ℕ) → count x l ≢ 0 → Ended (f x))
    → Ended (find_first f l)
unfolding find_first
find_first-Ended f [] h = tt
find_first-Ended f (x ∷ l) h =
    by_answer (f x) (h x (λ z. ground (arith, z)))
      (find_first-Ended f l (λ y n. h y (λ z. n (omega (arith, z)))))
  where
    by_answer :
        (o : Option (Option ℕ))
        → Ended o
        → Ended (find_first f l)
        → Ended
            (elim o [ none ↦ none | some none ↦ find_first f l | some (some p) ↦ some (some p) ])
    by_answer none e rest = e
    by_answer (some none) e rest = rest
    by_answer (some (some p)) e rest = tt

-- How many blocks have a greater identifier than the process.
abbrev above : (ℕ → Pcb) → ℕ → ℕ → ℕ
above t x z = if ltb_ℤ (t x).p_pid (t z).p_pid then 1 else 0

abbrev rank : (ℕ → Pcb) → ℕ → ℕ
rank t x = work_left max_proc (above t x)

rank-less :
    (t : ℕ → Pcb) (x y : ℕ) → x < max_proc → (t y).p_pid <ℤ (t x).p_pid → rank t x < rank t y
rank-less t x y near less =
    work_left-less max_proc x (above t x) (above t y) near (ground (arith, less))
      (λ z. ground (arith, less))

work_left-bound : (n : ℕ) (v : ℕ → ℕ) → ((x : ℕ) → v x ≤ 1) → work_left n v ≤ n
unfolding work_left
work_left-bound zero v h = omega arith
work_left-bound (suc n) v h = omega (arith, h n, work_left-bound n v h)

rank-bound : (t : ℕ → Pcb) (x : ℕ) → rank t x ≤ max_proc
rank-bound t x = work_left-bound max_proc (above t x) (λ z. ground arith)

-- The dead are not searched.
dead-Ended :
    (fuel : ℕ) (s : Pcbs) (pid : ℤ) (node : ℕ)
    → (s.table node).p_pid <ℤ pos 0
    → Ended (find_in_tree (suc fuel) s pid (some node))
unfolding find_in_tree
dead-Ended fuel s pid node dead =
    if_cases {A = Option (Option ℕ)} Ended (ltb_ℤ (s.table node).p_pid (pos 0)) _ _ (λ _. tt)
      (λ e. absurd (ground (arith, e, dead)))

find_in_tree-Ended :
    (fuel : ℕ) (k : Kernel) (pid : ℤ) (node : ℕ)
    → GoodAt k
    → suc (rank k.pcbs.table node) < fuel
    → Ended (find_in_tree fuel k.pcbs pid (some node))
unfolding find_in_tree
find_in_tree-Ended zero k pid node g lt = absurd (omega arith)
find_in_tree-Ended (suc zero) k pid node g lt = absurd (omega arith)
find_in_tree-Ended (suc (suc fuel)) k pid node g lt =
    let t = k.pcbs.table in
    let below : (x : ℕ)
        → count x (t node).p_child ≢ 0
        → Ended (find_in_tree (suc fuel) k.pcbs pid (some x)) =
      λ x n. elim (g.older x node n) [
        | inl dead ↦ dead-Ended fuel k.pcbs pid x dead
        | inr younger ↦
            find_in_tree-Ended (suc fuel) k pid x g
              (omega (arith, lt, rank-less t x node (pid_near k x g (g.child x node n)) younger))
      ] in
    if_cases {A = Option (Option ℕ)} Ended (ltb_ℤ (t node).p_pid (pos 0)) _ _ (λ _. tt)
      (λ _.
        if_cases {A = Option (Option ℕ)} Ended (eqb_ℤ (t node).p_pid pid) _ _ (λ _. tt)
          (λ _.
            find_first-Ended (λ x. find_in_tree (suc fuel) k.pcbs pid (some x)) (t node).p_child
              below))

-- The search over the whole tree, on two rounds more than there are blocks.
pub search-Ended :
    (k : Kernel) (pid : ℤ) (o : Option ℕ)
    → GoodAt k
    → Ended (find_in_tree (suc (suc max_proc)) k.pcbs pid o)
unfolding find_in_tree
search-Ended k pid none g = tt
search-Ended k pid (some node) g =
    find_in_tree-Ended (suc (suc max_proc)) k pid node g
      (omega (arith, rank-bound k.pcbs.table node))
