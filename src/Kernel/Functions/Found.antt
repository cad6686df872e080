-- ===== src/Kernel/Functions/Found.antt =====
-- What findInTree of phase2/functions.c answers.
use sistemi_operativi_proget.Common.{
  ℕ, zero, suc, ◌≡◌, refl, ◌∙◌, subst, ℤ, pos, ltb_ℤ, eqb_ℤ, Option, none, some, List, [], ◌∷◌,
  if◌then◌else◌, Bool, true, false,
}
use sistemi_operativi_proget.Pcb.{Pcbs}
use sistemi_operativi_proget.Kernel.Functions.{find_first, find_in_tree}

find_first-Found :
    (Q : ℕ → Type 0) (f : ℕ → Option (Option ℕ)) (l : List ℕ) (t : ℕ)
    → ((x : ℕ) → f x ≡ some (some t) → Q t)
    → find_first f l ≡ some (some t)
    → Q t
unfolding find_first
find_first-Found Q f [] t h e = cc
find_first-Found Q f (x ∷ l) t h e = by_answer (f x) refl (find_first-Found Q f l t h) e
  where
    by_answer :
        (o : Option (Option ℕ))
        → f x ≡ o
        → (find_first f l ≡ some (some t) → Q t)
        → ◌≡◌ {A = Option (Option ℕ)}
            (elim o [ none ↦ none | some none ↦ find_first f l | some (some p) ↦ some (some p) ])
            (some (some t))
        → Q t
    by_answer none g later e = cc
    by_answer (some none) g later e = later e
    by_answer (some (some p)) g later e = h x (g ∙ e)

-- The process found is not dead, and its identifier is the one looked for.
pub find_in_tree-Found :
    (fuel : ℕ) (s : Pcbs) (pid : ℤ) (o : Option ℕ) (t : ℕ)
    → find_in_tree fuel s pid o ≡ some (some t)
    → (ltb_ℤ (s.table t).p_pid (pos 0) ≡ false) × (eqb_ℤ (s.table t).p_pid pid ≡ true)
unfolding find_in_tree
find_in_tree-Found fuel s pid none t e = cc
find_in_tree-Found zero s pid (some node) t e = cc
find_in_tree-Found (suc fuel) s pid (some node) t e =
    by_test (ltb_ℤ (s.table node).p_pid (pos 0)) refl (eqb_ℤ (s.table node).p_pid pid) refl e (
      find_first-Found
        (λ t'. (ltb_ℤ (s.table t').p_pid (pos 0) ≡ false) × (eqb_ℤ (s.table t').p_pid pid ≡ true))
        (λ c. find_in_tree fuel s pid (some c)) (s.table node).p_child t
        (λ x r. find_in_tree-Found fuel s pid (some x) t r))
  where
    by_test :
        (dead : Bool)
        → ltb_ℤ (s.table node).p_pid (pos 0) ≡ dead
        → (same : Bool) → eqb_ℤ (s.table node).p_pid pid ≡ same
        → ◌≡◌ {A = Option (Option ℕ)}
            (if dead
              then some none
              else if same
              then some (some node)
              else find_first (λ c. find_in_tree fuel s pid (some c)) (s.table node).p_child)
            (some (some t))
        → (find_first (λ c. find_in_tree fuel s pid (some c)) (s.table node).p_child ≡ some (some t)
            → (ltb_ℤ (s.table t).p_pid (pos 0) ≡ false) × (eqb_ℤ (s.table t).p_pid pid ≡ true))
        → (ltb_ℤ (s.table t).p_pid (pos 0) ≡ false) × (eqb_ℤ (s.table t).p_pid pid ≡ true)
    by_test true a same b e later = cc
    by_test false a false b e later = later e
    by_test false a true b e later =
        subst
          (λ x. (ltb_ℤ (s.table x).p_pid (pos 0) ≡ false) × (eqb_ℤ (s.table x).p_pid pid ≡ true))
          (same_process e) (a, b)
      where
        same_process : ◌≡◌ {A = Option (Option ℕ)} (some (some node)) (some (some t)) → node ≡ t
        same_process r = cc
