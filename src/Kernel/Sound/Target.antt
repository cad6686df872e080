-- ===== src/Kernel/Sound/Target.antt =====
-- What findInTree of phase2/functions.c finds among the descendants of a process.
use sistemi_operativi_proget.Common.{
  ℕ, zero, suc, ◌≡◌, ◌≢◌, refl, sym, subst, ap, ◌∙◌, ℤ, pos, ◌≤ℤ◌, ltb_ℤ, eqb_ℤ, eq_of_parts,
  pos_part, neg_part, ◌+◌, Option, none, some, List, [], ◌∷◌, arith, count, Bool-cases, inl, inr,
  ◌⊎◌, ◌==◌, ==→eq, ==→ne, if_cases,
}
use sistemi_operativi_proget.Const.{max_proc}
use sistemi_operativi_proget.Types.{Pcb}
use sistemi_operativi_proget.Pcb.{Pcbs}
use sistemi_operativi_proget.Kernel.{Kernel}
use sistemi_operativi_proget.Kernel.Functions.{find_first, find_in_tree}
use sistemi_operativi_proget.Kernel.Sound.{Sound}
use sistemi_operativi_proget.Kernel.Sound.Descent.{Descends, self, below, Descends-child}
use sistemi_operativi_proget.Kernel.Sound.Search.{Ended, search-Ended}

-- A descendant is the process itself or descends from a child of it.
Descends-first :
    (t : ℕ → Pcb) (a x : ℕ)
    → Descends t a x
    → (a ≡ x) ⊎ ((pos 0 ≤ℤ (t a).p_pid) × (p : ℕ) × (count p (t a).p_child ≢ 0) × Descends t p x)
Descends-first t a x self = inl refl
Descends-first t a x (below y z d live n) = elim (Descends-first t a y d) [
  | inl same ↦
      inr (rw same live, x, λ e. n (subst (λ b. count x (t b).p_child ≡ 0) same e), Descends.self)
  | inr (l, p, m, from) ↦ inr (l, p, m, Descends.below y x from live n)
]

-- The answer of the search for an identifier below a process.
abbrev pub SearchResult : (ℕ → Pcb) → ℕ → ℤ → Option ℕ → Type 0
SearchResult t a pid none = (x : ℕ) → Descends t a x → pos 0 ≤ℤ (t x).p_pid → (t x).p_pid ≢ pid
SearchResult t a pid (some p) = Descends t a p × (pos 0 ≤ℤ (t p).p_pid) × ((t p).p_pid ≡ pid)

abbrev Result : (ℕ → Pcb) → ℕ → ℤ → Option (Option ℕ) → Type 0
Result t a pid none = Unit
Result t a pid (some r) = SearchResult t a pid r

-- What the search below the children of a process tells.
abbrev FirstResult : (ℕ → Option (Option ℕ)) → List ℕ → Option (Option ℕ) → Type 0
FirstResult f l none = Unit
FirstResult f l (some none) = (x : ℕ) → count x l ≢ 0 → f x ≡ some none
FirstResult f l (some (some p)) = (x : ℕ) × (count x l ≢ 0) × (f x ≡ some (some p))

find_first-Result : (f : ℕ → Option (Option ℕ)) (l : List ℕ) → FirstResult f l (find_first f l)
unfolding find_first
find_first-Result f [] = λ x n. absurd (n refl)
find_first-Result f (c ∷ l) = by_answer (f c) refl (find_first f l) (find_first-Result f l)
  where
    by_answer :
        (o : Option (Option ℕ))
        → f c ≡ o
        → (r : Option (Option ℕ)) → FirstResult f l r
        → FirstResult f
            (c ∷ l)
            (elim o [ none ↦ none | some none ↦ r | some (some p) ↦ some (some p) ])
    by_answer none e r h = tt
    by_answer (some none) e none h = tt
    by_answer (some none) e (some none) h = λ x n. elim (Bool-cases (x == c)) [
      | inl same ↦ ap f (==→eq x c same) ∙ e
      | inr other ↦ h x (λ z. n (ground (arith, z, other)))
    ]
    by_answer (some none) e (some (some p)) h = (h.0, λ z. h.1 (omega (arith, z)), h.2)
    by_answer (some (some p)) e r h = (c, λ z. ground (arith, z), e)

-- The answers of the searches below the children are the answer below their parent, where that is
-- not the one looked for.
children-Result :
    (t : ℕ → Pcb) (pid : ℤ) (node : ℕ) (f : ℕ → Option (Option ℕ)) (o : Option (Option ℕ))
    → pos 0 ≤ℤ (t node).p_pid
    → (t node).p_pid ≢ pid
    → ((c : ℕ) → Result t c pid (f c))
    → FirstResult f (t node).p_child o
    → Result t node pid o
children-Result t pid node f none live other h r = tt
children-Result t pid node f (some none) live other h r = λ x d l e.
    elim (Descends-first t node x d) [
      | inl same ↦ other (ap (λ y. (t y).p_pid) same ∙ e)
      | inr (still, p, m, from) ↦
          let answer : SearchResult t p pid none = subst (Result t p pid) (r p m) (h p) in
          answer x from l e
    ]
children-Result t pid node f (some (some q)) live other h r =
    let answer : SearchResult t r.0 pid (some q) = subst (Result t r.0 pid) r.2 (h r.0) in
    (Descends-child t node r.0 q live r.1 answer.0, answer.1, answer.2)

find_in_tree-Result :
    (fuel : ℕ) (s : Pcbs) (pid : ℤ) (node : ℕ)
    → Result s.table node pid (find_in_tree fuel s pid (some node))
unfolding find_in_tree
find_in_tree-Result zero s pid node = tt
find_in_tree-Result (suc fuel) s pid node =
    let t = s.table in
    let f : ℕ → Option (Option ℕ) = λ c. find_in_tree fuel s pid (some c) in
    if_cases {A = Option (Option ℕ)} (Result t node pid) (ltb_ℤ (t node).p_pid (pos 0)) _ _
      (λ dead x d l e. elim (Descends-first t node x d) [
        | inl same ↦ ground (arith, dead, subst (λ y. pos 0 ≤ℤ (t y).p_pid) (sym same) l)
        | inr (still, p, m, from) ↦ ground (arith, dead, still)
      ])
      (λ alive.
        let live : pos 0 ≤ℤ (t node).p_pid = ground (arith, alive) in
        if_cases {A = Option (Option ℕ)} (Result t node pid) (eqb_ℤ (t node).p_pid pid) _ _
          (λ same. (Descends.self, live, eq_of_parts (t node).p_pid pid (==→eq _ _ same)))
          (λ other.
            children-Result t pid node f (find_first f (t node).p_child) live
              (λ e. ==→ne _ _ other (
                ap (λ z. pos_part z + neg_part pid) e
                ∙ ap (λ z. pos_part pid + neg_part z) (sym e)))
              (λ c. find_in_tree-Result fuel s pid c) (find_first-Result f (t node).p_child)))

-- Where the kernel is sound, findInTree from a process comes to an end; it answers a live descendant,
-- over live ancestors, with the identifier looked for, or NULL where there is none.
pub find_in_tree-SearchResult :
    (k : Kernel) (pid : ℤ) (node : ℕ)
    → Sound k
    → (r : Option ℕ) × (find_in_tree (suc (suc max_proc)) k.pcbs pid (some node) ≡ some r)
      × SearchResult k.pcbs.table node pid r
find_in_tree-SearchResult k pid node s =
    by_answer (find_in_tree (suc (suc max_proc)) k.pcbs pid (some node))
      (search-Ended k pid (some node) s.0)
      (find_in_tree-Result (suc (suc max_proc)) k.pcbs pid node)
  where
    by_answer :
        (o : Option (Option ℕ))
        → Ended o
        → Result k.pcbs.table node pid o
        → (r : Option ℕ) × (o ≡ some r) × SearchResult k.pcbs.table node pid r
    by_answer none end h = absurd end
    by_answer (some r) end h = (r, refl, h)
