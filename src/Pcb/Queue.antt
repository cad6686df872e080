-- ===== src/Pcb/Queue.antt =====
-- The process queues of phase1/pcb.c: their order, and how often a process is in one.
use sistemi_operativi_proget.Common.{
  ℕ, suc, ◌+◌, ◌≡◌, refl, ◌⊎◌, inl, inr, ap, ℤ, ◌≤ℤ◌, ◌<ℤ◌, ltb_ℤ, Option, none, some, List, [],
  ◌∷◌, ◌++◌, arith, if◌then◌else◌, Bool-cases, hit, count, length,
}
use sistemi_operativi_proget.Types.{Pcb}
use sistemi_operativi_proget.Pcb.{insert_proc_q, out_proc_q}

module _ (t : ℕ → Pcb) where
  -- No process of the queue has a higher priority than b.
  abbrev pub AtMost : ℤ → List ℕ → Type 0
  AtMost b [] = Unit
  AtMost b (c ∷ q) = ((t c).p_prio ≤ℤ b) × AtMost b q

  -- Priorities do not rise along the queue.
  abbrev pub IsSorted : List ℕ → Type 0
  IsSorted [] = Unit
  IsSorted (c ∷ q) = AtMost (t c).p_prio q × IsSorted q

  -- The processes of priority at least b, and those below, in their order.
  abbrev pub upper : ℤ → List ℕ → List ℕ
  upper b [] = []
  upper b (c ∷ q) = if ltb_ℤ (t c).p_prio b then upper b q else c ∷ upper b q

  abbrev pub lower : ℤ → List ℕ → List ℕ
  lower b [] = []
  lower b (c ∷ q) = if ltb_ℤ (t c).p_prio b then c ∷ lower b q else lower b q

  AtMost-mono : (a b : ℤ) (q : List ℕ) → a ≤ℤ b → AtMost a q → AtMost b q
  AtMost-mono a b [] h m = tt
  AtMost-mono a b (c ∷ q) h m = (omega arith, AtMost-mono a b q h m.1)

  insert_proc_q-AtMost :
      (b : ℤ) (q : List ℕ) (p : ℕ) → (t p).p_prio ≤ℤ b → AtMost b q → AtMost b (insert_proc_q t q p)
  unfolding insert_proc_q
  insert_proc_q-AtMost b [] p h m = (h, tt)
  insert_proc_q-AtMost b (c ∷ q) p h m = ground (arith, insert_proc_q-AtMost b q p)

  pub insert_proc_q-IsSorted : (q : List ℕ) (p : ℕ) → IsSorted q → IsSorted (insert_proc_q t q p)
  unfolding insert_proc_q
  insert_proc_q-IsSorted [] p s = (tt, tt)
  insert_proc_q-IsSorted (c ∷ q) p s = elim (Bool-cases (ltb_ℤ (t c).p_prio (t p).p_prio)) [
    | inl less ↦
        rw less ((ground arith, AtMost-mono (t c).p_prio (t p).p_prio q (ground arith) s.0), s)
    | inr more ↦
        rw more
          (insert_proc_q-AtMost (t c).p_prio q p (ground arith) s.0, insert_proc_q-IsSorted q p s.1)
  ]

  upper-none : (a b : ℤ) (q : List ℕ) → a <ℤ b → AtMost a q → upper b q ≡ []
  upper-none a b [] h m = refl
  upper-none a b (c ∷ q) h m = ground (arith, upper-none a b q h m.1)

  lower-all : (a b : ℤ) (q : List ℕ) → a <ℤ b → AtMost a q → lower b q ≡ q
  lower-all a b [] h m = refl
  lower-all a b (c ∷ q) h m = ground (arith, lower-all a b q h m.1)

  -- In a sorted queue the new process stands behind all of at least its priority and before all
  -- of lower priority, and the others keep their order.
  pub insert_proc_q-split :
      (q : List ℕ) (p : ℕ)
      → IsSorted q
      → insert_proc_q t q p ≡ upper (t p).p_prio q ++ p ∷ lower (t p).p_prio q
  unfolding insert_proc_q
  insert_proc_q-split [] p s = refl
  insert_proc_q-split (c ∷ q) p s = elim (Bool-cases (ltb_ℤ (t c).p_prio (t p).p_prio)) [
    | inl less ↦ rw (
      less,
      upper-none (t c).p_prio (t p).p_prio q (ground arith) s.0,
      lower-all (t c).p_prio (t p).p_prio q (ground arith) s.0,
    )
    | inr more ↦ rw (more, insert_proc_q-split q p s.1)
  ]

  pub count-insert_proc_q :
      (x : ℕ) (q : List ℕ) (p : ℕ) → count x (insert_proc_q t q p) ≡ hit x p + count x q
  unfolding insert_proc_q
  count-insert_proc_q x [] p = refl
  count-insert_proc_q x (c ∷ q) p = elim (Bool-cases (ltb_ℤ (t c).p_prio (t p).p_prio)) [
    | inl less ↦ rw less
    | inr more ↦ rw more (omega (arith, count-insert_proc_q x q p))
  ]

  pub length-insert_proc_q : (q : List ℕ) (p : ℕ) → length (insert_proc_q t q p) ≡ suc (length q)
  unfolding insert_proc_q
  length-insert_proc_q [] p = refl
  length-insert_proc_q (c ∷ q) p = elim (Bool-cases (ltb_ℤ (t c).p_prio (t p).p_prio)) [
    | inl less ↦ rw less
    | inr more ↦ rw more (ap suc (length-insert_proc_q q p))
  ]

-- What outProcQ(q, p) found counts once.
abbrev pub found : ℕ → Option ℕ → ℕ
found x none = 0
found x (some p) = hit x p

pub count-out_proc_q :
    (x : ℕ) (q : List ℕ) (p : ℕ)
    → count x (out_proc_q q p).0 + found x (out_proc_q q p).1 ≡ count x q
unfolding out_proc_q
count-out_proc_q x [] p = refl
count-out_proc_q x (c ∷ q) p = ground (arith, count-out_proc_q x q p)

-- Only p itself is ever returned.
pub out_proc_q_self :
    (q : List ℕ) (p : ℕ)
    → ((out_proc_q q p).1 ≡ some p) ⊎ (((out_proc_q q p).1 ≡ none) × (count p q ≡ 0))
unfolding out_proc_q
out_proc_q_self [] p = inr (refl, refl)
out_proc_q_self (c ∷ q) p = ground (arith, out_proc_q_self q p)

out_proc_q-absent : (q : List ℕ) (p : ℕ) → count p q ≡ 0 → (out_proc_q q p).0 ≡ q
unfolding out_proc_q
out_proc_q-absent [] p h = refl
out_proc_q-absent (c ∷ q) p h = ground (arith, out_proc_q-absent q p)

AtMost-out :
    (t : ℕ → Pcb) (b : ℤ) (q : List ℕ) (p : ℕ) → AtMost t b q → AtMost t b (out_proc_q q p).0
unfolding out_proc_q
AtMost-out t b [] p h = tt
AtMost-out t b (c ∷ q) p h = ground (arith, AtMost-out t b q p h.1)

pub out_proc_q-IsSorted :
    (t : ℕ → Pcb) (q : List ℕ) (p : ℕ) → IsSorted t q → IsSorted t (out_proc_q q p).0
unfolding out_proc_q
out_proc_q-IsSorted t [] p h = tt
out_proc_q-IsSorted t (c ∷ q) p h =
    ground (arith, out_proc_q-IsSorted t q p h.1, AtMost-out t (t c).p_prio q p h.0)
