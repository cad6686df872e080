-- ===== src/Asl/Queues.antt =====
-- The map from semaphores to process queues that the descriptors of phase1/asl.c stand for.
use sistemi_operativi_proget.Common.{
  ℕ, ◌≡◌, refl, sym, ◌≢◌, inl, inr, ltb, Option, none, some, List, [], ◌∷◌, ◌++◌, arith, ◌==◌,
  if◌then◌else◌, Bool-cases,
}
use sistemi_operativi_proget.Types.{Semd}
use sistemi_operativi_proget.Asl.{find_semd, set_procq, drop_semd, place_before, place}

abbrev pub procq_of : Option Semd → List ℕ
procq_of none = []
procq_of (some d) = d.s_procq

-- The queue of a semaphore.
abbrev pub queue_of : ℕ → List Semd → List ℕ
queue_of k ds = procq_of (find_semd k ds)

abbrev pub KeyAbsent : ℕ → List Semd → Type 0
KeyAbsent k [] = Unit
KeyAbsent k (d ∷ ds) = (k ≢ d.s_key) × KeyAbsent k ds

abbrev pub DistinctKeys : List Semd → Type 0
DistinctKeys [] = Unit
DistinctKeys (d ∷ ds) = KeyAbsent d.s_key ds × DistinctKeys ds

pub find-absent : (k : ℕ) (ds : List Semd) → KeyAbsent k ds → find_semd k ds ≡ none
unfolding find_semd
find-absent k [] h = refl
find-absent k (d ∷ ds) h = ground (arith, find-absent k ds h.1)

pub absent-find : (k : ℕ) (ds : List Semd) → find_semd k ds ≡ none → KeyAbsent k ds
unfolding find_semd
absent-find k [] h = tt
absent-find k (d ∷ ds) h = (ground arith, absent-find k ds (ground arith))

find-key : (k : ℕ) (ds : List Semd) (d : Semd) → find_semd k ds ≡ some d → d.s_key ≡ k
unfolding find_semd
find-key k [] d h = cc
find-key k (e ∷ ds) d h = ground (arith, find-key k ds d)

pub queue_of-set_procq :
    (k j : ℕ) (q : List ℕ) (ds : List Semd) (d : Semd)
    → find_semd j ds ≡ some d
    → queue_of k (set_procq j q ds) ≡ (if k == j then q else queue_of k ds)
unfolding find_semd set_procq
queue_of-set_procq k j q [] d h = cc
queue_of-set_procq k j q (e ∷ ds) d h = ground (arith, queue_of-set_procq k j q ds d)

KeyAbsent-set_procq :
    (k j : ℕ) (q : List ℕ) (ds : List Semd) → KeyAbsent k ds → KeyAbsent k (set_procq j q ds)
unfolding set_procq
KeyAbsent-set_procq k j q [] h = tt
KeyAbsent-set_procq k j q (e ∷ ds) h = ground (arith, KeyAbsent-set_procq k j q ds h.1)

pub DistinctKeys-set_procq :
    (j : ℕ) (q : List ℕ) (ds : List Semd) → DistinctKeys ds → DistinctKeys (set_procq j q ds)
unfolding set_procq
DistinctKeys-set_procq j q [] h = tt
DistinctKeys-set_procq j q (e ∷ ds) h =
    ground (arith, DistinctKeys-set_procq j q ds h.1, KeyAbsent-set_procq e.s_key j q ds h.0)

KeyAbsent-drop_semd : (k j : ℕ) (ds : List Semd) → KeyAbsent k ds → KeyAbsent k (drop_semd j ds)
unfolding drop_semd
KeyAbsent-drop_semd k j [] h = tt
KeyAbsent-drop_semd k j (e ∷ ds) h = ground (arith, KeyAbsent-drop_semd k j ds h.1)

pub DistinctKeys-drop_semd :
    (j : ℕ) (ds : List Semd) → DistinctKeys ds → DistinctKeys (drop_semd j ds)
unfolding drop_semd
DistinctKeys-drop_semd j [] h = tt
DistinctKeys-drop_semd j (e ∷ ds) h =
    ground (arith, DistinctKeys-drop_semd j ds h.1, KeyAbsent-drop_semd e.s_key j ds h.0)

pub queue_of-drop_semd :
    (k j : ℕ) (ds : List Semd)
    → DistinctKeys ds
    → queue_of k (drop_semd j ds) ≡ (if k == j then [] else queue_of k ds)
unfolding find_semd drop_semd
queue_of-drop_semd k j [] h = ground arith
queue_of-drop_semd k j (e ∷ ds) h =
    ground (arith, queue_of-drop_semd k j ds h.1, find-absent e.s_key ds h.0)

-- Placing a descriptor, wherever the scan stops, adds it to the list.
abbrev pub FoundLike : Semd → List Semd → List Semd → Type 0
FoundLike d es ds = (k : ℕ) → find_semd k es ≡ (if k == d.s_key then some d else find_semd k ds)

find-place_before :
    (d c : Semd) (cs : List Semd) (k : ℕ)
    → KeyAbsent d.s_key (c ∷ cs)
    → find_semd k (place_before d c cs) ≡ (if k == d.s_key then some d else find_semd k (c ∷ cs))
unfolding find_semd place_before
find-place_before d c [] k h = ground arith
find-place_before d c (e ∷ es) k h = ground (arith, find-place_before d e es k h.1)

find-append :
    (d : Semd) (cs : List Semd) (k : ℕ)
    → KeyAbsent d.s_key cs
    → find_semd k (cs ++ d ∷ []) ≡ (if k == d.s_key then some d else find_semd k cs)
unfolding find_semd
find-append d [] k h = ground arith
find-append d (c ∷ cs) k h = ground (arith, find-append d cs k h.1)

pub find-place :
    (d : Semd) (cs : List Semd) (k : ℕ)
    → KeyAbsent d.s_key cs
    → find_semd k (place d cs) ≡ (if k == d.s_key then some d else find_semd k cs)
unfolding place
find-place d [] k h = find-append d [] k h
find-place d (c ∷ cs) k h = elim (Bool-cases (ltb d.s_key c.s_key)) [
  | inl less ↦ rw less (find-append d (c ∷ cs) k h)
  | inr more ↦ rw more (find-place_before d c cs k h)
]

KeyAbsent-append :
    (k : ℕ) (d : Semd) (cs : List Semd) → k ≢ d.s_key → KeyAbsent k cs → KeyAbsent k (cs ++ d ∷ [])
KeyAbsent-append k d [] n h = (n, tt)
KeyAbsent-append k d (c ∷ cs) n h = (h.0, KeyAbsent-append k d cs n h.1)

KeyAbsent-place_before :
    (k : ℕ) (d c : Semd) (cs : List Semd)
    → k ≢ d.s_key
    → KeyAbsent k (c ∷ cs)
    → KeyAbsent k (place_before d c cs)
unfolding place_before
KeyAbsent-place_before k d c [] n h = (n, h)
KeyAbsent-place_before k d c (e ∷ es) n h = ground (arith, KeyAbsent-place_before k d e es n h.1)

DistinctKeys-append :
    (d : Semd) (cs : List Semd)
    → KeyAbsent d.s_key cs
    → DistinctKeys cs
    → DistinctKeys (cs ++ d ∷ [])
DistinctKeys-append d [] h u = (tt, tt)
DistinctKeys-append d (c ∷ cs) h u =
    (KeyAbsent-append c.s_key d cs (λ e. h.0 (sym e)) u.0, DistinctKeys-append d cs h.1 u.1)

DistinctKeys-place_before :
    (d c : Semd) (cs : List Semd)
    → KeyAbsent d.s_key (c ∷ cs)
    → DistinctKeys (c ∷ cs)
    → DistinctKeys (place_before d c cs)
unfolding place_before
DistinctKeys-place_before d c [] h u = (h, u)
DistinctKeys-place_before d c (e ∷ es) h u = elim (Bool-cases (ltb d.s_key e.s_key)) [
  | inl less ↦ rw less (h, u)
  | inr more ↦ rw more (
    KeyAbsent-place_before c.s_key d e es (λ p. h.0 (sym p)) u.0,
    DistinctKeys-place_before d e es h.1 u.1,
  )
]

pub DistinctKeys-place :
    (d : Semd) (cs : List Semd) → KeyAbsent d.s_key cs → DistinctKeys cs → DistinctKeys (place d cs)
unfolding place
DistinctKeys-place d [] h u = (tt, tt)
DistinctKeys-place d (c ∷ cs) h u = elim (Bool-cases (ltb d.s_key c.s_key)) [
  | inl less ↦ rw less (DistinctKeys-append d (c ∷ cs) h u)
  | inr more ↦ rw more (DistinctKeys-place_before d c cs h u)
]
