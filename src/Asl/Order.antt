-- ===== src/Asl/Order.antt =====
-- The order of the descriptors of phase1/asl.c, and the descriptors that outBlocked empties.
use sistemi_operativi_proget.Common.{
  ℕ, ◌≤◌, ◌<◌, ◌≡◌, refl, ltb, none, some, List, [], ◌∷◌, ◌++◌, arith, Bool-cases, length, ap, inl,
  inr, ◌∙◌,
}
use sistemi_operativi_proget.Types.{Semd}
use sistemi_operativi_proget.Pcb.{Pcbs, out_proc_q}
use sistemi_operativi_proget.Asl.Count.{length-set_procq}
use sistemi_operativi_proget.Asl.{
  Asl, find_semd, set_procq, place_before, place, insert_blocked, out_blocked,
}
use sistemi_operativi_proget.Asl.Cases.{new_semd, insert-new, out-known}

abbrev pub Above : ℕ → List Semd → Type 0
Above k [] = Unit
Above k (d ∷ ds) = (k < d.s_key) × Above k ds

abbrev pub IsAscending : List Semd → Type 0
IsAscending [] = Unit
IsAscending (d ∷ ds) = Above d.s_key ds × IsAscending ds

Above-last : (k : ℕ) (d : Semd) (cs : List Semd) → Above k (cs ++ d ∷ []) → k < d.s_key
Above-last k d [] h = h.0
Above-last k d (c ∷ cs) h = Above-last k d cs h.1

place_before-not-IsAscending :
    (d c : Semd) (cs : List Semd) → c.s_key ≤ d.s_key → ¬ IsAscending (place_before d c cs)
unfolding place_before
place_before-not-IsAscending d c [] le h = absurd (omega arith)
place_before-not-IsAscending d c (e ∷ es) le h = elim (Bool-cases (ltb d.s_key e.s_key)) [
  | inl less ↦ ground (arith, less)
  | inr more ↦ ground (arith, more, place_before-not-IsAscending d e es)
]

place-not-IsAscending : (d c : Semd) (cs : List Semd) → ¬ IsAscending (place d (c ∷ cs))
unfolding place
place-not-IsAscending d c cs h = elim (Bool-cases (ltb d.s_key c.s_key)) [
  | inl less ↦ ground (arith, less, Above-last c.s_key d cs)
  | inr more ↦ ground (arith, more, place_before-not-IsAscending d c cs)
]

-- Whenever insertBlocked takes a new descriptor while another one is in use, the active list that
-- it leaves is not in ascending order of keys.
pub insert_blocked-not-IsAscending :
    (s : Pcbs) (a : Asl) (sem p : ℕ) (c d : Semd) (cs free : List Semd)
    → a.semd_h ≡ c ∷ cs
    → a.semd_free ≡ d ∷ free
    → find_semd sem a.semd_h ≡ none
    → ¬ IsAscending (insert_blocked s a sem p).1.semd_h
insert_blocked-not-IsAscending s a sem p c d cs free h f e =
    rw (insert-new s a sem p d free e f, h) (place-not-IsAscending (new_semd sem p) c cs)

find-set_procq :
    (j : ℕ) (q : List ℕ) (ds : List Semd) (d : Semd)
    → find_semd j ds ≡ some d
    → find_semd j (set_procq j q ds) ≡ some (record d { s_procq = q })
unfolding find_semd set_procq
find-set_procq j q [] d h = cc
find-set_procq j q (e ∷ ds) d h = ground (arith, find-set_procq j q ds d)

-- Where the process is the last one blocked on its semaphore, outBlocked leaves the descriptor,
-- with an empty queue, in use: as many descriptors are in use as before, and the same are free.
pub out_blocked_keeps_descriptor :
    (s : Pcbs) (a : Asl) (p : ℕ) (d : Semd)
    → find_semd (s.table p).p_sem_add a.semd_h ≡ some d
    → d.s_procq ≡ p ∷ []
    → let b = (out_blocked s a p).0 in
      (find_semd (s.table p).p_sem_add b.semd_h ≡ some (record d { s_procq = [] }))
      × (length b.semd_h ≡ length a.semd_h)
      × (b.semd_free ≡ a.semd_free)
unfolding out_proc_q
out_blocked_keeps_descriptor s a p d e f =
    let emptied : (out_proc_q d.s_procq p).0 ≡ [] = rw f (ground arith) in
    rw (out-known s a p d e) (
      find-set_procq _ _ a.semd_h d e
          ∙ ap (λ q. some (record { s_key = d.s_key; s_procq = q })) emptied,
      length-set_procq (s.table p).p_sem_add _ a.semd_h,
      refl,
    )
