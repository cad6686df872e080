-- ===== src/Asl/Count.antt =====
-- How often a process waits in the semaphore queues of phase1/asl.c, and how many descriptors there
-- are, before and after each operation.
use sistemi_operativi_proget.Common.{
  ℕ, suc, ◌+◌, ◌≡◌, refl, inl, inr, false, some, List, [], ◌∷◌, ◌++◌, arith, ◌==◌, Bool-cases,
  Option-cases, length, length-append, hit, count, ap,
}
use sistemi_operativi_proget.Types.{Semd}
use sistemi_operativi_proget.Pcb.{Pcbs, insert_proc_q, out_proc_q}
use sistemi_operativi_proget.Pcb.Queue.{found, count-insert_proc_q, count-out_proc_q}
use sistemi_operativi_proget.Asl.{
  Asl, find_semd, set_procq, drop_semd, place_before, place, insert_blocked, out_head,
  remove_blocked, out_blocked,
}
use sistemi_operativi_proget.Asl.Cases.{
  Removal, unknown, stale, last, first, removal, Insertion, known, new, full, insertion, new_semd,
  insert-known, insert-new, insert-full, remove-unknown, remove-stale, remove-last, remove-first,
  out-unknown, out-known,
}

abbrev pub waiting : ℕ → List Semd → ℕ
waiting x [] = 0
waiting x (d ∷ ds) = count x d.s_procq + waiting x ds

waiting-set_procq :
    (x k : ℕ) (q : List ℕ) (ds : List Semd) (d : Semd)
    → find_semd k ds ≡ some d
    → waiting x (set_procq k q ds) + count x d.s_procq ≡ waiting x ds + count x q
unfolding find_semd set_procq
waiting-set_procq x k q [] d h = cc
waiting-set_procq x k q (e ∷ ds) d h = elim (Bool-cases (e.s_key == k)) [
  | inl same ↦ ground arith
  | inr other ↦ ground (arith, waiting-set_procq x k q ds d)
]

waiting-drop_semd :
    (x k : ℕ) (ds : List Semd) (d : Semd)
    → find_semd k ds ≡ some d
    → waiting x (drop_semd k ds) + count x d.s_procq ≡ waiting x ds
unfolding find_semd drop_semd
waiting-drop_semd x k [] d h = cc
waiting-drop_semd x k (e ∷ ds) d h = elim (Bool-cases (e.s_key == k)) [
  | inl same ↦ ground arith
  | inr other ↦ ground (arith, waiting-drop_semd x k ds d)
]

waiting-place_before :
    (x : ℕ) (d c : Semd) (cs : List Semd)
    → waiting x (place_before d c cs) ≡ count x d.s_procq + (count x c.s_procq + waiting x cs)
unfolding place_before
waiting-place_before x d c [] = omega arith
waiting-place_before x d c (e ∷ es) = ground (arith, waiting-place_before x d e es)

waiting-append :
    (x : ℕ) (d : Semd) (cs : List Semd)
    → waiting x (cs ++ d ∷ []) ≡ count x d.s_procq + waiting x cs
waiting-append x d [] = omega arith
waiting-append x d (c ∷ cs) = omega (arith, waiting-append x d cs)

waiting-place :
    (x : ℕ) (d : Semd) (cs : List Semd) → waiting x (place d cs) ≡ count x d.s_procq + waiting x cs
unfolding place
waiting-place x d [] = refl
waiting-place x d (c ∷ cs) = ground (arith, waiting-append x d cs, waiting-place_before x d c cs)

count-out_head : (x : ℕ) (q : List ℕ) → count x (out_head q).0 + found x (out_head q).1 ≡ count x q
count-out_head x [] = refl
count-out_head x (p ∷ q) = count-out_proc_q x (p ∷ q) p

-- insertBlocked adds one wait, unless it answers TRUE.
pub waiting-insert_blocked :
    (x : ℕ) (s : Pcbs) (a : Asl) (sem p : ℕ)
    → (insert_blocked s a sem p).2 ≡ false
    → waiting x (insert_blocked s a sem p).1.semd_h ≡ hit x p + waiting x a.semd_h
waiting-insert_blocked x s a sem p ok = by_case (insertion a sem)
  where
    by_case :
        Insertion a sem
        → waiting x (insert_blocked s a sem p).1.semd_h ≡ hit x p + waiting x a.semd_h
    by_case (known d e) = rw (insert-known s a sem p d e) (
        omega (
          arith,
          waiting-set_procq x sem (insert_proc_q s.table d.s_procq p) a.semd_h d e,
          count-insert_proc_q s.table x d.s_procq p,
        ))
    by_case (new d free e f) =
        rw (insert-new s a sem p d free e f)
          (omega (arith, waiting-place x (new_semd sem p) a.semd_h))
    by_case (full e f) = ground (arith, ok, insert-full s a sem p e f)

-- removeBlocked takes off the wait of the process that it returns.
pub waiting-remove_blocked :
    (x : ℕ) (a : Asl) (sem : ℕ)
    → waiting x (remove_blocked a sem).0.semd_h + found x (remove_blocked a sem).1
      ≡ waiting x a.semd_h
waiting-remove_blocked x a sem = by_case (removal a sem)
  where
    by_case :
        Removal a sem
        → waiting x (remove_blocked a sem).0.semd_h + found x (remove_blocked a sem).1
          ≡ waiting x a.semd_h
    by_case (unknown e) = rw (remove-unknown a sem e) (omega arith)
    by_case (stale d e f) =
        rw (remove-stale a sem d e f)
          (omega (arith, waiting-drop_semd x sem a.semd_h d e, ap (count x) f))
    by_case (last d p e f) =
        rw (remove-last a sem d p e f)
          (omega (arith, waiting-drop_semd x sem a.semd_h d e, ap (count x) f))
    by_case (first d p c q e f) =
        rw (remove-first a sem d p c q e f)
          (omega (arith, waiting-set_procq x sem (c ∷ q) a.semd_h d e, ap (count x) f))

pub waiting-out_blocked :
    (x : ℕ) (s : Pcbs) (a : Asl) (p : ℕ)
    → waiting x (out_blocked s a p).0.semd_h + found x (out_blocked s a p).1 ≡ waiting x a.semd_h
waiting-out_blocked x s a p = elim (Option-cases (find_semd (s.table p).p_sem_add a.semd_h)) [
  | inl e ↦ rw (out-unknown s a p e) (omega arith)
  | inr (d, e) ↦ rw (out-known s a p d e) (
      omega (
        arith,
        waiting-set_procq x (s.table p).p_sem_add (out_proc_q d.s_procq p).0 a.semd_h d e,
        count-out_proc_q x d.s_procq p,
      ))
]

pub length-set_procq : (k : ℕ) (q : List ℕ) (ds : List Semd) → length (set_procq k q ds) ≡ length ds
unfolding set_procq
length-set_procq k q [] = refl
length-set_procq k q (e ∷ ds) = ground (arith, length-set_procq k q ds)

length-drop_semd :
    (k : ℕ) (ds : List Semd) (d : Semd)
    → find_semd k ds ≡ some d
    → suc (length (drop_semd k ds)) ≡ length ds
unfolding find_semd drop_semd
length-drop_semd k [] d h = cc
length-drop_semd k (e ∷ ds) d h = ground (arith, length-drop_semd k ds d)

length-place_before :
    (d c : Semd) (cs : List Semd) → length (place_before d c cs) ≡ suc (suc (length cs))
unfolding place_before
length-place_before d c [] = refl
length-place_before d c (e ∷ es) = ground (arith, length-place_before d e es)

length-place : (d : Semd) (cs : List Semd) → length (place d cs) ≡ suc (length cs)
unfolding place
length-place d [] = refl
length-place d (c ∷ cs) = ground (arith, length-append cs (d ∷ []), length-place_before d c cs)

-- The descriptors, in use and free.
abbrev pub descriptors : Asl → ℕ
descriptors a = length a.semd_h + length a.semd_free

pub descriptors-insert_blocked :
    (s : Pcbs) (a : Asl) (sem p : ℕ) → descriptors (insert_blocked s a sem p).1 ≡ descriptors a
descriptors-insert_blocked s a sem p = by_case (insertion a sem)
  where
    by_case : Insertion a sem → descriptors (insert_blocked s a sem p).1 ≡ descriptors a
    by_case (known d e) =
        rw (insert-known s a sem p d e)
          (omega (arith, length-set_procq sem (insert_proc_q s.table d.s_procq p) a.semd_h))
    by_case (new d free e f) =
        rw (insert-new s a sem p d free e f) (
          omega (arith, length-place (new_semd sem p) a.semd_h, ap (λ (l : List Semd). length l) f))
    by_case (full e f) = rw (insert-full s a sem p e f)

pub descriptors-remove_blocked :
    (a : Asl) (sem : ℕ) → descriptors (remove_blocked a sem).0 ≡ descriptors a
descriptors-remove_blocked a sem = by_case (removal a sem)
  where
    by_case : Removal a sem → descriptors (remove_blocked a sem).0 ≡ descriptors a
    by_case (unknown e) = rw (remove-unknown a sem e)
    by_case (stale d e f) =
        rw (remove-stale a sem d e f) (omega (arith, length-drop_semd sem a.semd_h d e))
    by_case (last d p e f) =
        rw (remove-last a sem d p e f) (omega (arith, length-drop_semd sem a.semd_h d e))
    by_case (first d p c q e f) =
        rw (remove-first a sem d p c q e f) (omega (arith, length-set_procq sem (c ∷ q) a.semd_h))
