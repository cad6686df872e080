-- ===== src/Asl/Sleepers.antt =====
-- How many processes wait, in phase1/asl.c, on the semaphores of a set, before and after each
-- operation.
use sistemi_operativi_proget.Common.{
  ℕ, ◌+◌, ◌≡◌, ◌≢◌, refl, inl, inr, Bool, Option, none, some, List, [], ◌∷◌, ◌++◌, arith, ◌==◌,
  if◌then◌else◌, Bool-cases, ==→eq, Option-cases, length, ap,
}
use sistemi_operativi_proget.Types.{Semd}
use sistemi_operativi_proget.Pcb.{Pcbs, insert_proc_q, out_proc_q}
use sistemi_operativi_proget.Pcb.Queue.{length-insert_proc_q}
use sistemi_operativi_proget.Asl.{
  Asl, find_semd, set_procq, drop_semd, place_before, place, insert_blocked, remove_blocked,
  out_blocked,
}
use sistemi_operativi_proget.Asl.Cases.{
  Removal, unknown, stale, last, first, removal, Insertion, known, new, full, insertion, new_semd,
  insert-known, insert-new, remove-unknown, remove-stale, remove-last, remove-first, out-unknown,
  out-known,
}

-- 1 where there is a process.
abbrev pub taken : Option ℕ → ℕ
taken none = 0
taken (some p) = 1

pub length-out_proc_q :
    (q : List ℕ) (p : ℕ) → length (out_proc_q q p).0 + taken (out_proc_q q p).1 ≡ length q
unfolding out_proc_q
length-out_proc_q [] p = refl
length-out_proc_q (c ∷ q) p = ground (arith, length-out_proc_q q p)

module _ (w : ℕ → Bool) where
  -- n on a semaphore of the set, and 0 elsewhere.
  abbrev pub within : ℕ → ℕ → ℕ
  within sem n = if w sem then n else 0

  abbrev pub sleepers : List Semd → ℕ
  sleepers [] = 0
  sleepers (d ∷ ds) = within d.s_key (length d.s_procq) + sleepers ds

  sleepers-set_procq :
      (k : ℕ) (q : List ℕ) (ds : List Semd) (d : Semd)
      → find_semd k ds ≡ some d
      → sleepers (set_procq k q ds) + within k (length d.s_procq)
        ≡ sleepers ds + within k (length q)
  unfolding find_semd set_procq
  sleepers-set_procq k q [] d h = cc
  sleepers-set_procq k q (e ∷ ds) d h = elim (Bool-cases (e.s_key == k)) [
    | inl same ↦ ground (arith, same, h, ap w (==→eq e.s_key k same))
    | inr other ↦ ground (arith, sleepers-set_procq k q ds d)
  ]

  sleepers-drop_semd :
      (k : ℕ) (ds : List Semd) (d : Semd)
      → find_semd k ds ≡ some d
      → sleepers (drop_semd k ds) + within k (length d.s_procq) ≡ sleepers ds
  unfolding find_semd drop_semd
  sleepers-drop_semd k [] d h = cc
  sleepers-drop_semd k (e ∷ ds) d h = elim (Bool-cases (e.s_key == k)) [
    | inl same ↦ ground (arith, same, h, ap w (==→eq e.s_key k same))
    | inr other ↦ ground (arith, sleepers-drop_semd k ds d)
  ]

  sleepers-place_before :
      (d c : Semd) (cs : List Semd)
      → sleepers (place_before d c cs)
        ≡ within d.s_key (length d.s_procq) + (within c.s_key (length c.s_procq) + sleepers cs)
  unfolding place_before
  sleepers-place_before d c [] = omega arith
  sleepers-place_before d c (e ∷ es) = ground (arith, sleepers-place_before d e es)

  sleepers-append :
      (d : Semd) (cs : List Semd)
      → sleepers (cs ++ d ∷ []) ≡ within d.s_key (length d.s_procq) + sleepers cs
  sleepers-append d [] = omega arith
  sleepers-append d (c ∷ cs) = omega (arith, sleepers-append d cs)

  sleepers-place :
      (d : Semd) (cs : List Semd)
      → sleepers (place d cs) ≡ within d.s_key (length d.s_procq) + sleepers cs
  unfolding place
  sleepers-place d [] = refl
  sleepers-place d (c ∷ cs) = ground (arith, sleepers-append d cs, sleepers-place_before d c cs)

  -- Where a descriptor is free, insertBlocked adds one.
  pub sleepers-insert_blocked :
      (s : Pcbs) (a : Asl) (sem p : ℕ)
      → a.semd_free ≢ []
      → sleepers (insert_blocked s a sem p).1.semd_h ≡ within sem 1 + sleepers a.semd_h
  sleepers-insert_blocked s a sem p free = by_case (insertion a sem)
    where
      by_case :
          Insertion a sem
          → sleepers (insert_blocked s a sem p).1.semd_h ≡ within sem 1 + sleepers a.semd_h
      by_case (known d e) = rw (insert-known s a sem p d e) (
          ground (
            arith,
            sleepers-set_procq sem (insert_proc_q s.table d.s_procq p) a.semd_h d e,
            length-insert_proc_q s.table d.s_procq p,
          ))
      by_case (new d others e f) =
          rw (insert-new s a sem p d others e f) (sleepers-place (new_semd sem p) a.semd_h)
      by_case (full e f) = absurd (free f)

  -- removeBlocked takes one off where it returns a process.
  pub sleepers-remove_blocked :
      (a : Asl) (sem : ℕ)
      → sleepers (remove_blocked a sem).0.semd_h + within sem (taken (remove_blocked a sem).1)
        ≡ sleepers a.semd_h
  sleepers-remove_blocked a sem = by_case (removal a sem)
    where
      by_case :
          Removal a sem
          → sleepers (remove_blocked a sem).0.semd_h + within sem (taken (remove_blocked a sem).1)
            ≡ sleepers a.semd_h
      by_case (unknown e) = rw (remove-unknown a sem e) (ground arith)
      by_case (stale d e f) =
          rw (remove-stale a sem d e f)
            (ground (arith, sleepers-drop_semd sem a.semd_h d e, ap (length {A = ℕ}) f))
      by_case (last d p e f) =
          rw (remove-last a sem d p e f)
            (ground (arith, sleepers-drop_semd sem a.semd_h d e, ap (length {A = ℕ}) f))
      by_case (first d p c q e f) =
          rw (remove-first a sem d p c q e f)
            (ground (arith, sleepers-set_procq sem (c ∷ q) a.semd_h d e, ap (length {A = ℕ}) f))

  -- outBlocked takes one off the semaphore that the process names, where it returns the process.
  pub sleepers-out_blocked :
      (s : Pcbs) (a : Asl) (p : ℕ)
      → sleepers (out_blocked s a p).0.semd_h
          + within (s.table p).p_sem_add (taken (out_blocked s a p).1)
        ≡ sleepers a.semd_h
  sleepers-out_blocked s a p = elim (Option-cases (find_semd (s.table p).p_sem_add a.semd_h)) [
    | inl e ↦ rw (out-unknown s a p e) (ground arith)
    | inr (d, e) ↦ rw (out-known s a p d e) (
        ground (
          arith,
          sleepers-set_procq (s.table p).p_sem_add (out_proc_q d.s_procq p).0 a.semd_h d e,
          length-out_proc_q d.s_procq p,
        ))
  ]
