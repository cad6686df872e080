-- ===== src/Asl/Cases.antt =====
-- The branches of insertBlocked, removeBlocked and outBlocked, each as an equation.
use sistemi_operativi_proget.Common.{
  ℕ, ◌≡◌, refl, inl, inr, true, false, none, some, List, [], ◌∷◌, arith, Option-cases,
}
use sistemi_operativi_proget.Types.{Semd}
use sistemi_operativi_proget.Pcb.{Pcbs, insert_proc_q, out_proc_q}
use sistemi_operativi_proget.Asl.{
  Asl, find_semd, set_procq, drop_semd, place, set_sem_add, insert_blocked, remove_blocked,
  out_blocked,
}

abbrev pub new_semd : ℕ → ℕ → Semd
new_semd sem p = record { s_key = sem; s_procq = p ∷ [] }

abbrev pub freed : Semd → Semd
freed d = record d { s_procq = [] }

module _ (s : Pcbs) (a : Asl) (sem p : ℕ) where
  pub insert-known :
      (d : Semd)
      → find_semd sem a.semd_h ≡ some d
      → insert_blocked s a sem p ≡ (
        record s { table = (set_sem_add s p sem).table },
        record a { semd_h = set_procq sem (insert_proc_q s.table d.s_procq p) a.semd_h },
        false,
      )
  unfolding insert_blocked
  insert-known d e = rw (e, insert_blocked)

  pub insert-new :
      (d : Semd) (free : List Semd)
      → find_semd sem a.semd_h ≡ none
      → a.semd_free ≡ d ∷ free
      → insert_blocked s a sem p ≡ (
        record s { table = (set_sem_add s p sem).table },
        record { semd_h = place (new_semd sem p) a.semd_h; semd_free = free },
        false,
      )
  unfolding insert_blocked insert_proc_q
  insert-new d free e f = rw (e, f, insert_blocked)

  pub insert-full :
      find_semd sem a.semd_h ≡ none → a.semd_free ≡ [] → insert_blocked s a sem p ≡ (s, a, true)
  unfolding insert_blocked
  insert-full e f = ground (arith, e, f)

module _ (a : Asl) (sem : ℕ) where
  pub remove-unknown : find_semd sem a.semd_h ≡ none → remove_blocked a sem ≡ (a, none)
  unfolding remove_blocked
  remove-unknown e = rw (e, remove_blocked)

  pub remove-stale :
      (d : Semd)
      → find_semd sem a.semd_h ≡ some d
      → d.s_procq ≡ []
      → remove_blocked a sem
        ≡ (record { semd_h = drop_semd sem a.semd_h; semd_free = freed d ∷ a.semd_free }, none)
  unfolding remove_blocked
  remove-stale d e f = ground (arith, e, f)

  pub remove-last :
      (d : Semd) (p : ℕ)
      → find_semd sem a.semd_h ≡ some d
      → d.s_procq ≡ p ∷ []
      → remove_blocked a sem
        ≡ (record { semd_h = drop_semd sem a.semd_h; semd_free = freed d ∷ a.semd_free }, some p)
  unfolding remove_blocked out_proc_q
  remove-last d p e f = ground (arith, e, f)

  pub remove-first :
      (d : Semd) (p c : ℕ) (q : List ℕ)
      → find_semd sem a.semd_h ≡ some d
      → d.s_procq ≡ p ∷ c ∷ q
      → remove_blocked a sem ≡ (record a { semd_h = set_procq sem (c ∷ q) a.semd_h }, some p)
  unfolding remove_blocked out_proc_q
  remove-first d p c q e f = ground (arith, e, f)

module _ (s : Pcbs) (a : Asl) (p : ℕ) where
  pub out-unknown : find_semd (s.table p).p_sem_add a.semd_h ≡ none → out_blocked s a p ≡ (a, none)
  unfolding out_blocked
  out-unknown e = rw (e, out_blocked)

  pub out-known :
      (d : Semd)
      → find_semd (s.table p).p_sem_add a.semd_h ≡ some d
      → out_blocked s a p ≡ (
        record a { semd_h = set_procq (s.table p).p_sem_add (out_proc_q d.s_procq p).0 a.semd_h },
        (out_proc_q d.s_procq p).1,
      )
  unfolding out_blocked
  out-known d e = rw (e, out_blocked)

-- The four ways in which removeBlocked can go.
pub data Removal (a : Asl) (sem : ℕ) : Type 0 where
  unknown : find_semd sem a.semd_h ≡ none → Removal a sem
  stale : (d : Semd) → find_semd sem a.semd_h ≡ some d → d.s_procq ≡ [] → Removal a sem
  last : (d : Semd) (p : ℕ) → find_semd sem a.semd_h ≡ some d → d.s_procq ≡ p ∷ [] → Removal a sem
  first :
      (d : Semd) (p c : ℕ) (q : List ℕ)
      → find_semd sem a.semd_h ≡ some d
      → d.s_procq ≡ p ∷ c ∷ q
      → Removal a sem

by_queue :
    (a : Asl) (sem : ℕ) (d : Semd) (q : List ℕ)
    → find_semd sem a.semd_h ≡ some d
    → d.s_procq ≡ q
    → Removal a sem
by_queue a sem d [] e f = Removal.stale d e f
by_queue a sem d (p ∷ []) e f = Removal.last d p e f
by_queue a sem d (p ∷ c ∷ q) e f = Removal.first d p c q e f

pub removal : (a : Asl) (sem : ℕ) → Removal a sem
removal a sem = elim (Option-cases (find_semd sem a.semd_h)) [
  | inl e ↦ Removal.unknown e
  | inr (d, e) ↦ by_queue a sem d d.s_procq e refl
]

-- The three ways in which insertBlocked can go.
pub data Insertion (a : Asl) (sem : ℕ) : Type 0 where
  known : (d : Semd) → find_semd sem a.semd_h ≡ some d → Insertion a sem
  new :
      (d : Semd) (free : List Semd)
      → find_semd sem a.semd_h ≡ none
      → a.semd_free ≡ d ∷ free
      → Insertion a sem
  full : find_semd sem a.semd_h ≡ none → a.semd_free ≡ [] → Insertion a sem

by_free :
    (a : Asl) (sem : ℕ) (free : List Semd)
    → find_semd sem a.semd_h ≡ none
    → a.semd_free ≡ free
    → Insertion a sem
by_free a sem [] e f = Insertion.full e f
by_free a sem (d ∷ free) e f = Insertion.new d free e f

pub insertion : (a : Asl) (sem : ℕ) → Insertion a sem
insertion a sem = elim (Option-cases (find_semd sem a.semd_h)) [
  | inl e ↦ by_free a sem a.semd_free e refl
  | inr (d, e) ↦ Insertion.known d e
]
