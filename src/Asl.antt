-- ===== src/Asl.antt =====
-- phase1/asl.c: the active semaphore list. Descriptors move between the list of free ones and the
-- list semd_h of those in use; each holds the queue of the processes blocked on its semaphore.
pub mod Queues
pub mod Cases
pub mod Count
pub mod Refines
pub mod Order
pub mod Sleepers
use sistemi_operativi_proget.Common.{
  ℕ, zero, suc, ltb, Bool, true, false, Option, none, some, List, [], ◌∷◌, ◌++◌, ◌==◌,
  if◌then◌else◌, write, length,
}
use sistemi_operativi_proget.Const.{max_proc}
use sistemi_operativi_proget.Types.{Semd}
use sistemi_operativi_proget.Pcb.{Pcbs, empty_proc_q, insert_proc_q, head_proc_q, out_proc_q}

pub record Asl : Type 0 where
  pub semd_h : List Semd
  pub semd_free : List Semd

add_rounds : ℕ → List Semd → List Semd
add_rounds zero free = free
add_rounds (suc n) free = add_rounds n (record { s_key = 0; s_procq = [] } ∷ free)

unfoldable pub init_asl : Asl
unfolding add_rounds
init_asl = record { semd_h = []; semd_free = add_rounds max_proc [] }

-- The search that opens every function of asl.c.
unfoldable pub find_semd : ℕ → List Semd → Option Semd
find_semd k [] = none
find_semd k (d ∷ ds) = if d.s_key == k then some d else find_semd k ds

-- The descriptor that the search finds gets another queue.
unfoldable pub set_procq : ℕ → List ℕ → List Semd → List Semd
set_procq k q [] = []
set_procq k q (d ∷ ds) =
    if d.s_key == k then record d { s_procq = q } ∷ ds else d ∷ set_procq k q ds

-- The descriptor that the search finds leaves the list.
unfoldable pub drop_semd : ℕ → List Semd → List Semd
drop_semd k [] = []
drop_semd k (d ∷ ds) = if d.s_key == k then ds else d ∷ drop_semd k ds

-- The scan stands at c, the last descriptor seen whose key does not exceed the new one's; the new
-- descriptor is linked behind c's predecessor.
unfoldable pub place_before : Semd → Semd → List Semd → List Semd
place_before d c [] = d ∷ c ∷ []
place_before d c (e ∷ es) = if ltb d.s_key e.s_key then d ∷ c ∷ e ∷ es else c ∷ place_before d e es

-- Where the first key already exceeds the new one, the scan stops at the sentinel, whose
-- predecessor is the end of the list.
unfoldable pub place : Semd → List Semd → List Semd
place d [] = d ∷ []
place d (c ∷ cs) = if ltb d.s_key c.s_key then (c ∷ cs) ++ d ∷ [] else place_before d c cs

abbrev pub set_sem_add : Pcbs → ℕ → ℕ → Pcbs
set_sem_add s p sem = record s { table = write s.table p (record (s.table p) { p_sem_add = sem }) }

-- The result is TRUE where a descriptor is needed and none is free.
unfoldable pub insert_blocked : Pcbs → Asl → ℕ → ℕ → Pcbs × Asl × Bool
insert_blocked s a sem p = elim (find_semd sem a.semd_h) [
  | some d ↦ (
    set_sem_add s p sem,
    record a { semd_h = set_procq sem (insert_proc_q s.table d.s_procq p) a.semd_h },
    false,
  )
  | none ↦ elim a.semd_free [
    | [] ↦ (s, a, true)
    | d ∷ free ↦ (
      set_sem_add s p sem,
      record {
        semd_h = place (record { s_key = sem; s_procq = insert_proc_q s.table [] p }) a.semd_h;
        semd_free = free;
      },
      false,
    )
  ]
]

-- outProcQ(q, headProcQ(q))
abbrev pub out_head : List ℕ → List ℕ × Option ℕ
out_head q = elim (head_proc_q q) [ none ↦ (q, none) | some p ↦ out_proc_q q p ]

unfoldable pub remove_blocked : Asl → ℕ → Asl × Option ℕ
remove_blocked a sem = elim (find_semd sem a.semd_h) [
  | none ↦ (a, none)
  | some d ↦
      let (q, p) = out_head d.s_procq in
      (
        if empty_proc_q q
            then record {
              semd_h = drop_semd sem a.semd_h;
              semd_free = record { s_key = d.s_key; s_procq = q } ∷ a.semd_free;
            }
            else record a { semd_h = set_procq sem q a.semd_h },
        p,
      )
]

unfoldable pub out_blocked : Pcbs → Asl → ℕ → Asl × Option ℕ
out_blocked s a p =
    let sem = (s.table p).p_sem_add in
    elim (find_semd sem a.semd_h) [
      | none ↦ (a, none)
      | some d ↦
          let (q, found) = out_proc_q d.s_procq p in
          (record a { semd_h = set_procq sem q a.semd_h }, found)
    ]

unfoldable pub head_blocked : Asl → ℕ → Option ℕ
head_blocked a sem = elim (find_semd sem a.semd_h) [ none ↦ none | some d ↦ head_proc_q d.s_procq ]

unfoldable pub blocked_count : Asl → ℕ → ℕ
blocked_count a sem = elim (find_semd sem a.semd_h) [ none ↦ 0 | some d ↦ length d.s_procq ]
