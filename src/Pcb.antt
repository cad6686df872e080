-- ===== src/Pcb.antt =====
-- phase1/pcb.c: allocation of process control blocks, process queues and the process tree. A queue
-- is the list of the blocks on its ring (Listx).
pub mod Queue
pub mod Init
pub mod Linked
use sistemi_operativi_proget.Common.{
  ℕ, zero, suc, ◌+◌, ℤ, pos, ◌+ℤ◌, ltb_ℤ, Bool, true, false, Option, none, some, List, [], ◌∷◌,
  ◌++◌, ◌==◌, if◌then◌else◌, write, erase,
}
use sistemi_operativi_proget.Const.{max_proc}
use sistemi_operativi_proget.Types.{Pcb, zero_state}

-- The static variables of pcb.c.
pub record Pcbs : Type 0 where
  pub table : ℕ → Pcb
  pub pcb_free : List ℕ
  pub next_pid : ℤ

-- The rounds x, x + 1, ... of the loop of initPcbs.
add_rounds : ℕ → ℕ → List ℕ → List ℕ
add_rounds zero x free = free
add_rounds (suc n) x free = add_rounds n (x + 1) (x ∷ free)

unfoldable pub init_pcbs : Pcbs → Pcbs
unfolding add_rounds
init_pcbs s = record s { pcb_free = add_rounds max_proc 0 [] }

unfoldable pub free_pcb : Pcbs → ℕ → Pcbs
free_pcb s p = record s { pcb_free = p ∷ s.pcb_free }

abbrev pub fresh_pcb : ℤ → Pcb
fresh_pcb pid = record {
  p_parent = none;
  p_child = [];
  p_s = zero_state;
  p_time = pos 0;
  p_sem_add = 0;
  p_support_struct = 0;
  p_prio = pos 0;
  p_pid = pid;
}

-- By the list of free blocks.
unfoldable pub alloc_from : Pcbs → List ℕ → Pcbs × Option ℕ
alloc_from s [] = (s, none)
alloc_from s (p ∷ free) = (
  record {
    table = write s.table p (fresh_pcb s.next_pid);
    pcb_free = free;
    next_pid = s.next_pid +ℤ pos 1;
  },
  some p,
)

unfoldable pub alloc_pcb : Pcbs → Pcbs × Option ℕ
alloc_pcb s = alloc_from s s.pcb_free

abbrev pub empty_proc_q : List ℕ → Bool
empty_proc_q [] = true
empty_proc_q (p ∷ q) = false

unfoldable pub insert_proc_q : (ℕ → Pcb) → List ℕ → ℕ → List ℕ
insert_proc_q t [] p = p ∷ []
insert_proc_q t (c ∷ q) p =
    if ltb_ℤ (t c).p_prio (t p).p_prio then p ∷ c ∷ q else c ∷ insert_proc_q t q p

abbrev pub head_proc_q : List ℕ → Option ℕ
head_proc_q [] = none
head_proc_q (p ∷ q) = some p

abbrev pub remove_proc_q : List ℕ → List ℕ × Option ℕ
remove_proc_q [] = ([], none)
remove_proc_q (p ∷ q) = (q, some p)

unfoldable pub out_proc_q : List ℕ → ℕ → List ℕ × Option ℕ
out_proc_q [] p = ([], none)
out_proc_q (c ∷ q) p =
    let rest = out_proc_q q p in if c == p then (q, some p) else (c ∷ rest.0, rest.1)

abbrev pub empty_child : Pcbs → ℕ → Bool
empty_child s p = empty_proc_q (s.table p).p_child

unfoldable pub insert_child : Pcbs → ℕ → ℕ → Pcbs
insert_child s prnt p =
    let t = write s.table p (record (s.table p) { p_parent = some prnt }) in
    record s { table = write t prnt (record (t prnt) { p_child = (t prnt).p_child ++ p ∷ [] }) }

-- By the list of p's children.
unfoldable pub take_child : Pcbs → ℕ → List ℕ → Pcbs × Option ℕ
take_child s p [] = (s, none)
take_child s p (child ∷ rest) =
    let t = write s.table p (record (s.table p) { p_child = rest }) in
    (record s { table = write t child (record (t child) { p_parent = none }) }, some child)

unfoldable pub remove_child : Pcbs → ℕ → Pcbs × Option ℕ
remove_child s p = take_child s p (s.table p).p_child

-- By p's parent; list_del on p_sib takes p off the one child list that it is on, its parent's.
unfoldable pub leave_parent : Pcbs → ℕ → Option ℕ → Pcbs × Option ℕ
leave_parent s p none = (s, none)
leave_parent s p (some prnt) =
    let t =
      write s.table prnt (record (s.table prnt) { p_child = erase p (s.table prnt).p_child }) in
    (record s { table = write t p (record (t p) { p_parent = none }) }, some p)

unfoldable pub out_child : Pcbs → ℕ → Pcbs × Option ℕ
out_child s p = leave_parent s p (s.table p).p_parent
