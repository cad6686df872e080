-- ===== src/Listx.antt =====
-- headers/listx.h: intrusive doubly linked rings over an explicit memory of list_head cells.
-- An address is a number; a ring is a sentinel head and the cells that its next pointers lead
-- through. A cell's owner (container_of) is named by the address of its list_head.
pub mod Ring
pub mod Ops
use sistemi_operativi_proget.Common.{
  ℕ, zero, suc, Bool, Option, none, some, List, [], ◌∷◌, ◌==◌, if◌then◌else◌, write,
}

-- struct list_head
pub record ListHead : Type 0 where
  pub next : ℕ
  pub prev : ℕ

abbrev pub Memory : Type 0
Memory = ℕ → ListHead

-- `a->next = v` and `a->prev = v`
abbrev pub set_next : Memory → ℕ → ℕ → Memory
set_next m a v = write m a (record (m a) { next = v })

abbrev pub set_prev : Memory → ℕ → ℕ → Memory
set_prev m a v = write m a (record (m a) { prev = v })

unfoldable pub init_list_head : Memory → ℕ → Memory
init_list_head m list = let m = set_next m list list in set_prev m list list

-- __list_add
unfoldable pub link_between : Memory → ℕ → ℕ → ℕ → Memory
link_between m new prev next =
    let m1 = set_prev m next new in
    let m2 = set_next m1 new next in let m3 = set_prev m2 new prev in set_next m3 prev new

unfoldable pub list_add : Memory → ℕ → ℕ → Memory
list_add m new head = link_between m new head (m head).next

unfoldable pub list_add_tail : Memory → ℕ → ℕ → Memory
list_add_tail m new head = link_between m new (m head).prev head

-- __list_del
unfoldable pub unlink_between : Memory → ℕ → ℕ → Memory
unlink_between m prev next = let m1 = set_prev m next prev in set_next m1 prev next

unfoldable pub list_del : Memory → ℕ → Memory
unfolding unlink_between
list_del m entry =
    let m1 = unlink_between m (m entry).prev (m entry).next in
    let m2 = set_next m1 entry entry in set_prev m2 entry entry

unfoldable pub list_empty : Memory → ℕ → Bool
list_empty m head = (m head).next == head

unfoldable pub list_is_last : Memory → ℕ → ℕ → Bool
list_is_last m list head = (m list).next == head

unfoldable pub list_next : Memory → ℕ → Option ℕ
unfolding list_empty
list_next m current = if list_empty m current then none else some (m current).next

unfoldable pub list_prev : Memory → ℕ → Option ℕ
unfolding list_empty
list_prev m current = if list_empty m current then none else some (m current).prev

abbrev pub cons_some : ℕ → Option (List ℕ) → Option (List ℕ)
cons_some x none = none
cons_some x (some xs) = some (x ∷ xs)

-- The addresses that list_for_each visits, from pos on; none when the fuel runs out.
unfoldable pub visit : ℕ → Memory → ℕ → ℕ → Option (List ℕ)
visit zero m pos head = none
visit (suc f) m pos head =
    let rest = visit f m (m pos).next head in if pos == head then some [] else cons_some pos rest

unfoldable pub list_for_each : ℕ → Memory → ℕ → Option (List ℕ)
unfolding visit
list_for_each f m head = visit f m (m head).next head
