-- ===== src/Pcb/Linked.antt =====
-- The process queues of phase1/pcb.c as the code walks them: over the pointers of headers/listx.h.
-- A block is at the address of its p_list, its first field. Loops run on fuel.
use mathlib.Core.List.{append-nil, append_assoc}
use sistemi_operativi_proget.Common.{
  ℕ, zero, suc, ◌≡◌, ◌≢◌, refl, sym, ap, ◌∙◌, subst, ltb_ℤ, true, false, Option, none, some, List,
  [], ◌∷◌, ◌++◌, arith, if◌then◌else◌, Bool-cases, inl, inr, ◌==◌, ne→==, ==→eq, length,
}
use sistemi_operativi_proget.Types.{Pcb}
use sistemi_operativi_proget.Listx.{
  Memory, link_between, list_add, list_add_tail, list_del, list_empty,
}
use sistemi_operativi_proget.Listx.Ring.{Ring, Avoids, Avoids-append, first, last, next-first}
use sistemi_operativi_proget.Listx.Ops.{
  link_between-Ring, list_add-Ring, list_add_tail-Ring, list_del-Ring, Links-around,
}
use sistemi_operativi_proget.Pcb.{insert_proc_q, out_proc_q, remove_proc_q}

-- `list_for_each(pos, head)` of insertProcQ, from pos on; none is a scan that ran out of fuel.
unfoldable pub insert_scan : ℕ → Memory → (ℕ → Pcb) → ℕ → ℕ → ℕ → Option Memory
insert_scan zero m t head p pos = none
insert_scan (suc n) m t head p pos =
    let rest = insert_scan n m t head p (m pos).next in
    if pos == head
    then some (list_add_tail m p head)
    else if ltb_ℤ (t pos).p_prio (t p).p_prio
    then some (link_between m p (m pos).prev pos)
    else rest

unfoldable pub insert_linked : ℕ → Memory → (ℕ → Pcb) → ℕ → ℕ → Option Memory
insert_linked n m t head p =
    if list_empty m head then some (list_add m p head) else insert_scan n m t head p (m head).next

-- `list_for_each(pos, head)` of outProcQ, from pos on.
unfoldable pub out_scan : ℕ → Memory → ℕ → ℕ → ℕ → Option (Memory × Option ℕ)
out_scan zero m head p pos = none
out_scan (suc n) m head p pos =
    let rest = out_scan n m head p (m pos).next in
    if pos == head then some (m, none) else if pos == p then some (list_del m p, some p) else rest

unfoldable pub out_linked : ℕ → Memory → ℕ → ℕ → Option (Memory × Option ℕ)
out_linked n m head p =
    if list_empty m head then some (m, none) else out_scan n m head p (m head).next

unfoldable pub remove_linked : Memory → ℕ → Memory × Option ℕ
remove_linked m head =
    if list_empty m head then (m, none) else (list_del m (m head).next, some (m head).next)

-- The scan arrives at a ring that holds the list.
abbrev pub Arrives : ℕ → List ℕ → Option Memory → Type 0
Arrives h q o = (m : Memory) × (o ≡ some m) × Ring m h q

-- The scan arrives at a ring that holds the list, with the answer.
abbrev pub Yields : ℕ → List ℕ × Option ℕ → Option (Memory × Option ℕ) → Type 0
Yields h r o = (m : Memory) × (o ≡ some (m, r.1)) × Ring m h r.0

module _ (m : Memory) (h p : ℕ) where
  nonempty : (y : ℕ) (ys : List ℕ) → Ring m h (y ∷ ys) → list_empty m h ≡ false
  unfolding list_empty
  nonempty y ys r = rw r.links.0 (ne→== y h (λ e. r.apart.0 (sym e)))

  -- The cell of a ring behind those of xs: it is not the sentinel, and its neighbours.
  at_cell :
      (xs ys : List ℕ) (y : ℕ)
      → Ring m h (xs ++ y ∷ ys)
      → ((y == h) ≡ false) × ((m y).prev ≡ last h xs) × ((m y).next ≡ first ys h)
  at_cell xs ys y r =
      let near = Links-around m h y h xs ys r.links in
      (ne→== y h (λ e. (Avoids-append h xs (y ∷ ys) r.apart).1.0 (sym e)), near.0, near.1)

  scan_before :
      (t : ℕ → Pcb) (n pos : ℕ)
      → (pos == h) ≡ false
      → ltb_ℤ (t pos).p_prio (t p).p_prio ≡ true
      → insert_scan (suc n) m t h p pos ≡ some (link_between m p (m pos).prev pos)
  unfolding insert_scan
  scan_before t n pos e f = rw (e, f) refl

  scan_on :
      (t : ℕ → Pcb) (n pos : ℕ)
      → (pos == h) ≡ false
      → ltb_ℤ (t pos).p_prio (t p).p_prio ≡ false
      → insert_scan (suc n) m t h p pos ≡ insert_scan n m t h p (m pos).next
  unfolding insert_scan
  scan_on t n pos e f = rw (e, f) refl

  insert_scan-Ring :
      (t : ℕ → Pcb) (xs ys : List ℕ)
      → Ring m h (xs ++ ys)
      → Avoids p (xs ++ ys)
      → p ≢ h
      → Arrives h (xs ++ insert_proc_q t ys p) (insert_scan (suc (length ys)) m t h p (first ys h))
  insert_scan-Ring t xs [] r a n =
      let r1 = subst (Ring m h) (append-nil xs) r in
      let a1 = subst (Avoids p) (append-nil xs) a in
      (
        list_add_tail m p h,
        unfold insert_scan in ground arith,
        unfold insert_proc_q in list_add_tail-Ring h p xs r1 a1 n,
      )
  insert_scan-Ring t xs (y ∷ ys) r a n =
      let here = at_cell xs ys y r in
      elim (Bool-cases (ltb_ℤ (t y).p_prio (t p).p_prio)) [
        | inl less ↦
            let linked =
              subst (λ z. Ring (link_between m p z y) h (xs ++ p ∷ y ∷ ys)) (sym here.1)
                (link_between-Ring h p xs (y ∷ ys) r a n) in
            let joined : insert_proc_q t (y ∷ ys) p ≡ p ∷ y ∷ ys =
              unfold insert_proc_q in rw less refl in
            (
              link_between m p (m y).prev y,
              scan_before t (suc (length ys)) y here.0 less,
              subst (λ q. Ring (link_between m p (m y).prev y) h (xs ++ q)) (sym joined) linked,
            )
        | inr more ↦
            let rest =
              insert_scan-Ring t (xs ++ y ∷ []) ys
                (subst (Ring m h) (sym (append_assoc xs (y ∷ []) ys)) r)
                (subst (Avoids p) (sym (append_assoc xs (y ∷ []) ys)) a) n in
            let passed : insert_proc_q t (y ∷ ys) p ≡ y ∷ insert_proc_q t ys p =
              unfold insert_proc_q in rw more refl in
            (
              rest.0,
              scan_on t (suc (length ys)) y here.0 more
                  ∙ ap (insert_scan (suc (length ys)) m t h p) here.2
                  ∙ rest.1,
              subst (λ q. Ring rest.0 h (xs ++ q)) (sym passed)
                  (subst (Ring rest.0 h) (append_assoc xs (y ∷ []) (insert_proc_q t ys p)) rest.2),
            )
      ]

  -- insertProcQ, given a round for each block of the queue and one to stop, comes to an end on a ring
  -- and leaves the ring of the queue with p inserted by priority.
  pub insert_linked-Ring :
      (t : ℕ → Pcb) (q : List ℕ)
      → Ring m h q
      → Avoids p q
      → p ≢ h
      → Arrives h (insert_proc_q t q p) (insert_linked (suc (length q)) m t h p)
  unfolding insert_linked
  insert_linked-Ring t [] r a n = (
    list_add m p h,
    unfold list_empty in ground (arith, r.links.0),
    unfold insert_proc_q in list_add-Ring h p [] r a n,
  )
  insert_linked-Ring t (y ∷ ys) r a n =
      rw (nonempty y ys r, next-first m h h (y ∷ ys) r.links) (insert_scan-Ring t [] (y ∷ ys) r a n)

  out_stop :
      (n pos : ℕ)
      → (pos == h) ≡ false
      → (pos == p) ≡ true
      → out_scan (suc n) m h p pos ≡ some (list_del m p, some p)
  unfolding out_scan
  out_stop n pos e f = rw (e, f) refl

  out_on :
      (n pos : ℕ)
      → (pos == h) ≡ false
      → (pos == p) ≡ false
      → out_scan (suc n) m h p pos ≡ out_scan n m h p (m pos).next
  unfolding out_scan
  out_on n pos e f = rw (e, f) refl

  -- The queue behind the blocks of xs, with p taken off.
  abbrev behind : List ℕ → List ℕ → List ℕ × Option ℕ
  behind xs ys = (xs ++ (out_proc_q ys p).0, (out_proc_q ys p).1)

  out_scan-Ring :
      (xs ys : List ℕ)
      → Ring m h (xs ++ ys)
      → Yields h (behind xs ys) (out_scan (suc (length ys)) m h p (first ys h))
  out_scan-Ring xs [] r = unfold out_proc_q in (m, unfold out_scan in ground arith, r)
  out_scan-Ring xs (y ∷ ys) r =
      let here = at_cell xs ys y r in
      elim (Bool-cases (y == p)) [
        | inl same ↦
            let r1 = subst (λ z. Ring m h (xs ++ z ∷ ys)) (==→eq y p same) r in
            let off : out_proc_q (y ∷ ys) p ≡ (ys, some p) = unfold out_proc_q in rw same refl in
            (
              list_del m p,
              out_stop (suc (length ys)) y here.0 same
                  ∙ ap (λ z. some (list_del m p, z.1)) (sym off),
              subst (λ z. Ring (list_del m p) h (xs ++ z.0)) (sym off) (list_del-Ring h p xs ys r1),
            )
        | inr other ↦
            let rest =
              out_scan-Ring (xs ++ y ∷ []) ys
                (subst (Ring m h) (sym (append_assoc xs (y ∷ []) ys)) r) in
            let past : out_proc_q (y ∷ ys) p ≡ (y ∷ (out_proc_q ys p).0, (out_proc_q ys p).1) =
              unfold out_proc_q in rw other refl in
            (
              rest.0,
              out_on (suc (length ys)) y here.0 other
                  ∙ ap (out_scan (suc (length ys)) m h p) here.2
                  ∙ rest.1
                  ∙ ap (λ z. some (rest.0, z.1)) (sym past),
              subst (λ z. Ring rest.0 h (xs ++ z.0)) (sym past)
                  (subst (Ring rest.0 h) (append_assoc xs (y ∷ []) (out_proc_q ys p).0) rest.2),
            )
      ]

  -- outProcQ, given a round for each block of the queue and one to stop, comes to an end on a ring,
  -- leaves the ring of the queue without p and returns p, or NULL where p was not on it.
  pub out_linked-Ring :
      (q : List ℕ) → Ring m h q → Yields h (out_proc_q q p) (out_linked (suc (length q)) m h p)
  unfolding out_linked
  out_linked-Ring [] r = unfold out_proc_q in (m, unfold list_empty in ground (arith, r.links.0), r)
  out_linked-Ring (y ∷ ys) r =
      rw (nonempty y ys r, next-first m h h (y ∷ ys) r.links) (out_scan-Ring [] (y ∷ ys) r)

-- removeProcQ takes the first block off the ring and returns it, NULL where the ring is empty.
pub remove_linked-Ring :
    (m : Memory) (h : ℕ) (q : List ℕ)
    → Ring m h q
    → Ring (remove_linked m h).0 h (remove_proc_q q).0
      × ((remove_linked m h).1 ≡ (remove_proc_q q).1)
unfolding remove_linked
remove_linked-Ring m h [] r =
    let empty : list_empty m h ≡ true = unfold list_empty in ground (arith, r.links.0) in
    rw empty (r, refl)
remove_linked-Ring m h (y ∷ ys) r =
    rw (nonempty m h y y ys r, next-first m h h (y ∷ ys) r.links) (list_del-Ring h y [] ys r, refl)
