-- ===== src/Kernel/Termination/Work.antt =====
-- What is left to do for recursiveTerminateProcess of phase2/functions.c: unmarked processes and child
-- links.
use sistemi_operativi_proget.Common.{
  ℕ, zero, suc, ◌+◌, ◌≤◌, ◌<◌, ◌≡◌, refl, ◌≢◌, ap, subst, pos, negsuc, ltb_ℤ, false, Option, none,
  some, List, [], ◌∷◌, arith, Bool-cases, inl, inr, length, ◌==◌, write, erase,
}
use sistemi_operativi_proget.Const.{max_proc}
use sistemi_operativi_proget.Types.{Pcb}
use sistemi_operativi_proget.Pcb.{Pcbs, take_child, leave_parent}
use sistemi_operativi_proget.Kernel.Functions.Terminate.{alive, work_left}

abbrev pub AllBelow : ℕ → List ℕ → Type 0
AllBelow n [] = Unit
AllBelow n (p ∷ q) = (p < n) × AllBelow n q

-- The children of the process blocks are process blocks.
abbrev pub InRange : (ℕ → Pcb) → Type 0
InRange t = (p : ℕ) → p < max_proc → AllBelow max_proc (t p).p_child

abbrev pub load : (ℕ → Pcb) → ℕ → ℕ
load t p = alive (t p).p_pid + length (t p).p_child

abbrev pub work : (ℕ → Pcb) → ℕ
work t = work_left max_proc (load t)

work_left-same :
    (n : ℕ) (v w : ℕ → ℕ) → ((x : ℕ) → x < n → v x ≡ w x) → work_left n v ≡ work_left n w
unfolding work_left
work_left-same zero v w h = refl
work_left-same (suc n) v w h =
    omega (arith, h n (omega arith), work_left-same n v w (λ x lt. h x (omega arith)))

-- One block's share falls by d, and the others stay.
work_left-fall :
    (n p d : ℕ) (v w : ℕ → ℕ)
    → p < n
    → v p + d ≡ w p
    → ((x : ℕ) → x ≢ p → v x ≡ w x)
    → work_left n v + d ≡ work_left n w
unfolding work_left
work_left-fall zero p d v w lt h same = absurd (omega arith)
work_left-fall (suc n) p d v w lt h same = elim (Bool-cases (n == p)) [
  | inl e ↦
      let here : n ≡ p = ground (arith, e) in
      omega (
        arith,
        h,
        ap v here,
        ap w here,
        work_left-same n v w (λ x l. same x (λ q. omega (arith, here, q, l))),
      )
  | inr other ↦
      let away : n ≢ p = ground (arith, other) in
      omega (arith, same n away, work_left-fall n p d v w (omega arith) h same)
]

work_left_mono : (n : ℕ) (v w : ℕ → ℕ) → ((x : ℕ) → v x ≤ w x) → work_left n v ≤ work_left n w
unfolding work_left
work_left_mono zero v w h = omega arith
work_left_mono (suc n) v w h = omega (arith, h n, work_left_mono n v w h)

-- One block's share is less, and no other's is more.
pub work_left-less :
    (n p : ℕ) (v w : ℕ → ℕ)
    → p < n
    → v p < w p
    → ((x : ℕ) → v x ≤ w x)
    → work_left n v < work_left n w
unfolding work_left
work_left-less zero p v w lt h le = absurd (omega arith)
work_left-less (suc n) p v w lt h le = elim (Bool-cases (n == p)) [
  | inl e ↦
      let here : n ≡ p = ground (arith, e) in
      omega (arith, h, ap v here, ap w here, work_left_mono n v w le)
  | inr other ↦
      let away : n ≢ p = ground (arith, other) in
      omega (arith, le n, work_left-less n p v w (omega (arith, away)) h le)
]

abbrev mark : (ℕ → Pcb) → ℕ → ℕ → Pcb
mark t p = write t p (record (t p) { p_pid = negsuc 0 })

pub mark-work :
    (t : ℕ → Pcb) (p : ℕ)
    → p < max_proc
    → ltb_ℤ (t p).p_pid (pos 0) ≡ false
    → work (mark t p) + 1 ≡ work t
mark-work t p lt h =
    work_left-fall max_proc p 1 (load (mark t p)) (load t) lt (ground (arith, h))
      (λ x ne. ground arith)

pub mark-InRange : (t : ℕ → Pcb) (p : ℕ) → InRange t → InRange (mark t p)
mark-InRange t p r x lt = ground (arith, r x lt)

-- A round of the loop takes a child link, and its result is again in range.
pub take_child-work :
    (s : Pcbs) (p child : ℕ) (rest : List ℕ)
    → p < max_proc
    → (s.table p).p_child ≡ child ∷ rest
    → work (take_child s p (child ∷ rest)).0.table + 1 ≡ work s.table
unfolding take_child
take_child-work s p child rest lt h =
    work_left-fall max_proc p 1 (load (take_child s p (child ∷ rest)).0.table) (load s.table) lt
      (ground (arith, h)) (λ x ne. ground arith)

pub take_child-InRange :
    (s : Pcbs) (p child : ℕ) (rest : List ℕ)
    → p < max_proc
    → (s.table p).p_child ≡ child ∷ rest
    → InRange s.table
    → InRange (take_child s p (child ∷ rest)).0.table × (child < max_proc)
unfolding take_child
take_child-InRange s p child rest lt h r =
    let below : AllBelow max_proc (child ∷ rest) = subst (AllBelow max_proc) h (r p lt) in
    ((λ x l. ground (arith, r x l, below.1)), below.0)

erase-AllBelow : (n p : ℕ) (q : List ℕ) → AllBelow n q → AllBelow n (erase p q)
erase-AllBelow n p [] h = tt
erase-AllBelow n p (c ∷ q) h = ground (arith, erase-AllBelow n p q h.1)

erase-le : (p : ℕ) (q : List ℕ) → length (erase p q) ≤ length q
erase-le p [] = omega arith
erase-le p (c ∷ q) = ground (arith, erase-le p q)

pub leave_parent-work :
    (s : Pcbs) (p : ℕ) (o : Option ℕ) → work (leave_parent s p o).0.table ≤ work s.table
unfolding leave_parent
leave_parent-work s p none = omega arith
leave_parent-work s p (some prnt) =
    work_left_mono max_proc (load (leave_parent s p (some prnt)).0.table) (load s.table)
      (λ x. ground (arith, erase-le p (s.table prnt).p_child))

pub leave_parent-InRange :
    (s : Pcbs) (p : ℕ) (o : Option ℕ) → InRange s.table → InRange (leave_parent s p o).0.table
unfolding leave_parent
leave_parent-InRange s p none r x lt = r x lt
leave_parent-InRange s p (some prnt) r x lt =
    ground (arith, r x lt, r prnt, erase-AllBelow max_proc p (s.table x).p_child)
