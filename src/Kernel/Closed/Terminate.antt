-- ===== src/Kernel/Closed/Terminate.antt =====
-- recursiveTerminateProcess of phase2/functions.c keeps what its three kinds of step keep.
use sistemi_operativi_proget.Common.{
  ℕ, zero, suc, pos, negsuc, ltb_ℤ, Option, none, some, List, if_cases,
}
use sistemi_operativi_proget.Const.{Platform}
use sistemi_operativi_proget.Pcb.{Pcbs, remove_child, take_child}
use sistemi_operativi_proget.Kernel.{Kernel, pcb, set_pcb}
use sistemi_operativi_proget.Kernel.Functions.Terminate.{
  detach, and_then, children_loop, recursive_terminate_process,
}

-- Of whatever a termination answers, if it answers.
abbrev pub Answers : (Kernel → Type 0) → Option Kernel → Type 0
Answers R none = Unit
Answers R (some k) = R k

pub Answers-bind :
    (R S : Kernel → Type 0) (o : Option Kernel) (f : Kernel → Option Kernel)
    → Answers R o
    → ((k : Kernel) → R k → Answers S (f k))
    → Answers S (and_then o f)
Answers-bind R S none f h g = tt
Answers-bind R S (some k) f h g = g k h

pub Answers-mono :
    (R S : Kernel → Type 0) (o : Option Kernel)
    → ((k : Kernel) → R k → S k)
    → Answers R o
    → Answers S o
Answers-mono R S none h a = tt
Answers-mono R S (some k) h a = h k a

-- A predicate that survives the marking of a process, the removal of a child and the release of a
-- process survives the termination.
module _ (R : Kernel → Type 0) (c : Platform)
    (marks : (k : Kernel) (t : ℕ) → R k → R (set_pcb k t (record (pcb k t) { p_pid = negsuc 0 })))
    (cuts : (k : Kernel) (t : ℕ) (q : List ℕ)
      → R k
      → R (record k { pcbs = (take_child k.pcbs t q).0 }))
    (releases : (k : Kernel) (t : ℕ) → R k → R (detach c k t)) where
  children_loop-keeps :
      (f : Kernel → ℕ → Option Kernel) (n : ℕ) (k : Kernel) (t : ℕ)
      → ((k1 : Kernel) (p : ℕ) → R k1 → Answers R (f k1 p))
      → R k
      → Answers R (children_loop f n k t)
  unfolding children_loop remove_child
  children_loop-keeps f zero k t h r = tt
  children_loop-keeps f (suc n) k t h r =
      by_child (take_child k.pcbs t (pcb k t).p_child).0 (take_child k.pcbs t (pcb k t).p_child).1
        (cuts k t (pcb k t).p_child r) (λ k2 r2. children_loop-keeps f n k2 t h r2)
    where
      by_child :
          (s : Pcbs) (o : Option ℕ)
          → R (record k { pcbs = s })
          → ((k2 : Kernel) → R k2 → Answers R (children_loop f n k2 t))
          → Answers R (elim o [
            | none ↦ some k
            | some p ↦ and_then (f (record k { pcbs = s }) p) (λ k1. children_loop f n k1 t)
          ])
      by_child s none e rest = r
      by_child s (some p) e rest =
          Answers-bind R R (f (record k { pcbs = s }) p) (λ k1. children_loop f n k1 t)
            (h (record k { pcbs = s }) p e) rest

  pub recursive_terminate-keeps :
      (n : ℕ) (k : Kernel) (t : ℕ) → R k → Answers R (recursive_terminate_process n c k t)
  unfolding recursive_terminate_process
  recursive_terminate-keeps zero k t r = tt
  recursive_terminate-keeps (suc n) k t r =
      let marked = set_pcb k t (record (pcb k t) { p_pid = negsuc 0 }) in
      let f : Kernel → ℕ → Option Kernel = λ k1 p. recursive_terminate_process n c k1 p in
      let rest = children_loop f n marked t in
      if_cases {A = Option Kernel} (Answers R) (ltb_ℤ (pcb k t).p_pid (pos 0)) (some k)
        (and_then rest (λ k1. some (detach c k1 t))) (λ _. r)
        (λ _.
          Answers-bind R R rest (λ k1. some (detach c k1 t))
            (children_loop-keeps f n marked t (recursive_terminate-keeps n) (marks k t r))
            (λ k2 r2. releases k2 t r2))
