-- ===== src/Kernel/Sound/Descent.antt =====
-- The family of a process, and the loop of recursiveTerminateProcess of phase2/functions.c over its
-- children.
use sistemi_operativi_proget.Common.{
  ℕ, zero, suc, ◌≡◌, ◌≢◌, refl, sym, ap, ◌∙◌, pos, ◌≤ℤ◌, ◌<ℤ◌, Option, none, some, List, [], ◌∷◌,
  arith, count, inl, inr,
}
use sistemi_operativi_proget.Types.{Pcb}
use sistemi_operativi_proget.Pcb.{Pcbs, take_child, remove_child}
use sistemi_operativi_proget.Kernel.{Kernel, pcb}
use sistemi_operativi_proget.Kernel.Functions.Terminate.{and_then, children_loop}
use sistemi_operativi_proget.Kernel.Sound.Release.{Pruned-Good}
use sistemi_operativi_proget.Kernel.Sound.Kill.{GoodAt}
use sistemi_operativi_proget.Kernel.Closed.Terminate.{Answers, Answers-bind, Answers-mono}
use sistemi_operativi_proget.Kernel.Sound.Sweep.{
  Freed, Swept, Swept-dead, Swept-trans, Swept-refl, pid_cases, Cut, Cut-Swept, Mortal,
  child-Mortal,
}

-- The descendants of a process, over live ancestors.
pub data Descends (t : ℕ → Pcb) (a : ℕ) : ℕ → Type 0 where
  self : Descends t a a
  below :
      (y x : ℕ) → Descends t a y → pos 0 ≤ℤ (t y).p_pid → count x (t y).p_child ≢ 0 → Descends t a x

-- With fewer children and fewer live processes there are fewer descendants.
pub Descends-mono :
    (t t' : ℕ → Pcb) (a x : ℕ)
    → ((y : ℕ) → pos 0 ≤ℤ (t' y).p_pid → pos 0 ≤ℤ (t y).p_pid)
    → ((x y : ℕ) → count x (t' y).p_child ≢ 0 → count x (t y).p_child ≢ 0)
    → Descends t' a x
    → Descends t a x
Descends-mono t t' a x live shrinks self = Descends.self
Descends-mono t t' a x live shrinks (below y z d l n) =
    Descends.below y z (Descends-mono t t' a y live shrinks d) (live y l) (shrinks z y n)

-- A descendant of a child of a live process is a descendant of it.
pub Descends-child :
    (t : ℕ → Pcb) (a p x : ℕ)
    → pos 0 ≤ℤ (t a).p_pid
    → count p (t a).p_child ≢ 0
    → Descends t p x
    → Descends t a x
Descends-child t a p x live n self = Descends.below a p Descends.self live n
Descends-child t a p x live n (below y z d l m) =
    Descends.below y z (Descends-child t a p y live n d) l m

-- Who was dead is dead, so who is live was live.
Swept-live :
    (k k1 : Kernel) (y : ℕ) → Swept k k1 → pos 0 ≤ℤ (pcb k1 y).p_pid → pos 0 ≤ℤ (pcb k y).p_pid
Swept-live k k1 y sw live = elim (pid_cases (pcb k y).p_pid) [
  | inl dead ↦ absurd (ground (arith, live, Swept-dead k k1 y sw dead))
  | inr was ↦ was
]

take_child-Cut :
    (s : Pcbs) (t p : ℕ) (q : List ℕ)
    → (s.table t).p_child ≡ p ∷ q
    → Cut s (take_child s t (p ∷ q)).0 p
unfolding take_child
take_child-Cut s t p q e = record {
  pruned = record {
    pid = λ x. inl (ground arith);
    waits_on = λ x. ground arith;
    prio = λ x. ground arith;
    child = λ x y n z. n (ground (arith, z, ap (count x) e));
    free = refl;
    next = refl;
  };
  pid = λ x. ground arith;
  others = λ x y n. ground (arith, n, ap (count x) e);
}

Cut-Mortal :
    (k : Kernel) (s : Pcbs) (p : ℕ) → Cut k.pcbs s p → Mortal k p → Mortal (record k { pcbs = s }) p
Cut-Mortal k s p e (near, inl marked) = (near, inl (rw (e.pid p) marked))
Cut-Mortal k s p e (near, inr unfree) = (near, inr (ap (count p) e.pruned.free ∙ unfree))

-- What the termination of t answers: t itself is freed, unless it was marked already, and only
-- descendants of t have died.
abbrev pub Ends : Kernel → ℕ → Kernel → Type 0
Ends k t k1 =
    Swept k k1
    × (pos 0 ≤ℤ (pcb k t).p_pid → Freed k1 t)
    × ((x : ℕ) → pos 0 ≤ℤ (pcb k x).p_pid → (pcb k1 x).p_pid <ℤ pos 0 → Descends k.pcbs.table t x)

-- The target of a termination is dead.
Ends-dead : (k k1 : Kernel) (t : ℕ) → Ends k t k1 → (pcb k1 t).p_pid <ℤ pos 0
Ends-dead k k1 t e = elim (pid_cases (pcb k t).p_pid) [
  | inl dead ↦ Swept-dead k k1 t e.0 dead
  | inr live ↦ rw (e.1 live).pid (omega arith)
]

-- What the loop over t's children answers: t has no child left, and only descendants of its
-- children have died.
pub record Childless (k : Kernel) (t : ℕ) (k1 : Kernel) : Type 0 where
  pub swept : Swept k k1
  pub none_left : (x : ℕ) → count x (pcb k1 t).p_child ≡ 0
  pub only :
      (x : ℕ)
      → pos 0 ≤ℤ (pcb k x).p_pid
      → (pcb k1 x).p_pid <ℤ pos 0
      → (p : ℕ) × (count p (pcb k t).p_child ≢ 0) × Descends k.pcbs.table p x

-- One round and the rounds after it.
round-Childless :
    (k k2 k3 : Kernel) (t p : ℕ) (s : Pcbs)
    → count p (pcb k t).p_child ≢ 0
    → Cut k.pcbs s p
    → Ends (record k { pcbs = s }) p k2
    → Childless k2 t k3
    → Childless k t k3
round-Childless k k2 k3 t p s child cut end later =
    let k1 : Kernel = record k { pcbs = s } in
    let first : Swept k k2 = Cut-Swept k k2 s p cut end.0 (Ends-dead k1 k2 p end) in
    record {
      swept = Swept-trans k k2 k3 first later.swept;
      none_left = later.none_left;
      only = λ x live dead. elim (pid_cases (pcb k2 x).p_pid) [
        | inl gone ↦ (
          p,
          child,
          Descends-mono k.pcbs.table s.table p x (λ y l. rw (sym (cut.pid y)) l) cut.pruned.child
              (end.2 x (rw (cut.pid x) live) gone),
        )
        | inr still ↦
            let from = later.only x still dead in
            (
              from.0,
              first.shrinks from.0 t from.1,
              Descends-mono k.pcbs.table k2.pcbs.table from.0 x (λ y l. Swept-live k k2 y first l)
                  first.shrinks from.2,
            )
      ];
    }

module _ (f : Kernel → ℕ → Option Kernel)
    (kills : (k : Kernel) (p : ℕ) → GoodAt k → Mortal k p → Answers (Ends k p) (f k p)) where
  pub children_loop-Childless :
      (n : ℕ) (k : Kernel) (t : ℕ) → GoodAt k → Answers (Childless k t) (children_loop f n k t)
  unfolding children_loop remove_child take_child
  children_loop-Childless zero k t g = tt
  children_loop-Childless (suc n) k t g =
      by_children (pcb k t).p_child refl (λ k2. children_loop-Childless n k2 t)
    where
      by_children :
          (q : List ℕ)
          → (pcb k t).p_child ≡ q
          → ((k2 : Kernel) → GoodAt k2 → Answers (Childless k2 t) (children_loop f n k2 t))
          → (let s = (take_child k.pcbs t q).0 in
              Answers (Childless k t) (elim (take_child k.pcbs t q).1 [
                | none ↦ some k
                | some p ↦ and_then (f (record k { pcbs = s }) p) (λ k1. children_loop f n k1 t)
              ]))
      by_children [] e rest = record {
        swept = Swept-refl k g;
        none_left = λ x. ap (count x) e;
        only = λ x live dead. absurd (ground (arith, live, dead));
      }
      by_children (p ∷ q) e rest =
          let cut = take_child-Cut k.pcbs t p q e in
          let s = (take_child k.pcbs t (p ∷ q)).0 in
          let k1 : Kernel = record k { pcbs = s } in
          let child : count p (pcb k t).p_child ≢ 0 = λ z. ground (arith, z, ap (count p) e) in
          let start : GoodAt k1 =
            Pruned-Good k.pcbs s k.asl k.ready_queue k.current_process cut.pruned g in
          Answers-bind (Ends k1 p) (Childless k t) (f k1 p) (λ k2. children_loop f n k2 t)
            (kills k1 p start (Cut-Mortal k s p cut (child-Mortal k p t g child)))
            (λ k2 end.
              Answers-mono (Childless k2 t) (Childless k t) (children_loop f n k2 t)
                (λ k3 later. round-Childless k k2 k3 t p s child cut end later)
                (rest k2 end.0.good))
