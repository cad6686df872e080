-- ===== src/Kernel/Sound/Sweep.antt =====
-- recursiveTerminateProcess of phase2/functions.c with its recursion: what happens to each process.
use sistemi_operativi_proget.Common.{
  ℕ, zero, suc, ◌≡◌, ◌≢◌, refl, sym, ap, ◌∙◌, ℤ, pos, negsuc, ◌≤ℤ◌, ◌<ℤ◌, ltb_ℤ, ◌<◌, ltb, arith,
  count, Bool-cases, inl, inr, ◌⊎◌, ◌==◌, ==→eq, ==→ne,
}
use sistemi_operativi_proget.Const.{max_proc}
use sistemi_operativi_proget.Pcb.{Pcbs}
use sistemi_operativi_proget.Pcb.Queue.{found}
use sistemi_operativi_proget.Asl.Queues.{queue_of}
use sistemi_operativi_proget.Kernel.{Kernel, pcb}
use sistemi_operativi_proget.Kernel.Sound.Release.{Pruned}
use sistemi_operativi_proget.Kernel.Sound.Kill.{GoodAt, held_in}

-- A process that the termination has not touched, and one that it has freed.
pub record Kept (k k1 : Kernel) (x : ℕ) : Type 0 where
  pub pid : (pcb k1 x).p_pid ≡ (pcb k x).p_pid
  pub free : count x k1.pcbs.pcb_free ≡ count x k.pcbs.pcb_free
  pub held : held_in k1 x ≡ held_in k x
  pub runs : found x k1.current_process ≡ found x k.current_process
  pub ready : count x k1.ready_queue ≡ count x k.ready_queue
  pub waits : (key : ℕ) → count x (queue_of key k1.asl.semd_h) ≡ count x (queue_of key k.asl.semd_h)

pub record Freed (k1 : Kernel) (x : ℕ) : Type 0 where
  pub pid : (pcb k1 x).p_pid ≡ negsuc 0
  pub free : count x k1.pcbs.pcb_free ≡ 1
  pub held : held_in k1 x ≡ 0

-- Each process is one or the other, and a marked one is not touched; a child leaves its parent only
-- as a dead one, and the children of a process that has died are dead.
pub record Swept (k k1 : Kernel) : Type 0 where
  pub good : GoodAt k1
  pub fate : (x : ℕ) → Kept k k1 x ⊎ Freed k1 x
  pub marked : (x : ℕ) → (pcb k x).p_pid <ℤ pos 0 → Kept k k1 x
  pub shrinks : (x y : ℕ) → count x (pcb k1 y).p_child ≢ 0 → count x (pcb k y).p_child ≢ 0
  pub lost :
      (x y : ℕ)
      → count x (pcb k y).p_child ≢ 0
      → (count x (pcb k1 y).p_child ≢ 0) ⊎ ((pcb k1 x).p_pid <ℤ pos 0)
  pub closed :
      (y x : ℕ)
      → pos 0 ≤ℤ (pcb k y).p_pid
      → (pcb k1 y).p_pid <ℤ pos 0
      → count x (pcb k y).p_child ≢ 0
      → (pcb k1 x).p_pid <ℤ pos 0

-- Who was dead is dead.
pub Swept-dead :
    (k k1 : Kernel) (x : ℕ) → Swept k k1 → (pcb k x).p_pid <ℤ pos 0 → (pcb k1 x).p_pid <ℤ pos 0
Swept-dead k k1 x sw h = rw ((sw.marked x h).pid) h

pub pid_cases : (z : ℤ) → (z <ℤ pos 0) ⊎ (pos 0 ≤ℤ z)
pid_cases z = elim (Bool-cases (ltb_ℤ z (pos 0))) [
  | inl less ↦ inl (ground (arith, less))
  | inr more ↦ inr (ground (arith, more))
]

Kept-trans : (k k1 k2 : Kernel) (x : ℕ) → Kept k k1 x → Kept k1 k2 x → Kept k k2 x
Kept-trans k k1 k2 x a b = record {
  pid = b.pid ∙ a.pid;
  free = b.free ∙ a.free;
  held = b.held ∙ a.held;
  runs = b.runs ∙ a.runs;
  ready = b.ready ∙ a.ready;
  waits = λ key. b.waits key ∙ a.waits key;
}

Freed-Kept : (k1 k2 : Kernel) (x : ℕ) → Freed k1 x → Kept k1 k2 x → Freed k2 x
Freed-Kept k1 k2 x a b = record {
  pid = b.pid ∙ a.pid;
  free = b.free ∙ a.free;
  held = b.held ∙ a.held;
}

pub Swept-trans : (k k1 k2 : Kernel) → Swept k k1 → Swept k1 k2 → Swept k k2
Swept-trans k k1 k2 a b = record {
  good = b.good;
  fate = λ x. elim (a.fate x) [
    | inl kept ↦ elim (b.fate x) [
      | inl again ↦ inl (Kept-trans k k1 k2 x kept again)
      | inr freed ↦ inr freed
    ]
    | inr freed ↦ inr (Freed-Kept k1 k2 x freed (b.marked x (rw freed.pid (omega arith))))
  ];
  marked = λ x h. let kept = a.marked x h in Kept-trans k k1 k2 x kept (b.marked x (rw kept.pid h));
  shrinks = λ x y n. a.shrinks x y (b.shrinks x y n);
  lost = λ x y n. elim (a.lost x y n) [
    | inl there ↦ b.lost x y there
    | inr dead ↦ inr (Swept-dead k1 k2 x b dead)
  ];
  closed = λ y x live dead n. elim (pid_cases (pcb k1 y).p_pid) [
    | inl gone ↦ Swept-dead k1 k2 x b (a.closed y x live gone n)
    | inr still ↦ elim (a.lost x y n) [
      | inl there ↦ b.closed y x still dead there
      | inr lost ↦ Swept-dead k1 k2 x b lost
    ]
  ];
}

Kept-refl : (k : Kernel) (x : ℕ) → Kept k k x
Kept-refl k x = record {
  pid = refl;
  free = refl;
  held = refl;
  runs = refl;
  ready = refl;
  waits = λ key. refl;
}

pub Swept-refl : (k : Kernel) → GoodAt k → Swept k k
Swept-refl k g = record {
  good = g;
  fate = λ x. inl (Kept-refl k x);
  marked = λ x h. Kept-refl k x;
  shrinks = λ x y n. n;
  lost = λ x y n. inl n;
  closed = λ y x live dead n. absurd (ground (arith, live, dead));
}

-- The child p is cut off its parent, and nothing else changes.
pub record Cut (s s' : Pcbs) (p : ℕ) : Type 0 where
  pub pruned : Pruned s s'
  pub pid : (x : ℕ) → (s'.table x).p_pid ≡ (s.table x).p_pid
  pub others : (x y : ℕ) → x ≢ p → count x (s'.table y).p_child ≡ count x (s.table y).p_child

-- A child is cut off and dies.
pub Cut-Swept :
    (k k2 : Kernel) (s : Pcbs) (p : ℕ)
    → Cut k.pcbs s p
    → Swept (record k { pcbs = s }) k2
    → (pcb k2 p).p_pid <ℤ pos 0
    → Swept k k2
Cut-Swept k k2 s p cut sw dead =
    let k1 : Kernel = record k { pcbs = s } in
    let kept : (x : ℕ) → Kept k k1 x = λ x. record {
      pid = cut.pid x;
      free = ap (count x) cut.pruned.free;
      held = refl;
      runs = refl;
      ready = refl;
      waits = λ key. refl;
    } in
    let still : (x y : ℕ)
        → count x (pcb k y).p_child ≢ 0
        → (count x (s.table y).p_child ≢ 0) ⊎ (x ≡ p) =
      λ x y n. elim (Bool-cases (x == p)) [
        | inl same ↦ inr (==→eq x p same)
        | inr other ↦ inl (λ z. n (sym (cut.others x y (==→ne x p other)) ∙ z))
      ] in
    record {
      good = sw.good;
      fate = λ x. elim (sw.fate x) [
        | inl e ↦ inl (Kept-trans k k1 k2 x (kept x) e)
        | inr freed ↦ inr freed
      ];
      marked = λ x h. Kept-trans k k1 k2 x (kept x) (sw.marked x (rw (cut.pid x) h));
      shrinks = λ x y n. cut.pruned.child x y (sw.shrinks x y n);
      lost = λ x y n. elim (still x y n) [
        | inl there ↦ sw.lost x y there
        | inr same ↦ inr (rw same dead)
      ];
      closed = λ y x live gone n. elim (still x y n) [
        | inl there ↦ sw.closed y x (rw (cut.pid y) live) gone there
        | inr same ↦ rw same dead
      ];
    }

-- A process that may be terminated: one already marked, or one whose block is not free.
abbrev pub Mortal : Kernel → ℕ → Type 0
Mortal k t = (t < max_proc) × (((pcb k t).p_pid <ℤ pos 0) ⊎ (count t k.pcbs.pcb_free ≡ 0))

-- Only the blocks of the table have identifiers.
pub pid_near : (k : Kernel) (x : ℕ) → GoodAt k → (pcb k x).p_pid ≢ pos 0 → x < max_proc
pid_near k x g n = elim (Bool-cases (ltb x max_proc)) [
  | inl less ↦ ground (arith, less)
  | inr more ↦ absurd (n (g.beyond x (ground (arith, more))).0)
]

pub child-Mortal : (k : Kernel) (p y : ℕ) → GoodAt k → count p (pcb k y).p_child ≢ 0 → Mortal k p
child-Mortal k p y g n = (
  pid_near k p g (g.child p y n),
  elim (Bool-cases (count p k.pcbs.pcb_free == 0)) [
    | inl none_free ↦ inr (==→eq _ _ none_free)
    | inr free ↦ inl (below (pcb k p).p_pid (g.dead p (==→ne _ _ free)) (g.child p y n))
  ],
)
  where
    below : (z : ℤ) → z ≤ℤ pos 0 → z ≢ pos 0 → z <ℤ pos 0
    below (pos zero) h n = absurd (n refl)
    below (pos (suc m)) h n = omega arith
    below (negsuc m) h n = omega arith
