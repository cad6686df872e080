-- ===== src/Kernel/Sound/Family.antt =====
-- recursiveTerminateProcess of phase2/functions.c with its recursion: the family of its target.
use sistemi_operativi_proget.Common.{
  ℕ, zero, suc, ◌≡◌, ◌≢◌, refl, sym, ◌∙◌, pos, negsuc, ◌≤ℤ◌, ◌<ℤ◌, ltb_ℤ, ◌<◌, Option, some, arith,
  count, Bool-cases, inl, inr, ◌⊎◌, ◌==◌, if_cases, false, ==→eq, ==→ne,
}
use sistemi_operativi_proget.Const.{Platform, max_proc}
use sistemi_operativi_proget.Kernel.{Kernel, pcb, set_pcb}
use sistemi_operativi_proget.Kernel.Functions.Terminate.{
  detach, and_then, children_loop, recursive_terminate_process,
}
use sistemi_operativi_proget.Kernel.Sound.Release.{Pruned, Pruned-Good}
use sistemi_operativi_proget.Kernel.Sound.Kill.{GoodAt, Detached, detach-Detached}
use sistemi_operativi_proget.Kernel.Closed.Terminate.{Answers, Answers-bind}
use sistemi_operativi_proget.Kernel.Sound.Sweep.{Kept, Freed, Swept, Swept-refl, Mortal}
use sistemi_operativi_proget.Kernel.Sound.Descent.{
  Descends, Descends-mono, Descends-child, Ends, Childless, children_loop-Childless,
}

mark-Pruned :
    (k : Kernel) (t : ℕ)
    → t < max_proc
    → Pruned k.pcbs (set_pcb k t (record (pcb k t) { p_pid = negsuc 0 })).pcbs
mark-Pruned k t near = record {
  pid = λ x. elim (Bool-cases (x == t)) [
    | inl same ↦ inr (ground (arith, same), ground (arith, near, same))
    | inr other ↦ inl (ground (arith, other))
  ];
  waits_on = λ x. ground arith;
  prio = λ x. ground arith;
  child = λ x y n z. n (ground (arith, z));
  free = refl;
  next = refl;
}

-- The process is marked, its children are swept, and it is released.
module _ (c : Platform) (k k2 : Kernel) (t : ℕ) (live : pos 0 ≤ℤ (pcb k t).p_pid)
    (loop : Childless (set_pcb k t (record (pcb k t) { p_pid = negsuc 0 })) t k2) where
  abbrev marked : Kernel
  marked = set_pcb k t (record (pcb k t) { p_pid = negsuc 0 })

  abbrev last : Kernel
  last = detach c k2 t

  own : Kept marked k2 t
  own = loop.swept.marked t (ground arith)

  own_pid : (pcb k2 t).p_pid ≡ negsuc 0
  own_pid = own.pid ∙ ground arith

  module _ (d : Detached k2 last t) (unfree : count t k.pcbs.pcb_free ≡ 0) where
    last-Freed : Freed last t
    last-Freed = record {
      pid = d.pid t ∙ own_pid;
      free = ground (arith, d.free t, own.free, unfree);
      held = d.gone;
    }

    last-Kept : (x : ℕ) → x ≢ t → Kept marked k2 x → Kept k last x
    last-Kept x n e = record {
      pid = d.pid x ∙ e.pid ∙ ground (arith, n);
      free = ground (arith, d.free x, e.free, n);
      held = d.others x n ∙ e.held;
      runs = d.runs x n ∙ e.runs;
      ready = d.ready x n ∙ e.ready;
      waits = λ key. d.waits x key n ∙ e.waits key;
    }

    last-dropped : (x : ℕ) → x ≢ t → Freed k2 x → Freed last x
    last-dropped x n e = record {
      pid = d.pid x ∙ e.pid;
      free = ground (arith, d.free x, e.free, n);
      held = d.others x n ∙ e.held;
    }

    -- A child of the kernel before is a child when the loop has ended, or dead.
    last-lost :
        (x y : ℕ)
        → count x (pcb k y).p_child ≢ 0
        → (count x (pcb last y).p_child ≢ 0) ⊎ ((pcb last x).p_pid <ℤ pos 0)
    last-lost x y n = elim (Bool-cases (x == t)) [
      | inl same ↦ inr (rw (==→eq x t same, last-Freed.pid) (omega arith))
      | inr other ↦ elim (loop.swept.lost x y (λ z. n (ground (arith, z)))) [
        | inl there ↦ inl (λ z. there (sym (d.children x y (==→ne x t other)) ∙ z))
        | inr dead ↦ inr (rw (d.pid x) dead)
      ]
    ]

    -- The children of those that have died are dead: t's own, as the loop has left none.
    last-closed :
        (y x : ℕ)
        → pos 0 ≤ℤ (pcb k y).p_pid
        → (pcb last y).p_pid <ℤ pos 0
        → count x (pcb k y).p_child ≢ 0
        → (pcb last x).p_pid <ℤ pos 0
    last-closed y x l dead n = elim (Bool-cases (y == t)) [
      | inl same ↦ elim (last-lost x y n) [
        | inl there ↦ absurd (d.shrinks x y there (rw (==→eq y t same) (loop.none_left x)))
        | inr gone ↦ gone
      ]
      | inr other ↦ rw (d.pid x) (
          loop.swept.closed y x (ground (arith, l, other)) (rw (sym (d.pid y)) dead)
            (λ z. n (ground (arith, z))))
    ]

    last-Swept : Swept k last
    last-Swept = record {
      good = d.good;
      fate = λ x. elim (Bool-cases (x == t)) [
        | inl same ↦ inr (rw (==→eq x t same) last-Freed)
        | inr other ↦
            let n = ==→ne x t other in
            elim (loop.swept.fate x) [
              | inl e ↦ inl (last-Kept x n e)
              | inr e ↦ inr (last-dropped x n e)
            ]
      ];
      marked = λ x h.
          let n : x ≢ t = λ same. ground (arith, h, live, same) in
          last-Kept x n (loop.swept.marked x (ground (arith, h, n)));
      shrinks = λ x y n z. loop.swept.shrinks x y (d.shrinks x y n) (ground (arith, z));
      lost = last-lost;
      closed = last-closed;
    }

    -- Only t and the descendants of its children have died.
    last-only :
        (x : ℕ) → pos 0 ≤ℤ (pcb k x).p_pid → (pcb last x).p_pid <ℤ pos 0 → Descends k.pcbs.table t x
    last-only x l dead = elim (Bool-cases (x == t)) [
      | inl same ↦ rw (==→eq x t same) Descends.self
      | inr other ↦
          let from = loop.only x (ground (arith, l, other)) (rw (sym (d.pid x)) dead) in
          Descends-child k.pcbs.table t from.0 x live (λ z. from.1 (ground (arith, z)))
            (Descends-mono k.pcbs.table marked.pcbs.table from.0 x (λ y h. ground (arith, h, live))
              (λ z y m e. m (ground (arith, e))) from.2)
    ]

-- A termination frees its target and the live descendants, and touches nothing else.
pub recursive_terminate-Ends :
    (fuel : ℕ) (c : Platform) (k : Kernel) (t : ℕ)
    → GoodAt k
    → Mortal k t
    → Answers (Ends k t) (recursive_terminate_process fuel c k t)
unfolding recursive_terminate_process
recursive_terminate-Ends zero c k t g m = tt
recursive_terminate-Ends (suc n) c k t g m =
    let marked = set_pcb k t (record (pcb k t) { p_pid = negsuc 0 }) in
    let f : Kernel → ℕ → Option Kernel = λ k1 p. recursive_terminate_process n c k1 p in
    let rest = children_loop f n marked t in
    let start : GoodAt marked =
      Pruned-Good k.pcbs marked.pcbs k.asl k.ready_queue k.current_process (mark-Pruned k t m.0)
        g in
    if_cases {A = Option Kernel} (Answers (Ends k t)) (ltb_ℤ (pcb k t).p_pid (pos 0)) (some k)
      (and_then rest (λ k1. some (detach c k1 t)))
      (λ e. (
        Swept-refl k g,
        λ live. absurd (ground (arith, e, live)),
        λ x live dead. absurd (ground (arith, live, dead)),
      ))
      (λ e.
        Answers-bind (Childless marked t) (Ends k t) rest (λ k1. some (detach c k1 t))
          (children_loop-Childless f (recursive_terminate-Ends n c) n marked t start)
          (λ k2 loop. freed_family k2 (ground (arith, e)) (unfree e m) loop))
  where
    unfree : ltb_ℤ (pcb k t).p_pid (pos 0) ≡ false → Mortal k t → count t k.pcbs.pcb_free ≡ 0
    unfree e (near, inl marked) = absurd (ground (arith, e, marked))
    unfree e (near, inr free) = free

    freed_family :
        (k2 : Kernel)
        → pos 0 ≤ℤ (pcb k t).p_pid
        → count t k.pcbs.pcb_free ≡ 0
        → Childless (set_pcb k t (record (pcb k t) { p_pid = negsuc 0 })) t k2
        → Ends k t (detach c k2 t)
    freed_family k2 live free loop =
        let d : Detached k2 (detach c k2 t) t =
          detach-Detached c k2 t loop.swept.good ((own c k k2 t live loop).free ∙ free)
            (rw (own_pid c k k2 t live loop) (omega arith)) m.0 in
        (
          last-Swept c k k2 t live loop d free,
          λ h. last-Freed c k k2 t live loop d free,
          last-only c k k2 t live loop d free,
        )
