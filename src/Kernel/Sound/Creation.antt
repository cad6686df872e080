-- ===== src/Kernel/Sound/Creation.antt =====
-- createProcess of phase2/exception.c: the new process, on where the processes are.
use sistemi_operativi_proget.Common.{
  ℕ, ◌+◌, ◌≡◌, ◌≢◌, refl, ap, ◌∙◌, pos, ◌+ℤ◌, ◌<ℤ◌, +ℤ_parts, some, List, [], ◌∷◌, arith, hit,
  count, count-append, Bool-cases, inl, inr, ◌==◌, ==→eq, ==→ne,
}
use sistemi_operativi_proget.Types.{State}
use sistemi_operativi_proget.Pcb.{Pcbs, insert_proc_q, alloc_from, insert_child}
use sistemi_operativi_proget.Pcb.Queue.{found, insert_proc_q-IsSorted, count-insert_proc_q}
use sistemi_operativi_proget.Asl.{Asl}
use sistemi_operativi_proget.Asl.Count.{waiting}
use sistemi_operativi_proget.Asl.Queues.{queue_of}
use sistemi_operativi_proget.Kernel.{Kernel}
use sistemi_operativi_proget.Kernel.Syscalls.{admit, adopt}
use sistemi_operativi_proget.Kernel.Sound.{held, Sound, IsSorted-ext, queue_of-waiting}

-- The kernel after the steps of createProcess, with the block p off the free ones.
abbrev after_create : Kernel → State → ℕ → ℕ → List ℕ → Kernel
after_create k state cur p q =
    admit (adopt (record k { pcbs = (alloc_from k.pcbs (p ∷ q)).0 }) p state) cur p

-- What createProcess does to the blocks.
record Created (s s' : Pcbs) (p : ℕ) (q : List ℕ) : Type 0 where
  pub free : s'.pcb_free ≡ q
  pub next : s'.next_pid ≡ s.next_pid +ℤ pos 1
  pub new : (s'.table p).p_pid ≡ s.next_pid
  pub pid : (x : ℕ) → x ≢ p → (s'.table x).p_pid ≡ (s.table x).p_pid
  pub waits_on : (x : ℕ) → x ≢ p → (s'.table x).p_sem_add ≡ (s.table x).p_sem_add
  pub prio : (x : ℕ) → x ≢ p → (s'.table x).p_prio ≡ (s.table x).p_prio
  pub child :
      (x y : ℕ)
      → x ≢ p
      → count x (s'.table y).p_child ≢ 0
      → (y ≢ p) × (count x (s.table y).p_child ≢ 0)
  pub parent : (y : ℕ) → count p (s'.table y).p_child ≢ 0 → y ≢ p

after_create-Created :
    (k : Kernel) (state : State) (cur p : ℕ) (q : List ℕ)
    → cur ≢ p
    → Created k.pcbs (after_create k state cur p q).pcbs p q
unfolding alloc_from admit insert_child
after_create-Created k state cur p q ne = record {
  free = refl;
  next = refl;
  new = ground arith;
  pid = λ x n. ground (arith, n);
  waits_on = λ x n. ground (arith, n);
  prio = λ x n. ground (arith, n);
  child = λ x y n h. (
    λ here. h (ground (arith, here, ne)),
    λ z. h (ground (arith, n, z, count-append x (k.pcbs.table y).p_child (p ∷ []))),
  );
  parent = λ y h here. h (ground (arith, here, ne));
}

after_create_queue :
    (k : Kernel) (state : State) (cur p : ℕ) (q : List ℕ)
    → (let k1 = after_create k state cur p q in
        (k1.ready_queue ≡ insert_proc_q k1.pcbs.table k.ready_queue p)
        × (k1.asl ≡ k.asl)
        × (k1.current_process ≡ k.current_process))
unfolding alloc_from admit insert_child
after_create_queue k state cur p q = (refl, refl, refl)

pub created-Sound :
    (k : Kernel) (state : State) (cur p : ℕ) (q : List ℕ)
    → k.current_process ≡ some cur
    → k.pcbs.pcb_free ≡ p ∷ q
    → Sound k
    → Sound (admit (adopt (record k { pcbs = (alloc_from k.pcbs (p ∷ q)).0 }) p state) cur p)
created-Sound k state cur p q runs e (g, l) =
    let k1 = after_create k state cur p q in
    let apart : cur ≢ p =
      λ here. ground (arith, here, g.once p, ap (count p) e, ap (found p) runs) in
    let b : Created k.pcbs k1.pcbs p q = after_create-Created k state cur p q apart in
    let moved = after_create_queue k state cur p q in
    let queued : (x : ℕ) → count x k1.ready_queue ≡ hit x p + count x k.ready_queue =
      λ x. ap (count x) moved.0 ∙ count-insert_proc_q k1.pcbs.table x k.ready_queue p in
    let elsewhere : (x : ℕ)
        → held x k1.asl k1.ready_queue k1.current_process
          ≡ hit x p + held x k.asl k.ready_queue k.current_process =
      λ x.
        omega
          (arith, queued x, ap (λ (a : Asl). waiting x a.semd_h) moved.1, ap (found x) moved.2) in
    let was_free : (x : ℕ) → count x k.pcbs.pcb_free ≡ hit x p + count x q = λ x. ap (count x) e in
    let still : (x : ℕ) → count x k1.pcbs.pcb_free ≡ count x q = λ x. ap (count x) b.free in
    let away : (x : ℕ) → count x k1.pcbs.pcb_free ≢ 0 → x ≢ p =
      λ x n here. n (ground (arith, here, g.once x, was_free x, still x)) in
    let unheld : (x : ℕ) → held x k.asl k.ready_queue k.current_process ≢ 0 → x ≢ p =
      λ x n here. n (ground (arith, here, g.once x, was_free x)) in
    let pid : (x : ℕ)
        → (x ≢ p → pos 0 <ℤ (k.pcbs.table x).p_pid)
        → pos 0 <ℤ (k1.pcbs.table x).p_pid =
      λ x h. elim (Bool-cases (x == p)) [
        | inl same ↦ rw (==→eq x p same, b.new) g.fresh
        | inr other ↦ rw (b.pid x (==→ne x p other)) (h (==→ne x p other))
      ] in
    (
      record {
        once = λ x. omega (arith, g.once x, elsewhere x, was_free x, still x);
        dead = λ x n.
            rw (b.pid x (away x n)) (g.dead x (λ z. n (omega (arith, z, was_free x, still x))));
        child = λ x y n. elim (Bool-cases (x == p)) [
          | inl same ↦ rw (==→eq x p same, b.new) (λ z. ground (arith, z, g.fresh))
          | inr other ↦
              let ne = ==→ne x p other in rw (b.pid x ne) (g.child x y (b.child x y ne n).1)
        ];
        fresh = rw b.next (omega (arith, g.fresh, +ℤ_parts k.pcbs.next_pid (pos 1)));
        named = λ x key n.
            let old : count x (queue_of key k.asl.semd_h) ≢ 0 = λ z. n (rw moved.1 z) in
            let ne : x ≢ p =
              unheld x (λ z. old (omega (arith, z, queue_of-waiting x key k.asl.semd_h))) in
            (b.waits_on x ne ∙ (g.named x key old).0, (g.named x key old).1);
        distinct = rw moved.1 g.distinct;
        sorted = rw moved.0 (
            insert_proc_q-IsSorted k1.pcbs.table k.ready_queue p (
              IsSorted-ext k.pcbs.table k1.pcbs.table k.ready_queue
                (λ x n. b.prio x (unheld x (λ z. n (omega (arith, z))))) g.sorted));
        beyond = λ x far.
            let ne : x ≢ p = λ here. ground (arith, here, (g.beyond x far).1, was_free x) in
            (
              b.pid x ne ∙ (g.beyond x far).0,
              ground (arith, ne, (g.beyond x far).1, elsewhere x, was_free x, still x),
            );
        older = λ x y n. elim (Bool-cases (x == p)) [
          | inl same ↦
              let here = ==→eq x p same in
              let ne : y ≢ p = b.parent y (λ z. n (rw here z)) in
              inr (rw (here, b.new, b.pid y ne) (g.young y))
          | inr other ↦
              let ne = ==→ne x p other in
              let old = b.child x y ne n in rw (b.pid x ne, b.pid y old.0) (g.older x y old.1)
        ];
        young = λ x. elim (Bool-cases (x == p)) [
          | inl same ↦
              rw (==→eq x p same, b.new, b.next) (omega (arith, +ℤ_parts k.pcbs.next_pid (pos 1)))
          | inr other ↦
              rw (b.pid x (==→ne x p other), b.next)
                (omega (arith, g.young x, +ℤ_parts k.pcbs.next_pid (pos 1)))
        ];
      },
      λ x n. pid x (λ ne. l x (λ z. n (ground (arith, z, elsewhere x, ne)))),
    )
