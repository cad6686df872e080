-- ===== src/Kernel/Sound/Moves.antt =====
-- The kinds of change of Kernel/Closed, other than a termination, on where the processes are.
use sistemi_operativi_proget.Common.{
  ℕ, ◌+◌, ◌≡◌, ◌≢◌, ◌≤◌, refl, ap, ◌∙◌, none, some, List, [], ◌∷◌, arith, hit, count, Bool-cases,
  inl, inr, ◌==◌, if◌then◌else◌, Bool, true, false, subst,
}
use sistemi_operativi_proget.Pcb.{insert_proc_q, remove_proc_q}
use sistemi_operativi_proget.Pcb.Queue.{
  found, IsSorted, insert_proc_q-IsSorted, count-insert_proc_q,
}
use sistemi_operativi_proget.Asl.{Asl, remove_blocked}
use sistemi_operativi_proget.Asl.Count.{waiting, waiting-remove_blocked}
use sistemi_operativi_proget.Asl.Queues.{queue_of, DistinctKeys}
use sistemi_operativi_proget.Asl.Refines.{remove_blocked-refines}
use sistemi_operativi_proget.Kernel.{Kernel}
use sistemi_operativi_proget.Kernel.Closed.{Quiet, Waking}
use sistemi_operativi_proget.Kernel.Sound.{held, Sound, IsSorted-ext, queue_of-waiting}

pub Quiet-Sound : (k k' : Kernel) → Quiet k k' → Sound k → Sound k'
Quiet-Sound k k' (e, r) (g, l) = (
  record {
    once = λ x. rw (e.free, r.ready, r.asl, e.current) (g.once x);
    dead = λ x n. rw (e.kin.pid x) (g.dead x (λ z. n (rw e.free z)));
    child = λ x y n. rw (e.kin.pid x) (g.child x y (λ z. n (rw (e.kin.child y) z)));
    fresh = rw e.next g.fresh;
    named = λ x key n. rw (r.waits_on x) (g.named x key (λ z. n (rw r.asl z)));
    distinct = rw r.asl g.distinct;
    sorted =
        rw r.ready
          (IsSorted-ext k.pcbs.table k'.pcbs.table k.ready_queue (λ x n. e.kin.prio x) g.sorted);
    beyond = λ x far. rw (e.kin.pid x, e.free, r.ready, r.asl, e.current) (g.beyond x far);
    older = λ x y n. rw (e.kin.pid x, e.kin.pid y) (g.older x y (λ z. n (rw (e.kin.child y) z)));
    young = λ x. rw (e.kin.pid x, e.next) (g.young x);
  },
  λ x n. rw (e.kin.pid x) (l x (λ z. n (rw (r.ready, r.asl, e.current) z))),
)

pub dispatched-Sound :
    (k : Kernel) (p : ℕ) (q : List ℕ)
    → k.ready_queue ≡ p ∷ q
    → k.current_process ≡ none
    → Sound k
    → Sound (record k { ready_queue = q; current_process = some p })
dispatched-Sound k p q e h (g, l) = (
  record {
    once = λ x. omega (arith, g.once x, ap (count x) e, ap (found x) h);
    dead = g.dead;
    child = g.child;
    fresh = g.fresh;
    named = g.named;
    distinct = g.distinct;
    sorted = (subst (IsSorted k.pcbs.table) e g.sorted).1;
    beyond = λ x far.
        ((g.beyond x far).0, omega (arith, (g.beyond x far).1, ap (count x) e, ap (found x) h));
    older = g.older;
    young = g.young;
  },
  λ x n. l x (λ z. n (omega (arith, z, ap (count x) e, ap (found x) h))),
)

pub released-Sound :
    (k : Kernel) (p : ℕ)
    → k.current_process ≡ some p
    → Sound k
    → Sound (record k {
      ready_queue = insert_proc_q k.pcbs.table k.ready_queue p;
      current_process = none;
    })
released-Sound k p e (g, l) =
    let t = k.pcbs.table in
    (
      record {
        once =
            λ x. omega (arith, g.once x, count-insert_proc_q t x k.ready_queue p, ap (found x) e);
        dead = g.dead;
        child = g.child;
        fresh = g.fresh;
        named = g.named;
        distinct = g.distinct;
        sorted = insert_proc_q-IsSorted t k.ready_queue p g.sorted;
        beyond = λ x far. (
          (g.beyond x far).0,
          omega
              (arith, (g.beyond x far).1, count-insert_proc_q t x k.ready_queue p, ap (found x) e),
        );
        older = g.older;
        young = g.young;
      },
      λ x n.
          l x (λ z. n (omega (arith, z, count-insert_proc_q t x k.ready_queue p, ap (found x) e))),
    )

-- The first process of a queue, if it is taken off.
remove_blocked-queues :
    (a : Asl) (sem x key : ℕ)
    → DistinctKeys a.semd_h
    → count x (queue_of key (remove_blocked a sem).0.semd_h) ≤ count x (queue_of key a.semd_h)
remove_blocked-queues a sem x key u =
    let r = remove_blocked-refines a sem u in
    rw (r.queues key) (by_queue (queue_of sem a.semd_h) refl (key == sem) refl)
  where
    by_queue :
        (q : List ℕ)
        → queue_of sem a.semd_h ≡ q
        → (b : Bool) → (key == sem) ≡ b
        → count x (if b then (remove_proc_q q).0 else queue_of key a.semd_h)
          ≤ count x (queue_of key a.semd_h)
    by_queue q e false h = omega arith
    by_queue [] e true h = omega arith
    by_queue (p ∷ q) e true h =
        let same : key ≡ sem = ground (arith, h) in
        omega (arith, ap (count x) (ap (λ z. queue_of z a.semd_h) same ∙ e))

pub missed-Sound :
    (k : Kernel) (sem : ℕ)
    → (remove_blocked k.asl sem).1 ≡ none
    → Sound k
    → Sound (record k { asl = (remove_blocked k.asl sem).0 })
missed-Sound k sem e (g, l) = (
  record {
    once = λ x. omega (arith, g.once x, waiting-remove_blocked x k.asl sem, ap (found x) e);
    dead = g.dead;
    child = g.child;
    fresh = g.fresh;
    named = λ x key n.
        g.named x key (λ z. n (omega (arith, z, remove_blocked-queues k.asl sem x key g.distinct)));
    distinct = (remove_blocked-refines k.asl sem g.distinct).distinct;
    sorted = g.sorted;
    beyond = λ x far. (
      (g.beyond x far).0,
      omega (arith, (g.beyond x far).1, waiting-remove_blocked x k.asl sem, ap (found x) e),
    );
    older = g.older;
    young = g.young;
  },
  λ x n. l x (λ z. n (omega (arith, z, waiting-remove_blocked x k.asl sem, ap (found x) e))),
)

pub woken-Sound :
    (k k' : Kernel) (sem p : ℕ)
    → (remove_blocked k.asl sem).1 ≡ some p
    → Waking k k' sem p
    → Sound k
    → Sound k'
woken-Sound k k' sem p e w (g, l) =
    let t = k'.pcbs.table in
    let removed : (x : ℕ) → waiting x k'.asl.semd_h + hit x p ≡ waiting x k.asl.semd_h = λ x.
      omega (
        arith,
        waiting-remove_blocked x k.asl sem,
        ap (found x) e,
        ap (λ a. waiting x a.semd_h) w.asl,
      ) in
    let queued : (x : ℕ) → count x k'.ready_queue ≡ hit x p + count x k.ready_queue =
      λ x. ap (count x) w.ready ∙ count-insert_proc_q t x k.ready_queue p in
    let elsewhere : (x : ℕ)
        → held x k'.asl k'.ready_queue k'.current_process
          ≡ held x k.asl k.ready_queue k.current_process =
      λ x. omega (arith, removed x, queued x, ap (found x) w.steady.current) in
    let still : (x key : ℕ)
        → count x (queue_of key k'.asl.semd_h) ≢ 0
        → ((k.pcbs.table x).p_sem_add ≡ key) × (key ≢ 0) =
      λ x key n.
        g.named x key (λ z.
          n (rw w.asl (omega (arith, z, remove_blocked-queues k.asl sem x key g.distinct)))) in
    (
      record {
        once = λ x. omega (arith, g.once x, elsewhere x, ap (count x) w.steady.free);
        dead = λ x n. rw (w.steady.kin.pid x) (g.dead x (λ z. n (rw w.steady.free z)));
        child =
            λ x y n. rw (w.steady.kin.pid x) (g.child x y (λ z. n (rw (w.steady.kin.child y) z)));
        fresh = rw w.steady.next g.fresh;
        named = λ x key n. elim (Bool-cases (x == p)) [
          | inl same ↦
              absurd (
                n (ground (arith, same, queue_of-waiting x key k'.asl.semd_h, removed x, g.once x)))
          | inr other ↦ (rw (w.waits_on x, other) ((still x key n).0), (still x key n).1)
        ];
        distinct = rw w.asl (remove_blocked-refines k.asl sem g.distinct).distinct;
        sorted = rw w.ready (
            insert_proc_q-IsSorted t k.ready_queue p
              (IsSorted-ext k.pcbs.table t k.ready_queue (λ x n. w.steady.kin.prio x) g.sorted));
        beyond = λ x far. (
          w.steady.kin.pid x ∙ (g.beyond x far).0,
          omega (arith, (g.beyond x far).1, elsewhere x, ap (count x) w.steady.free),
        );
        older = λ x y n.
            rw (w.steady.kin.pid x, w.steady.kin.pid y)
              (g.older x y (λ z. n (rw (w.steady.kin.child y) z)));
        young = λ x. rw (w.steady.kin.pid x, w.steady.next) (g.young x);
      },
      λ x n. rw (w.steady.kin.pid x) (l x (λ z. n (elsewhere x ∙ z))),
    )
