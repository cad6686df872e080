-- ===== src/Kernel/Sound/Entries.antt =====
-- The current process blocks on a semaphore: phase2/functions.c, on where the processes are.
use sistemi_operativi_proget.Common.{
  ℕ, ◌+◌, ◌≡◌, ◌≢◌, ◌≤◌, refl, sym, ap, ◌∙◌, none, some, arith, hit, count, Bool-cases, inl, inr,
  ◌⊎◌, ◌==◌, Bool, false, ==→eq,
}
use sistemi_operativi_proget.Pcb.{Pcbs}
use sistemi_operativi_proget.Pcb.Queue.{found, count-insert_proc_q}
use sistemi_operativi_proget.Asl.{Asl, insert_blocked, set_sem_add}
use sistemi_operativi_proget.Asl.Count.{waiting, waiting-insert_blocked}
use sistemi_operativi_proget.Asl.Queues.{queue_of, DistinctKeys}
use sistemi_operativi_proget.Asl.Cases.{
  Insertion, known, new, full, insertion, insert-known, insert-new, insert-full,
}
use sistemi_operativi_proget.Asl.Refines.{BlockResult, blocked, refused, insert_blocked-refines}
use sistemi_operativi_proget.Kernel.{Kernel, pcb, set_pcb}
use sistemi_operativi_proget.Kernel.Functions.{join_semaphore}
use sistemi_operativi_proget.Kernel.Closed.{Kin}
use sistemi_operativi_proget.Kernel.Sound.{Sound, IsSorted-ext, queue_of-waiting}

-- What insertBlocked does to the blocks of the processes, one of which notes its semaphore.
record Noted (s s' : Pcbs) (sem p : ℕ) : Type 0 where
  pub kin : Kin s.table s'.table
  pub free : s'.pcb_free ≡ s.pcb_free
  pub next : s'.next_pid ≡ s.next_pid
  pub waits_on : (x : ℕ) → x ≢ p → (s'.table x).p_sem_add ≡ (s.table x).p_sem_add
  pub noted : (s.table p).p_sem_add ≡ sem → (s'.table p).p_sem_add ≡ sem

insert_blocked-Noted : (s : Pcbs) (a : Asl) (sem p : ℕ) → Noted s (insert_blocked s a sem p).0 sem p
insert_blocked-Noted s a sem p = by_case (insertion a sem)
  where
    written : Noted s (set_sem_add s p sem) sem p
    written = record {
      kin = record { pid = λ x. ground arith; child = λ x. ground arith; prio = λ x. ground arith };
      free = refl;
      next = refl;
      waits_on = λ x n. ground (arith, n);
      noted = λ e. ground arith;
    }

    by_case : Insertion a sem → Noted s (insert_blocked s a sem p).0 sem p
    by_case (known d e) = rw (insert-known s a sem p d e) written
    by_case (new d rest e f) = rw (insert-new s a sem p d rest e f) written
    by_case (full e f) = rw (insert-full s a sem p e f) (record {
      kin = record { pid = λ x. refl; child = λ x. refl; prio = λ x. refl };
      free = refl;
      next = refl;
      waits_on = λ x n. refl;
      noted = λ e. e;
    })

-- What insertBlocked does to the queues.
record Joined (a b : Asl) (sem p : ℕ) : Type 0 where
  pub distinct : DistinctKeys b.semd_h
  pub waits : (x : ℕ) → waiting x b.semd_h ≤ hit x p + waiting x a.semd_h
  pub queues :
      (x key : ℕ)
      → count x (queue_of key b.semd_h) ≢ 0
      → ((x ≡ p) × (key ≡ sem)) ⊎ (count x (queue_of key a.semd_h) ≢ 0)

by_result :
    (s : Pcbs) (a : Asl) (sem p : ℕ) (r : Pcbs × Asl × Bool)
    → DistinctKeys a.semd_h
    → BlockResult s a sem p r
    → ((x : ℕ) → r.2 ≡ false → waiting x r.1.semd_h ≡ hit x p + waiting x a.semd_h)
    → Joined a r.1 sem p
by_result s a sem p r u (blocked t b e j) w = record {
  distinct = j.distinct;
  waits = λ x. omega (arith, w x refl);
  queues = λ x key n. elim (Bool-cases (key == sem)) [
    | inl same ↦ elim (Bool-cases (x == p)) [
      | inl here ↦ inl (ground (arith, here), ground (arith, same))
      | inr away ↦ inr λ z. n (
          rw (j.queues key, same)
            (ground (
              arith,
              away,
              count-insert_proc_q s.table x (queue_of sem a.semd_h) p,
              ap (λ y. count x (queue_of y a.semd_h)) (==→eq key sem same),
              z,
            )))
    ]
    | inr other ↦ inr λ z. n (rw (j.queues key, other) z)
  ];
}
by_result s a sem p r u (refused e f) w = record {
  distinct = u;
  waits = λ x. omega arith;
  queues = λ x key n. inr n;
}

insert_blocked-Joined :
    (s : Pcbs) (a : Asl) (sem p : ℕ)
    → DistinctKeys a.semd_h
    → Joined a (insert_blocked s a sem p).1 sem p
insert_blocked-Joined s a sem p u =
    by_result s a sem p (insert_blocked s a sem p) u (insert_blocked-refines s a sem p u)
      (λ x ok. waiting-insert_blocked x s a sem p ok)

pub blocked-Sound :
    (k : Kernel) (sem p : ℕ)
    → sem ≢ 0
    → k.current_process ≡ some p
    → Sound k
    → Sound (record (join_semaphore (set_pcb k p (record (pcb k p) { p_sem_add = sem })) sem p) {
      current_process = none;
    })
unfolding join_semaphore
blocked-Sound k sem p f e (g, l) =
    let k1 = set_pcb k p (record (pcb k p) { p_sem_add = sem }) in
    let n : Noted k1.pcbs (insert_blocked k1.pcbs k1.asl sem p).0 sem p =
      insert_blocked-Noted k1.pcbs k1.asl sem p in
    let j : Joined k.asl (insert_blocked k1.pcbs k1.asl sem p).1 sem p =
      insert_blocked-Joined k1.pcbs k1.asl sem p g.distinct in
    let pid : (x : ℕ) → ((insert_blocked k1.pcbs k1.asl sem p).0.table x).p_pid ≡ (pcb k x).p_pid =
      λ x. n.kin.pid x ∙ ground arith in
    (
      record {
        once = λ x. omega (arith, g.once x, j.waits x, ap (found x) e, ap (count x) n.free);
        dead = λ x h. rw (pid x) (g.dead x (λ z. h (rw n.free z)));
        child = λ x y h. rw (pid x) (g.child x y (λ z. h (rw (n.kin.child y) (ground (arith, z)))));
        fresh = rw n.next g.fresh;
        named = λ x key h. elim (j.queues x key h) [
          | inl (here, same) ↦ (rw here (n.noted (ground arith) ∙ sym same), λ z. f (sym same ∙ z))
          | inr old ↦
              let away : x ≢ p = λ here. old (
                ground
                  (arith, here, queue_of-waiting x key k.asl.semd_h, g.once x, ap (found x) e)) in
              (
                n.waits_on x away ∙ ground (arith, away) ∙ (g.named x key old).0,
                (g.named x key old).1,
              )
        ];
        distinct = j.distinct;
        sorted =
            IsSorted-ext k.pcbs.table (insert_blocked k1.pcbs k1.asl sem p).0.table k.ready_queue
              (λ x h. n.kin.prio x ∙ ground arith) g.sorted;
        beyond = λ x far. (
          pid x ∙ (g.beyond x far).0,
          ground (arith, (g.beyond x far).1, j.waits x, ap (found x) e, ap (count x) n.free),
        );
        older = λ x y h.
            rw (pid x, pid y) (g.older x y (λ z. h (rw (n.kin.child y) (ground (arith, z)))));
        young = λ x. rw (pid x, n.next) (g.young x);
      },
      λ x h. rw (pid x) (l x (λ z. h (omega (arith, z, j.waits x, ap (found x) e)))),
    )
