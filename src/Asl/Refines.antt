-- ===== src/Asl/Refines.antt =====
-- The operations of phase1/asl.c against the map from semaphores to queues.
use sistemi_operativi_proget.Common.{
  ℕ, ◌≡◌, refl, sym, inl, inr, ap, ◌∙◌, Bool, true, false, Option, none, some, List, [], ◌∷◌, arith,
  ◌==◌, if◌then◌else◌, Bool-cases, Option-cases, length,
}
use sistemi_operativi_proget.Types.{Semd}
use sistemi_operativi_proget.Pcb.{Pcbs, insert_proc_q, head_proc_q, remove_proc_q, out_proc_q}
use sistemi_operativi_proget.Asl.{
  Asl, find_semd, place, insert_blocked, remove_blocked, out_blocked, head_blocked, blocked_count,
}
use sistemi_operativi_proget.Asl.Cases.{
  Removal, unknown, stale, last, first, removal, Insertion, known, new, full, insertion,
  insert-known, insert-new, insert-full, remove-unknown, remove-stale, remove-last, remove-first,
  out-unknown, out-known,
}
use sistemi_operativi_proget.Asl.Queues.{
  procq_of, queue_of, DistinctKeys, KeyAbsent, absent-find, queue_of-set_procq,
  DistinctKeys-set_procq, DistinctKeys-drop_semd, queue_of-drop_semd, find-place,
  DistinctKeys-place,
}

-- What insertBlocked does to the map.
pub record BlockedOn (s : Pcbs) (a b : Asl) (sem p : ℕ) : Type 0 where
  pub distinct : DistinctKeys b.semd_h
  pub queues :
      (k : ℕ)
      → queue_of k b.semd_h ≡ (
          if k == sem then insert_proc_q s.table (queue_of sem a.semd_h) p else queue_of k a.semd_h)

queue_of-place :
    (d : Semd) (ds : List Semd) (k : ℕ)
    → KeyAbsent d.s_key ds
    → queue_of k (place d ds) ≡ (if k == d.s_key then d.s_procq else queue_of k ds)
queue_of-place d ds k h = elim (Bool-cases (k == d.s_key)) [
  | inl same ↦ rw (find-place d ds k h, same)
  | inr other ↦ rw (find-place d ds k h, other)
]

-- insertBlocked puts the process into the queue of its semaphore, by priority, and into no other;
-- or it answers TRUE, and then no descriptor was free.
pub data BlockResult (s : Pcbs) (a : Asl) (sem p : ℕ) : Pcbs × Asl × Bool → Type 0 where
  blocked :
      (t : Pcbs) (b : Asl)
      → (t.table p).p_sem_add ≡ sem
      → BlockedOn s a b sem p
      → BlockResult s a sem p (t, b, false)
  refused : a.semd_free ≡ [] → find_semd sem a.semd_h ≡ none → BlockResult s a sem p (s, a, true)

insert_by_case :
    (s : Pcbs) (a : Asl) (sem p : ℕ)
    → DistinctKeys a.semd_h
    → Insertion a sem
    → BlockResult s a sem p (insert_blocked s a sem p)
unfolding insert_proc_q
insert_by_case s a sem p u (known d e) = rw (insert-known s a sem p d e) (
    blocked _ _ (ground arith) (record {
      distinct = DistinctKeys-set_procq sem _ a.semd_h u;
      queues = λ k.
          queue_of-set_procq k sem _ a.semd_h d e
          ∙ ap (λ o. if k == sem then insert_proc_q s.table (procq_of o) p else queue_of k a.semd_h)
              (sym e);
    }))
insert_by_case s a sem p u (new d free e f) =
    let absent = absent-find sem a.semd_h e in
    rw (insert-new s a sem p d free e f) (
      blocked _ _ (ground arith) (record {
        distinct = DistinctKeys-place _ a.semd_h absent u;
        queues = λ k.
            queue_of-place _ a.semd_h k absent
            ∙ ap
                (λ o.
                  if k == sem then insert_proc_q s.table (procq_of o) p else queue_of k a.semd_h)
                (sym e);
      }))
insert_by_case s a sem p u (full e f) = rw (insert-full s a sem p e f) (refused f e)

-- With distinct keys, insertBlocked answers FALSE, the process notes the semaphore and joins that
-- semaphore's queue by priority, all other queues stay and the keys stay distinct; or it answers
-- TRUE and changes nothing, and then no descriptor was free and none had the key.
pub insert_blocked-refines :
    (s : Pcbs) (a : Asl) (sem p : ℕ)
    → DistinctKeys a.semd_h
    → BlockResult s a sem p (insert_blocked s a sem p)
insert_blocked-refines s a sem p u = insert_by_case s a sem p u (insertion a sem)

-- What removeBlocked does to the map: the head of the queue leaves it.
pub record Unblocked (a : Asl) (sem : ℕ) (r : Asl × Option ℕ) : Type 0 where
  pub distinct : DistinctKeys r.0.semd_h
  pub returned : r.1 ≡ head_proc_q (queue_of sem a.semd_h)
  pub queues :
      (k : ℕ)
      → queue_of k r.0.semd_h
        ≡ (if k == sem then (remove_proc_q (queue_of sem a.semd_h)).0 else queue_of k a.semd_h)

module _ (a : Asl) (sem : ℕ) (u : DistinctKeys a.semd_h) where
  queues_from :
      (q : List ℕ) (ds : List Semd) (d : Semd)
      → find_semd sem a.semd_h ≡ some d
      → d.s_procq ≡ q
      → ((k : ℕ) → queue_of k ds ≡ (if k == sem then (remove_proc_q q).0 else queue_of k a.semd_h))
      → (k : ℕ)
      → queue_of k ds
        ≡ (if k == sem then (remove_proc_q (queue_of sem a.semd_h)).0 else queue_of k a.semd_h)
  queues_from q ds d e f h k =
      h k
      ∙ ap (λ o. if k == sem then (remove_proc_q o).0 else queue_of k a.semd_h)
          (sym (ap procq_of e ∙ f))

  remove_by_case : Removal a sem → Unblocked a sem (remove_blocked a sem)
  remove_by_case (unknown e) =
      rw (remove-unknown a sem e)
        (record { distinct = u; returned = rw e; queues = λ k. ground (arith, e) })
  remove_by_case (stale d e f) = rw (remove-stale a sem d e f) (record {
    distinct = DistinctKeys-drop_semd sem a.semd_h u;
    returned = ap head_proc_q (sym (ap procq_of e ∙ f));
    queues = queues_from [] _ d e f (λ k. queue_of-drop_semd k sem a.semd_h u);
  })
  remove_by_case (last d p e f) = rw (remove-last a sem d p e f) (record {
    distinct = DistinctKeys-drop_semd sem a.semd_h u;
    returned = ap head_proc_q (sym (ap procq_of e ∙ f));
    queues = queues_from (p ∷ []) _ d e f (λ k. queue_of-drop_semd k sem a.semd_h u);
  })
  remove_by_case (first d p c q e f) = rw (remove-first a sem d p c q e f) (record {
    distinct = DistinctKeys-set_procq sem (c ∷ q) a.semd_h u;
    returned = ap head_proc_q (sym (ap procq_of e ∙ f));
    queues = queues_from (p ∷ c ∷ q) _ d e f (λ k. queue_of-set_procq k sem (c ∷ q) a.semd_h d e);
  })

-- With distinct keys, removeBlocked returns the head of the semaphore's queue, NULL if nothing waits
-- there, and takes it off that queue; all other queues stay, and the keys stay distinct.
pub remove_blocked-refines :
    (a : Asl) (sem : ℕ) → DistinctKeys a.semd_h → Unblocked a sem (remove_blocked a sem)
remove_blocked-refines a sem u = remove_by_case a sem u (removal a sem)

-- outBlocked takes the process off the queue of the semaphore that it names, and off no other.
pub record Withdrawn (s : Pcbs) (a : Asl) (p : ℕ) (r : Asl × Option ℕ) : Type 0 where
  pub distinct : DistinctKeys r.0.semd_h
  pub returned : r.1 ≡ (out_proc_q (queue_of (s.table p).p_sem_add a.semd_h) p).1
  pub queues :
      (k : ℕ)
      → queue_of k r.0.semd_h ≡ (
          if k == (s.table p).p_sem_add
          then (out_proc_q (queue_of (s.table p).p_sem_add a.semd_h) p).0
          else queue_of k a.semd_h)
  pub free : r.0.semd_free ≡ a.semd_free

-- With distinct keys, outBlocked takes the process off the queue of the semaphore that it names, as
-- outProcQ would, and returns what that returns; all other queues and the free descriptors stay.
pub out_blocked-refines :
    (s : Pcbs) (a : Asl) (p : ℕ) → DistinctKeys a.semd_h → Withdrawn s a p (out_blocked s a p)
unfolding out_proc_q
out_blocked-refines s a p u = elim (Option-cases (find_semd (s.table p).p_sem_add a.semd_h)) [
  | inl e ↦
      rw (out-unknown s a p e)
        (record { distinct = u; returned = rw e; queues = λ k. ground (arith, e); free = refl })
  | inr (d, e) ↦ rw (out-known s a p d e) (record {
    distinct = DistinctKeys-set_procq _ _ a.semd_h u;
    returned = rw e;
    queues = λ k.
        queue_of-set_procq k _ _ a.semd_h d e
        ∙ ap
            (λ o.
              if k == (s.table p).p_sem_add
              then (out_proc_q (procq_of o) p).0
              else queue_of k a.semd_h)
            (sym e);
    free = refl;
  })
]

-- headBlocked and blockedCount read the head and the length of the semaphore's queue.
pub head_and_count_refine :
    (a : Asl) (sem : ℕ)
    → (head_blocked a sem ≡ head_proc_q (queue_of sem a.semd_h))
      × (blocked_count a sem ≡ length (queue_of sem a.semd_h))
unfolding head_blocked blocked_count
head_and_count_refine a sem = elim (Option-cases (find_semd sem a.semd_h)) [
  | inl e ↦ (rw (e, head_blocked), rw (e, blocked_count))
  | inr (d, e) ↦ (rw (e, head_blocked), rw (e, blocked_count))
]
