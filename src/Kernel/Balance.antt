-- ===== src/Kernel/Balance.antt =====
-- P, V and the recursive termination of phase2: the value of a semaphore against its queue.
pub mod Killing
pub mod Holds
use sistemi_operativi_proget.Common.{
  ℕ, suc, ◌+◌, ◌-◌, ◌≡◌, ◌≢◌, refl, sym, ap, ◌∙◌, subst, inl, inr, ℤ, pos, negsuc, ◌+ℤ◌, neg_part,
  ltb_ℤ, Bool, true, false, Option, none, some, List, [], ◌∷◌, arith, if◌then◌else◌, if_cases,
  Bool-cases, ◌==◌, ==→eq, hit, length,
}
use sistemi_operativi_proget.Const.{Platform}
use sistemi_operativi_proget.Types.{State, Outcome}
use sistemi_operativi_proget.Pcb.{Pcbs, remove_proc_q}
use sistemi_operativi_proget.Pcb.Queue.{length-insert_proc_q}
use sistemi_operativi_proget.Asl.{Asl, insert_blocked, remove_blocked}
use sistemi_operativi_proget.Asl.Queues.{queue_of, DistinctKeys}
use sistemi_operativi_proget.Asl.Refines.{
  BlockResult, blocked, refused, insert_blocked-refines, remove_blocked-refines,
}
use sistemi_operativi_proget.Kernel.{Kernel, pcb, set_sem, incr, decr, with_current_cases}
use sistemi_operativi_proget.Kernel.Functions.{
  save_state, update_cpu_time, mark_blocked, join_semaphore, block_process, block_current_process,
}
use sistemi_operativi_proget.Kernel.Tracked.{scheduler-Untouched}
use sistemi_operativi_proget.Kernel.Syscalls.{passeren, verhogen, make_ready, wake_first}

-- As many processes wait on the semaphore as its value is below zero.
abbrev pub InStep : Kernel → ℕ → Type 0
InStep k x = length (queue_of x k.asl.semd_h) ≡ neg_part (k.sems x)

neg_part-decr : (z : ℤ) → ltb_ℤ (decr z) (pos 0) ≡ true → neg_part (decr z) ≡ suc (neg_part z)
unfolding ◌+ℤ◌
neg_part-decr (pos n) h = ground arith
neg_part-decr (negsuc n) h = ground arith

neg_part-decr_up : (z : ℤ) → ltb_ℤ (decr z) (pos 0) ≡ false → neg_part (decr z) ≡ neg_part z
unfolding ◌+ℤ◌
neg_part-decr_up (pos n) h = ground arith
neg_part-decr_up (negsuc n) h = ground arith

neg_part-incr : (z : ℤ) → ltb_ℤ (pos 0) (incr z) ≡ false → suc (neg_part (incr z)) ≡ neg_part z
unfolding ◌+ℤ◌
neg_part-incr (pos n) h = ground arith
neg_part-incr (negsuc n) h = ground arith

neg_part-incr_up : (z : ℤ) → ltb_ℤ (pos 0) (incr z) ≡ true → neg_part (incr z) ≡ neg_part z
unfolding ◌+ℤ◌
neg_part-incr_up (pos n) h = ground arith
neg_part-incr_up (negsuc n) h = ground arith

-- A process that joins a semaphore's queue makes that one longer, and no other.
insert_blocked-length :
    (s : Pcbs) (a : Asl) (sem p x : ℕ)
    → DistinctKeys a.semd_h
    → a.semd_free ≢ []
    → length (queue_of x (insert_blocked s a sem p).1.semd_h)
      ≡ hit x sem + length (queue_of x a.semd_h)
insert_blocked-length s a sem p x u free =
    by_result (insert_blocked s a sem p) (insert_blocked-refines s a sem p u)
  where
    by_result :
        (r : Pcbs × Asl × Bool)
        → BlockResult s a sem p r
        → length (queue_of x r.1.semd_h) ≡ hit x sem + length (queue_of x a.semd_h)
    by_result r (refused e f) = absurd (free e)
    by_result r (blocked t b e on) = elim (Bool-cases (x == sem)) [
      | inl same ↦ ground (
        arith,
        same,
        ap length (on.queues x),
        length-insert_proc_q s.table (queue_of sem a.semd_h) p,
        ap (λ y. length (queue_of y a.semd_h)) (==→eq x sem same),
      )
      | inr other ↦ ground (arith, other, ap length (on.queues x))
    ]

insert_blocked-DistinctKeys :
    (s : Pcbs) (a : Asl) (sem p : ℕ)
    → DistinctKeys a.semd_h
    → DistinctKeys (insert_blocked s a sem p).1.semd_h
insert_blocked-DistinctKeys s a sem p u =
    by_result (insert_blocked s a sem p) (insert_blocked-refines s a sem p u)
  where
    by_result : (r : Pcbs × Asl × Bool) → BlockResult s a sem p r → DistinctKeys r.1.semd_h
    by_result r (refused e f) = u
    by_result r (blocked t b e on) = on.distinct

-- The head leaves the semaphore's queue, if there is one.
remove_blocked-length :
    (a : Asl) (sem x : ℕ)
    → DistinctKeys a.semd_h
    → length (queue_of x (remove_blocked a sem).0.semd_h) ≡ length (queue_of x a.semd_h) - hit x sem
remove_blocked-length a sem x u =
    let r = remove_blocked-refines a sem u in
    elim (Bool-cases (x == sem)) [
      | inl same ↦ rw (r.queues x, same, ==→eq x sem same) (by_queue (queue_of sem a.semd_h))
      | inr other ↦ ground (arith, other, ap length (r.queues x))
    ]
  where
    by_queue : (q : List ℕ) → length (remove_proc_q q).0 ≡ length q - 1
    by_queue [] = refl
    by_queue (c ∷ q) = omega arith

wake_first-asl : (k : Kernel) (sem : ℕ) → (wake_first k sem).asl ≡ (remove_blocked k.asl sem).0
unfolding wake_first make_ready
wake_first-asl k sem = ground arith

wake_first-sems : (k : Kernel) (sem : ℕ) → (wake_first k sem).sems ≡ k.sems
unfolding wake_first make_ready
wake_first-sems k sem = ground arith

-- No two descriptors have one key, and the semaphore is in step.
abbrev pub Ordered : ℕ → Kernel → Type 0
Ordered x k = DistinctKeys k.asl.semd_h × InStep k x

-- V: the value goes up, and if it is not positive then, the head of the queue leaves it.
wake_first-Ordered :
    (k : Kernel) (sem x : ℕ)
    → Ordered x k
    → (let k1 = set_sem k sem (incr (k.sems sem)) in
        Ordered x (if ltb_ℤ (pos 0) (k1.sems sem) then k1 else wake_first k1 sem))
wake_first-Ordered k sem x (u, h) =
    let k1 = set_sem k sem (incr (k.sems sem)) in
    let at : k1.sems sem ≡ incr (k.sems sem) = ground arith in
    if_cases {A = Kernel} (Ordered x) (ltb_ℤ (pos 0) (k1.sems sem)) k1 (wake_first k1 sem)
      (λ e. (u, ground (arith, h, neg_part-incr_up (k.sems sem), e, at)))
      (λ e. (
        subst (λ (a : Asl). DistinctKeys a.semd_h) (sym (wake_first-asl k1 sem))
            (remove_blocked-refines k.asl sem u).distinct,
        ground (
          arith,
          h,
          e,
          at,
          neg_part-incr (k.sems sem),
          ap (λ (a : Asl). length (queue_of x a.semd_h)) (wake_first-asl k1 sem),
          ap (λ (f : ℕ → ℤ). f x) (wake_first-sems k1 sem),
          remove_blocked-length k.asl sem x u,
        ),
      ))

-- A V keeps every semaphore in step, and no two descriptors get one key.
pub verhogen-Ordered :
    (k : Kernel) (state : State) (x : ℕ) → Ordered x k → Ordered x (verhogen k state).0
unfolding verhogen update_cpu_time
verhogen-Ordered k state x h =
    with_current_cases (λ r. Ordered x r.0) k _ h
      λ p e. wake_first-Ordered (save_state (update_cpu_time k (some p)) p state) state.reg_a1 x h

marked-asl :
    (c : Platform) (k : Kernel) (sem p : ℕ)
    → (mark_blocked c (update_cpu_time k (some p)) sem p).asl ≡ k.asl
unfolding mark_blocked update_cpu_time
marked-asl c k sem p = ground arith

marked-sems :
    (c : Platform) (k : Kernel) (sem p : ℕ)
    → (mark_blocked c (update_cpu_time k (some p)) sem p).sems ≡ k.sems
unfolding mark_blocked update_cpu_time
marked-sems c k sem p = ground arith

block_process-asl :
    (c : Platform) (k : Kernel) (sem p : ℕ)
    → (let k1 = mark_blocked c (update_cpu_time k (some p)) sem p in
        (block_process c k sem (some p)).0.asl ≡ (insert_blocked k1.pcbs k.asl sem p).1)
unfolding block_process join_semaphore
block_process-asl c k sem p =
    let k1 = mark_blocked c (update_cpu_time k (some p)) sem p in
    let k2 : Kernel = record (join_semaphore k1 sem p) { current_process = none } in
    (scheduler-Untouched k2).asl
    ∙ ap (λ a. (insert_blocked k1.pcbs a sem p).1) (marked-asl c k sem p)

block_process-sems :
    (c : Platform) (k : Kernel) (sem p : ℕ) → (block_process c k sem (some p)).0.sems ≡ k.sems
unfolding block_process join_semaphore
block_process-sems c k sem p =
    let k1 = mark_blocked c (update_cpu_time k (some p)) sem p in
    let k2 : Kernel = record (join_semaphore k1 sem p) { current_process = none } in
    (scheduler-Untouched k2).sems ∙ marked-sems c k sem p

block_process-length :
    (c : Platform) (k : Kernel) (sem p x : ℕ)
    → DistinctKeys k.asl.semd_h
    → k.asl.semd_free ≢ []
    → length (queue_of x (block_process c k sem (some p)).0.asl.semd_h)
      ≡ hit x sem + length (queue_of x k.asl.semd_h)
block_process-length c k sem p x u free =
    ap (λ (a : Asl). length (queue_of x a.semd_h)) (block_process-asl c k sem p)
    ∙ insert_blocked-length _ k.asl sem p x u free

block_process-DistinctKeys :
    (c : Platform) (k : Kernel) (sem p : ℕ)
    → DistinctKeys k.asl.semd_h
    → DistinctKeys (block_process c k sem (some p)).0.asl.semd_h
block_process-DistinctKeys c k sem p u =
    subst (λ (a : Asl). DistinctKeys a.semd_h) (sym (block_process-asl c k sem p))
      (insert_blocked-DistinctKeys _ k.asl sem p u)

-- The value goes down, and whoever calls waits if it is negative then.
pub block-Ordered :
    (c : Platform) (k : Kernel) (sem p x : ℕ)
    → k.current_process ≡ some p
    → DistinctKeys k.asl.semd_h
    → k.asl.semd_free ≢ []
    → length (queue_of x k.asl.semd_h) + hit x sem ≡ neg_part (k.sems x)
    → Ordered x (block_current_process c k sem).0
unfolding block_current_process
block-Ordered c k sem p x e u free h = by_current k.current_process e
  where
    by_current : (o : Option ℕ) → o ≡ some p → Ordered x (block_process c k sem o).0
    by_current none r = cc
    by_current (some y) r = (
      block_process-DistinctKeys c k sem y u,
      omega (
        arith,
        h,
        block_process-length c k sem y x u free,
        ap (λ (f : ℕ → ℤ). neg_part (f x)) (block_process-sems c k sem y),
      ),
    )

-- A P keeps every semaphore in step where a descriptor is free, and no two descriptors get one key.
pub passeren-Ordered :
    (c : Platform) (k : Kernel) (state : State) (x : ℕ)
    → k.asl.semd_free ≢ []
    → Ordered x k
    → Ordered x (passeren c k state).0
unfolding passeren update_cpu_time
passeren-Ordered c k state x free (u, h) =
    with_current_cases (λ r. Ordered x r.0) k _ (u, h)
      λ p e.
        let sem = state.reg_a1 in
        let k1 = save_state (update_cpu_time k (some p)) p state in
        let k2 = set_sem k1 sem (decr (k1.sems sem)) in
        let at : k2.sems sem ≡ decr (k.sems sem) = ground arith in
        if_cases {A = Kernel × Outcome} (λ r. Ordered x r.0) (ltb_ℤ (k2.sems sem) (pos 0))
          (block_current_process c k2 sem) (k2, Outcome.ldst (pcb k2 p).p_s)
          (λ l.
            block-Ordered c k2 sem p x e u free
              (ground (arith, h, l, at, neg_part-decr (k.sems sem))))
          (λ l. (u, ground (arith, h, l, at, neg_part-decr_up (k.sems sem))))
