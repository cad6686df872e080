-- ===== src/Kernel/Sound/Kill.antt =====
-- recursiveTerminateProcess of phase2/functions.c, on where the processes are.
use sistemi_operativi_proget.Common.{
  ℕ, ◌+◌, ◌≡◌, ◌≢◌, ◌≤◌, refl, ap, ◌∙◌, pos, ◌≤ℤ◌, ◌<◌, Option, none, some, List, arith, hit, count,
  Bool-cases, inl, inr, ◌==◌, ==→eq, ==→ne,
}
use sistemi_operativi_proget.Const.{Platform, max_proc}
use sistemi_operativi_proget.Pcb.{Pcbs, out_proc_q, out_child, free_pcb}
use sistemi_operativi_proget.Pcb.Queue.{
  found, count-out_proc_q, out_proc_q_self, out_proc_q-IsSorted,
}
use sistemi_operativi_proget.Asl.Queues.{queue_of}
use sistemi_operativi_proget.Kernel.{Kernel, pcb}
use sistemi_operativi_proget.Kernel.Functions.Terminate.{
  leave_semaphore, release_pcb, detach, clear_current,
}
use sistemi_operativi_proget.Kernel.Sound.{held, Good, IsSorted-ext}
use sistemi_operativi_proget.Kernel.Sound.Release.{
  Left, out_proc_q-others, leave_semaphore-Left, leave_parent-Pruned, leave_parent-others,
}

abbrev pub GoodAt : Kernel → Type 0
GoodAt k = Good k.pcbs k.asl k.ready_queue k.current_process

abbrev pub held_in : Kernel → ℕ → ℕ
held_in k x = held x k.asl k.ready_queue k.current_process

-- What the release of one process does.
pub record Detached (k k1 : Kernel) (t : ℕ) : Type 0 where
  pub good : GoodAt k1
  pub pid : (x : ℕ) → (pcb k1 x).p_pid ≡ (pcb k x).p_pid
  pub free : (x : ℕ) → count x k1.pcbs.pcb_free ≡ hit x t + count x k.pcbs.pcb_free
  pub others : (x : ℕ) → x ≢ t → held_in k1 x ≡ held_in k x
  pub runs : (x : ℕ) → x ≢ t → found x k1.current_process ≡ found x k.current_process
  pub ready : (x : ℕ) → x ≢ t → count x k1.ready_queue ≡ count x k.ready_queue
  pub waits :
      (x key : ℕ)
      → x ≢ t
      → count x (queue_of key k1.asl.semd_h) ≡ count x (queue_of key k.asl.semd_h)
  pub gone : held_in k1 t ≡ 0
  pub shrinks : (x y : ℕ) → count x (pcb k1 y).p_child ≢ 0 → count x (pcb k y).p_child ≢ 0
  pub children : (x y : ℕ) → x ≢ t → count x (pcb k1 y).p_child ≡ count x (pcb k y).p_child

clear_current-found :
    (x t : ℕ) (o : Option ℕ)
    → (x ≢ t → found x (clear_current o t) ≡ found x o) × (found t (clear_current o t) ≡ 0)
clear_current-found x t none = (λ n. refl, refl)
clear_current-found x t (some p) = (λ n. ground (arith, n), ground arith)

out_proc_q-gone : (t : ℕ) (q : List ℕ) → count t q ≤ 1 → count t (out_proc_q q t).0 ≡ 0
out_proc_q-gone t q h = elim (out_proc_q_self q t) [
  | inl e ↦ ground (arith, h, count-out_proc_q t q t, ap (found t) e)
  | inr (e, z) ↦ omega (arith, z, count-out_proc_q t q t, ap (found t) e)
]

pub detach-Detached :
    (c : Platform) (k : Kernel) (t : ℕ)
    → GoodAt k
    → count t k.pcbs.pcb_free ≡ 0
    → (pcb k t).p_pid ≤ℤ pos 0
    → t < max_proc
    → Detached k (detach c k t) t
unfolding detach release_pcb free_pcb out_child
detach-Detached c k t g unfree marked near =
    let k1 = leave_semaphore c k t in
    let left : Left k t k1 = leave_semaphore-Left c k t g in
    let only = left.0 in
    let vacated = left.1 in
    let parted = leave_parent-Pruned k1.pcbs t (k1.pcbs.table t).p_parent in
    let pruned = parted.0 in
    let pid : (x : ℕ) → ((out_child k1.pcbs t).0.table x).p_pid ≡ (pcb k x).p_pid =
      λ x. parted.1 x ∙ ap (λ (s : Pcbs). (s.table x).p_pid) only.pcbs in
    let freed : (x : ℕ) → count x (out_child k1.pcbs t).0.pcb_free ≡ count x k.pcbs.pcb_free =
      λ x. ap (count x) (pruned.free ∙ ap Pcbs.pcb_free only.pcbs) in
    let ready : (x : ℕ) → count x k1.ready_queue ≡ count x k.ready_queue =
      λ x. ap (count x) only.ready in
    let ran : (x : ℕ)
        → x ≢ t
        → found x (clear_current k1.current_process t) ≡ found x k.current_process =
      λ x n. (clear_current-found x t k1.current_process).0 n ∙ ap (found x) only.current in
    let others : (x : ℕ) → x ≢ t → held_in (detach c k t) x ≡ held_in k x = λ x n.
      omega (arith, ran x n, vacated.others x n, out_proc_q-others x t k1.ready_queue n, ready x) in
    let gone : held_in (detach c k t) t ≡ 0 = omega (
      arith,
      (clear_current-found t t k1.current_process).1,
      vacated.gone,
      out_proc_q-gone t k1.ready_queue (omega (arith, g.once t, ready t)),
    ) in
    record {
      good = record {
        once = λ x. elim (Bool-cases (x == t)) [
          | inl same ↦ ground (arith, ==→eq x t same, gone, freed t, unfree)
          | inr other ↦ ground (arith, other, others x (==→ne x t other), freed x, g.once x)
        ];
        dead = λ x n. elim (Bool-cases (x == t)) [
          | inl same ↦ rw (pid x, ==→eq x t same) marked
          | inr other ↦ rw (pid x) (g.dead x (λ z. n (ground (arith, z, other, freed x))))
        ];
        child = λ x y n. rw (pid x) (g.child x y (λ z. pruned.child x y n (rw only.pcbs z)));
        fresh = rw (pruned.next, only.pcbs) g.fresh;
        named = λ x key n.
            let old = g.named x key (λ z. n (omega (arith, z, vacated.queues x key))) in
            (pruned.waits_on x ∙ ap (λ (s : Pcbs). (s.table x).p_sem_add) only.pcbs ∙ old.0, old.1);
        distinct = vacated.distinct;
        sorted = out_proc_q-IsSorted (out_child k1.pcbs t).0.table k1.ready_queue t (
            rw only.ready (
              IsSorted-ext k.pcbs.table (out_child k1.pcbs t).0.table k.ready_queue
                (λ x n. pruned.prio x ∙ ap (λ (s : Pcbs). (s.table x).p_prio) only.pcbs) g.sorted));
        beyond = λ x far.
            let n : x ≢ t = λ same. omega (arith, same, far, near) in
            (
              pid x ∙ (g.beyond x far).0,
              ground (arith, n, others x n, freed x, (g.beyond x far).1),
            );
        older = λ x y n. rw (pid x, pid y) (g.older x y (λ z. pruned.child x y n (rw only.pcbs z)));
        young = λ x. rw (pid x, pruned.next, only.pcbs) (g.young x);
      };
      pid = pid;
      free = λ x. omega (arith, freed x);
      others = others;
      runs = ran;
      ready = λ x n. out_proc_q-others x t k1.ready_queue n ∙ ready x;
      waits = vacated.kept;
      gone = gone;
      shrinks = λ x y n. λ z. pruned.child x y n (rw only.pcbs z);
      children = λ x y n.
          leave_parent-others k1.pcbs t (k1.pcbs.table t).p_parent x y n
          ∙ ap (λ (s : Pcbs). count x (s.table y).p_child) only.pcbs;
    }
