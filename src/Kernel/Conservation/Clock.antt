-- ===== src/Kernel/Conservation/Clock.antt =====
-- The loop of phase2/interrupt.c over the pseudo-clock's queue, by its rounds.
use sistemi_operativi_proget.Common.{
  ℕ, zero, suc, ◌<◌, ◌≡◌, refl, ap, ◌∙◌, Option, none, some, List, [], ◌∷◌, arith, length,
}
use sistemi_operativi_proget.Pcb.{head_proc_q}
use sistemi_operativi_proget.Asl.{Asl, remove_blocked}
use sistemi_operativi_proget.Asl.Queues.{queue_of, DistinctKeys}
use sistemi_operativi_proget.Asl.Refines.{remove_blocked-refines}
use sistemi_operativi_proget.Kernel.{Kernel}
use sistemi_operativi_proget.Kernel.Interrupt.{complete, wake_all}

-- One round of the loop over the pseudo-clock's queue.
abbrev pub next_round : ℕ → Kernel → ℕ → Asl × Option ℕ → Option Kernel
next_round n k sem (a, none) = some (record k { asl = a })
next_round n k sem (a, some p) = wake_all n (complete (record k { asl = a }) p 0) sem

pub wake_all_round :
    (n : ℕ) (k : Kernel) (sem : ℕ)
    → wake_all (suc n) k sem ≡ next_round n k sem (remove_blocked k.asl sem)
unfolding wake_all
wake_all_round n k sem = by_result (remove_blocked k.asl sem).0 (remove_blocked k.asl sem).1
  where
    by_result :
        (a : Asl) (o : Option ℕ)
        → ◌≡◌ {A = Option Kernel}
            (elim o [
              | none ↦ some (record k { asl = a })
              | some p ↦ wake_all n (complete (record k { asl = a }) p 0) sem
            ])
            (next_round n k sem (a, o))
    by_result a none = refl
    by_result a (some p) = refl

round-none :
    (n : ℕ) (k : Kernel) (sem : ℕ) (r : Asl × Option ℕ)
    → r.1 ≡ none
    → next_round n k sem r ≡ some (record k { asl = r.0 })
round-none n k sem (a, none) e = refl
round-none n k sem (a, some p) e = cc

round-some :
    (n : ℕ) (k : Kernel) (sem p : ℕ) (r : Asl × Option ℕ)
    → r.1 ≡ some p
    → next_round n k sem r ≡ wake_all n (complete (record k { asl = r.0 }) p 0) sem
round-some n k sem p (a, none) e = cc
round-some n k sem p (a, some q) e = ground (arith, e)

-- The loop of the pseudo-clock ends, with nobody left in the queue, once it has a round for each
-- blocked process and one more.
pub wake_all_total :
    (n : ℕ) (k : Kernel) (sem : ℕ) (q : List ℕ)
    → DistinctKeys k.asl.semd_h
    → queue_of sem k.asl.semd_h ≡ q
    → length q < n
    → (k1 : Kernel) × (wake_all n k sem ≡ some k1) × (queue_of sem k1.asl.semd_h ≡ [])
unfolding complete
wake_all_total zero k sem q u e h = absurd (omega arith)
wake_all_total (suc n) k sem [] u e h =
    let r = remove_blocked k.asl sem in
    let un = remove_blocked-refines k.asl sem u in
    (
      record k { asl = r.0 },
      wake_all_round n k sem ∙ round-none n k sem r (un.returned ∙ ap head_proc_q e),
      un.queues sem ∙ ground (arith, e),
    )
wake_all_total (suc n) k sem (p ∷ q) u e h =
    let r = remove_blocked k.asl sem in
    let un = remove_blocked-refines k.asl sem u in
    let rest =
      wake_all_total n (complete (record k { asl = r.0 }) p 0) sem q un.distinct
        (un.queues sem ∙ ground (arith, e)) (omega arith) in
    (
      rest.0,
      wake_all_round n k sem ∙ round-some n k sem p r (un.returned ∙ ap head_proc_q e) ∙ rest.1,
      rest.2,
    )
