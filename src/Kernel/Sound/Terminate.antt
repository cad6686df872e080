-- ===== src/Kernel/Sound/Terminate.antt =====
-- recursiveTerminateProcess of phase2/functions.c on the processes that the handlers terminate.
use sistemi_operativi_proget.Common.{
  ℕ, ◌≡◌, ◌≢◌, pos, ◌≤ℤ◌, ◌<ℤ◌, ◌<◌, some, List, [], ◌∷◌, arith, count, inl, inr, ◌⊎◌,
}
use sistemi_operativi_proget.Const.{Platform, max_proc}
use sistemi_operativi_proget.Kernel.{Kernel, pcb}
use sistemi_operativi_proget.Kernel.Functions.Terminate.{enough, recursive_terminate_process}
use sistemi_operativi_proget.Kernel.Termination.Work.{AllBelow, InRange}
use sistemi_operativi_proget.Kernel.Termination.{kill_fuel_enough}
use sistemi_operativi_proget.Kernel.Closed.{Target}
use sistemi_operativi_proget.Kernel.Sound.{Sound}
use sistemi_operativi_proget.Kernel.Sound.Kill.{GoodAt}
use sistemi_operativi_proget.Kernel.Sound.Sweep.{Kept, Freed, pid_near, pid_cases}
use sistemi_operativi_proget.Kernel.Sound.Descent.{Descends, self, below, Ends}
use sistemi_operativi_proget.Kernel.Sound.Holds.{killed-Ends, Target-Mortal}

AllBelow-of-count : (n : ℕ) (l : List ℕ) → ((x : ℕ) → count x l ≢ 0 → x < n) → AllBelow n l
AllBelow-of-count n [] h = tt
AllBelow-of-count n (x ∷ l) h =
    (h x (λ z. ground (arith, z)), AllBelow-of-count n l (λ y m. h y (λ z. m (omega (arith, z)))))

pub Good-InRange : (k : Kernel) → GoodAt k → InRange k.pcbs.table
Good-InRange k g y lt =
    AllBelow-of-count max_proc (pcb k y).p_child (λ x n. pid_near k x g (g.child x y n))

-- What becomes of each process when t is terminated.
pub record FamilyFreed (k k1 : Kernel) (t : ℕ) : Type 0 where
  pub freed : (x : ℕ) → Descends k.pcbs.table t x → pos 0 ≤ℤ (pcb k x).p_pid → Freed k1 x
  pub kept : (x : ℕ) → (¬ Descends k.pcbs.table t x) ⊎ ((pcb k x).p_pid <ℤ pos 0) → Kept k k1 x

module _ (k k1 : Kernel) (t : ℕ) (end : Ends k t k1) where
  -- Down the tree, each live descendant dies.
  descendant_dies :
      (x : ℕ) → Descends k.pcbs.table t x → pos 0 ≤ℤ (pcb k x).p_pid → (pcb k1 x).p_pid <ℤ pos 0
  descendant_dies x self live = rw (end.1 live).pid (omega arith)
  descendant_dies x (below y z d l n) live = end.0.closed y z l (descendant_dies y d l) n

  Ends-FamilyFreed : FamilyFreed k k1 t
  Ends-FamilyFreed = record {
    freed = λ x d live. elim (end.0.fate x) [
      | inl kept ↦ absurd (ground (arith, live, kept.pid, descendant_dies x d live))
      | inr freed ↦ freed
    ];
    kept = λ x h. elim (end.0.fate x) [
      | inl kept ↦ kept
      | inr freed ↦ elim h [
        | inl stranger ↦ elim (pid_cases (pcb k x).p_pid) [
          | inl dead ↦ end.0.marked x dead
          | inr live ↦ absurd (stranger (end.2 x live (rw freed.pid (omega arith))))
        ]
        | inr dead ↦ end.0.marked x dead
      ]
    ];
  }

-- Where the kernel is sound, the termination of the current process, or of one with a positive
-- identifier, comes to an end; it frees exactly the process and its live descendants, over live
-- ancestors: each has identifier -1, is on the list of free blocks once and in no queue and not on
-- the processor; and every other process keeps its identifier, and is as
-- often as before in the ready queue, in the queue of each semaphore, on the processor and on the list
-- of free blocks.
pub recursive_terminate-FamilyFreed :
    (c : Platform) (k : Kernel) (t : ℕ)
    → Sound k
    → Target k t
    → (k1 : Kernel) × (recursive_terminate_process (enough k) c k t ≡ some k1) × FamilyFreed k k1 t
recursive_terminate-FamilyFreed c k t s target =
    let end = kill_fuel_enough c k t (Target-Mortal k t s target).0 (Good-InRange k s.0) in
    (end.0, end.1, Ends-FamilyFreed k end.0 t (killed-Ends c k end.0 t target end.1 s))
