-- ===== src/Kernel/Tracked.antt =====
-- What the nucleus does to its semaphores, their queues and softBlockCount. An interface: a predicate on
-- these that survives each operation on them. Kernel/Tracked/Entries carries it to exceptionHandler.
pub mod Interrupts
pub mod Entries
use sistemi_operativi_proget.Common.{ℕ, ◌<◌, ◌≡◌, ◌≢◌, refl, none, some, List, [], ◌∷◌, arith, ℤ}
use sistemi_operativi_proget.Const.{Platform, device_semaphore, sem_dev_len}
use sistemi_operativi_proget.Types.{State}
use sistemi_operativi_proget.Asl.{remove_blocked}
use sistemi_operativi_proget.Kernel.{Kernel, set_sem, decr}
use sistemi_operativi_proget.Kernel.Scheduler.{scheduler, schedule, dispatch, idle}
use sistemi_operativi_proget.Kernel.Functions.{block_current_process}
use sistemi_operativi_proget.Kernel.Functions.Terminate.{recursive_terminate_process}
use sistemi_operativi_proget.Kernel.Syscalls.{passeren, verhogen}
use sistemi_operativi_proget.Kernel.Interrupt.{complete}

-- Semaphores, descriptors and softBlockCount are as they were.
pub record Untouched (k k' : Kernel) : Type 0 where
  pub asl : k'.asl ≡ k.asl
  pub sems : k'.sems ≡ k.sems
  pub soft_block_count : k'.soft_block_count ≡ k.soft_block_count

-- A predicate that each operation on a semaphore keeps, where a V names a semaphore that Signals
-- admits.
pub record Tracked (c : Platform) (P : Kernel → Type 0) (Signals : ℕ → Type 0) : Type 0 where
  pub untouched : (k k' : Kernel) → Untouched k k' → P k → P k'
  pub valued :
      (k : Kernel) (i : ℕ) (z : ℤ) → i < sem_dev_len → P k → P (set_sem k (device_semaphore c i) z)
  pub missed :
      (k : Kernel) (i : ℕ)
      → i < sem_dev_len
      → (remove_blocked k.asl (device_semaphore c i)).1 ≡ none
      → P k
      → P (record k { asl = (remove_blocked k.asl (device_semaphore c i)).0 })
  pub completed :
      (k : Kernel) (i p status : ℕ)
      → i < sem_dev_len
      → (remove_blocked k.asl (device_semaphore c i)).1 ≡ some p
      → P k
      → P (complete (record k { asl = (remove_blocked k.asl (device_semaphore c i)).0 }) p status)
  pub waited :
      (k : Kernel) (p i : ℕ)
      → i < sem_dev_len
      → k.current_process ≡ some p
      → k.asl.semd_free ≢ []
      → P k
      → (let sem = device_semaphore c i in
          P (block_current_process c (set_sem k sem (decr (k.sems sem))) sem).0)
  pub passed : (k : Kernel) (state : State) → k.asl.semd_free ≢ [] → P k → P (passeren c k state).0
  pub signalled : (k : Kernel) (state : State) → Signals state.reg_a1 → P k → P (verhogen k state).0
  pub killed :
      (n : ℕ) (k k1 : Kernel) (t : ℕ) → recursive_terminate_process n c k t ≡ some k1 → P k → P k1

pub scheduler-Untouched : (k : Kernel) → Untouched k (scheduler k).0
unfolding scheduler
scheduler-Untouched k = by_queue k.ready_queue
  where
    by_queue : (q : List ℕ) → Untouched k (schedule k q).0
    by_queue [] =
        unfold schedule idle in
        record { asl = ground arith; sems = ground arith; soft_block_count = ground arith }
    by_queue (p ∷ q) =
        unfold schedule dispatch in record { asl = refl; sems = refl; soft_block_count = refl }

module _ {c : Platform} {P : Kernel → Type 0} {Signals : ℕ → Type 0}
    (laws : Tracked c P Signals) where
  pub scheduler-tracks : (k : Kernel) → P k → P (scheduler k).0
  scheduler-tracks k h = laws.untouched k (scheduler k).0 (scheduler-Untouched k) h

  -- A change of anything else.
  pub beside :
      (k k' : Kernel)
      → k'.asl ≡ k.asl
      → k'.sems ≡ k.sems
      → k'.soft_block_count ≡ k.soft_block_count
      → P k
      → P k'
  beside k k' e f g h = laws.untouched k k' (record { asl = e; sems = f; soft_block_count = g }) h
