-- ===== src/Kernel/Sound.antt =====
-- Where the processes of the kernel are, and what their blocks say about it.
pub mod Moves
pub mod Entries
pub mod Creation
pub mod Release
pub mod Kill
pub mod Sweep
pub mod Descent
pub mod Family
pub mod Terminate
pub mod Holds
pub mod Exact
pub mod Start
pub mod Search
pub mod Calls
pub mod Returns
pub mod Target
use sistemi_operativi_proget.Common.{
  ℕ, ◌+◌, ◌≡◌, ◌≢◌, ◌≤◌, refl, ℤ, pos, ◌≤ℤ◌, ◌<ℤ◌, Option, none, List, [], ◌∷◌, arith, count,
  Bool-cases, inl, inr, ◌⊎◌, ◌==◌,
}
use sistemi_operativi_proget.Const.{max_proc}
use sistemi_operativi_proget.Types.{Pcb, Semd}
use sistemi_operativi_proget.Pcb.{Pcbs}
use sistemi_operativi_proget.Pcb.Queue.{found, IsSorted, AtMost}
use sistemi_operativi_proget.Asl.{Asl, find_semd}
use sistemi_operativi_proget.Asl.Count.{waiting}
use sistemi_operativi_proget.Asl.Queues.{queue_of, DistinctKeys, find-absent}
use sistemi_operativi_proget.Kernel.{Kernel}

-- In how many places, but the free blocks, a process is.
abbrev pub held : ℕ → Asl → List ℕ → Option ℕ → ℕ
held x a q o = count x q + (waiting x a.semd_h + found x o)

-- No block is in two places; a free block's process is dead, and no child is a block without a
-- process; a blocked process waits where its block says, on a semaphore that has an address; no
-- two descriptors have one key; priorities do not rise along the ready queue; there is nothing beyond
-- the MAXPROC blocks; a live child has a greater identifier than its parent, and every process a
-- smaller one than the next to come.
pub record Good (s : Pcbs) (a : Asl) (q : List ℕ) (o : Option ℕ) : Type 0 where
  pub once : (x : ℕ) → count x s.pcb_free + held x a q o ≤ 1
  pub dead : (x : ℕ) → count x s.pcb_free ≢ 0 → (s.table x).p_pid ≤ℤ pos 0
  pub child : (x y : ℕ) → count x (s.table y).p_child ≢ 0 → (s.table x).p_pid ≢ pos 0
  pub fresh : pos 0 <ℤ s.next_pid
  pub named :
      (x key : ℕ) → count x (queue_of key a.semd_h) ≢ 0 → ((s.table x).p_sem_add ≡ key) × (key ≢ 0)
  pub distinct : DistinctKeys a.semd_h
  pub sorted : IsSorted s.table q
  pub beyond :
      (x : ℕ) → max_proc ≤ x → ((s.table x).p_pid ≡ pos 0) × (count x s.pcb_free + held x a q o ≡ 0)
  pub older :
      (x y : ℕ)
      → count x (s.table y).p_child ≢ 0
      → ((s.table x).p_pid <ℤ pos 0) ⊎ ((s.table y).p_pid <ℤ (s.table x).p_pid)
  pub young : (x : ℕ) → (s.table x).p_pid <ℤ s.next_pid

-- A process that is ready, blocked or on the processor has a positive identifier.
abbrev pub Lives : Pcbs → Asl → List ℕ → Option ℕ → Type 0
Lives s a q o = (x : ℕ) → held x a q o ≢ 0 → pos 0 <ℤ (s.table x).p_pid

abbrev pub Sound : Kernel → Type 0
Sound k =
    Good k.pcbs k.asl k.ready_queue k.current_process
    × Lives k.pcbs k.asl k.ready_queue k.current_process

AtMost-ext :
    (t t' : ℕ → Pcb) (b : ℤ) (q : List ℕ)
    → ((x : ℕ) → count x q ≢ 0 → (t' x).p_prio ≡ (t x).p_prio)
    → AtMost t b q
    → AtMost t' b q
AtMost-ext t t' b [] h m = tt
AtMost-ext t t' b (c ∷ q) h m = (
  rw (h c (λ e. ground (arith, e))) m.0,
  AtMost-ext t t' b q (λ x n. h x (λ e. n (omega (arith, e)))) m.1,
)

pub IsSorted-ext :
    (t t' : ℕ → Pcb) (q : List ℕ)
    → ((x : ℕ) → count x q ≢ 0 → (t' x).p_prio ≡ (t x).p_prio)
    → IsSorted t q
    → IsSorted t' q
IsSorted-ext t t' [] h m = tt
IsSorted-ext t t' (c ∷ q) h m =
    let later : (x : ℕ) → count x q ≢ 0 → (t' x).p_prio ≡ (t x).p_prio =
      λ x n. h x (λ e. n (omega (arith, e))) in
    (
      rw (h c (λ e. ground (arith, e))) (AtMost-ext t t' (t c).p_prio q later m.0),
      IsSorted-ext t t' q later m.1,
    )

-- A process in one semaphore's queue waits.
pub queue_of-waiting : (x k : ℕ) (ds : List Semd) → count x (queue_of k ds) ≤ waiting x ds
unfolding find_semd
queue_of-waiting x k [] = omega arith
queue_of-waiting x k (d ∷ ds) = ground (arith, queue_of-waiting x k ds)

-- A process in no semaphore's queue does not wait.
pub waiting-none :
    (x : ℕ) (ds : List Semd)
    → DistinctKeys ds
    → ((k : ℕ) → count x (queue_of k ds) ≡ 0)
    → waiting x ds ≡ 0
unfolding find_semd
waiting-none x [] u h = refl
waiting-none x (d ∷ ds) u h =
    let here : count x d.s_procq ≡ 0 = ground (arith, h d.s_key) in
    let later : (k : ℕ) → count x (queue_of k ds) ≡ 0 = λ k. elim (Bool-cases (d.s_key == k)) [
      | inl same ↦
          let absent : find_semd k ds ≡ none = ground (arith, same, find-absent d.s_key ds u.0) in
          rw absent refl
      | inr other ↦ ground (arith, other, h k)
    ] in
    omega (arith, here, waiting-none x ds u.1 later)
