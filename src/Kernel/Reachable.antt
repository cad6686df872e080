-- ===== src/Kernel/Reachable.antt =====
-- The states that the kernel reaches: initKernel, then one entry after the other. Between two
-- entries processes run, and may write the saved states, the semaphores and the support
-- structures that lie in their memory; the device registers change as the devices work.
pub mod Counted
pub mod Placed
use sistemi_operativi_proget.Common.{
  ◌+◌, ℕ, ◌≤◌, ◌≡◌, ◌≢◌, ℤ, pos, negsuc, eqb_ℤ, to_int, true, arith, ◌+ℤ◌, length,
}
use sistemi_operativi_proget.Const.{Platform, page_size, max_proc}
use sistemi_operativi_proget.Types.{State, Outcome, Support}
use sistemi_operativi_proget.Kernel.{Kernel}
use sistemi_operativi_proget.Kernel.Init.{init_kernel}
use sistemi_operativi_proget.Kernel.Exception.{exception_handler, tlb_refill_handler}
use sistemi_operativi_proget.Kernel.Closed.{Closed, Quiet-refl}
use sistemi_operativi_proget.Kernel.Closed.Exceptions.{
  Calls, IsCall, exception_handler-keeps, tlb_refill_handler-keeps,
}
use sistemi_operativi_proget.Kernel.Descriptors.{descriptors-Closed, init_kernel-descriptors}
use sistemi_operativi_proget.Kernel.Sound.{Sound}
use sistemi_operativi_proget.Kernel.Sound.Holds.{Sound-Closed}
use sistemi_operativi_proget.Kernel.Sound.Start.{Zeroed, init_kernel-Sound}
use sistemi_operativi_proget.Kernel.Sound.Returns.{exception_handler-Stops}
use sistemi_operativi_proget.Kernel.Population.{population-Closed}
use sistemi_operativi_proget.Kernel.Population.Start.{init_kernel-population}

-- What changes outside the kernel between two of its entries.
abbrev pub outside : Kernel → (ℕ → ℤ) → (ℕ → Support) → (ℕ → State) → (ℕ → ℕ) → Kernel
outside k sems supports states registers = record k {
  sems = sems;
  supports = supports;
  states = states;
  registers = registers;
}

-- The states after initKernel and any number of exceptions and TLB refills, where memory is as
-- Boots says when initKernel starts, and each exception comes in a state, of the kernel and of the
-- processor, that Issued admits.
pub data Reachable (c : Platform) (Boots : Kernel → Type 0) (Issued : Kernel → State → Type 0)
    : Kernel → Type 0 where
  booted :
      (ramtop sizeof_pcb : ℕ) (k : Kernel)
      → sizeof_pcb ≤ page_size
      → Boots k
      → Reachable c Boots Issued (init_kernel c ramtop sizeof_pcb k).0
  excepted :
      (k : Kernel) (state : State) (bad_vaddr : ℕ)
      → Issued k state
      → Reachable c Boots Issued k
      → Reachable c Boots Issued (exception_handler c k state bad_vaddr).0
  refilled :
      (k : Kernel) (state : State)
      → Reachable c Boots Issued k
      → Reachable c Boots Issued (tlb_refill_handler c k state).0
  ran :
      (k : Kernel) (sems : ℕ → ℤ) (supports : ℕ → Support) (states : ℕ → State) (registers : ℕ → ℕ)
      → Reachable c Boots Issued k
      → Reachable c Boots Issued (outside k sems supports states registers)

module _ {P : Kernel → Type 0} {Fits : Kernel → ℕ → Type 0} (laws : Closed P Fits) (c : Platform)
    (Boots : Kernel → Type 0) (Issued : Kernel → State → Type 0)
    (starts : (ramtop sizeof_pcb : ℕ) (k : Kernel)
      → sizeof_pcb ≤ page_size
      → Boots k
      → P (init_kernel c ramtop sizeof_pcb k).0)
    (calls : (k : Kernel) (state : State) → Issued k state → Calls Fits c k state) where
  -- What initKernel establishes and each kind of change keeps holds of every state reached.
  pub Reachable-keeps : (k : Kernel) → Reachable c Boots Issued k → P k
  Reachable-keeps k (booted ramtop sizeof_pcb k0 fits b) = starts ramtop sizeof_pcb k0 fits b
  Reachable-keeps k (excepted k0 state bad_vaddr i r) =
      exception_handler-keeps laws c k0 (Reachable-keeps k0 r) state bad_vaddr (calls k0 state i)
  Reachable-keeps k (refilled k0 state r) =
      tlb_refill_handler-keeps laws c k0 (Reachable-keeps k0 r) state
  Reachable-keeps k (ran k0 sems supports states registers r) =
      laws.quiet k0 (outside k0 sems supports states registers) (Quiet-refl k0)
        (Reachable-keeps k0 r)

-- In every state that the kernel reaches, processCount and the number of free process control
-- blocks add up to MAXPROC.
pub Reachable-population :
    (c : Platform) (Boots : Kernel → Type 0) (Issued : Kernel → State → Type 0) (k : Kernel)
    → Reachable c Boots Issued k
    → k.process_count +ℤ pos (length k.pcbs.pcb_free) ≡ pos max_proc
Reachable-population c Boots Issued k r =
    Reachable-keeps (population-Closed (pos max_proc)) c Boots Issued
      (λ ramtop sizeof_pcb k0 fits b. (init_kernel-population c ramtop sizeof_pcb k0 fits).0)
      (λ k0 state i. ((λ j. tt), λ call e. tt)) k r

-- In every state that the kernel reaches, the semaphore descriptors in use and the free ones are
-- MAXPROC together.
pub Reachable-descriptors :
    (c : Platform) (Boots : Kernel → Type 0) (Issued : Kernel → State → Type 0) (k : Kernel)
    → Reachable c Boots Issued k
    → length k.asl.semd_h + length k.asl.semd_free ≡ max_proc
Reachable-descriptors c Boots Issued k r =
    Reachable-keeps (descriptors-Closed max_proc) c Boots Issued
      (λ ramtop sizeof_pcb k0 fits b. init_kernel-descriptors c ramtop sizeof_pcb k0 fits)
      (λ k0 state i. ((λ j. tt), λ call e. tt)) k r

-- A call P names a semaphore.
abbrev pub NamesSemaphore : Platform → Kernel → State → Type 0
NamesSemaphore c k state =
    IsCall c state → eqb_ℤ (to_int state.reg_a0) (negsuc 2) ≡ true → state.reg_a1 ≢ 0

-- In every state that the kernel reaches from zeroed process blocks, where device semaphores have
-- addresses and no call P names NULL: no process control block is in two of the places free blocks,
-- ready queue, semaphore queues and processor, or twice in one; priorities do not rise along the
-- ready queue; a blocked process waits on the semaphore that its p_semAdd names, and that is not
-- NULL; no two descriptors in use have one key; free blocks belong to dead processes, and whoever is
-- ready, blocked or running has a positive identifier, below the next one to be given; a live child
-- has a greater identifier than its parent; and only the MAXPROC blocks of the table are in use.
pub Reachable-Sound :
    (c : Platform) (k : Kernel)
    → c.device_semaphores ≢ 0
    → Reachable c Zeroed (NamesSemaphore c) k
    → Sound k
Reachable-Sound c k dev r =
    Reachable-keeps Sound-Closed c Zeroed (NamesSemaphore c) (init_kernel-Sound c)
      (λ k0 state i. ((λ j z. dev (omega (arith, z))), i)) k r

-- In every state that the kernel reaches from zeroed process blocks, where device semaphores have
-- addresses and no call P names NULL, exceptionHandler comes to an end, whatever the exception: the
-- search for a process in the tree, the recursive termination and the loop of the pseudo-clock do
-- not run out of their rounds.
pub Reachable-Stops :
    (c : Platform) (k : Kernel) (state : State) (bad_vaddr : ℕ)
    → c.device_semaphores ≢ 0
    → Reachable c Zeroed (NamesSemaphore c) k
    → (exception_handler c k state bad_vaddr).1 ≢ Outcome.out_of_fuel
Reachable-Stops c k state bad_vaddr dev r =
    exception_handler-Stops c k (Reachable-Sound c k dev r) state bad_vaddr
