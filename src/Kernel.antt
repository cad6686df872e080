-- ===== src/Kernel.antt =====
-- The nucleus: the globals of phase2/initial.c and the machine around them. The TOD clock is the
-- stream of its successive readings, and `trace` lists what was written to the machine, newest
-- first. Memory outside the kernel's own structures is a function from addresses.
pub mod Functions
pub mod Scheduler
pub mod Syscalls
pub mod Interrupt
pub mod Exception
pub mod Init
pub mod Devices
pub mod Choice
pub mod Placement
pub mod Termination
pub mod Conservation
pub mod Closed
pub mod Population
pub mod Sound
pub mod Descriptors
pub mod Reachable
pub mod Balance
pub mod SoftBlock
pub mod Tracked
use sistemi_operativi_proget.Common.{
  ℕ, ◌+◌, ℤ, pos, negsuc, ◌+ℤ◌, Option, none, some, List, ◌∷◌, write, ◌≡◌, refl, subst, sym,
}
use sistemi_operativi_proget.Types.{Pcb, State, Support, Event, Outcome}
use sistemi_operativi_proget.Pcb.{Pcbs}
use sistemi_operativi_proget.Asl.{Asl}

pub record Kernel : Type 0 where
  pub pcbs : Pcbs
  pub asl : Asl
  pub ready_queue : List ℕ
  pub current_process : Option ℕ
  pub root_process : Option ℕ
  pub process_count : ℤ
  pub soft_block_count : ℤ
  pub start_time : ℤ
  pub global_lock : ℤ
  pub sems : ℕ → ℤ
  pub supports : ℕ → Support
  pub states : ℕ → State
  pub registers : ℕ → ℕ
  pub clock : ℕ → ℤ
  pub clock_reads : ℕ
  pub trace : List Event

abbrev pub pcb : Kernel → ℕ → Pcb
pcb k p = k.pcbs.table p

abbrev pub set_pcb : Kernel → ℕ → Pcb → Kernel
set_pcb k p b = record k { pcbs = record (k.pcbs) { table = write k.pcbs.table p b } }

abbrev pub set_sem : Kernel → ℕ → ℤ → Kernel
set_sem k a v = record k { sems = write k.sems a v }

abbrev pub emit : Kernel → Event → Kernel
emit k e = record k { trace = e ∷ k.trace }

-- STCK: the next reading of the clock.
abbrev pub tod : Kernel → ℤ
tod k = k.clock k.clock_reads

abbrev pub tick : Kernel → Kernel
tick k = record k { clock_reads = k.clock_reads + 1 }

abbrev pub incr : ℤ → ℤ
incr z = z +ℤ pos 1

abbrev pub decr : ℤ → ℤ
decr z = z +ℤ negsuc 0

-- A handler that reads through currentProcess faults where that is NULL.
abbrev pub with_process : Option ℕ → Kernel → (ℕ → Kernel × Outcome) → Kernel × Outcome
with_process none k f = (k, Outcome.fault)
with_process (some p) k f = f p

abbrev pub with_current : Kernel → (ℕ → Kernel × Outcome) → Kernel × Outcome
with_current k f = with_process k.current_process k f

by_process {ℓ} :
    (P : Kernel × Outcome → Type ℓ) (o : Option ℕ) (k : Kernel) (f : ℕ → Kernel × Outcome)
    → k.current_process ≡ o
    → P (k, Outcome.fault)
    → ((p : ℕ) → k.current_process ≡ some p → P (f p))
    → P (with_process o k f)
by_process P none k f e faulted runs = faulted
by_process P (some p) k f e faulted runs = runs p e

-- To prove something of a handler's result, prove it with and without a current process.
pub with_current_cases {ℓ} :
    (P : Kernel × Outcome → Type ℓ) (k : Kernel) (f : ℕ → Kernel × Outcome)
    → P (k, Outcome.fault)
    → ((p : ℕ) → k.current_process ≡ some p → P (f p))
    → P (with_current k f)
with_current_cases P k f = by_process P k.current_process k f refl

-- Where a process runs, a handler goes on with it.
pub with_current_runs {ℓ} :
    (P : Kernel × Outcome → Type ℓ) (k : Kernel) (f : ℕ → Kernel × Outcome) (p : ℕ)
    → k.current_process ≡ some p
    → P (f p)
    → P (with_current k f)
with_current_runs P k f p e h = subst (λ o. P (with_process o k f)) (sym e) h
