-- ===== src/Support.antt =====
-- The support level, phase3/: its state, and the system calls and machine instructions that it
-- makes. A call returns when the nucleus lets it; what DOIO answers is a stream of words.
pub mod Vm
pub mod Locks
pub mod Frames
pub mod Mapping
pub mod Paging
pub mod Serving
pub mod Init
pub mod Pages
pub mod Sys
pub mod Terminal
use sistemi_operativi_proget.Common.{ℕ, ◌+◌, ℤ, pos, eqb_ℤ, List, ◌∷◌, if◌then◌else◌}
use sistemi_operativi_proget.Types.{State, Support}

-- swap_t; sw_pte points to the entry sw_pageNo of the page table of the support_t at `sw_owner`.
pub record Swap : Type 0 where
  pub sw_asid : ℤ
  pub sw_page_no : ℤ
  pub sw_owner : ℕ
  pub sw_entry : ℕ

-- What the support level asks of the nucleus and of the machine.
pub data Action : Type 0 where
  passeren verhogen : ℕ → Action
  do_io : (register command : ℕ) → Action
  create_process : (state : State) (priority support : ℕ) → Action
  terminate tlb_probe tlb_write_indexed : Action
  set_entry_hi set_entry_lo : ℕ → Action
  write_register : (address value : ℕ) → Action

pub record Level : Type 0 where
  pub swap_pool : ℕ → Swap
  pub sems : ℕ → ℤ
  pub swap_frame_clock : ℕ
  pub supports : ℕ → Support
  pub status_register : ℕ
  pub memory : ℕ → ℕ
  pub answers : ℕ → ℕ
  pub asked : ℕ
  pub index_reads : ℕ → ℕ
  pub probes : ℕ
  pub actions : List Action

-- The addresses of the globals and of the entry points of phase3/, of supportStructures[i] and of
-- the last words of the two stacks of a support_t, and the macros of the uriscv headers it uses.
pub record Layout : Type 0 where
  pub swap_pool_sem : ℕ
  pub flash_mutex : ℕ → ℕ
  pub master_semaphore : ℕ
  pub shell_semaphore : ℕ
  pub exc_mod : ℕ
  pub exc_ecu : ℕ
  pub exc_ecm : ℕ
  pub dev_per_int : ℕ
  pub term_mutex_tx : ℕ
  pub term_mutex_rx : ℕ
  pub support_structures : ℕ → ℕ
  pub stack_tlb : ℕ → ℕ
  pub stack_gen : ℕ → ℕ
  pub pager_entry : ℕ
  pub general_entry : ℕ

-- How a handler of the support level ends: it loads a state, its process has terminated, or it
-- follows a wild pointer.
pub data Ending : Type 0 where
  resumes : State → Ending
  terminated wild : Ending

abbrev pub act : Level → Action → Level
act m a = record m { actions = a ∷ m.actions }

-- What the next DOIO answers; index_reads holds what the INDEX register shows after each TLBP.
abbrev pub answer : Level → ℕ
answer m = m.answers m.asked

abbrev pub heard : Level → Level
heard m = record m { asked = m.asked + 1 }

-- fatalFault of vmSupport.c and programTrapHandler and sys2_terminate of sysSupport.c: who waits
-- for the process is told, and it terminates.
unfoldable pub fatal_fault : Layout → Level → ℕ → Level × Ending
fatal_fault l m sup =
    let woken =
      if eqb_ℤ (m.supports sup).sup_asid (pos 1) then l.master_semaphore else l.shell_semaphore in
    (act (act m (Action.verhogen woken)) Action.terminate, Ending.terminated)
