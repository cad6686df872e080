-- ===== src/Types.antt =====
-- headers/types.h: process control blocks, semaphore descriptors, the structures of the support
-- level, and what a kernel entry ends in. A pcb_t pointer is its index in pcbFree_table, NULL is
-- none; a semaphore or a support_t is named by its address, and NULL is 0.
use sistemi_operativi_proget.Common.{ℕ, ℤ, Option, List, [], ◌∷◌, zero, suc}

-- state_t of uriscv: the words that the source names, and the 27 others of its 37 words.
pub record State : Type 0 where
  pub entry_hi : ℕ
  pub cause : ℕ
  pub status : ℕ
  pub pc_epc : ℕ
  pub mie : ℕ
  pub reg_sp : ℕ
  pub reg_a0 : ℕ
  pub reg_a1 : ℕ
  pub reg_a2 : ℕ
  pub reg_a3 : ℕ
  pub other_regs : List ℕ

zeros : ℕ → List ℕ
zeros zero = []
zeros (suc n) = 0 ∷ zeros n

-- `(state_t){0}`
abbrev pub zero_state : State
unfolding zeros
zero_state = record {
  entry_hi = 0;
  cause = 0;
  status = 0;
  pc_epc = 0;
  mie = 0;
  reg_sp = 0;
  reg_a0 = 0;
  reg_a1 = 0;
  reg_a2 = 0;
  reg_a3 = 0;
  other_regs = zeros 27;
}

pub record PteEntry : Type 0 where
  pub pte_entry_hi : ℕ
  pub pte_entry_lo : ℕ

pub record Context : Type 0 where
  pub stack_ptr : ℕ
  pub status : ℕ
  pub pc : ℕ

-- support_t, less its two handler stacks and its unused list link.
pub record Support : Type 0 where
  pub sup_asid : ℤ
  pub sup_except_state : ℕ → State
  pub sup_except_context : ℕ → Context
  pub sup_private_pg_tbl : List PteEntry

-- pcb_t: p_child lists the children in order; p_list and p_sib are the positions in such lists.
pub record Pcb : Type 0 where
  pub p_parent : Option ℕ
  pub p_child : List ℕ
  pub p_s : State
  pub p_time : ℤ
  pub p_sem_add : ℕ
  pub p_support_struct : ℕ
  pub p_prio : ℤ
  pub p_pid : ℤ

-- semd_t
pub record Semd : Type 0 where
  pub s_key : ℕ
  pub s_procq : List ℕ

-- What the kernel tells the machine on the way.
pub data Event : Type 0 where
  set_timer load_interval set_mie set_status_bits : ℕ → Event
  write_register tlb_write : ℕ → ℕ → Event
  set_passup_vector : (refill refill_stack handler handler_stack : ℕ) → Event

-- How a kernel entry ends: it loads a processor state or a context, waits, stops the machine, or
-- returns to its caller; a NULL or wild access is a fault.
pub data Outcome : Type 0 where
  ldst : State → Outcome
  ldcxt : Context → Outcome
  wait halt panic returns fault out_of_fuel : Outcome
