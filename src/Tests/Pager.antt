-- ===== src/Tests/Pager.antt =====
-- A small swap pool on which the pager of phase3/ runs, and its theorems there.
use sistemi_operativi_proget.Common.{
  ℕ, ◌+◌, ◌≡◌, ◌≢◌, refl, inl, inr, pos, negsuc, [], ◌∷◌, arith, write,
}
use sistemi_operativi_proget.Types.{zero_state, Support}
use sistemi_operativi_proget.Kernel.Exception.{page_index}
use sistemi_operativi_proget.Tests.{platform, no_support}
use sistemi_operativi_proget.Common.{sym, ◌∙◌, subst, ◌*◌, ◌==◌, Bool-cases, ==→eq, ==→ne, ne→==}
use sistemi_operativi_proget.Types.{PteEntry}
use sistemi_operativi_proget.Support.{Level, Layout, Ending, Swap}
use sistemi_operativi_proget.Support.Vm.{pager}
use sistemi_operativi_proget.Support.Locks.{taken, given, pager_settles}
use sistemi_operativi_proget.Support.Frames.{mapped_lo, Maps, Occupied, Consistent, All}
use sistemi_operativi_proget.Support.Paging.{Loaded, pager_loads}
use sistemi_operativi_proget.Support.Serving.{pager_serves}
use sistemi_operativi_proget.Common.{List, zero, suc, some, get_elem?, bit_and}
use sistemi_operativi_proget.Const.{Platform}
use sistemi_operativi_proget.Support.Init.{init_page_table}
use sistemi_operativi_proget.Support.Pages.{init_page_table-page_index}

abbrev pub layout : Layout
layout = record {
  swap_pool_sem = 0x20007000;
  flash_mutex = λ i. 0x20007100 + i * 4;
  master_semaphore = 0x20007004;
  shell_semaphore = 0x20007008;
  exc_mod = 24;
  exc_ecu = 8;
  exc_ecm = 11;
  dev_per_int = 8;
  term_mutex_tx = 0x2000700C;
  term_mutex_rx = 0x20007010;
  support_structures = λ i. 0x20008000 + i * 0x1400;
  stack_tlb = λ s. s + 0xA00;
  stack_gen = λ s. s + 0x1300;
  pager_entry = 0x20009000;
  general_entry = 0x2000A000;
}

abbrev free_frame : Swap
free_frame = record { sw_asid = negsuc 0; sw_page_no = negsuc 0; sw_owner = 0; sw_entry = 0 }

-- Page 0 of the process at 0x20008000 is in frame 0.
abbrev used_frame : Swap
used_frame = record { sw_asid = pos 1; sw_page_no = pos 0; sw_owner = 0x20008000; sw_entry = 0 }

abbrev resident : PteEntry
resident = record { pte_entry_hi = 0x40; pte_entry_lo = mapped_lo 0 }

abbrev shell_support : Support
shell_support = record no_support {
  sup_asid = pos 1;
  sup_except_state = λ i. record zero_state { entry_hi = 0x1040; cause = 27 };
  sup_private_pg_tbl = resident ∷ record { pte_entry_hi = 0x1040; pte_entry_lo = 0x400 } ∷ [];
}

-- The process faults on page 1, and the clock stands at frame 0.
abbrev pub faulting : Level
faulting = record {
  swap_pool = write (λ f. free_frame) 0 used_frame;
  sems = λ a. pos 0;
  swap_frame_clock = 0;
  supports = write (λ a. no_support) 0x20008000 shell_support;
  status_register = 8;
  memory = λ a. 0;
  answers = λ n. 1;
  asked = 0;
  index_reads = λ n. 0x80000000;
  probes = 0;
  actions = [];
}

no_other_frame : (f : ℕ) → f ≢ 0 → ¬ Occupied (faulting.swap_pool f)
no_other_frame f h o = o (rw (ne→== f 0 h))

frame_0 : Maps faulting 0 used_frame
frame_0 = record { pte = resident; found = refl; points = refl }

faulting-Consistent : Consistent All faulting
faulting-Consistent = record {
  mapped = λ f lt p occ. elim (Bool-cases (f == 0)) [
    | inl e ↦ subst (λ x. Maps faulting x (faulting.swap_pool x)) (sym (==→eq f 0 e)) frame_0
    | inr e ↦ absurd (no_other_frame f (==→ne f 0 e) occ)
  ];
  apart = λ f g lf lg pf pg ne of og. elim (Bool-cases (f == 0)) [
    | inl e ↦ absurd (no_other_frame g (λ q. ne (==→eq f 0 e ∙ sym q)) og)
    | inr e ↦ absurd (no_other_frame f (==→ne f 0 e) of)
  ];
}

serves :
    (pager platform layout faulting 0x20008000).1
    ≡ Ending.resumes (shell_support.sup_except_state 0)
unfolding page_index
serves =
    pager_serves platform layout faulting 0x20008000
      (record { pte_entry_hi = 0x1040; pte_entry_lo = 0x400 }) (omega arith) faulting-Consistent
      (λ n. refl) (omega arith) refl

not_wild : (pager platform layout faulting 0x20008000).1 ≢ Ending.wild
not_wild h = cc (serves, h)

pager_serves_example :
    (pager platform layout faulting 0x20008000).1
    ≡ Ending.resumes (shell_support.sup_except_state 0)
unfolding page_index
pager_serves_example =
    pager_serves platform layout faulting 0x20008000
      (record { pte_entry_hi = 0x1040; pte_entry_lo = 0x400 }) (omega arith) faulting-Consistent
      (λ n. refl) (omega arith) refl

pager_settles_example :
    taken 0x20007000 (pager platform layout faulting 0x20008000).0.actions + 0
    ≡ given 0x20007000 (pager platform layout faulting 0x20008000).0.actions + 0
pager_settles_example =
    pager_settles platform layout faulting 0x20008000 0x20007000 (omega arith) (omega arith)
      not_wild

pager_loads_example :
    (shell_support.sup_except_state 0 ≡ shell_support.sup_except_state 0)
    × Loaded
        (pager platform layout faulting 0x20008000).0
        0
        0x20008000
        1
        (faulting.supports 0x20008000).sup_asid
unfolding page_index
pager_loads_example =
    pager_loads platform layout faulting 0x20008000 (shell_support.sup_except_state 0) (omega arith)
      faulting-Consistent (λ f lt ne occ. absurd (no_other_frame f ne occ)) serves

abbrev blank_entries : ℕ → List PteEntry
blank_entries zero = []
blank_entries (suc n) = record { pte_entry_hi = 0; pte_entry_lo = 0 } ∷ blank_entries n

abbrev blank_support : Support
blank_support = record no_support { sup_private_pg_tbl = blank_entries 32 }

-- The mask of the page number is GETPAGENO.
abbrev masking : Platform
masking = record platform { entryhi_vpn_mask = 0x3FFFF000 }

init_page_table-page_index_example :
    (pte : PteEntry) × (get_elem? (init_page_table blank_support 2).sup_private_pg_tbl 31
      ≡ some pte)
    × (page_index masking pte.pte_entry_hi ≡ 31)
    × (bit_and pte.pte_entry_lo 0x200 ≡ 0)
init_page_table-page_index_example =
    init_page_table-page_index masking blank_support 2 31 refl refl (omega arith) (omega arith)
