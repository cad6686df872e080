-- ===== src/Support/Locks.antt =====
-- The pager of phase3/vmSupport.c and the semaphores that it takes and gives back.
use sistemi_operativi_proget.Common.{
  ℕ, ◌+◌, ◌-◌, ◌%◌, ◌≡◌, ◌≢◌, refl, ℤ, negsuc, pos_part, eqb_ℤ, Option, none, some, List, [], ◌∷◌,
  ◌==◌, hit, arith, ne→==, if_cases, bit_and,
}
use sistemi_operativi_proget.Const.{
  Platform, pgfault_except, pool_size, flash_ready, flash_write, flash_read, valid_on,
}
use sistemi_operativi_proget.Types.{PteEntry}
use sistemi_operativi_proget.Kernel.Exception.{page_index}
use sistemi_operativi_proget.Support.{Swap, Action, Level, Layout, Ending, act, fatal_fault}
use sistemi_operativi_proget.Support.Vm.{
  update_tlb_entry, flash_io, pte_at, set_pte, give_up, frame_address, map_page, load_page,
  write_back, evict, pager,
}

-- How often a semaphore was taken, and how often it was given back.
abbrev pub taken : ℕ → List Action → ℕ
taken a [] = 0
taken a (Action.passeren s ∷ t) = hit a s + taken a t
taken a (_ ∷ t) = taken a t

abbrev pub given : ℕ → List Action → ℕ
given a [] = 0
given a (Action.verhogen s ∷ t) = hit a s + given a t
given a (_ ∷ t) = given a t

-- From m to m', the semaphore a was given back d times less than it was taken.
abbrev pub Owes : ℕ → ℕ → Level → Level → Type 0
Owes d a m m' =
    taken a m'.actions + given a m.actions ≡ d + (given a m'.actions + taken a m.actions)

abbrev pub Settled : ℕ → Level → Level × Ending → Type 0
Settled a m r = r.1 ≢ Ending.wild → Owes 0 a m r.0

update_tlb_entry-Owes : (a : ℕ) (m : Level) (pte : PteEntry) → Owes 0 a m (update_tlb_entry m pte)
unfolding update_tlb_entry
update_tlb_entry-Owes a m pte = ground arith

flash_io-Owes :
    (l : Layout) (a : ℕ) (m : Level) (asid : ℤ) (page addr rw_command : ℕ)
    → Owes 0 a m (flash_io l m asid page addr rw_command).0
unfolding flash_io
flash_io-Owes l a m asid page addr rw_command = omega arith

module _ (l : Layout) (a : ℕ) (master : a ≢ l.master_semaphore)
    (shell : a ≢ l.shell_semaphore) where
  pub fatal_fault-Owes : (m : Level) (sup : ℕ) → Owes 0 a m (fatal_fault l m sup).0
  unfolding fatal_fault
  fatal_fault-Owes m sup =
      ground (arith, ne→== a l.master_semaphore master, ne→== a l.shell_semaphore shell)

  give_up-Owes :
      (m0 m : Level) (sup : ℕ)
      → Owes (hit a l.swap_pool_sem) a m0 m
      → Owes 0 a m0 (give_up l m sup).0
  unfolding give_up
  give_up-Owes m0 m sup o =
      omega (arith, o, fatal_fault-Owes (act m (Action.verhogen l.swap_pool_sem)) sup)

  map_page-Owes :
      (m0 m : Level) (sup page frame : ℕ) (o : Option PteEntry)
      → Owes (hit a l.swap_pool_sem) a m0 m
      → Settled a m0 (map_page l m sup page frame o)
  unfolding map_page
  map_page-Owes m0 m sup page frame none h ok = absurd (ok refl)
  map_page-Owes m0 m sup page frame (some pte) h ok = omega (arith, h, update_tlb_entry-Owes a _ _)

  load_page-Owes :
      (m0 m : Level) (sup page frame : ℕ)
      → Owes (hit a l.swap_pool_sem) a m0 m
      → Settled a m0 (load_page l m sup page frame)
  unfolding load_page
  load_page-Owes m0 m sup page frame h =
      let io = flash_io l m (m.supports sup).sup_asid page (frame_address frame) flash_read in
      let owes =
        flash_io-Owes l a m (m.supports sup).sup_asid page (frame_address frame) flash_read in
      if_cases {A = Level × Ending} (Settled a m0) (io.1 == flash_ready)
        (map_page l io.0 sup page frame (pte_at io.0 sup page)) (give_up l io.0 sup)
        (λ _. map_page-Owes m0 io.0 sup page frame (pte_at io.0 sup page) (omega (arith, h, owes)))
        (λ _ _. give_up-Owes m0 io.0 sup (omega (arith, h, owes)))

  write_back-Owes :
      (m0 m : Level) (sup frame : ℕ) (old : Swap) (next : Level → Level × Ending)
      (o : Option PteEntry)
      → Owes (hit a l.swap_pool_sem) a m0 m
      → ((m1 : Level) → Owes (hit a l.swap_pool_sem) a m0 m1 → Settled a m0 (next m1))
      → Settled a m0 (write_back l m sup frame old next o)
  unfolding write_back
  write_back-Owes m0 m sup frame old next none h go ok = absurd (ok refl)
  write_back-Owes m0 m sup frame old next (some pte) h go ok =
      let lo = bit_and pte.pte_entry_lo (0xFFFFFFFF - valid_on) in
      let m1 = set_pte m old.sw_owner old.sw_entry pte lo in
      let m2 = update_tlb_entry m1 (record pte { pte_entry_lo = lo }) in
      let io =
        flash_io l m2 old.sw_asid (pos_part old.sw_page_no) (frame_address frame) flash_write in
      let owes : Owes (hit a l.swap_pool_sem) a m0 io.0 = omega (
        arith,
        h,
        flash_io-Owes l a m2 old.sw_asid (pos_part old.sw_page_no) (frame_address frame)
            flash_write,
        update_tlb_entry-Owes a m1 (record pte { pte_entry_lo = lo }),
      ) in
      if_cases {A = Level × Ending} (Settled a m0) (io.1 == flash_ready) (next io.0)
        (give_up l io.0 sup) (λ _. go io.0 owes) (λ _ _. give_up-Owes m0 io.0 sup owes) ok

  evict-Owes :
      (m0 m : Level) (sup frame : ℕ) (next : Level → Level × Ending)
      → Owes (hit a l.swap_pool_sem) a m0 m
      → ((m1 : Level) → Owes (hit a l.swap_pool_sem) a m0 m1 → Settled a m0 (next m1))
      → Settled a m0 (evict l m sup frame next)
  unfolding evict
  evict-Owes m0 m sup frame next h go =
      let old = m.swap_pool frame in
      if_cases {A = Level × Ending} (Settled a m0) (eqb_ℤ old.sw_asid (negsuc 0)) (next m)
        (write_back l m sup frame old next (pte_at m old.sw_owner old.sw_entry)) (λ _. go m h)
        (λ _. write_back-Owes m0 m sup frame old next (pte_at m old.sw_owner old.sw_entry) h go)

pager-Settled :
    (c : Platform) (l : Layout) (m : Level) (sup a : ℕ)
    → a ≢ l.master_semaphore
    → a ≢ l.shell_semaphore
    → Settled a m (pager c l m sup)
unfolding pager
pager-Settled c l m sup a master shell ok =
    let state = (m.supports sup).sup_except_state pgfault_except in
    let page = page_index c state.entry_hi in
    let frame = m.swap_frame_clock in
    let m1 : Level = record (act m (Action.passeren l.swap_pool_sem)) {
      swap_frame_clock = (frame + 1) % pool_size;
    } in
    let next : Level → Level × Ending = λ m2. load_page l m2 sup page frame in
    if_cases {A = Level × Ending} (Settled a m)
      (bit_and state.cause c.cause_exccode_mask == l.exc_mod) (fatal_fault l m sup)
      (evict l m1 sup frame next) (λ _ _. fatal_fault-Owes l a master shell m sup)
      (λ _.
        evict-Owes l a master shell m m1 sup frame next (omega arith)
          (λ m2 o. load_page-Owes l a master shell m m2 sup page frame o))
      ok

-- Whichever way the pager ends, but for a wild pointer, it has given back every semaphore as often
-- as it has taken it: the swap pool's and the flash devices'. Only the semaphores by which it
-- tells of a terminated process are apart from that.
pub pager_settles :
    (c : Platform) (l : Layout) (m : Level) (sup a : ℕ)
    → a ≢ l.master_semaphore
    → a ≢ l.shell_semaphore
    → (pager c l m sup).1 ≢ Ending.wild
    → taken a (pager c l m sup).0.actions + given a m.actions
      ≡ given a (pager c l m sup).0.actions + taken a m.actions
pager_settles c l m sup a master shell ok = omega (arith, pager-Settled c l m sup a master shell ok)
