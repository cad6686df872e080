-- ===== src/Support/Paging.antt =====
-- The pager of phase3/vmSupport.c: what it leaves in the swap pool and in the page tables.
use sistemi_operativi_proget.Common.{
  ℕ, ℤ, ◌+◌, ◌-◌, ◌%◌, ◌<◌, ◌≡◌, ◌≢◌, ◌⊎◌, refl, sym, ◌∙◌, pos, negsuc, pos_part, eqb_ℤ, ap, Option,
  none, some, ◌==◌, arith, if_cases, bit_and, subst,
}
use sistemi_operativi_proget.Const.{
  Platform, pgfault_except, pool_size, flash_ready, flash_write, flash_read, valid_on,
}
use sistemi_operativi_proget.Types.{State, PteEntry}
use sistemi_operativi_proget.Kernel.Exception.{page_index}
use sistemi_operativi_proget.Support.{Swap, Action, Level, Layout, Ending, act, fatal_fault}
use sistemi_operativi_proget.Support.Vm.{
  update_tlb_entry, flash_io, pte_at, set_pte, give_up, frame_address, map_page, load_page,
  write_back, evict, pager,
}
use sistemi_operativi_proget.Support.Frames.{
  mapped_lo, Maps, Occupied, Consistent, All, SameFrames, update_tlb_entry-SameFrames,
  flash_io-SameFrames,
}
use sistemi_operativi_proget.Support.Mapping.{
  Consistent-same, Other, Consistent-evict, Consistent-others, Missing, after, owner-Maps,
  pool_here, after-Consistent,
}

-- The page is in the frame: the frame's descriptor names the address space and the page, and points to
-- its entry, which maps the frame.
pub record Loaded (m : Level) (frame sup page : ℕ) (asid : ℤ) : Type 0 where
  pub consistent : Consistent All m
  pub owner_is : ((m.swap_pool frame).sw_owner ≡ sup) × ((m.swap_pool frame).sw_entry ≡ page)
  pub identity : ((m.swap_pool frame).sw_asid ≡ asid) × ((m.swap_pool frame).sw_page_no ≡ pos page)
  pub maps : Maps m frame (m.swap_pool frame)

Loaded-same :
    {m m' : Level} {frame sup page : ℕ} {asid : ℤ}
    → SameFrames m m'
    → Loaded m frame sup page asid
    → Loaded m' frame sup page asid
Loaded-same {m} {m'} {frame} s l = record {
  consistent = Consistent-same s l.consistent;
  owner_is = rw s.pool l.owner_is;
  identity = rw s.pool l.identity;
  maps =
      subst (Maps m' frame) (ap (λ (q : ℕ → Swap). q frame) (sym s.pool))
        (record { pte = l.maps.pte; found = rw s.tables l.maps.found; points = l.maps.points });
}

resumes-inj : (s t : State) → Ending.resumes s ≡ Ending.resumes t → t ≡ s
resumes-inj s t e = cc

-- What holds whenever the handler goes back to the process: it does so with the state of the
-- fault, and the page is in the frame.
abbrev Resumed : ℕ → ℕ → ℕ → ℤ → State → Level × Ending → Type 0
Resumed frame sup page asid saved r =
    (st : State) → r.1 ≡ Ending.resumes st → (st ≡ saved) × Loaded r.0 frame sup page asid

-- Before the page is loaded: the other frames are consistent, and none of them holds it.
record Ready (m : Level) (frame sup page : ℕ) (asid : ℤ) (saved : State) : Type 0 where
  pub others : Consistent (Other frame) m
  pub missing : Missing m frame sup page
  pub caller : (m.supports sup).sup_asid ≡ asid
  pub fault : (m.supports sup).sup_except_state pgfault_except ≡ saved

Ready-same :
    {m m' : Level} (frame sup page : ℕ) (asid : ℤ) (saved : State)
    → SameFrames m m'
    → Ready m frame sup page asid saved
    → Ready m' frame sup page asid saved
Ready-same frame sup page asid saved s r = record {
  others = Consistent-same s r.others;
  missing = λ f l ne occ. rw s.pool (r.missing f l ne (rw (sym s.pool) occ));
  caller = rw s.tables r.caller;
  fault = rw s.tables r.fault;
}

module _ (l : Layout) (frame sup page : ℕ) (asid : ℤ) (saved : State) (lt : frame < pool_size) where
  give_up-Resumed : (m : Level) → Resumed frame sup page asid saved (give_up l m sup)
  unfolding give_up fatal_fault
  give_up-Resumed m st e = cc

  map_page-Resumed :
      (m : Level) (o : Option PteEntry)
      → pte_at m sup page ≡ o
      → Ready m frame sup page asid saved
      → Resumed frame sup page asid saved (map_page l m sup page frame o)
  unfolding map_page
  map_page-Resumed m none found r st e = cc
  map_page-Resumed m (some pte) found r st e =
      let own = (m.supports sup).sup_asid in
      let placed = after m frame sup page own (pos page) pte in
      let lo = mapped_lo frame in
      let same : SameFrames placed (
          act (update_tlb_entry placed (record pte { pte_entry_lo = lo }))
            (Action.verhogen l.swap_pool_sem)) =
        (let s = update_tlb_entry-SameFrames placed (record pte { pte_entry_lo = lo }) in
          record { pool = s.pool; tables = s.tables }) in
      let at_frame = pool_here m frame sup page own (pos page) pte frame refl in
      (
        resumes-inj _ st e ∙ r.fault,
        Loaded-same same (record {
          consistent =
              after-Consistent m frame sup page own (pos page) pte r.others r.missing found;
          owner_is = (ap Swap.sw_owner at_frame, ap Swap.sw_entry at_frame);
          identity = (ap Swap.sw_asid at_frame ∙ r.caller, ap Swap.sw_page_no at_frame);
          maps =
              subst (Maps placed frame) (sym at_frame)
                (owner-Maps m frame sup page own (pos page) pte found);
        }),
      )

  load_page-Resumed :
      (m : Level)
      → Ready m frame sup page asid saved
      → Resumed frame sup page asid saved (load_page l m sup page frame)
  unfolding load_page
  load_page-Resumed m r =
      let io = flash_io l m (m.supports sup).sup_asid page (frame_address frame) flash_read in
      let same =
        flash_io-SameFrames l m (m.supports sup).sup_asid page (frame_address frame) flash_read in
      if_cases {A = Level × Ending} (Resumed frame sup page asid saved) (io.1 == flash_ready)
        (map_page l io.0 sup page frame (pte_at io.0 sup page)) (give_up l io.0 sup)
        (λ _.
          map_page-Resumed io.0 (pte_at io.0 sup page) refl
            (Ready-same frame sup page asid saved same r))
        (λ _. give_up-Resumed io.0)

  write_back-Resumed :
      (m : Level) (next : Level → Level × Ending) (o : Option PteEntry)
      → Consistent All m
      → Missing m frame sup page
      → (m.supports sup).sup_asid ≡ asid
      → (m.supports sup).sup_except_state pgfault_except ≡ saved
      → Occupied (m.swap_pool frame)
      → ((m1 : Level)
          → Ready m1 frame sup page asid saved
          → Resumed frame sup page asid saved (next m1))
      → Resumed frame sup page asid saved (write_back l m sup frame (m.swap_pool frame) next o)
  unfolding write_back
  write_back-Resumed m next none c miss own fault occ go st e = cc
  write_back-Resumed m next (some pte) c miss own fault occ go st e =
      let old = m.swap_pool frame in
      let lo = bit_and pte.pte_entry_lo (0xFFFFFFFF - valid_on) in
      let m1 = set_pte m old.sw_owner old.sw_entry pte lo in
      let m2 = update_tlb_entry m1 (record pte { pte_entry_lo = lo }) in
      let io =
        flash_io l m2 old.sw_asid (pos_part old.sw_page_no) (frame_address frame) flash_write in
      let ready : Ready m1 frame sup page asid saved = record {
        others = Consistent-evict m frame pte lo lt occ c;
        missing = miss;
        caller = ground (arith, own);
        fault = ground (arith, fault);
      } in
      let ready2 =
        Ready-same frame sup page asid saved
          (update_tlb_entry-SameFrames m1 (record pte { pte_entry_lo = lo })) ready in
      let ready3 =
        Ready-same frame sup page asid saved
          (flash_io-SameFrames l m2 old.sw_asid (pos_part old.sw_page_no) (frame_address frame)
            flash_write)
          ready2 in
      if_cases {A = Level × Ending} (Resumed frame sup page asid saved) (io.1 == flash_ready)
        (next io.0) (give_up l io.0 sup) (λ _. go io.0 ready3) (λ _. give_up-Resumed io.0) st e

  evict-Resumed :
      (m : Level) (next : Level → Level × Ending)
      → Consistent All m
      → Missing m frame sup page
      → (m.supports sup).sup_asid ≡ asid
      → (m.supports sup).sup_except_state pgfault_except ≡ saved
      → ((m1 : Level)
          → Ready m1 frame sup page asid saved
          → Resumed frame sup page asid saved (next m1))
      → Resumed frame sup page asid saved (evict l m sup frame next)
  unfolding evict
  evict-Resumed m next c miss own fault go =
      let old = m.swap_pool frame in
      let entry = pte_at m old.sw_owner old.sw_entry in
      if_cases {A = Level × Ending} (Resumed frame sup page asid saved)
        (eqb_ℤ old.sw_asid (negsuc 0)) (next m) (write_back l m sup frame old next entry)
        (λ _. go m (record {
          others = Consistent-others m frame c;
          missing = miss;
          caller = own;
          fault = fault;
        }))
        (λ used. write_back-Resumed m next entry c miss own fault (λ q. ground (arith, q, used)) go)

-- When the pager goes back to the process, it does so with the state of the fault, and the missing
-- page is in the frame that the clock named: the frame's descriptor has the identifier of the process's
-- address space and the number of the page, and points to its entry, and the page table entry maps the frame, valid and writable. All occupied frames are still mapped, each by an
-- entry of its own, as long as they were before and no other frame held the page.
pub pager_loads :
    (c : Platform) (l : Layout) (m : Level) (sup : ℕ) (st : State)
    → m.swap_frame_clock < pool_size
    → Consistent All m
    → (let page = page_index c ((m.supports sup).sup_except_state pgfault_except).entry_hi in
        (f : ℕ)
        → f < pool_size
        → f ≢ m.swap_frame_clock
        → Occupied (m.swap_pool f)
        → ((m.swap_pool f).sw_owner ≢ sup) ⊎ ((m.swap_pool f).sw_entry ≢ page))
    → (pager c l m sup).1 ≡ Ending.resumes st
    → (st ≡ (m.supports sup).sup_except_state pgfault_except)
      × Loaded
          (pager c l m sup).0
          m.swap_frame_clock
          sup
          (page_index c ((m.supports sup).sup_except_state pgfault_except).entry_hi)
          (m.supports sup).sup_asid
unfolding pager fatal_fault
pager_loads c l m sup st lt ok miss e =
    let saved = (m.supports sup).sup_except_state pgfault_except in
    let page = page_index c saved.entry_hi in
    let asid = (m.supports sup).sup_asid in
    let frame = m.swap_frame_clock in
    let m1 : Level = record (act m (Action.passeren l.swap_pool_sem)) {
      swap_frame_clock = (frame + 1) % pool_size;
    } in
    let next : Level → Level × Ending = λ m2. load_page l m2 sup page frame in
    let same : SameFrames m m1 = record { pool = refl; tables = refl } in
    if_cases {A = Level × Ending} (Resumed frame sup page asid saved)
      (bit_and saved.cause c.cause_exccode_mask == l.exc_mod) (fatal_fault l m sup)
      (evict l m1 sup frame next) (λ _ s q. cc)
      (λ _.
        evict-Resumed l frame sup page asid saved lt m1 next (Consistent-same same ok) miss refl
          refl (λ m2 r. load_page-Resumed l frame sup page asid saved lt m2 r))
      st e
