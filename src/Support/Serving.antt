-- ===== src/Support/Serving.antt =====
-- The pager of phase3/vmSupport.c with flash devices that work.
use sistemi_operativi_proget.Common.{
  ℕ, zero, suc, ◌+◌, ◌-◌, ◌%◌, ◌<◌, ◌≡◌, ◌≢◌, inl, inr, refl, sym, ◌∙◌, ℤ, negsuc, pos_part, eqb_ℤ,
  ap, Option, none, some, List, [], ◌∷◌, ◌==◌, arith, if_cases, bit_and, Bool-cases, eq→==, ne→==,
  ==→eq, get_elem?, set, true,
}
use sistemi_operativi_proget.Const.{
  Platform, pgfault_except, pool_size, flash_ready, flash_write, flash_read, valid_on,
}
use sistemi_operativi_proget.Types.{State, PteEntry}
use sistemi_operativi_proget.Kernel.Exception.{page_index}
use sistemi_operativi_proget.Support.{Action, Level, Layout, Ending, act}
use sistemi_operativi_proget.Support.Vm.{
  update_tlb_entry, flash_io, pte_at, set_pte, frame_address, map_page, load_page, write_back,
  evict, pager,
}
use sistemi_operativi_proget.Support.Frames.{Maps, Occupied, Consistent, All}

get_elem-set-some :
    {A : Type 0} (xs : List A) (i j : ℕ) (u v : A)
    → get_elem? xs j ≡ some u
    → (w : A) × (get_elem? (set xs i v) j ≡ some w)
get_elem-set-some [] i j u v h = (u, h)
get_elem-set-some (x ∷ xs) zero zero u v h = (v, refl)
get_elem-set-some (x ∷ xs) zero (suc j) u v h = (u, h)
get_elem-set-some (x ∷ xs) (suc i) zero u v h = (u, h)
get_elem-set-some (x ∷ xs) (suc i) (suc j) u v h = get_elem-set-some xs i j u v h

-- The flash devices answer READY, and the page has a page table entry.
record Works (m : Level) (sup page : ℕ) (saved : State) : Type 0 where
  pub ready : (n : ℕ) → m.answers n ≡ flash_ready
  pub entry : (pte : PteEntry) × (pte_at m sup page ≡ some pte)
  pub fault : (m.supports sup).sup_except_state pgfault_except ≡ saved

record SameWorld (m m' : Level) : Type 0 where
  pub answers : m'.answers ≡ m.answers
  pub tables : m'.supports ≡ m.supports

Works-same :
    {m m' : Level} (sup page : ℕ) (saved : State)
    → SameWorld m m'
    → Works m sup page saved
    → Works m' sup page saved
Works-same sup page saved s w = record {
  ready = λ n. rw s.answers (w.ready n);
  entry = (w.entry.0, rw s.tables w.entry.1);
  fault = rw s.tables w.fault;
}

update_tlb_entry-SameWorld : (m : Level) (pte : PteEntry) → SameWorld m (update_tlb_entry m pte)
unfolding update_tlb_entry
update_tlb_entry-SameWorld m pte = record { answers = ground arith; tables = ground arith }

flash_io-SameWorld :
    (l : Layout) (m : Level) (asid : ℤ) (page addr rw_command : ℕ)
    → SameWorld m (flash_io l m asid page addr rw_command).0
unfolding flash_io
flash_io-SameWorld l m asid page addr rw_command = record { answers = refl; tables = refl }

flash_io-ready :
    (l : Layout) (m : Level) (asid : ℤ) (page addr rw_command : ℕ)
    → ((n : ℕ) → m.answers n ≡ flash_ready)
    → ((flash_io l m asid page addr rw_command).1 == flash_ready) ≡ true
unfolding flash_io
flash_io-ready l m asid page addr rw_command h = eq→== _ _ (h m.asked)

set_pte-entry :
    (m : Level) (s p : ℕ) (pte : PteEntry) (lo sup page : ℕ)
    → (e : PteEntry) × (pte_at m sup page ≡ some e)
    → (e : PteEntry) × (pte_at (set_pte m s p pte lo) sup page ≡ some e)
set_pte-entry m s p pte lo sup page (e, h) = elim (Bool-cases (sup == s)) [
  | inl same ↦
      let new = record pte { pte_entry_lo = lo } in
      let r =
        get_elem-set-some (m.supports s).sup_private_pg_tbl p page e new (
          ap (λ x. get_elem? (m.supports x).sup_private_pg_tbl page) (sym (==→eq sup s same))
          ∙ h) in
      (r.0, rw same r.1)
  | inr other ↦ (e, rw other h)
]

module _ (l : Layout) (frame sup page : ℕ) (saved : State) where
  abbrev Serves : Level × Ending → Type 0
  Serves r = r.1 ≡ Ending.resumes saved

  map_page-Serves :
      (m : Level) (o : Option PteEntry)
      → pte_at m sup page ≡ o
      → Works m sup page saved
      → Serves (map_page l m sup page frame o)
  unfolding map_page
  map_page-Serves m none e w = cc
  map_page-Serves m (some pte) e w = ap Ending.resumes w.fault

  load_page-Serves : (m : Level) → Works m sup page saved → Serves (load_page l m sup page frame)
  unfolding load_page
  load_page-Serves m w =
      let io = flash_io l m (m.supports sup).sup_asid page (frame_address frame) flash_read in
      let same =
        flash_io-SameWorld l m (m.supports sup).sup_asid page (frame_address frame) flash_read in
      rw
        (flash_io-ready l m (m.supports sup).sup_asid page (frame_address frame) flash_read w.ready)
        (map_page-Serves io.0 (pte_at io.0 sup page) refl (Works-same sup page saved same w))

  write_back-Serves :
      (m : Level) (next : Level → Level × Ending) (o : Option PteEntry)
      → o ≢ none
      → Works m sup page saved
      → ((m1 : Level) → Works m1 sup page saved → Serves (next m1))
      → Serves (write_back l m sup frame (m.swap_pool frame) next o)
  unfolding write_back
  write_back-Serves m next none e w go = absurd (e refl)
  write_back-Serves m next (some pte) e w go =
      let old = m.swap_pool frame in
      let lo = bit_and pte.pte_entry_lo (0xFFFFFFFF - valid_on) in
      let m1 = set_pte m old.sw_owner old.sw_entry pte lo in
      let m2 = update_tlb_entry m1 (record pte { pte_entry_lo = lo }) in
      let w1 : Works m1 sup page saved = record {
        ready = w.ready;
        entry = set_pte-entry m old.sw_owner old.sw_entry pte lo sup page w.entry;
        fault = ground (arith, w.fault);
      } in
      let w2 =
        Works-same sup page saved (update_tlb_entry-SameWorld m1 (record pte { pte_entry_lo = lo }))
          w1 in
      let n = pos_part old.sw_page_no in
      let w3 =
        Works-same sup page saved
          (flash_io-SameWorld l m2 old.sw_asid n (frame_address frame) flash_write) w2 in
      rw (flash_io-ready l m2 old.sw_asid n (frame_address frame) flash_write w2.ready) (go _ w3)

  evict-Serves :
      (m : Level) (next : Level → Level × Ending)
      → (Occupied (m.swap_pool frame) → Maps m frame (m.swap_pool frame))
      → Works m sup page saved
      → ((m1 : Level) → Works m1 sup page saved → Serves (next m1))
      → Serves (evict l m sup frame next)
  unfolding evict
  evict-Serves m next held w go =
      let old = m.swap_pool frame in
      let entry = pte_at m old.sw_owner old.sw_entry in
      if_cases {A = Level × Ending} Serves (eqb_ℤ old.sw_asid (negsuc 0)) (next m)
        (write_back l m sup frame old next entry) (λ _. go m w)
        (λ used.
          write_back-Serves m next entry
            (λ n. let maps = held (λ q. ground (arith, q, used)) in cc (maps.found, n)) w go)

-- With flash devices that answer READY, a fault that is not a TLB modification, a page that has a
-- page table entry, and occupied frames that are mapped, the pager goes back to the process.
pub pager_serves :
    (c : Platform) (l : Layout) (m : Level) (sup : ℕ) (pte : PteEntry)
    → m.swap_frame_clock < pool_size
    → Consistent All m
    → ((n : ℕ) → m.answers n ≡ flash_ready)
    → bit_and ((m.supports sup).sup_except_state pgfault_except).cause c.cause_exccode_mask
      ≢ l.exc_mod
    → pte_at m sup (page_index c ((m.supports sup).sup_except_state pgfault_except).entry_hi)
      ≡ some pte
    → (pager c l m sup).1 ≡ Ending.resumes ((m.supports sup).sup_except_state pgfault_except)
unfolding pager
pager_serves c l m sup pte lt ok ready code entry =
    let saved = (m.supports sup).sup_except_state pgfault_except in
    let page = page_index c saved.entry_hi in
    let frame = m.swap_frame_clock in
    let m1 : Level = record (act m (Action.passeren l.swap_pool_sem)) {
      swap_frame_clock = (frame + 1) % pool_size;
    } in
    let next : Level → Level × Ending = λ m2. load_page l m2 sup page frame in
    rw (ne→== (bit_and saved.cause c.cause_exccode_mask) l.exc_mod code) (
      evict-Serves l frame sup page saved m1 next
        (λ o.
          let r = ok.mapped frame lt tt o in
          record { pte = r.pte; found = r.found; points = r.points })
        (record { ready = ready; entry = (pte, entry); fault = refl })
        (λ m2 w. load_page-Serves l frame sup page saved m2 w))
