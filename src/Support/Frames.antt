-- ===== src/Support/Frames.antt =====
-- The frames of the swap pool and the page tables of phase3/vmSupport.c: when they are consistent.
use sistemi_operativi_proget.Common.{
  ℕ, zero, suc, ◌<◌, ◌≡◌, ◌≢◌, ◌⊎◌, inl, inr, refl, ℤ, negsuc, ap, some, List, [], ◌∷◌, arith,
  bit_or, get_elem?, set,
}
use sistemi_operativi_proget.Const.{pool_size, valid_on, dirty_on}
use sistemi_operativi_proget.Types.{PteEntry}
use sistemi_operativi_proget.Support.{Swap, Level, Layout}
use sistemi_operativi_proget.Support.Vm.{update_tlb_entry, flash_io, pte_at, set_pte, frame_address}

abbrev pub mapped_lo : ℕ → ℕ
mapped_lo frame = bit_or (bit_or (frame_address frame) dirty_on) valid_on

-- The page table entry that a frame's descriptor points to maps the frame, valid and writable.
pub record Maps (m : Level) (frame : ℕ) (s : Swap) : Type 0 where
  pub pte : PteEntry
  pub found : pte_at m s.sw_owner s.sw_entry ≡ some pte
  pub points : pte.pte_entry_lo ≡ mapped_lo frame

abbrev pub Occupied : Swap → Type 0
Occupied s = s.sw_asid ≢ negsuc 0

-- Two descriptors point to different page table entries.
abbrev pub Apart : Swap → Swap → Type 0
Apart s t = (s.sw_owner ≢ t.sw_owner) ⊎ (s.sw_entry ≢ t.sw_entry)

-- Of the occupied frames for which P holds, each is mapped, and no two by one entry.
pub record Consistent (P : ℕ → Type 0) (m : Level) : Type 0 where
  pub mapped : (f : ℕ) → f < pool_size → P f → Occupied (m.swap_pool f) → Maps m f (m.swap_pool f)
  pub apart :
      (f g : ℕ)
      → f < pool_size
      → g < pool_size
      → P f
      → P g
      → f ≢ g
      → Occupied (m.swap_pool f)
      → Occupied (m.swap_pool g)
      → Apart (m.swap_pool f) (m.swap_pool g)

abbrev pub All : ℕ → Type 0
All f = Unit

abbrev pub Absent : Level → ℕ → ℕ → Type 0
Absent m sup page =
    (f : ℕ)
    → f < pool_size
    → Occupied (m.swap_pool f)
    → ((m.swap_pool f).sw_owner ≢ sup) ⊎ ((m.swap_pool f).sw_entry ≢ page)

-- Frames and page tables are as they were.
pub record SameFrames (m m' : Level) : Type 0 where
  pub pool : m'.swap_pool ≡ m.swap_pool
  pub tables : m'.supports ≡ m.supports

pub update_tlb_entry-SameFrames :
    (m : Level) (pte : PteEntry) → SameFrames m (update_tlb_entry m pte)
unfolding update_tlb_entry
update_tlb_entry-SameFrames m pte = record { pool = ground arith; tables = ground arith }

pub flash_io-SameFrames :
    (l : Layout) (m : Level) (asid : ℤ) (page addr rw_command : ℕ)
    → SameFrames m (flash_io l m asid page addr rw_command).0
unfolding flash_io
flash_io-SameFrames l m asid page addr rw_command = record { pool = refl; tables = refl }

pub get_elem-set-other :
    {A : Type 0} (xs : List A) (i j : ℕ) (v : A) → j ≢ i → get_elem? (set xs i v) j ≡ get_elem? xs j
get_elem-set-other [] i j v h = refl
get_elem-set-other (x ∷ xs) zero zero v h = absurd (h refl)
get_elem-set-other (x ∷ xs) zero (suc j) v h = refl
get_elem-set-other (x ∷ xs) (suc i) zero v h = refl
get_elem-set-other (x ∷ xs) (suc i) (suc j) v h = get_elem-set-other xs i j v (λ e. h (ap suc e))

get_elem-set :
    {A : Type 0} (xs : List A) (i : ℕ) (u v : A)
    → get_elem? xs i ≡ some u
    → get_elem? (set xs i v) i ≡ some v
get_elem-set [] i u v h = cc
get_elem-set (x ∷ xs) zero u v h = refl
get_elem-set (x ∷ xs) (suc i) u v h = get_elem-set xs i u v h

-- Writing one entry leaves the others.
pub set_pte-other :
    (m : Level) (sup page : ℕ) (pte : PteEntry) (lo s p : ℕ)
    → (s ≢ sup) ⊎ (p ≢ page)
    → pte_at (set_pte m sup page pte lo) s p ≡ pte_at m s p
set_pte-other m sup page pte lo s p (inl h) = ground (arith)
set_pte-other m sup page pte lo s p (inr h) = ground (
  arith,
  get_elem-set-other (m.supports sup).sup_private_pg_tbl page p (record pte { pte_entry_lo = lo })
      h,
)

pub set_pte-same :
    (m : Level) (sup page : ℕ) (pte : PteEntry) (lo : ℕ)
    → pte_at m sup page ≡ some pte
    → pte_at (set_pte m sup page pte lo) sup page ≡ some (record pte { pte_entry_lo = lo })
set_pte-same m sup page pte lo h = ground (
  arith,
  get_elem-set (m.supports sup).sup_private_pg_tbl page pte (record pte { pte_entry_lo = lo }) h,
)
