-- ===== src/Support/Pages.antt =====
-- The page tables that phase3/initProc.c sets up, and the index by which phase2/exception.c and
-- phase3/vmSupport.c look pages up in them.
use sistemi_operativi_proget.Common.{
  ℕ, zero, suc, ◌+◌, ◌-◌, ◌^◌, ◌≤◌, ◌<◌, ◌≡◌, refl, sym, ap, ◌∙◌, Bool, true, false, ◌&&◌, ◌==◌,
  ==→eq, ==→ne, ◌/◌, some, List, [], ◌∷◌, arith, length, get_elem?, set, bit_and, Bool-cases, inl,
  inr, if◌then◌else◌, subst,
}
use sistemi_operativi_proget.Const.{Platform, max_pages, vpn_shift, valid_on, uproc_max}
use sistemi_operativi_proget.Types.{Support, PteEntry}
use sistemi_operativi_proget.Kernel.Exception.{page_index}
use sistemi_operativi_proget.Support.Init.{new_entry, page_rounds, init_page_table}
use sistemi_operativi_proget.Support.Frames.{get_elem-set-other}

length-set : {A : Type 0} (xs : List A) (i : ℕ) (v : A) → length (set xs i v) ≡ length xs
length-set [] i v = refl
length-set (x ∷ xs) zero v = refl
length-set (x ∷ xs) (suc i) v = ap suc (length-set xs i v)

get_elem-set-below :
    {A : Type 0} (xs : List A) (i : ℕ) (v : A) → i < length xs → get_elem? (set xs i v) i ≡ some v
get_elem-set-below [] i v h = absurd (omega arith)
get_elem-set-below (x ∷ xs) zero v h = refl
get_elem-set-below (x ∷ xs) (suc i) v h = get_elem-set-below xs i v (omega arith)

page_rounds-before :
    (n i asid j : ℕ) (t : List PteEntry)
    → j < i
    → get_elem? (page_rounds n i asid t) j ≡ get_elem? t j
unfolding page_rounds
page_rounds-before zero i asid j t h = refl
page_rounds-before (suc n) i asid j t h =
    page_rounds-before n (i + 1) asid j (set t i (new_entry (0x80000 + i) asid)) (omega arith)
    ∙ get_elem-set-other t i j (new_entry (0x80000 + i) asid) (omega arith)

page_rounds-entry :
    (n i asid j : ℕ) (t : List PteEntry)
    → i ≤ j
    → j < i + n
    → i + n ≤ length t
    → get_elem? (page_rounds n i asid t) j ≡ some (new_entry (0x80000 + j) asid)
unfolding page_rounds
page_rounds-entry zero i asid j t lo hi fits = absurd (omega arith)
page_rounds-entry (suc n) i asid j t lo hi fits =
    let e = new_entry (0x80000 + i) asid in
    elim (Bool-cases (i == j)) [
      | inl same ↦
          let here = ==→eq i j same in
          subst
            (λ x.
              get_elem? (page_rounds n (i + 1) asid (set t i e)) x
              ≡ some (new_entry (0x80000 + x) asid))
            here
            (page_rounds-before n (i + 1) asid i (set t i e) (omega arith)
              ∙ get_elem-set-below t i e (omega arith))
      | inr other ↦
          page_rounds-entry n (i + 1) asid j (set t i e) (ground (arith, other)) (omega arith)
            (omega (arith, length-set t i e))
    ]

page_rounds-length : (n i asid : ℕ) (t : List PteEntry) → length (page_rounds n i asid t) ≡ length t
unfolding page_rounds
page_rounds-length zero i asid t = refl
page_rounds-length (suc n) i asid t =
    page_rounds-length n (i + 1) asid (set t i (new_entry (0x80000 + i) asid)) ∙ length-set t i _

-- The virtual page number of an entry of the table.
abbrev pub vpn_of : ℕ → ℕ
vpn_of i = if i == max_pages - 1 then 0xBFFFF else 0x80000 + i

pub init_page_table-entry :
    (s : Support) (asid i : ℕ)
    → length s.sup_private_pg_tbl ≡ max_pages
    → i < max_pages
    → get_elem? (init_page_table s asid).sup_private_pg_tbl i ≡ some (new_entry (vpn_of i) asid)
unfolding init_page_table
init_page_table-entry s asid i size lt =
    let t = s.sup_private_pg_tbl in
    let rounds = page_rounds (max_pages - 1) 0 asid t in
    elim (Bool-cases (i == max_pages - 1)) [
      | inl top ↦ rw top (
          subst
            (λ x.
              get_elem? (set rounds (max_pages - 1) (new_entry 0xBFFFF asid)) x
              ≡ some (new_entry 0xBFFFF asid))
            (sym (==→eq i (max_pages - 1) top))
            (get_elem-set-below rounds (max_pages - 1) (new_entry 0xBFFFF asid)
              (omega (arith, page_rounds-length (max_pages - 1) 0 asid t, size))))
      | inr low ↦ rw low (
          get_elem-set-other rounds (max_pages - 1) i (new_entry 0xBFFFF asid)
            (==→ne i (max_pages - 1) low)
          ∙ page_rounds-entry (max_pages - 1) 0 asid i t (omega arith)
              (omega (arith, ==→ne i (max_pages - 1) low)) (omega (arith, size)))
    ]

-- `page_index` with GETPAGENO of headers/const.h for the mask of the page number.
abbrev masked_index : ℕ → ℕ
masked_index hi =
    let vpn = bit_and hi 0x3FFFF000 / 2 ^ vpn_shift in if vpn == 0x3FFFF then max_pages - 1 else vpn

abbrev all_below : ℕ → (ℕ → Bool) → Bool
all_below zero f = true
all_below (suc n) f = f n && all_below n f

all_below-at : (n j : ℕ) (f : ℕ → Bool) → all_below n f ≡ true → j < n → f j ≡ true
all_below-at zero j f h lt = absurd (omega arith)
all_below-at (suc n) j f h lt = elim (Bool-cases (j == n)) [
  | inl same ↦ subst (λ x. f x ≡ true) (sym (==→eq j n same)) (and-left (f n) (all_below n f) h)
  | inr other ↦
      all_below-at n j f (and-right (f n) (all_below n f) h) (omega (arith, ==→ne j n other))
]
  where
    and-left : (a b : Bool) → (a && b) ≡ true → a ≡ true
    and-left true b h = refl
    and-left false b h = h

    and-right : (a b : Bool) → (a && b) ≡ true → b ≡ true
    and-right true b h = h
    and-right false b h = cc

abbrev at_place : ℕ → ℕ → Bool
at_place asid i = masked_index (new_entry (vpn_of i) asid).pte_entry_hi == i

every_page : all_below (uproc_max + 1) (λ asid. all_below max_pages (λ i. at_place asid i)) ≡ true
every_page = refl

-- Each entry of a new page table is at the index by which the refill handler and the pager look up
-- its own page number, and is not valid: for each ASID up to UPROCMAX and each of the MAXPAGES
-- entries, with GETPAGENO as the mask of the page number.
pub init_page_table-page_index :
    (c : Platform) (s : Support) (asid i : ℕ)
    → c.entryhi_vpn_mask ≡ 0x3FFFF000
    → length s.sup_private_pg_tbl ≡ max_pages
    → asid ≤ uproc_max
    → i < max_pages
    → (pte : PteEntry) × (get_elem? (init_page_table s asid).sup_private_pg_tbl i ≡ some pte)
      × (page_index c pte.pte_entry_hi ≡ i)
      × (bit_and pte.pte_entry_lo valid_on ≡ 0)
unfolding page_index
init_page_table-page_index c s asid i mask size small lt = (
  new_entry (vpn_of i) asid,
  init_page_table-entry s asid i size lt,
  rw mask (
      ==→eq (masked_index (new_entry (vpn_of i) asid).pte_entry_hi) i (
        all_below-at max_pages i (λ x. at_place asid x)
          (all_below-at (uproc_max + 1) asid (λ a. all_below max_pages (λ x. at_place a x))
            every_page (omega arith))
          lt)),
  refl,
)
