-- ===== src/Support/Mapping.antt =====
-- A frame of the swap pool of phase3/vmSupport.c that is taken from one page and given to another.
use sistemi_operativi_proget.Common.{
  ℕ, ◌<◌, ◌≡◌, ◌≢◌, ◌⊎◌, inl, inr, refl, sym, ◌∙◌, ℤ, some, ◌==◌, write, subst, Bool-cases, eq→==,
  ne→==, ==→eq, ==→ne,
}
use sistemi_operativi_proget.Const.{pool_size}
use sistemi_operativi_proget.Types.{PteEntry}
use sistemi_operativi_proget.Support.{Swap, Level}
use sistemi_operativi_proget.Support.Vm.{pte_at, set_pte}
use sistemi_operativi_proget.Support.Frames.{
  mapped_lo, Maps, Occupied, Apart, Consistent, All, SameFrames, set_pte-other, set_pte-same,
}

pub Consistent-same :
    {P : ℕ → Type 0} {m m' : Level} → SameFrames m m' → Consistent P m → Consistent P m'
Consistent-same {P} {m} {m'} s c = record {
  mapped = λ f lt p occ.
      let r = c.mapped f lt p (rw (sym s.pool) occ) in
      record { pte = r.pte; found = rw (s.pool, s.tables) r.found; points = r.points };
  apart = λ f g lf lg pf pg ne of og.
      rw s.pool (c.apart f g lf lg pf pg ne (rw (sym s.pool) of) (rw (sym s.pool) og));
}

abbrev pub Other : ℕ → ℕ → Type 0
Other frame f = f ≢ frame

-- With the entry of one frame's page changed, the other frames are consistent.
pub Consistent-evict :
    (m : Level) (frame : ℕ) (pte : PteEntry) (lo : ℕ)
    → frame < pool_size
    → Occupied (m.swap_pool frame)
    → Consistent All m
    → Consistent
        (Other frame)
        (set_pte m (m.swap_pool frame).sw_owner (m.swap_pool frame).sw_entry pte lo)
Consistent-evict m frame pte lo lt occ c = record {
  mapped = λ f l ne o.
      let r = c.mapped f l tt o in
      record {
        pte = r.pte;
        found =
            set_pte-other m (m.swap_pool frame).sw_owner (m.swap_pool frame).sw_entry pte lo
              (m.swap_pool f).sw_owner (m.swap_pool f).sw_entry
              (c.apart f frame l lt tt tt ne o occ)
            ∙ r.found;
        points = r.points;
      };
  apart = λ f g lf lg pf pg ne of og. c.apart f g lf lg tt tt ne of og;
}

pub Consistent-others : (m : Level) (frame : ℕ) → Consistent All m → Consistent (Other frame) m
Consistent-others m frame c = record {
  mapped = λ f l ne o. c.mapped f l tt o;
  apart = λ f g lf lg pf pg ne of og. c.apart f g lf lg tt tt ne of og;
}

-- No other frame holds the page.
abbrev pub Missing : Level → ℕ → ℕ → ℕ → Type 0
Missing m frame sup page =
    (f : ℕ)
    → f < pool_size
    → f ≢ frame
    → Occupied (m.swap_pool f)
    → ((m.swap_pool f).sw_owner ≢ sup) ⊎ ((m.swap_pool f).sw_entry ≢ page)

-- A frame that gets an owner whose page is in no other frame, with the owner's entry mapping it.
module _ (m : Level) (frame sup page : ℕ) (asid n : ℤ) (pte : PteEntry) where
  abbrev pub owner : Swap
  owner = record { sw_asid = asid; sw_page_no = n; sw_owner = sup; sw_entry = page }

  abbrev pub after : Level
  after =
      set_pte (record m { swap_pool = write m.swap_pool frame owner }) sup page pte
        (mapped_lo frame)

  pub owner-Maps : pte_at m sup page ≡ some pte → Maps after frame owner
  owner-Maps found = record {
    pte = record pte { pte_entry_lo = mapped_lo frame };
    found = set_pte-same m sup page pte (mapped_lo frame) found;
    points = refl;
  }

  pub pool_here : (f : ℕ) → f ≡ frame → after.swap_pool f ≡ owner
  pool_here f e = rw (eq→== f frame e)

  pool_there : (f : ℕ) → f ≢ frame → after.swap_pool f ≡ m.swap_pool f
  pool_there f e = rw (ne→== f frame e)

  after-Maps :
      (f : ℕ)
      → f < pool_size
      → Consistent (Other frame) m
      → Missing m frame sup page
      → pte_at m sup page ≡ some pte
      → Occupied (after.swap_pool f)
      → Maps after f (after.swap_pool f)
  after-Maps f l c miss found occ = elim (Bool-cases (f == frame)) [
    | inl e ↦
        let same = ==→eq f frame e in
        subst (Maps after f) (sym (pool_here f same))
          (subst (λ x. Maps after x owner) (sym same) (owner-Maps found))
    | inr e ↦
        let other = ==→ne f frame e in
        let o : Occupied (m.swap_pool f) = subst Occupied (pool_there f other) occ in
        let r = c.mapped f l other o in
        subst (Maps after f) (sym (pool_there f other)) (record {
          pte = r.pte;
          found =
              set_pte-other m sup page pte (mapped_lo frame) (m.swap_pool f).sw_owner
                (m.swap_pool f).sw_entry (miss f l other o)
              ∙ r.found;
          points = r.points;
        })
  ]

  after-Apart :
      (f g : ℕ)
      → f < pool_size
      → g < pool_size
      → f ≢ g
      → Consistent (Other frame) m
      → Missing m frame sup page
      → Occupied (after.swap_pool f)
      → Occupied (after.swap_pool g)
      → Apart (after.swap_pool f) (after.swap_pool g)
  after-Apart f g lf lg ne c miss of og = elim (Bool-cases (f == frame)) [
    | inl e ↦
        let here = ==→eq f frame e in
        let other : g ≢ frame = λ q. ne (here ∙ sym q) in
        let o : Occupied (m.swap_pool g) = subst Occupied (pool_there g other) og in
        subst (λ s. Apart s (after.swap_pool g)) (sym (pool_here f here))
          (subst (Apart owner) (sym (pool_there g other))
            (flip (m.swap_pool g) (miss g lg other o)))
    | inr e ↦
        let other = ==→ne f frame e in
        let o : Occupied (m.swap_pool f) = subst Occupied (pool_there f other) of in
        subst (λ s. Apart s (after.swap_pool g)) (sym (pool_there f other))
          (second (m.swap_pool f) g lg o (miss f lf other o)
            (λ ng p. c.apart f g lf lg other ng ne o p) og)
  ]
    where
      flip : (s : Swap) → (s.sw_owner ≢ sup) ⊎ (s.sw_entry ≢ page) → Apart owner s
      flip s (inl h) = inl (λ q. h (sym q))
      flip s (inr h) = inr (λ q. h (sym q))

      second :
          (s : Swap) (g : ℕ)
          → g < pool_size
          → Occupied s
          → (s.sw_owner ≢ sup) ⊎ (s.sw_entry ≢ page)
          → (g ≢ frame → Occupied (m.swap_pool g) → Apart s (m.swap_pool g))
          → Occupied (after.swap_pool g)
          → Apart s (after.swap_pool g)
      second s g lg o h rest og = elim (Bool-cases (g == frame)) [
        | inl e ↦ subst (Apart s) (sym (pool_here g (==→eq g frame e))) h
        | inr e ↦
            let ng = ==→ne g frame e in
            subst (Apart s) (sym (pool_there g ng)) (rest ng (subst Occupied (pool_there g ng) og))
      ]

  pub after-Consistent :
      Consistent (Other frame) m
      → Missing m frame sup page
      → pte_at m sup page ≡ some pte
      → Consistent All after
  after-Consistent c miss found = record {
    mapped = λ f l p occ. after-Maps f l c miss found occ;
    apart = λ f g lf lg pf pg ne of og. after-Apart f g lf lg ne c miss of og;
  }
