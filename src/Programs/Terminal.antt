-- ===== src/Programs/Terminal.antt =====
-- phase1/p1test.c: termprint, which prints on a terminal by polling its status register. The
-- register is the stream of its successive readings; READY is 1 and BUSY is 3 in uriscv.
use sistemi_operativi_proget.Common.{
  ℕ, zero, suc, ◌+◌, ◌*◌, ◌%◌, ◌<◌, ◌≡◌, ◌≢◌, refl, sym, ap, ◌∙◌, ltb, Bool, true, false, ◌||◌,
  Option, none, some, List, [], ◌∷◌, ◌++◌, map, arith, if◌then◌else◌, if_cases, Bool-cases, ◌==◌,
  ne→==, subst, inl, inr,
}
use mathlib.Core.List.{append-nil, append_assoc}

pub record Terminal : Type 0 where
  pub readings : ℕ → ℕ
  pub reads : ℕ
  pub commands : List ℕ

-- `termstat(statusp)`
abbrev pub termstat : Terminal → ℕ
termstat d = d.readings d.reads % 256

abbrev pub polled : Terminal → Terminal
polled d = record d { reads = d.reads + 1 }

-- `stat = termstat(statusp); while (stat == BUSY) stat = termstat(statusp);` with n readings left.
unfoldable pub busy_wait : ℕ → Terminal → Option (ℕ × Terminal)
busy_wait zero d = none
busy_wait (suc n) d =
    let rest = busy_wait n (polled d) in
    if termstat d == 3 then rest else some (termstat d, polled d)

-- `(*str << CHAROFFSET) | PRINTCHR`
abbrev pub print_command : ℕ → ℕ
print_command c = c * 256 + 2

abbrev pub send : Terminal → ℕ → Terminal
send d v = record d { commands = d.commands ++ v ∷ [] }

-- The print cycle: whether it got to the end of the string. Each wait has n readings.
unfoldable pub print_cycle : ℕ → List ℕ → Terminal → Option (Bool × Terminal)
print_cycle n [] d = some (true, d)
print_cycle n (c ∷ str) d = elim (busy_wait n (send d (print_command c))) [
  | none ↦ none
  | some (stat, d1) ↦
      let rest = print_cycle n str d1 in if stat == 5 then rest else some (false, d1)
]

unfoldable pub termprint : ℕ → List ℕ → ℕ → Terminal → Option (Bool × Terminal)
termprint n str term d =
    let stat = termstat d in
    let cycle = print_cycle n str (polled d) in
    if ltb term 8
    then if stat == 1 || stat == 5 then cycle else some (false, polled d)
    else some (false, d)

-- From any reading on, one of the next n is not BUSY.
abbrev pub Settles : ℕ → (ℕ → ℕ) → Type 0
Settles n readings = (i : ℕ) → (j : ℕ) × (j < n) × (readings (i + j) % 256 ≢ 3)

add_zero : (a : ℕ) → a + 0 ≡ a
add_zero a = omega arith

add_suc : (a j : ℕ) → a + suc j ≡ a + 1 + j
add_suc a j = omega arith

-- What the device got so far, and what it goes on to read.
abbrev Kept : Terminal → Option (ℕ × Terminal) → Type 0
Kept d o =
    (s : ℕ) × (d1 : Terminal) × (o ≡ some (s, d1))
    × (d1.readings ≡ d.readings)
    × (d1.commands ≡ d.commands)

busy_wait-Kept :
    (n : ℕ) (d : Terminal) (j : ℕ)
    → j < n
    → d.readings (d.reads + j) % 256 ≢ 3
    → Kept d (busy_wait n d)
unfolding busy_wait
busy_wait-Kept zero d j lt ne = absurd (ground (arith, lt))
busy_wait-Kept (suc n) d zero lt ne =
    let first : (termstat d == 3) ≡ false =
      ne→== (termstat d) 3 (subst (λ i. d.readings i % 256 ≢ 3) (add_zero d.reads) ne) in
    rw first (termstat d, polled d, refl, refl, refl)
busy_wait-Kept (suc n) d (suc j) lt ne =
    let later : d.readings (d.reads + 1 + j) % 256 ≢ 3 =
      subst (λ i. d.readings i % 256 ≢ 3) (add_suc d.reads j) ne in
    let rest = busy_wait-Kept n (polled d) j (omega (arith, lt)) later in
    elim (Bool-cases (termstat d == 3)) [
      | inl wait ↦ rw wait rest
      | inr done ↦ rw done (termstat d, polled d, refl, refl, refl)
    ]

-- Whether the print came to the end of the string; if so, each character was sent, in order.
abbrev pub Prints : List ℕ → Terminal → Option (Bool × Terminal) → Type 0
Prints str d o =
    (b : Bool) × (d1 : Terminal) × (o ≡ some (b, d1))
    × (d1.readings ≡ d.readings)
    × (b ≡ true → d1.commands ≡ d.commands ++ map print_command str)

cycle_step :
    (n c : ℕ) (str : List ℕ) (d : Terminal) (stat : ℕ) (d1 : Terminal)
    → busy_wait n (send d (print_command c)) ≡ some (stat, d1)
    → print_cycle n (c ∷ str) d ≡ (if stat == 5 then print_cycle n str d1 else some (false, d1))
unfolding print_cycle
cycle_step n c str d stat d1 e = rw (print_cycle, e) refl

-- One character sent, and then the others.
sent_one :
    (c : ℕ) (str : List ℕ) (d d1 : Terminal) (o : Option (Bool × Terminal))
    → d1.readings ≡ d.readings
    → d1.commands ≡ d.commands ++ print_command c ∷ []
    → Prints str d1 o
    → Prints (c ∷ str) d o
sent_one c str d d1 o r w (b, d2, e, r2, w2) = (
  b,
  d2,
  e,
  r2 ∙ r,
  λ t.
      w2 t
      ∙ ap (λ l. l ++ map print_command str) w
      ∙ append_assoc d.commands (print_command c ∷ []) (map print_command str),
)

print_cycle-Prints :
    (n : ℕ) (str : List ℕ) (d : Terminal)
    → Settles n d.readings
    → Prints str d (print_cycle n str d)
print_cycle-Prints n [] d settles =
    unfold print_cycle in (true, d, refl, refl, λ e. sym (append-nil d.commands))
print_cycle-Prints n (c ∷ str) d settles =
    let d0 = send d (print_command c) in
    let free = settles d0.reads in
    let (stat, d1, e, r, w) = busy_wait-Kept n d0 free.0 free.1 free.2 in
    let rest = print_cycle-Prints n str d1 (subst (Settles n) (sym r) settles) in
    subst (Prints (c ∷ str) d) (sym (cycle_step n c str d stat d1 e)) (
      if_cases {A = Option (Bool × Terminal)} (Prints (c ∷ str) d) (stat == 5)
        (print_cycle n str d1) (some (false, d1)) (λ _. sent_one c str d d1 _ r w rest)
        (λ _. (false, d1, refl, r, λ t. cc)))

-- On a terminal that is not BUSY for n readings in a row, termprint comes to an end; and where it
-- returns TRUE, it has sent a print command for each character of the string, in order, and no more.
pub termprint-Prints :
    (n : ℕ) (str : List ℕ) (term : ℕ) (d : Terminal)
    → Settles n d.readings
    → Prints str d (termprint n str term d)
unfolding termprint
termprint-Prints n str term d settles =
    let given : Prints str d (some (false, polled d)) = (false, polled d, refl, refl, λ t. cc) in
    if_cases {A = Option (Bool × Terminal)} (Prints str d) (ltb term 8) _ (some (false, d))
      (λ _.
        if_cases {A = Option (Bool × Terminal)} (Prints str d) (termstat d == 1 || termstat d == 5)
          (print_cycle n str (polled d)) (some (false, polled d))
          (λ _. print_cycle-Prints n str (polled d) settles) (λ _. given))
      (λ _. (false, d, refl, refl, λ t. cc))
