-- ===== src/Programs/Shell.antt =====
-- phase3/testers/shell.c.
use sistemi_operativi_proget.Common.{
  ℕ, ◌≡◌, refl, ◌↔◌, arith, Bool, true, false, ◌==◌, if◌then◌else◌, Option, none, some, List, [],
  ◌∷◌, Bool-cases, inl, inr, ==→eq, ==→ne, ap, ◌∙◌,
}
use sistemi_operativi_proget.Programs.{strip_newline}

-- The loop compares while neither string has ended; both have to end there.
unfoldable pub sh_streq : List ℕ → List ℕ → Bool
sh_streq [] [] = true
sh_streq [] (d ∷ b) = false
sh_streq (c ∷ a) [] = false
sh_streq (c ∷ a) (d ∷ b) = let later = sh_streq a b in if c == d then later else false

pub record ProgEntry : Type 0 where
  pub name : List ℕ
  pub asid : ℕ

-- The loop over the table, up to its sentinel.
unfoldable pub look_up : List ℕ → List ProgEntry → Option ℕ
look_up buf [] = none
look_up buf (e ∷ es) =
    let later = look_up buf es in
    if e.asid == 0 then none else if sh_streq buf e.name then some e.asid else later

pub data Action : Type 0 where
  greeting prompt bye commands terminate : Action
  execute : ℕ → Action
  not_found : List ℕ → Action

-- "fibEight", "echo", "fibEleven", "uname", "date", "sl" and "calc", and the sentinel.
unfoldable pub programs : List ProgEntry
programs =
    record { name = 102 ∷ 105 ∷ 98 ∷ 69 ∷ 105 ∷ 103 ∷ 104 ∷ 116 ∷ []; asid = 2 }
    ∷ record { name = 101 ∷ 99 ∷ 104 ∷ 111 ∷ []; asid = 3 }
    ∷ record { name = 102 ∷ 105 ∷ 98 ∷ 69 ∷ 108 ∷ 101 ∷ 118 ∷ 101 ∷ 110 ∷ []; asid = 4 }
    ∷ record { name = 117 ∷ 110 ∷ 97 ∷ 109 ∷ 101 ∷ []; asid = 5 }
    ∷ record { name = 100 ∷ 97 ∷ 116 ∷ 101 ∷ []; asid = 6 }
    ∷ record { name = 115 ∷ 108 ∷ []; asid = 7 }
    ∷ record { name = 99 ∷ 97 ∷ 108 ∷ 99 ∷ []; asid = 8 }
    ∷ record { name = []; asid = 0 }
    ∷ []

abbrev word_exit : List ℕ
word_exit = 101 ∷ 120 ∷ 105 ∷ 116 ∷ []

abbrev word_help : List ℕ
word_help = 104 ∷ 101 ∷ 108 ∷ 112 ∷ []

-- By the ASID of the program that was found.
abbrev pub run : List ℕ → Option ℕ → Action
run buf none = Action.not_found buf
run buf (some asid) = Action.execute asid

-- The loop of main on the lines that it reads, up to a failed read; what it does.
unfoldable pub shell_rounds : List (List ℕ) → List Action
shell_rounds [] = Action.prompt ∷ Action.terminate ∷ []
shell_rounds (l ∷ ls) =
    let later = shell_rounds ls in
    let buf = strip_newline l in
    Action.prompt ∷ (elim buf [
      | [] ↦ later
      | c ∷ s ↦
          if sh_streq (c ∷ s) word_exit
          then Action.bye ∷ Action.terminate ∷ []
          else if sh_streq (c ∷ s) word_help
          then Action.commands ∷ later
          else run (c ∷ s) (look_up (c ∷ s) programs) ∷ later
    ])

unfoldable pub shell_main : List (List ℕ) → List Action
shell_main lines = Action.greeting ∷ shell_rounds lines

-- sh_streq answers TRUE on equal strings, and on no others.
pub sh_streq-equal : (a b : List ℕ) → (sh_streq a b ≡ true) ↔ (a ≡ b)
unfolding sh_streq
sh_streq-equal [] [] = (λ e. refl, λ e. refl)
sh_streq-equal [] (d ∷ b) = (λ e. cc, λ e. cc)
sh_streq-equal (c ∷ a) [] = (λ e. cc, λ e. cc)
sh_streq-equal (c ∷ a) (d ∷ b) = elim (Bool-cases (c == d)) [
  | inl same ↦
      let later = sh_streq-equal a b in
      (
        λ e. ap (λ x. x ∷ a) (==→eq c d same) ∙ ap (λ l. d ∷ l) (later.0 (ground (arith, e, same))),
        λ e. ground (arith, same, later.1 (tail_equal e)),
      )
  | inr other ↦ (λ e. ground (arith, e, other), λ e. absurd (==→ne c d other (head_equal e)))
]
  where
    tail_equal : ◌≡◌ {A = List ℕ} (c ∷ a) (d ∷ b) → a ≡ b
    tail_equal e = cc

    head_equal : ◌≡◌ {A = List ℕ} (c ∷ a) (d ∷ b) → c ≡ d
    head_equal e = cc
