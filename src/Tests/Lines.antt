-- ===== src/Tests/Lines.antt =====
-- Lines and numbers for the programs of phase3/testers, and the theorems at them.
use sistemi_operativi_proget.Common.{
  ℕ, List, ◌≡◌, refl, ◌↔◌, pos, negsuc, true, [], ◌∷◌, ◌++◌, ◌≤◌, length, arith,
}
use sistemi_operativi_proget.Programs.Calc.{
  copy_back, to_digits, Answer, parse_int, int_to_str, calculate, apply_op,
}
use sistemi_operativi_proget.Programs.Calc.Roundtrip.{parse_int-int_to_str}
use sistemi_operativi_proget.Programs.Calc.Exact.{exact, Representable, calculate-exact, pad}
use sistemi_operativi_proget.Programs.Calc.Bounds.{int_to_str-length}
use sistemi_operativi_proget.Programs.Shell.{sh_streq, sh_streq-equal}

parse_int-int_to_str_example : parse_int (int_to_str (negsuc 41) ++ 43 ∷ []) ≡ (negsuc 41, 43 ∷ [])
parse_int-int_to_str_example =
    parse_int-int_to_str (negsuc 41) (43 ∷ []) (omega arith, omega arith) refl

-- The least int.
int_to_str-length_example : length (int_to_str (negsuc 2147483647)) ≤ 11
int_to_str-length_example = int_to_str-length (negsuc 2147483647) (omega arith, omega arith)

least_int : int_to_str (negsuc 2147483647) ≡ 45 ∷ []
unfolding int_to_str copy_back to_digits
least_int = refl

product-Representable : Representable (exact 42 (pos 12) (negsuc 2))
unfolding exact
product-Representable = (omega arith, omega arith)

-- `  12 * -3`
calculate-exact_example :
    calculate (pad 2 (int_to_str (pos 12) ++ pad 1 (42 ∷ pad 1 (int_to_str (negsuc 2)))))
    ≡ exact 42 (pos 12) (negsuc 2)
calculate-exact_example =
    calculate-exact (pos 12) (negsuc 2) 42 2 1 1 (omega arith, omega arith)
      (omega arith, omega arith) product-Representable (λ e. omega (arith, e)) refl

product_of_both : apply_op 42 (pos 12) (negsuc 2) ≡ Answer.value (negsuc 35)
unfolding apply_op
product_of_both = refl

abbrev word_sl : List ℕ
word_sl = 115 ∷ 108 ∷ []

sh_streq-equal_example : (sh_streq word_sl word_sl ≡ true) ↔ (word_sl ≡ word_sl)
sh_streq-equal_example = sh_streq-equal word_sl word_sl
