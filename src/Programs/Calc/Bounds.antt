-- ===== src/Programs/Calc/Bounds.antt =====
-- How many characters int_to_str of phase3/testers/calc.c stores.
use sistemi_operativi_proget.Common.{
  ℕ, zero, suc, ◌+◌, ◌*◌, ◌/◌, ◌≤◌, ◌<◌, ◌≡◌, refl, ap, ℤ, pos, negsuc, pos_part, List, [], ◌∷◌,
  ◌++◌, length, arith, Bool-cases, inl, inr, ◌==◌,
}
use sistemi_operativi_proget.Programs.Calc.{to_digits, copy_back, int_to_str, wrap, negate}
use sistemi_operativi_proget.Programs.Calc.Roundtrip.{IsInt}

-- The power of ten.
abbrev pow10 : ℕ → ℕ
pow10 zero = 1
pow10 (suc k) = 10 * pow10 k

length-to_digits : (k f n : ℕ) → n < pow10 k → length (to_digits f n) ≤ k
unfolding to_digits
length-to_digits k zero n h = omega arith
length-to_digits zero (suc f) n h = ground (arith, h)
length-to_digits (suc k) (suc f) n h = elim (Bool-cases (n == 0)) [
  | inl none_left ↦ rw none_left (omega arith)
  | inr more ↦ rw more (omega (arith, length-to_digits k f (n / 10) (omega (arith, h))))
]

length-copy_back : (tmp s : List ℕ) → length (copy_back tmp s) ≡ length tmp + length s
unfolding copy_back
length-copy_back [] s = omega arith
length-copy_back (c ∷ tmp) s = omega (arith, length-copy_back tmp (c ∷ s))

length-append_one : (tmp : List ℕ) (c : ℕ) → length (tmp ++ c ∷ []) ≡ suc (length tmp)
length-append_one [] c = refl
length-append_one (d ∷ tmp) c = ap suc (length-append_one tmp c)

-- Of any int, the least one too, int_to_str stores at most 11 characters in front of the EOS: tmp,
-- which has 12 places, holds the digits and the sign, and the result of main, which has 16, holds
-- them and the EOS.
pub int_to_str-length : (z : ℤ) → IsInt z → length (int_to_str z) ≤ 11
unfolding int_to_str
int_to_str-length (pos zero) h = omega arith
int_to_str-length (pos (suc n)) h = omega (
  arith,
  length-copy_back (to_digits (suc n) (suc n)) [],
  length-to_digits 10 (suc n) (suc n) (omega (arith, h.0)),
)
int_to_str-length (negsuc n) h =
    let m = pos_part (wrap (negate (negsuc n))) in
    let near : m < pow10 10 = ground (arith, h.1) in
    omega (
      arith,
      length-copy_back (to_digits m m ++ 45 ∷ []) [],
      length-append_one (to_digits m m) 45,
      length-to_digits 10 m m near,
    )
