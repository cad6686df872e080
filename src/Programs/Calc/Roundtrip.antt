-- ===== src/Programs/Calc/Roundtrip.antt =====
-- parse_int and int_to_str of phase3/testers/calc.c.
use sistemi_operativi_proget.Common.{
  ◌<◌, ◌^◌, ◌+ℤ◌, pos_part, neg_part, ℕ, zero, suc, ◌+◌, ◌-◌, ◌*◌, ◌/◌, ◌%◌, ◌≤◌, ◌≡◌, ◌≢◌, refl,
  ap, ◌∙◌, ℤ, pos, negsuc, leb, true, false, ◌&&◌, ◌==◌, List, [], ◌∷◌, ◌++◌, arith, Bool-cases,
  inl, inr,
}
use sistemi_operativi_proget.Programs.{char_at}
use sistemi_operativi_proget.Programs.Calc.{
  parse_digits, negate, parse_int, to_digits, copy_back, int_to_str, add_digit, wrap, times,
}

-- No digit comes next.
abbrev pub NoDigit : List ℕ → Type 0
NoDigit s = (leb 48 (char_at s) && leb (char_at s) 57) ≡ false

-- What fits an int, and what fits with its negative.
abbrev pub IsInt : ℤ → Type 0
IsInt z = (pos_part z < 2 ^ 31) × (neg_part z ≤ 2 ^ 31)

abbrev pub IsSymmetric : ℤ → Type 0
IsSymmetric z = (pos_part z < 2 ^ 31) × (neg_part z < 2 ^ 31)

pub wrap-IsInt : (z : ℤ) → IsInt z → wrap z ≡ z
wrap-IsInt (pos n) h = ground (arith, h.0)
wrap-IsInt (negsuc n) h = ground (arith, h.1)

-- A digit that does not overflow.
add_digit-pos :
    (v c : ℕ) → v * 10 + (c - 48) < 2 ^ 31 → add_digit (pos v) c ≡ pos (v * 10 + (c - 48))
unfolding add_digit ◌+ℤ◌
add_digit-pos v c h =
    let ten : times (pos v) (pos 10) ≡ pos (v * 10) = ground arith in
    let sum : pos (v * 10) +ℤ pos (c - 48) ≡ pos (v * 10 + (c - 48)) = ground arith in
    ap (λ z. wrap (wrap z +ℤ pos (c - 48))) ten
    ∙ ap (λ z. wrap (z +ℤ pos (c - 48))) (wrap-IsInt (pos (v * 10)) (omega (arith, h), omega arith))
    ∙ ap wrap sum
    ∙ wrap-IsInt (pos (v * 10 + (c - 48))) (h, omega arith)

parse_digits_stop : (v : ℤ) (s : List ℕ) → NoDigit s → parse_digits v s ≡ (v, s)
unfolding parse_digits
parse_digits_stop v [] h = refl
parse_digits_stop v (c ∷ s) h = rw h

parse_digits_step :
    (v m : ℕ) (s : List ℕ)
    → v * 10 + m % 10 < 2 ^ 31
    → parse_digits (pos v) ((48 + m % 10) ∷ s) ≡ parse_digits (pos (v * 10 + m % 10)) s
unfolding parse_digits
parse_digits_step v m s h =
    let digit : (leb 48 (48 + m % 10) && leb (48 + m % 10) 57) ≡ true = ground arith in
    let less : 48 + m % 10 - 48 ≡ m % 10 = omega arith in
    rw digit (
      ap (λ z. parse_digits z s)
        (add_digit-pos v (48 + m % 10) (omega (arith, h, less)) ∙ ap (λ d. pos (v * 10 + d)) less))

-- The digits of n, read from the left, are n.
parse-to_digits :
    (f n : ℕ) (s : List ℕ)
    → n ≤ f
    → n < 2 ^ 31
    → parse_digits (pos 0) (copy_back (to_digits f n) s) ≡ parse_digits (pos n) s
unfolding to_digits copy_back
parse-to_digits zero n s h lt =
    ap (λ m. parse_digits (pos m) s) (let none_left : 0 ≡ n = omega (arith, h) in none_left)
parse-to_digits (suc f) n s h lt = elim (Bool-cases (n == 0)) [
  | inl none_left ↦ rw none_left (ground (arith, none_left))
  | inr more ↦
      let whole : n / 10 * 10 + n % 10 ≡ n = omega arith in
      rw more (
        parse-to_digits f (n / 10) ((48 + n % 10) ∷ s) (ground (arith, more, h)) (omega (arith, lt))
        ∙ parse_digits_step (n / 10) n s (omega (arith, lt, whole))
        ∙ ap (λ m. parse_digits (pos m) s) whole)
]

-- What comes first is a digit, unless there is none.
char_at-to_digits :
    (f n x : ℕ) (s : List ℕ) → x ≤ 47 → char_at s ≢ x → char_at (copy_back (to_digits f n) s) ≢ x
unfolding to_digits copy_back
char_at-to_digits zero n x s h e = e
char_at-to_digits (suc f) n x s h e = elim (Bool-cases (n == 0)) [
  | inl none_left ↦ rw none_left e
  | inr more ↦
      rw more (char_at-to_digits f (n / 10) x ((48 + n % 10) ∷ s) h (λ z. omega (arith, z, h)))
]

-- The digits of a positive number begin with a digit.
pub char_at-positive :
    (n x : ℕ) (s : List ℕ) → x ≤ 47 → char_at (copy_back (to_digits (suc n) (suc n)) s) ≢ x
unfolding to_digits copy_back
char_at-positive n x s h =
    let more : (suc n == 0) ≡ false = ground arith in
    rw more
      (char_at-to_digits n (suc n / 10) x ((48 + suc n % 10) ∷ s) h (λ z. omega (arith, z, h)))

pub copy_back-append : (tmp u s : List ℕ) → copy_back tmp u ++ s ≡ copy_back tmp (u ++ s)
unfolding copy_back
copy_back-append [] u s = refl
copy_back-append (c ∷ tmp) u s = copy_back-append tmp (c ∷ u) s

pub copy_back_last : (tmp s : List ℕ) (c : ℕ) → copy_back (tmp ++ c ∷ []) s ≡ c ∷ copy_back tmp s
unfolding copy_back
copy_back_last [] s c = refl
copy_back_last (d ∷ tmp) s c = copy_back_last tmp (d ∷ s) c

-- Without a minus sign, parse_int reads digits.
parse_int_unsigned : (l : List ℕ) → char_at l ≢ 45 → parse_int l ≡ parse_digits (pos 0) l
unfolding parse_int parse_digits
parse_int_unsigned [] h = refl
parse_int_unsigned (c ∷ s) h = let plus : (c == 45) ≡ false = ground (arith, h) in rw plus refl

parse_int_signed :
    (s : List ℕ)
    → parse_int (45 ∷ s) ≡ (wrap (negate (parse_digits (pos 0) s).0), (parse_digits (pos 0) s).1)
unfolding parse_int
parse_int_signed s = refl

parse_all :
    (n : ℕ) (s : List ℕ)
    → NoDigit s
    → suc n < 2 ^ 31
    → parse_digits (pos 0) (copy_back (to_digits (suc n) (suc n)) s) ≡ (pos (suc n), s)
parse_all n s h lt =
    parse-to_digits (suc n) (suc n) s (omega arith) lt ∙ parse_digits_stop (pos (suc n)) s h

-- A negative int but the least is written as a minus sign and the digits of its negative.
int_to_str_signed :
    (n : ℕ)
    → suc n < 2 ^ 31
    → int_to_str (negsuc n) ≡ copy_back (to_digits (suc n) (suc n) ++ 45 ∷ []) []
unfolding int_to_str
int_to_str_signed n h =
    ap (λ z. copy_back (to_digits (pos_part z) (pos_part z) ++ 45 ∷ []) [])
      (wrap-IsInt (pos (suc n)) (h, omega arith))

-- Where no digit follows, parse_int reads back any int but the least from the characters that
-- int_to_str writes, and stands right behind them.
pub parse_int-int_to_str :
    (z : ℤ) (s : List ℕ) → IsSymmetric z → NoDigit s → parse_int (int_to_str z ++ s) ≡ (z, s)
unfolding int_to_str
parse_int-int_to_str (pos zero) s b h =
    parse_int_unsigned (48 ∷ s) (λ e. omega (arith, e))
    ∙ parse_digits_step 0 0 s (omega arith)
    ∙ parse_digits_stop (pos 0) s h
parse_int-int_to_str (pos (suc n)) s b h =
    ap parse_int (copy_back-append (to_digits (suc n) (suc n)) [] s)
    ∙ parse_int_unsigned (copy_back (to_digits (suc n) (suc n)) s)
        (char_at-positive n 45 s (omega arith))
    ∙ parse_all n s h b.0
parse_int-int_to_str (negsuc n) s b h =
    ap (λ l. parse_int (l ++ s)) (int_to_str_signed n b.1)
    ∙ ap parse_int (
        copy_back-append (to_digits (suc n) (suc n) ++ 45 ∷ []) [] s
        ∙ copy_back_last (to_digits (suc n) (suc n)) s 45)
    ∙ parse_int_signed (copy_back (to_digits (suc n) (suc n)) s)
    ∙ ap (λ (r : ℤ × List ℕ). (wrap (negate r.0), r.1)) (parse_all n s h b.1)
    ∙ ap (λ z. (z, s)) (wrap-IsInt (negsuc n) (omega arith, omega (arith, b.1)))
