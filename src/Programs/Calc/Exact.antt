-- ===== src/Programs/Calc/Exact.antt =====
-- A line of phase3/testers/calc.c, and what it is calculated as.
use sistemi_operativi_proget.Common.{
  ◌+ℤ◌, ◌-ℤ◌, pos_part, eqb_ℤ, if◌then◌else◌, ℕ, zero, suc, ◌≡◌, ◌≢◌, refl, sym, ap, ◌∙◌, ℤ, pos,
  negsuc, Bool, true, false, ◌==◌, List, [], ◌∷◌, ◌++◌, arith,
}
use sistemi_operativi_proget.Programs.{char_at}
use sistemi_operativi_proget.Programs.Calc.{
  value, division_by_zero, unknown_operator, negate, parse_int, to_digits, int_to_str, skip_spaces,
  apply_op, calculate, wrap, times, quotient, Answer,
}
use sistemi_operativi_proget.Programs.Calc.Roundtrip.{
  IsInt, IsSymmetric, wrap-IsInt, NoDigit, char_at-positive, copy_back-append, copy_back_last,
  parse_int-int_to_str,
}

append_nil : (l : List ℕ) → l ++ [] ≡ l
append_nil [] = refl
append_nil (c ∷ l) = ap (λ s. c ∷ s) (append_nil l)

-- Spaces before the rest of a line.
abbrev pub pad : ℕ → List ℕ → List ℕ
pad zero s = s
pad (suc n) s = 32 ∷ pad n s

skip_spaces-pad : (n : ℕ) (s : List ℕ) → char_at s ≢ 32 → skip_spaces (pad n s) ≡ s
unfolding skip_spaces
skip_spaces-pad zero [] h = refl
skip_spaces-pad zero (c ∷ s) h = let other : (c == 32) ≡ false = ground (arith, h) in rw other refl
skip_spaces-pad (suc n) s h = skip_spaces-pad n s h

-- No number begins with a space.
char_at-int_to_str : (z : ℤ) (s : List ℕ) → char_at (int_to_str z ++ s) ≢ 32
unfolding int_to_str
char_at-int_to_str (pos zero) s e = omega (arith, e)
char_at-int_to_str (pos (suc n)) s e =
    char_at-positive n 32 s (omega arith)
      (ap char_at (sym (copy_back-append (to_digits (suc n) (suc n)) [] s)) ∙ e)
char_at-int_to_str (negsuc n) s e =
    let m = pos_part (wrap (negate (negsuc n))) in
    let sign =
      ap char_at (
        sym
          (copy_back-append (to_digits m m ++ 45 ∷ []) [] s ∙ copy_back_last (to_digits m m) s 45))
      ∙ e in
    omega (arith, sign)

NoDigit-pad : (n op : ℕ) (s : List ℕ) → NoDigit (op ∷ []) → NoDigit (pad n (op ∷ s))
NoDigit-pad zero op s h = h
NoDigit-pad (suc n) op s h = refl

-- The answer in exact arithmetic.
unfoldable pub exact : ℕ → ℤ → ℤ → Answer
exact op a b =
    if op == 43
    then Answer.value (a +ℤ b)
    else if op == 45
    then Answer.value (a -ℤ b)
    else if op == 42
    then Answer.value (times a b)
    else if op == 47
    then if eqb_ℤ b (pos 0) then Answer.division_by_zero else Answer.value (quotient a b)
    else Answer.unknown_operator

abbrev pub Representable : Answer → Type 0
Representable (value z) = IsInt z
Representable division_by_zero = Unit
Representable unknown_operator = Unit

abbrev narrow : Answer → Answer
narrow (value z) = Answer.value (wrap z)
narrow division_by_zero = Answer.division_by_zero
narrow unknown_operator = Answer.unknown_operator

narrow-Representable : (r : Answer) → Representable r → narrow r ≡ r
narrow-Representable (value z) h = ap Answer.value (wrap-IsInt z h)
narrow-Representable division_by_zero h = refl
narrow-Representable unknown_operator h = refl

narrow_if :
    (b : Bool) (x y : Answer) → (if b then narrow x else narrow y) ≡ narrow (if b then x else y)
narrow_if true x y = refl
narrow_if false x y = refl

-- Where the exact answer fits an int, the program's arithmetic gives it.
apply_op-exact : (op : ℕ) (a b : ℤ) → Representable (exact op a b) → apply_op op a b ≡ exact op a b
unfolding apply_op exact
apply_op-exact op a b h =
    let sum = Answer.value (a +ℤ b) in
    let difference = Answer.value (a -ℤ b) in
    let product = Answer.value (times a b) in
    let ratio = Answer.value (quotient a b) in
    let divided = if eqb_ℤ b (pos 0) then Answer.division_by_zero else ratio in
    let from_slash = if op == 47 then divided else Answer.unknown_operator in
    let from_star = if op == 42 then product else from_slash in
    let from_minus = if op == 45 then difference else from_star in
    ap
      (λ r.
        if op == 43
        then narrow sum
        else if op == 45
        then narrow difference
        else if op == 42
        then narrow product
        else if op == 47
        then r
        else Answer.unknown_operator)
      (narrow_if (eqb_ℤ b (pos 0)) Answer.division_by_zero ratio)
    ∙ ap
        (λ r.
          if op == 43
          then narrow sum
          else if op == 45
          then narrow difference
          else if op == 42
          then narrow product
          else r)
        (narrow_if (op == 47) divided Answer.unknown_operator)
    ∙ ap (λ r. if op == 43 then narrow sum else if op == 45 then narrow difference else r)
        (narrow_if (op == 42) product from_slash)
    ∙ ap (λ r. if op == 43 then narrow sum else r) (narrow_if (op == 45) difference from_star)
    ∙ narrow_if (op == 43) sum from_minus
    ∙ narrow-Representable (exact op a b) h

-- A line with two ints but the least as int_to_str writes them and between them a character that is
-- neither a digit nor a space, with any spaces before each of the three, is calculated as the operator
-- of the two in exact arithmetic, where that fits an int.
pub calculate-exact :
    (a b : ℤ) (op i j n : ℕ)
    → IsSymmetric a
    → IsSymmetric b
    → Representable (exact op a b)
    → op ≢ 32
    → NoDigit (op ∷ [])
    → calculate (pad i (int_to_str a ++ pad j (op ∷ pad n (int_to_str b)))) ≡ exact op a b
unfolding calculate
calculate-exact a b op i j n left_fits right_fits fits ne h =
    let right = int_to_str b in
    let rest = pad j (op ∷ pad n right) in
    let right_ready : skip_spaces (pad n right) ≡ right =
      skip_spaces-pad n right (λ e. char_at-int_to_str b [] (ap char_at (append_nil right) ∙ e)) in
    let right_read : parse_int right ≡ (b, []) =
      ap parse_int (sym (append_nil right)) ∙ parse_int-int_to_str b [] right_fits refl in
    rw
      (
        skip_spaces-pad i (int_to_str a ++ rest) (char_at-int_to_str a rest),
        parse_int-int_to_str a rest left_fits (NoDigit-pad j op (pad n right) h),
        skip_spaces-pad j (op ∷ pad n right) ne,
        right_ready,
        right_read,
      )
      (apply_op-exact op a b fits)
