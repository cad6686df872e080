-- ===== src/Programs/Calc.antt =====
-- phase3/testers/calc.c. An int has 32 bits, and a result that does not fit wraps.
pub mod Roundtrip
pub mod Exact
pub mod Bounds
use sistemi_operativi_proget.Common.{
  ℕ, zero, suc, ◌+◌, ◌-◌, ◌*◌, ◌/◌, ◌%◌, ℤ, pos, negsuc, ◌+ℤ◌, ◌-ℤ◌, pos_part, neg_part, sub_ℕ,
  to_int, to_word, leb, eqb_ℤ, ◌&&◌, ◌==◌, if◌then◌else◌, List, [], ◌∷◌, ◌++◌,
}
use sistemi_operativi_proget.Programs.{char_at, strip_newline}

abbrev pub negate : ℤ → ℤ
negate (pos zero) = pos zero
negate (pos (suc n)) = negsuc n
negate (negsuc n) = pos (suc n)

-- The product and the quotient of integers; the quotient rounds towards 0.
abbrev pub times : ℤ → ℤ → ℤ
times a b =
    sub_ℕ (pos_part a * pos_part b + neg_part a * neg_part b)
      (pos_part a * neg_part b + neg_part a * pos_part b)

abbrev pub quotient : ℤ → ℤ → ℤ
quotient (pos a) (pos b) = pos (a / b)
quotient (pos a) (negsuc b) = negate (pos (a / suc b))
quotient (negsuc a) (pos b) = negate (pos (suc a / b))
quotient (negsuc a) (negsuc b) = pos (suc a / suc b)

-- The 32 bits of a result, as the machine keeps them in an int.
abbrev pub wrap : ℤ → ℤ
wrap z = to_int (to_word z)

-- `val * 10 + (c - '0')`
unfoldable pub add_digit : ℤ → ℕ → ℤ
add_digit val c = wrap (wrap (times val (pos 10)) +ℤ pos (c - 48))

-- The loop of parse_int over the digits: the value so far and the characters left.
unfoldable pub parse_digits : ℤ → List ℕ → ℤ × List ℕ
parse_digits val [] = (val, [])
parse_digits val (c ∷ s) =
    let later = parse_digits (add_digit val c) s in
    if leb 48 c && leb c 57 then later else (val, c ∷ s)

unfoldable pub parse_int : List ℕ → ℤ × List ℕ
parse_int [] = (pos 0, [])
parse_int (c ∷ s) =
    let below = parse_digits (pos 0) s in
    let above = parse_digits (pos 0) (c ∷ s) in
    if c == 45 then (wrap (negate below.0), below.1) else above

-- `while (n > 0) { tmp[i++] = '0' + (n % 10); n /= 10; }`, the first digit stored first.
unfoldable pub to_digits : ℕ → ℕ → List ℕ
to_digits zero n = []
to_digits (suc f) n =
    let later = to_digits f (n / 10) in if n == 0 then [] else (48 + n % 10) ∷ later

-- `while (i > 0) out[j++] = tmp[--i]`, in front of s.
unfoldable pub copy_back : List ℕ → List ℕ → List ℕ
copy_back [] s = s
copy_back (c ∷ tmp) s = copy_back tmp (c ∷ s)

-- One round for each unit is more than one for each digit. The least int is its own negative, and has
-- no digits here.
unfoldable pub int_to_str : ℤ → List ℕ
int_to_str (pos zero) = 48 ∷ []
int_to_str (pos (suc n)) = copy_back (to_digits (suc n) (suc n)) []
int_to_str (negsuc n) =
    let m = pos_part (wrap (negate (negsuc n))) in copy_back (to_digits m m ++ 45 ∷ []) []

unfoldable pub skip_spaces : List ℕ → List ℕ
skip_spaces [] = []
skip_spaces (c ∷ s) = let later = skip_spaces s in if c == 32 then later else c ∷ s

pub data Answer : Type 0 where
  value : ℤ → Answer
  division_by_zero unknown_operator : Answer

-- The branches on the operator.
unfoldable pub apply_op : ℕ → ℤ → ℤ → Answer
apply_op op a b =
    if op == 43
    then Answer.value (wrap (a +ℤ b))
    else if op == 45
    then Answer.value (wrap (a -ℤ b))
    else if op == 42
    then Answer.value (wrap (times a b))
    else if op == 47
    then if eqb_ℤ b (pos 0) then Answer.division_by_zero else Answer.value (wrap (quotient a b))
    else Answer.unknown_operator

-- The characters after `buf[idx++]`.
abbrev pub after_first : List ℕ → List ℕ
after_first [] = []
after_first (c ∷ s) = s

-- The expression of one line. Where the line ends before the operator, the code reads on behind the
-- EOS; there is no operator then, and what it reads makes no difference.
unfoldable pub calculate : List ℕ → Answer
calculate buf =
    let (a, s) = parse_int (skip_spaces buf) in
    let t = skip_spaces s in
    let (b, u) = parse_int (skip_spaces (after_first t)) in apply_op (char_at t) a b

pub data Output : Type 0 where
  greeting prompt newline division_error operator_error : Output
  text : List ℕ → Output

abbrev pub show : Answer → List Output
show (value z) = Output.text (int_to_str z) ∷ Output.newline ∷ []
show division_by_zero = Output.division_error ∷ []
show unknown_operator = Output.operator_error ∷ []

-- The loop of main on the lines that it reads, up to a failed read or an empty line; what it prints.
unfoldable pub calc_rounds : List (List ℕ) → List Output
calc_rounds [] = Output.prompt ∷ []
calc_rounds (l ∷ ls) =
    let later = calc_rounds ls in
    let buf = strip_newline l in
    elim buf [ [] ↦ Output.prompt ∷ [] | c ∷ s ↦ Output.prompt ∷ show (calculate (c ∷ s)) ++ later ]

unfoldable pub calc_main : List (List ℕ) → List Output
calc_main lines = Output.greeting ∷ calc_rounds lines
