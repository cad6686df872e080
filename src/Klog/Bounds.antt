-- ===== src/Klog/Bounds.antt =====
-- The places that klog.c writes to, and the loops of its number printers.
use sistemi_operativi_proget.Common.{
  ℕ, zero, suc, ◌+◌, ◌/◌, ◌%◌, ◌≤◌, ◌<◌, ◌≡◌, refl, ◌∙◌, leb, some, List, [], ◌∷◌, ◌==◌, arith,
  if_cases, ◌⊎◌, inl, inr, Bool-cases,
}
use sistemi_operativi_proget.Klog.{
  Klog, klog_lines, klog_line_size, put, put_here, digit, clear_rounds, next_line, next_char,
  klog_print, digit_rounds, klog_print_dec, klog_print_hex,
}

abbrev pub Outside : ℕ → ℕ → Type 0
Outside line i = (klog_lines ≤ line) ⊎ (klog_line_size ≤ i)

-- The indices are within the buffer, and nothing outside the buffer was written.
pub record Safe (k0 k : Klog) : Type 0 where
  pub line : k.line_index < klog_lines
  pub char : k.char_index < klog_line_size
  pub kept : (l i : ℕ) → Outside l i → k.buffer l i ≡ k0.buffer l i

put-kept :
    (k : Klog) (line i c l j : ℕ)
    → line < klog_lines
    → i < klog_line_size
    → Outside l j
    → (put k line i c).buffer l j ≡ k.buffer l j
put-kept k line i c l j hl hi o = ground (arith, o)

clear_rounds-Safe :
    (n i : ℕ) (k0 k : Klog) → i + n ≤ klog_line_size → Safe k0 k → Safe k0 (clear_rounds n i k)
unfolding clear_rounds
clear_rounds-Safe zero i k0 k h s = s
clear_rounds-Safe (suc n) i k0 k h s =
    clear_rounds-Safe n (i + 1) k0 (put k k.line_index i 32) (omega arith) (record {
      line = s.line;
      char = s.char;
      kept = λ l j o. put-kept k k.line_index i 32 l j s.line (omega arith) o ∙ s.kept l j o;
    })

next_line-Safe :
    (k0 k : Klog) → ((l i : ℕ) → Outside l i → k.buffer l i ≡ k0.buffer l i) → Safe k0 (next_line k)
unfolding next_line
next_line-Safe k0 k kept =
    clear_rounds-Safe klog_line_size 0 k0
      (record k { line_index = (k.line_index + 1) % klog_lines; char_index = 0 }) (omega arith)
      (record { line = omega arith; char = omega arith; kept = kept })

put_here-Safe : (k0 k : Klog) (c : ℕ) → Safe k0 k → Safe k0 (put_here k c)
unfolding next_char
put_here-Safe k0 k c s =
    let k1 = put k k.line_index k.char_index c in
    let k2 : Klog = record k1 { char_index = k1.char_index + 1 } in
    let kept : (l i : ℕ) → Outside l i → k1.buffer l i ≡ k0.buffer l i =
      λ l i o. put-kept k k.line_index k.char_index c l i s.line s.char o ∙ s.kept l i o in
    if_cases {A = Klog} (Safe k0) (leb klog_line_size k2.char_index)
      (next_line (record k2 { char_index = 0 })) k2
      (λ _. next_line-Safe k0 (record k2 { char_index = 0 }) kept)
      (λ inside. record { line = s.line; char = ground (arith, inside); kept = kept })

print-Safe : (str : List ℕ) (k0 k : Klog) → Safe k0 k → Safe k0 (klog_print str k)
unfolding klog_print
print-Safe [] k0 k s = s
print-Safe (c ∷ str) k0 k s =
    if_cases {A = Klog} (Safe k0) (c == 10) (klog_print str (next_line k))
      (klog_print str (put_here k c))
      (λ _. print-Safe str k0 (next_line k) (next_line-Safe k0 k s.kept))
      (λ _. print-Safe str k0 (put_here k c) (put_here-Safe k0 k c s))

-- Whatever string klog_print logs, starting with indices within the buffer it ends with indices
-- within the buffer, and writes nothing outside the KLOG_LINES lines of KLOG_LINE_SIZE characters.
pub klog_print-Safe :
    (str : List ℕ) (k : Klog)
    → k.line_index < klog_lines
    → k.char_index < klog_line_size
    → Safe k (klog_print str k)
klog_print-Safe str k l c = print-Safe str k k (record { line = l; char = c; kept = λ l i o. refl })

digit_rounds-Safe :
    (f base num : ℕ) (k0 k : Klog)
    → ((n : ℕ) → n / base + n / base ≤ n)
    → num < f
    → Safe k0 k
    → (k1 : Klog) × (digit_rounds f base num k ≡ some k1) × Safe k0 k1
unfolding digit_rounds
digit_rounds-Safe zero base num k0 k b h s = absurd (omega arith)
digit_rounds-Safe (suc f) base num k0 k b h s =
    let k1 = put_here k (digit (num % base)) in
    let s1 = put_here-Safe k0 k (digit (num % base)) s in
    elim (Bool-cases (num / base == 0)) [
      | inl done ↦ (k1, rw done refl, s1)
      | inr more ↦
          let less : num / base < f = ground (arith, more, b num, h) in
          let rest = digit_rounds-Safe f base (num / base) k0 k1 b less s1 in
          (rest.0, rw more rest.1, rest.2)
    ]

-- With more fuel than the number, klog_print_dec ends, with indices within the buffer, and has
-- written nothing outside the buffer.
pub klog_print_dec-Safe :
    (f num : ℕ) (k : Klog)
    → num < f
    → k.line_index < klog_lines
    → k.char_index < klog_line_size
    → (k1 : Klog) × (klog_print_dec f num k ≡ some k1) × Safe k k1
unfolding klog_print_dec
klog_print_dec-Safe f num k h l c =
    let s : Safe k k = record { line = l; char = c; kept = λ l i o. refl } in
    let k1 = put_here k (digit (num / 10 % 10)) in
    elim (Bool-cases (leb 10 num)) [
      | inl long ↦
          let r = digit_rounds-Safe f 10 num k k (λ n. omega arith) h s in (r.0, rw long r.1, r.2)
      | inr short ↦ (
        put_here k1 (digit (num % 10)),
        rw short refl,
        put_here-Safe k k1 (digit (num % 10)) (put_here-Safe k k (digit (num / 10 % 10)) s),
      )
    ]

-- With more fuel than the number, klog_print_hex ends, with indices within the buffer, and has
-- written nothing outside the buffer.
pub klog_print_hex-Safe :
    (f num : ℕ) (k : Klog)
    → num < f
    → k.line_index < klog_lines
    → k.char_index < klog_line_size
    → (k1 : Klog) × (klog_print_hex f num k ≡ some k1) × Safe k k1
unfolding klog_print_hex
klog_print_hex-Safe f num k h l c =
    digit_rounds-Safe f 16 num k k (λ n. omega arith) h
      (record { line = l; char = c; kept = λ l i o. refl })
