-- ===== src/Klog.antt =====
-- klog.c: the circular buffer of lines that the kernel logs to. A character is its code, and a
-- string is the list of the codes before its terminating zero.
pub mod Bounds
use sistemi_operativi_proget.Common.{
  ℕ, zero, suc, ◌+◌, ◌/◌, ◌%◌, leb, ltb, Option, none, some, List, [], ◌∷◌, ◌==◌, if◌then◌else◌,
  write,
}

abbrev pub klog_lines : ℕ
klog_lines = 64

abbrev pub klog_line_size : ℕ
klog_line_size = 42

pub record Klog : Type 0 where
  pub line_index : ℕ
  pub char_index : ℕ
  pub buffer : ℕ → ℕ → ℕ

-- `klog_buffer[line][i] = c`
abbrev pub put : Klog → ℕ → ℕ → ℕ → Klog
put k line i c = record k { buffer = write k.buffer line (write (k.buffer line) i c) }

-- The rounds i, i + 1, ... of the loop that fills a line with spaces.
unfoldable pub clear_rounds : ℕ → ℕ → Klog → Klog
clear_rounds zero i k = k
clear_rounds (suc n) i k = clear_rounds n (i + 1) (put k k.line_index i 32)

unfoldable pub next_line : Klog → Klog
next_line k =
    clear_rounds klog_line_size 0
      (record k { line_index = (k.line_index + 1) % klog_lines; char_index = 0 })

unfoldable pub next_char : Klog → Klog
next_char k =
    let k1 = record k { char_index = k.char_index + 1 } in
    if leb klog_line_size k1.char_index then next_line (record k1 { char_index = 0 }) else k1

-- A character goes to the current place, and the next one behind it.
abbrev pub put_here : Klog → ℕ → Klog
put_here k c = next_char (put k k.line_index k.char_index c)

unfoldable pub klog_print : List ℕ → Klog → Klog
klog_print [] k = k
klog_print (c ∷ str) k =
    if c == 10 then klog_print str (next_line k) else klog_print str (put_here k c)

-- `digits[d]`
abbrev pub digit : ℕ → ℕ
digit d = if ltb d 10 then 48 + d else 55 + d

-- The loop over the digits of a number, the last digit first; none when the fuel runs out.
unfoldable pub digit_rounds : ℕ → ℕ → ℕ → Klog → Option Klog
digit_rounds zero base num k = none
digit_rounds (suc f) base num k =
    let k1 = put_here k (digit (num % base)) in
    let rest = digit_rounds f base (num / base) k1 in if num / base == 0 then some k1 else rest

unfoldable pub klog_print_dec : ℕ → ℕ → Klog → Option Klog
klog_print_dec fuel num k =
    if leb 10 num
    then digit_rounds fuel 10 num k
    else some (put_here (put_here k (digit (num / 10 % 10))) (digit (num % 10)))

unfoldable pub klog_print_hex : ℕ → ℕ → Klog → Option Klog
klog_print_hex fuel num k = digit_rounds fuel 16 num k
