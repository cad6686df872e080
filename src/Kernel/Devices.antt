-- ===== src/Kernel/Devices.antt =====
-- Device registers, their semaphores and the interrupt bitmap, in doIO of phase2/exception.c and in
-- the handler of phase2/interrupt.c.
use sistemi_operativi_proget.Common.{
  ℕ, zero, suc, ◌+◌, ◌/◌, ◌%◌, ◌^◌, ◌≤◌, ◌<◌, ◌≡◌, ◌≢◌, Option, none, some, arith, ◌==◌, Bool-cases,
  inl, inr, ◌⊎◌, ==→eq, ==→ne, subst,
}
use sistemi_operativi_proget.Const.{start_devreg}
use sistemi_operativi_proget.Kernel.Syscalls.{sem_index}
use sistemi_operativi_proget.Kernel.Interrupt.{
  dev_reg_base, dev_sem_base, scan_bits, get_highest_priority_device,
}

pub sem_index-lt : (addr : ℕ) → start_devreg ≤ addr → addr < 0x100002D4 → sem_index addr < 48
unfolding sem_index
sem_index-lt addr lo hi = ground arith

-- doIO and the interrupt handler use one semaphore for one device: from any register of a device
-- on lines 3 to 6 doIO computes the handler's index, from the first two registers of a terminal
-- that of its receiver, and from the last two that of its transmitter.
pub sem_index_agrees :
    (line dev off : ℕ)
    → 3 ≤ line
    → dev < 8
    → off < 16
    → (line < 7 → sem_index (dev_reg_base line dev + off) ≡ dev_sem_base line dev)
      × (line ≡ 7 → off < 8 → sem_index (dev_reg_base line dev + off) ≡ 32 + dev)
      × (line ≡ 7 → 8 ≤ off → sem_index (dev_reg_base line dev + off) ≡ 40 + dev)
unfolding sem_index
sem_index_agrees line dev off lo d o =
    ((λ h. ground arith), (λ h g. ground arith), (λ h g. ground arith))

eq_or_lt : (i j : ℕ) → i ≤ j → (i ≡ j) ⊎ (i + 1 ≤ j)
eq_or_lt i j h = ground arith

-- The scan of n bits from bit i on: none where no bit is set, or else the lowest set bit.
abbrev pub Lowest : ℕ → ℕ → ℕ → Option ℕ → Type 0
Lowest i n bitmap none = (j : ℕ) → i ≤ j → j < i + n → bitmap / 2 ^ j % 2 ≢ 1
Lowest i n bitmap (some d) =
    (i ≤ d)
    × (d < i + n)
    × (bitmap / 2 ^ d % 2 ≡ 1)
    × ((j : ℕ) → i ≤ j → j < d → bitmap / 2 ^ j % 2 ≢ 1)

widen :
    (n i bitmap : ℕ) (o : Option ℕ)
    → bitmap / 2 ^ i % 2 ≢ 1
    → Lowest (i + 1) n bitmap o
    → Lowest i (suc n) bitmap o
widen n i bitmap none clear l = λ j lo hi. elim (eq_or_lt i j lo) [
  | inl same ↦ subst (λ x. bitmap / 2 ^ x % 2 ≢ 1) same clear
  | inr more ↦ l j more (omega arith)
]
widen n i bitmap (some d) clear (lo, hi, set, least) = (
  omega arith,
  omega arith,
  set,
  λ j lo1 hi1. elim (eq_or_lt i j lo1) [
    | inl same ↦ subst (λ x. bitmap / 2 ^ x % 2 ≢ 1) same clear
    | inr more ↦ least j more hi1
  ],
)

scan_bits-Lowest : (n i bitmap : ℕ) → Lowest i n bitmap (scan_bits n i bitmap)
unfolding scan_bits
scan_bits-Lowest zero i bitmap = λ j lo hi. absurd (omega arith)
scan_bits-Lowest (suc n) i bitmap = elim (Bool-cases (bitmap / 2 ^ i % 2 == 1)) [
  | inl set ↦
      rw set (
        omega arith,
        omega arith,
        ==→eq (bitmap / 2 ^ i % 2) 1 set,
        λ j lo hi. absurd (omega arith),
      )
  | inr clear ↦ rw clear (
      widen n i bitmap (scan_bits n (i + 1) bitmap) (==→ne (bitmap / 2 ^ i % 2) 1 clear)
        (scan_bits-Lowest n (i + 1) bitmap))
]

-- getHighestPriorityDevice answers the lowest of the bits 0 to 7 that is set in the bitmap, and -1
-- exactly where none of them is.
pub get_highest_priority_device-Lowest :
    (bitmap : ℕ) → Lowest 0 8 bitmap (get_highest_priority_device bitmap)
unfolding get_highest_priority_device
get_highest_priority_device-Lowest bitmap = scan_bits-Lowest 8 0 bitmap
