-- ===== src/Tests/Logging.antt =====
-- The log of klog.c at its first and its last place, and its theorems there.
use sistemi_operativi_proget.Common.{◌≡◌, some, [], ◌∷◌, arith}
use sistemi_operativi_proget.Klog.{Klog, klog_print, klog_print_dec, klog_print_hex}
use sistemi_operativi_proget.Klog.Bounds.{
  Safe, klog_print-Safe, klog_print_dec-Safe, klog_print_hex-Safe,
}

-- The next character is the last of the last line.
abbrev full : Klog
full = record { line_index = 63; char_index = 41; buffer = λ l i. 0 }

klog_print-Safe_example : Safe full (klog_print (67 ∷ 10 ∷ 65 ∷ []) full)
klog_print-Safe_example = klog_print-Safe (67 ∷ 10 ∷ 65 ∷ []) full (omega arith) (omega arith)

klog_print_dec-Safe_example : (k1 : Klog) × (klog_print_dec 124 123 full ≡ some k1) × Safe full k1
klog_print_dec-Safe_example =
    klog_print_dec-Safe 124 123 full (omega arith) (omega arith) (omega arith)

klog_print_hex-Safe_example : (k1 : Klog) × (klog_print_hex 256 255 full ≡ some k1) × Safe full k1
klog_print_hex-Safe_example =
    klog_print_hex-Safe 256 255 full (omega arith) (omega arith) (omega arith)
