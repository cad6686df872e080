-- ===== src/Support/Sys.antt =====
-- phase3/sysSupport.c: the system calls of the user processes. programTrapHandler and
-- sys2_terminate do what fatalFault of vmSupport.c does, and are `fatal_fault` here.
use sistemi_operativi_proget.Common.{
  ℕ, zero, suc, ◌+◌, ◌-◌, ◌*◌, ◌/◌, ◌%◌, ◌^◌, pos, negsuc, ltb, ltb_ℤ, eqb_ℤ, to_int, to_word,
  bit_and, ◌||◌, ◌==◌, if◌then◌else◌, write,
}
use sistemi_operativi_proget.Const.{
  Platform, start_devreg, kuseg, general_except, ok_char_trans, recvd, transmit_char, receive_char,
  uproc_max,
}
use sistemi_operativi_proget.Types.{State}
use sistemi_operativi_proget.Kernel.Syscalls.{with_a0}
use sistemi_operativi_proget.Support.{
  Action, Level, Layout, Ending, act, answer, heard, fatal_fault,
}
use sistemi_operativi_proget.Support.Init.{init_support_struct, uproc_state}

abbrev pub max_string_len : ℕ
max_string_len = 128

abbrev pub term0_base : ℕ
term0_base = start_devreg + 4 * 0x80

-- The state that the process was in when it called.
abbrev pub saved_state : Level → ℕ → State
saved_state m sup = (m.supports sup).sup_except_state general_except

-- `saved->reg_a0 = v; LDST(saved)`
unfoldable pub return_value : Level → ℕ → ℕ → Level × Ending
return_value m sup v =
    let s = m.supports sup in
    let saved = with_a0 (s.sup_except_state general_except) v in
    (
      record m {
        supports =
            write m.supports sup
              (record s { sup_except_state = write s.sup_except_state general_except saved });
      },
      Ending.resumes saved,
    )

-- `(unsigned int)(-(int)status)`
abbrev pub negated : ℕ → ℕ
negated status = (2 ^ 32 - status % 2 ^ 32) % 2 ^ 32

-- A DOIO, with its answer.
abbrev pub io : Level → ℕ → ℕ → Level
io m register command = heard (act m (Action.do_io register command))

-- The loop over the characters, with n left: the device's status where a character fails.
unfoldable pub write_rounds : ℕ → ℕ → Level → ℕ → Level × ℕ × ℕ
write_rounds zero i m str = (m, ok_char_trans, i)
write_rounds (suc n) i m str =
    let status = answer m in
    let m1 = io m (term0_base + 0xC) (m.memory (str + i) % 256 * 256 + transmit_char) in
    let rest = write_rounds n (i + 1) m1 str in
    if status % 256 == ok_char_trans then rest else (m1, status, i)

unfoldable pub finish_write : Layout → ℕ → Level × ℕ × ℕ → Level × Ending
finish_write l sup (m, status, written) =
    let m1 = act m (Action.verhogen l.term_mutex_tx) in
    if status % 256 == ok_char_trans
    then return_value m1 sup written
    else return_value m1 sup (negated status)

unfoldable pub sys4_write_terminal : Layout → Level → ℕ → Level × Ending
sys4_write_terminal l m sup =
    let saved = saved_state m sup in
    let len = saved.reg_a2 in
    if ltb_ℤ (to_int len) (pos 0) || ltb max_string_len len || ltb saved.reg_a1 kuseg
    then fatal_fault l m sup
    else finish_write l sup
        (write_rounds len 0 (act m (Action.passeren l.term_mutex_tx)) saved.reg_a1)

-- The loop over the characters read, with room for n more.
unfoldable pub read_rounds : ℕ → ℕ → Level → ℕ → Level × ℕ × ℕ
read_rounds zero i m buf = (m, recvd, i)
read_rounds (suc n) i m buf =
    let status = answer m in
    let c = status / 256 % 256 in
    let m1 = io m (term0_base + 4) receive_char in
    let m2 = record m1 { memory = write m1.memory (buf + i) c } in
    let rest = read_rounds n (i + 1) m2 buf in
    if status % 256 == recvd then if c == 10 then (m2, recvd, i + 1) else rest else (m1, status, i)

unfoldable pub finish_read : Layout → ℕ → Level × ℕ × ℕ → Level × Ending
finish_read l sup (m, status, count) =
    let m1 = act m (Action.verhogen l.term_mutex_rx) in
    if status % 256 == recvd
    then return_value m1 sup count
    else return_value m1 sup (negated status)

unfoldable pub sys5_read_terminal : Layout → Level → ℕ → Level × Ending
sys5_read_terminal l m sup =
    let saved = saved_state m sup in
    if ltb saved.reg_a1 kuseg
    then fatal_fault l m sup
    else finish_read l sup
        (read_rounds max_string_len 0 (act m (Action.passeren l.term_mutex_rx)) saved.reg_a1)

unfoldable pub sys6_execute : Layout → Level → ℕ → Level × Ending
sys6_execute l m sup =
    let saved = saved_state m sup in
    let asid = saved.reg_a1 in
    let new_sup = l.support_structures (asid - 1) in
    let m1 =
      act (init_support_struct l m new_sup asid)
        (Action.create_process (uproc_state asid) 0 new_sup) in
    if eqb_ℤ (m.supports sup).sup_asid (pos 1)
    then if ltb_ℤ (to_int asid) (pos 2) || ltb_ℤ (pos uproc_max) (to_int asid)
      then return_value m sup (to_word (negsuc 0))
      else (act m1 (Action.passeren l.shell_semaphore), Ending.resumes (saved_state m1 sup))
    else fatal_fault l m sup

unfoldable pub syscall_handler : Layout → Level → ℕ → Level × Ending
syscall_handler l m sup =
    let num = (saved_state m sup).reg_a0 in
    if num == 4
    then sys4_write_terminal l m sup
    else if num == 5
    then sys5_read_terminal l m sup
    else if num == 6
    then sys6_execute l m sup
    else fatal_fault l m sup

unfoldable pub support_general_ex_handler : Platform → Layout → Level → ℕ → Level × Ending
support_general_ex_handler c l m sup =
    let code = bit_and (saved_state m sup).cause c.cause_exccode_mask in
    if code == l.exc_ecu || code == l.exc_ecm then syscall_handler l m sup else fatal_fault l m sup
