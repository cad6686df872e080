-- ===== src/Support/Terminal.antt =====
-- The system calls of phase3/sysSupport.c and the semaphores, and what a process is told that
-- writes to the terminal.
use sistemi_operativi_proget.Common.{
  ℕ, zero, suc, ◌+◌, ◌*◌, ◌/◌, ◌%◌, ◌≤◌, ◌≡◌, ◌≢◌, refl, pos, ltb, ltb_ℤ, to_int, false, ◌||◌, ◌==◌,
  if◌then◌else◌, write, arith, if_cases, bit_and, eq→==, ap, ◌∙◌, hit, List, ◌∷◌,
}
use sistemi_operativi_proget.Const.{
  Platform, kuseg, general_except, ok_char_trans, recvd, transmit_char, receive_char,
}
use sistemi_operativi_proget.Types.{Support}
use sistemi_operativi_proget.Kernel.Syscalls.{with_a0}
use sistemi_operativi_proget.Support.{Action, Level, Layout, Ending, act, answer, fatal_fault}
use sistemi_operativi_proget.Support.Init.{init_support_struct}
use sistemi_operativi_proget.Support.Locks.{taken, given, Owes, fatal_fault-Owes}
use sistemi_operativi_proget.Support.Sys.{
  max_string_len, term0_base, saved_state, return_value, negated, io, write_rounds, finish_write,
  sys4_write_terminal, read_rounds, finish_read, sys5_read_terminal, sys6_execute, syscall_handler,
  support_general_ex_handler,
}

module _ (a : ℕ) where
  write_rounds-Owes : (n i : ℕ) (m : Level) (str : ℕ) → Owes 0 a m (write_rounds n i m str).0
  unfolding write_rounds
  write_rounds-Owes zero i m str = omega arith
  write_rounds-Owes (suc n) i m str =
      let status = answer m in
      let m1 = io m (term0_base + 0xC) (m.memory (str + i) % 256 * 256 + transmit_char) in
      if_cases {A = Level × ℕ × ℕ} (λ r. Owes 0 a m r.0) (status % 256 == ok_char_trans)
        (write_rounds n (i + 1) m1 str) (m1, status, i)
        (λ _. omega (arith, write_rounds-Owes n (i + 1) m1 str)) (λ _. omega arith)

  read_rounds-Owes : (n i : ℕ) (m : Level) (buf : ℕ) → Owes 0 a m (read_rounds n i m buf).0
  unfolding read_rounds
  read_rounds-Owes zero i m buf = omega arith
  read_rounds-Owes (suc n) i m buf =
      let status = answer m in
      let c = status / 256 % 256 in
      let m1 = io m (term0_base + 4) receive_char in
      let m2 : Level = record m1 { memory = write m1.memory (buf + i) c } in
      let more : Level × ℕ × ℕ =
        if c == 10 then (m2, recvd, i + 1) else read_rounds n (i + 1) m2 buf in
      if_cases {A = Level × ℕ × ℕ} (λ r. Owes 0 a m r.0) (status % 256 == recvd) more
        (m1, status, i)
        (λ _.
          if_cases {A = Level × ℕ × ℕ} (λ r. Owes 0 a m r.0) (c == 10) (m2, recvd, i + 1)
            (read_rounds n (i + 1) m2 buf) (λ _. omega arith)
            (λ _. omega (arith, read_rounds-Owes n (i + 1) m2 buf)))
        (λ _. omega arith)

  return_value-Owes : (m : Level) (sup v : ℕ) → Owes 0 a m (return_value m sup v).0
  unfolding return_value
  return_value-Owes m sup v = omega arith

  finish_write-Owes :
      (l : Layout) (m0 : Level) (sup : ℕ) (r : Level × ℕ × ℕ)
      → Owes (hit a l.term_mutex_tx) a m0 r.0
      → Owes 0 a m0 (finish_write l sup r).0
  unfolding finish_write
  finish_write-Owes l m0 sup (m, status, written) o =
      let m1 = act m (Action.verhogen l.term_mutex_tx) in
      if_cases {A = Level × Ending} (λ r. Owes 0 a m0 r.0) (status % 256 == ok_char_trans)
        (return_value m1 sup written) (return_value m1 sup (negated status))
        (λ _. omega (arith, o, return_value-Owes m1 sup written))
        (λ _. omega (arith, o, return_value-Owes m1 sup (negated status)))

  finish_read-Owes :
      (l : Layout) (m0 : Level) (sup : ℕ) (r : Level × ℕ × ℕ)
      → Owes (hit a l.term_mutex_rx) a m0 r.0
      → Owes 0 a m0 (finish_read l sup r).0
  unfolding finish_read
  finish_read-Owes l m0 sup (m, status, n) o =
      let m1 = act m (Action.verhogen l.term_mutex_rx) in
      if_cases {A = Level × Ending} (λ r. Owes 0 a m0 r.0) (status % 256 == recvd)
        (return_value m1 sup n) (return_value m1 sup (negated status))
        (λ _. omega (arith, o, return_value-Owes m1 sup n))
        (λ _. omega (arith, o, return_value-Owes m1 sup (negated status)))

module _ (l : Layout) (a : ℕ) (master : a ≢ l.master_semaphore) (shell : a ≢ l.shell_semaphore)
    (m : Level) (sup : ℕ) where
  dies : Owes 0 a m (fatal_fault l m sup).0
  dies = fatal_fault-Owes l a master shell m sup

  abbrev Even : Level × Ending → Type 0
  Even r = Owes 0 a m r.0

  sys4-Even : Even (sys4_write_terminal l m sup)
  unfolding sys4_write_terminal
  sys4-Even =
      let saved = saved_state m sup in
      let len = saved.reg_a2 in
      let m1 = act m (Action.passeren l.term_mutex_tx) in
      let r = write_rounds len 0 m1 saved.reg_a1 in
      if_cases {A = Level × Ending} Even
        (ltb_ℤ (to_int len) (pos 0) || ltb max_string_len len || ltb saved.reg_a1 kuseg)
        (fatal_fault l m sup) (finish_write l sup r) (λ _. dies)
        (λ _.
          finish_write-Owes a l m sup r (omega (arith, write_rounds-Owes a len 0 m1 saved.reg_a1)))

  sys5-Even : Even (sys5_read_terminal l m sup)
  unfolding sys5_read_terminal
  sys5-Even =
      let saved = saved_state m sup in
      let m1 = act m (Action.passeren l.term_mutex_rx) in
      let r = read_rounds max_string_len 0 m1 saved.reg_a1 in
      if_cases {A = Level × Ending} Even (ltb saved.reg_a1 kuseg) (fatal_fault l m sup)
        (finish_read l sup r) (λ _. dies)
        (λ _.
          finish_read-Owes a l m sup r
            (omega (arith, read_rounds-Owes a max_string_len 0 m1 saved.reg_a1)))

  sys6-Even : Even (sys6_execute l m sup)
  unfolding sys6_execute init_support_struct return_value
  sys6-Even = ground (arith, dies, eq→== a l.shell_semaphore)

  syscall-Even : Even (syscall_handler l m sup)
  unfolding syscall_handler
  syscall-Even =
      let num = (saved_state m sup).reg_a0 in
      let last = fatal_fault l m sup in
      let six : Level × Ending = if num == 6 then sys6_execute l m sup else last in
      let five : Level × Ending = if num == 5 then sys5_read_terminal l m sup else six in
      if_cases {A = Level × Ending} Even (num == 4) (sys4_write_terminal l m sup) five
        (λ _. sys4-Even)
        (λ _.
          if_cases {A = Level × Ending} Even (num == 5) (sys5_read_terminal l m sup) six
            (λ _. sys5-Even)
            (λ _.
              if_cases {A = Level × Ending} Even (num == 6) (sys6_execute l m sup) last
                (λ _. sys6-Even) (λ _. dies)))

  handler-Even : (c : Platform) → Even (support_general_ex_handler c l m sup)
  unfolding support_general_ex_handler
  handler-Even c =
      let code = bit_and (saved_state m sup).cause c.cause_exccode_mask in
      if_cases {A = Level × Ending} Even (code == l.exc_ecu || code == l.exc_ecm)
        (syscall_handler l m sup) (fatal_fault l m sup) (λ _. syscall-Even) (λ _. dies)

-- However the handler of the general exceptions ends, it has given back every semaphore as often
-- as it has taken it, the two of the terminal among them; only the semaphores by which a
-- terminated process is announced are apart from that.
pub general_handler_settles :
    (c : Platform) (l : Layout) (m : Level) (sup a : ℕ)
    → a ≢ l.master_semaphore
    → a ≢ l.shell_semaphore
    → taken a (support_general_ex_handler c l m sup).0.actions + given a m.actions
      ≡ given a (support_general_ex_handler c l m sup).0.actions + taken a m.actions
general_handler_settles c l m sup a master shell =
    omega (arith, handler-Even l a master shell m sup c)

-- The commands that a string of n characters at str gives the terminal, the last one first.
abbrev pub commands : ℕ → (ℕ → ℕ) → ℕ → ℕ → List Action → List Action
commands zero memory str i old = old
commands (suc n) memory str i old =
    commands n memory str (i + 1)
      (Action.do_io (term0_base + 0xC) (memory (str + i) % 256 * 256 + transmit_char) ∷ old)

write_rounds-all :
    (n i : ℕ) (m : Level) (str : ℕ)
    → ((j : ℕ) → m.answers j % 256 ≡ ok_char_trans)
    → ((write_rounds n i m str).1 ≡ ok_char_trans)
      × ((write_rounds n i m str).2 ≡ i + n)
      × ((write_rounds n i m str).0.actions ≡ commands n m.memory str i m.actions)
      × ((write_rounds n i m str).0.supports ≡ m.supports)
unfolding write_rounds
write_rounds-all zero i m str ok = (refl, omega arith, refl, refl)
write_rounds-all (suc n) i m str ok =
    let m1 = io m (term0_base + 0xC) (m.memory (str + i) % 256 * 256 + transmit_char) in
    let rest = write_rounds-all n (i + 1) m1 str ok in
    rw (eq→== (m.answers m.asked % 256) ok_char_trans (ok m.asked))
      (rest.0, rest.1 ∙ omega arith, rest.2, rest.3)

finish_write-ok :
    (l : Layout) (sup : ℕ) (r : Level × ℕ × ℕ)
    → r.1 ≡ ok_char_trans
    → ((finish_write l sup r).1 ≡ Ending.resumes (with_a0 (saved_state r.0 sup) r.2))
      × ((finish_write l sup r).0.actions ≡ Action.verhogen l.term_mutex_tx ∷ r.0.actions)
unfolding finish_write return_value
finish_write-ok l sup (m, status, written) e = rw e (refl, refl)

-- Where the terminal transmits every character, SYS4 with a valid length and a buffer in user space
-- gives the terminal the string's characters in order, between P and V on the mutex, and goes back
-- to the process with the length as its result.
pub sys4_writes_all :
    (l : Layout) (m : Level) (sup : ℕ)
    → ((j : ℕ) → m.answers j % 256 ≡ ok_char_trans)
    → (saved_state m sup).reg_a2 ≤ max_string_len
    → kuseg ≤ (saved_state m sup).reg_a1
    → ((sys4_write_terminal l m sup).1
        ≡ Ending.resumes (with_a0 (saved_state m sup) (saved_state m sup).reg_a2))
      × ((sys4_write_terminal l m sup).0.actions
          ≡ Action.verhogen l.term_mutex_tx
            ∷ commands
                (saved_state m sup).reg_a2
                m.memory
                (saved_state m sup).reg_a1
                0
                (Action.passeren l.term_mutex_tx ∷ m.actions))
unfolding sys4_write_terminal
sys4_writes_all l m sup ok short user =
    let saved = saved_state m sup in
    let len = saved.reg_a2 in
    let m1 = act m (Action.passeren l.term_mutex_tx) in
    let r = write_rounds len 0 m1 saved.reg_a1 in
    let all = write_rounds-all len 0 m1 saved.reg_a1 ok in
    let valid : (ltb_ℤ (to_int len) (pos 0) || ltb max_string_len len || ltb saved.reg_a1 kuseg)
        ≡ false =
      ground arith in
    let written : r.2 ≡ len = omega (arith, all.1) in
    let done = finish_write-ok l sup r all.0 in
    rw valid (
      done.0
          ∙ ap Ending.resumes (
              ap (λ (t : ℕ → Support). with_a0 ((t sup).sup_except_state general_except) r.2) all.3
              ∙ ap (λ x. with_a0 saved x) written),
      done.1 ∙ ap (λ (t : List Action). Action.verhogen l.term_mutex_tx ∷ t) all.2,
    )
