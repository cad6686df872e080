-- ===== src/Kernel/Closed/Interrupts.antt =====
-- The interrupts of phase2/interrupt.c keep what each kind of change keeps.
use sistemi_operativi_proget.Common.{
  ℕ, zero, suc, ◌+◌, ◌-◌, ◌%◌, ◌≡◌, refl, subst, ℤ, pos, ltb_ℤ, Option, none, some, if◌then◌else◌,
  if_cases, ◌==◌, ◌&&◌, leb, bit_and, bit_or, arith,
}
use sistemi_operativi_proget.Const.{
  Platform, device_semaphore, psecond, never, ack, mstatus_mie_mask,
}
use sistemi_operativi_proget.Types.{State, Outcome, Event}
use sistemi_operativi_proget.Asl.{Asl, remove_blocked, blocked_count}
use sistemi_operativi_proget.Kernel.{Kernel, set_sem, emit, incr, tick, tod}
use sistemi_operativi_proget.Kernel.Functions.{save_state}
use sistemi_operativi_proget.Kernel.Interrupt.{
  charge, account, resume, resume_at, complete, hand_status, serve_device, wake_all, preempt,
  timer_interrupt, finish_clock, clock_interrupt, serve_terminal, serve_line, serve_pending,
  device_interrupt, interrupt_handler, get_highest_priority_device, int_bitmap, dev_reg_base,
  dev_sem_base,
}
use sistemi_operativi_proget.Kernel.Closed.{
  Quiet, Quiet-refl, Waking, Closed, set_time-Quiet, scheduler-keeps, save_state-keeps,
}

-- Completing a process's operation is a waking.
complete-Waking :
    (k : Kernel) (sem p status : ℕ)
    → Waking k (complete (record k { asl = (remove_blocked k.asl sem).0 }) p status) sem p
unfolding complete
complete-Waking k sem p status = record {
  steady = record {
    kin = record { pid = λ x. ground arith; child = λ x. ground arith; prio = λ x. ground arith };
    free = refl;
    next = refl;
    alive = refl;
    current = refl;
    root = refl;
  };
  waits_on = λ x. ground arith;
  asl = refl;
  ready = refl;
}

charge-Quiet : (k : Kernel) (now : ℤ) (o : Option ℕ) → Quiet k (charge k now o)
unfolding charge
charge-Quiet k now none = Quiet-refl k
charge-Quiet k now (some p) = set_time-Quiet k p _

pub account-Quiet : (k : Kernel) → Quiet k (account k)
unfolding account
account-Quiet k = charge-Quiet (tick k) (tod k) k.current_process

module _ {P : Kernel → Type 0} {Fits : Kernel → ℕ → Type 0} (laws : Closed P Fits) where
  resume_at-keeps :
      (k : Kernel) (saved : State) (o : Option ℕ)
      → k.current_process ≡ o
      → P k
      → P (resume_at k saved o).0
  unfolding resume_at
  resume_at-keeps k saved none e p = scheduler-keeps laws k e p
  resume_at-keeps k saved (some x) e p = p

  resume-keeps : (k : Kernel) (saved : State) → P k → P (resume k saved).0
  unfolding resume
  resume-keeps k saved p = resume_at-keeps k saved k.current_process refl p

  preempt-keeps :
      (k : Kernel) (saved : State) (o : Option ℕ)
      → k.current_process ≡ o
      → P k
      → P (preempt k saved o).0
  unfolding preempt
  preempt-keeps k saved none e p = scheduler-keeps laws k e p
  preempt-keeps k saved (some x) e p =
      let state = record saved { status = bit_or saved.status mstatus_mie_mask } in
      scheduler-keeps laws _ refl
        (laws.released (save_state k x state) x e (save_state-keeps laws k x state p))

  hand_status-keeps :
      (k : Kernel) (sem status : ℕ) → P k → P (hand_status k status (remove_blocked k.asl sem))
  unfolding hand_status
  hand_status-keeps k sem status p =
      by_released (remove_blocked k.asl sem).0 (remove_blocked k.asl sem).1 refl refl
    where
      by_released :
          (a : Asl) (o : Option ℕ)
          → (remove_blocked k.asl sem).0 ≡ a
          → (remove_blocked k.asl sem).1 ≡ o
          → P (hand_status k status (a, o))
      by_released a none d e = subst (λ x. P (record k { asl = x })) d (laws.missed k sem e p)
      by_released a (some x) d e =
          subst (λ b. P (complete (record k { asl = b }) x status)) d
            (laws.woken k _ sem x e (complete-Waking k sem x status) p)

  serve_device-keeps : (k : Kernel) (sem status : ℕ) → P k → P (serve_device k sem status)
  unfolding serve_device
  serve_device-keeps k sem status p =
      let k1 = set_sem k sem (incr (k.sems sem)) in
      if_cases {A = Kernel} P (ltb_ℤ (k.sems sem) (pos 0))
        (hand_status k1 status (remove_blocked k.asl sem)) k
        (λ _. hand_status-keeps k1 sem status (laws.quiet k k1 (Quiet-refl k) p)) (λ _. p)

  serve_terminal-keeps : (k : Kernel) (reg sem : ℕ) → P k → P (serve_terminal k reg sem)
  unfolding serve_terminal
  serve_terminal-keeps k reg sem p =
      let acked : Kernel = emit k (Event.write_register (reg + 4) ack) in
      if_cases {A = Kernel} P (k.registers reg % 256 == 0) k
        (serve_device acked sem (k.registers reg)) (λ _. p)
        (λ _. serve_device-keeps acked sem (k.registers reg) (laws.quiet k acked (Quiet-refl k) p))

  serve_line-keeps : (c : Platform) (k : Kernel) (line dev : ℕ) → P k → P (serve_line c k line dev)
  unfolding serve_line
  serve_line-keeps c k line dev p =
      let base = dev_reg_base line dev in
      let sent = serve_terminal k (base + 8) (device_semaphore c (40 + dev)) in
      let acked : Kernel = emit k (Event.write_register (base + 4) ack) in
      let sem = device_semaphore c (dev_sem_base line dev) in
      if_cases {A = Kernel} P (line == 7) (serve_terminal sent base (device_semaphore c (32 + dev)))
        (serve_device acked sem (k.registers base))
        (λ _.
          serve_terminal-keeps sent base (device_semaphore c (32 + dev))
            (serve_terminal-keeps k (base + 8) (device_semaphore c (40 + dev)) p))
        (λ _. serve_device-keeps acked sem (k.registers base) (laws.quiet k acked (Quiet-refl k) p))

  serve_pending-keeps :
      (c : Platform) (k : Kernel) (saved : State) (line : ℕ) (o : Option ℕ)
      → P k
      → P (serve_pending c k saved line o).0
  unfolding serve_pending
  serve_pending-keeps c k saved line none p = resume-keeps k saved p
  serve_pending-keeps c k saved line (some dev) p =
      resume-keeps (serve_line c k line dev) saved (serve_line-keeps c k line dev p)

  -- Whatever the loop over the pseudo-clock's queue leaves, if it ends.
  abbrev Left : Option Kernel → Type 0
  Left none = Unit
  Left (some k) = P k

  wake_all-keeps : (n : ℕ) (k : Kernel) (sem : ℕ) → P k → Left (wake_all n k sem)
  unfolding wake_all
  wake_all-keeps zero k sem p = tt
  wake_all-keeps (suc n) k sem p =
      by_released (remove_blocked k.asl sem).1 refl (λ k1 p1. wake_all-keeps n k1 sem p1)
    where
      by_released :
          (o : Option ℕ)
          → (remove_blocked k.asl sem).1 ≡ o
          → ((k1 : Kernel) → P k1 → Left (wake_all n k1 sem))
          → (let a = (remove_blocked k.asl sem).0 in
              Left (elim o [
                | none ↦ some (record k { asl = a })
                | some x ↦ wake_all n (complete (record k { asl = a }) x 0) sem
              ]))
      by_released none e rest = laws.missed k sem e p
      by_released (some x) e rest = rest _ (laws.woken k _ sem x e (complete-Waking k sem x 0) p)

  finish_clock-keeps :
      (sem : ℕ) (k : Kernel) (saved : State) (o : Option Kernel)
      → P k
      → Left o
      → P (finish_clock sem k saved o).0
  unfolding finish_clock
  finish_clock-keeps sem k saved none p left = p
  finish_clock-keeps sem k saved (some k1) p left =
      let k2 : Kernel = set_sem k1 sem (pos 0) in
      resume-keeps k2 saved (laws.quiet k1 k2 (Quiet-refl k1) left)

  clock_interrupt-keeps :
      (c : Platform) (k : Kernel) (saved : State) → P k → P (clock_interrupt c k saved).0
  unfolding clock_interrupt
  clock_interrupt-keeps c k saved p =
      let sem = device_semaphore c 48 in
      let k1 : Kernel = emit k (Event.load_interval psecond) in
      let p1 : P k1 = laws.quiet k k1 (Quiet-refl k) p in
      finish_clock-keeps sem k1 saved (wake_all (suc (blocked_count k1.asl sem)) k1 sem) p1
        (wake_all-keeps (suc (blocked_count k1.asl sem)) k1 sem p1)

  pub interrupt_handler-keeps :
      (c : Platform) (k : Kernel) (saved : State) → P k → P (interrupt_handler c k saved).0
  unfolding interrupt_handler timer_interrupt device_interrupt
  interrupt_handler-keeps c k saved p =
      let code = bit_and saved.cause c.cause_exccode_mask in
      let k1 = account k in
      let p1 : P k1 = laws.quiet k k1 (account-Quiet k) p in
      let line = code - 14 in
      let device = device_interrupt c k1 saved line in
      let other = resume k1 saved in
      let rest : Kernel × Outcome = if leb 17 code && leb code 21 then device else other in
      let later : Kernel × Outcome = if code == 3 then clock_interrupt c k1 saved else rest in
      let timed : Kernel = emit k1 (Event.set_timer never) in
      if_cases {A = Kernel × Outcome} (λ r. P r.0) (code == 7) (timer_interrupt k1 saved) later
        (λ _.
          preempt-keeps timed saved k1.current_process refl
            (laws.quiet k1 timed (Quiet-refl k1) p1))
        (λ _.
          if_cases {A = Kernel × Outcome} (λ r. P r.0) (code == 3) (clock_interrupt c k1 saved) rest
            (λ _. clock_interrupt-keeps c k1 saved p1)
            (λ _.
              if_cases {A = Kernel × Outcome} (λ r. P r.0) (leb 17 code && leb code 21) device other
                (λ _.
                  serve_pending-keeps c k1 saved line
                    (get_highest_priority_device (int_bitmap k1 line)) p1)
                (λ _. resume-keeps k1 saved p1)))
