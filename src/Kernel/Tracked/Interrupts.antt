-- ===== src/Kernel/Tracked/Interrupts.antt =====
-- The interrupts of phase2/interrupt.c keep what each operation on a semaphore keeps.
use sistemi_operativi_proget.Common.{
  ℕ, zero, suc, ◌+◌, ◌-◌, ◌%◌, ◌<◌, ◌≤◌, ◌≡◌, refl, pos, ltb_ℤ, Option, none, some, arith,
  if◌then◌else◌, if_cases, ◌==◌, ◌&&◌, leb, bit_and,
}
use sistemi_operativi_proget.Const.{Platform, device_semaphore, sem_dev_len, psecond, never, ack}
use sistemi_operativi_proget.Types.{State, Outcome, Event}
use sistemi_operativi_proget.Asl.{remove_blocked, blocked_count}
use sistemi_operativi_proget.Kernel.{Kernel, set_sem, emit, incr, tick, tod}
use sistemi_operativi_proget.Kernel.Devices.{Lowest, get_highest_priority_device-Lowest}
use sistemi_operativi_proget.Kernel.Interrupt.{
  charge, account, resume, resume_at, complete, hand_status, serve_device, wake_all, preempt,
  timer_interrupt, finish_clock, clock_interrupt, serve_terminal, serve_line, serve_pending,
  device_interrupt, interrupt_handler, get_highest_priority_device, int_bitmap, dev_reg_base,
  dev_sem_base,
}
use sistemi_operativi_proget.Kernel.Closed.Terminate.{Answers}
use sistemi_operativi_proget.Kernel.Tracked.{Tracked, scheduler-tracks, beside}

module _ {c : Platform} {P : Kernel → Type 0} {Signals : ℕ → Type 0}
    (laws : Tracked c P Signals) where
  hand_status-tracks :
      (k : Kernel) (i status : ℕ)
      → i < sem_dev_len
      → P k
      → P (hand_status k status (remove_blocked k.asl (device_semaphore c i)))
  hand_status-tracks k i status lt h =
      by_released (remove_blocked k.asl (device_semaphore c i)).1 refl
    where
      by_released :
          (o : Option ℕ)
          → (remove_blocked k.asl (device_semaphore c i)).1 ≡ o
          → P (hand_status k status ((remove_blocked k.asl (device_semaphore c i)).0, o))
      by_released none e = unfold hand_status in laws.missed k i lt e h
      by_released (some p) e = unfold hand_status in laws.completed k i p status lt e h

  serve_device-tracks :
      (k : Kernel) (i status : ℕ)
      → i < sem_dev_len
      → P k
      → P (serve_device k (device_semaphore c i) status)
  unfolding serve_device
  serve_device-tracks k i status lt h =
      let sem = device_semaphore c i in
      let k1 = set_sem k sem (incr (k.sems sem)) in
      let r = remove_blocked k.asl sem in
      if_cases {A = Kernel} P (ltb_ℤ (k.sems sem) (pos 0)) (hand_status k1 status r) k
        (λ _. hand_status-tracks k1 i status lt (laws.valued k i _ lt h)) (λ _. h)

  wake_all-tracks :
      (n : ℕ) (k : Kernel) (i : ℕ)
      → i < sem_dev_len
      → P k
      → Answers P (wake_all n k (device_semaphore c i))
  unfolding wake_all
  wake_all-tracks zero k i lt h = tt
  wake_all-tracks (suc m) k i lt h =
      by_released (remove_blocked k.asl (device_semaphore c i)).1 refl
        (λ k2 g. wake_all-tracks m k2 i lt g)
    where
      by_released :
          (o : Option ℕ)
          → (remove_blocked k.asl (device_semaphore c i)).1 ≡ o
          → ((k2 : Kernel) → P k2 → Answers P (wake_all m k2 (device_semaphore c i)))
          → (let k1 = record k { asl = (remove_blocked k.asl (device_semaphore c i)).0 } in
              Answers P (elim o [
                | none ↦ some k1
                | some p ↦ wake_all m (complete k1 p 0) (device_semaphore c i)
              ]))
      by_released none e rest = laws.missed k i lt e h
      by_released (some p) e rest = rest _ (laws.completed k i p 0 lt e h)

  resume-tracks : (k : Kernel) (saved : State) → P k → P (resume k saved).0
  unfolding resume
  resume-tracks k saved h = by_current k.current_process
    where
      by_current : (o : Option ℕ) → P (resume_at k saved o).0
      by_current none = unfold resume_at in scheduler-tracks laws k h
      by_current (some p) = unfold resume_at in h

  preempt-tracks : (k : Kernel) (saved : State) (o : Option ℕ) → P k → P (preempt k saved o).0
  unfolding preempt
  preempt-tracks k saved none h = scheduler-tracks laws k h
  preempt-tracks k saved (some p) h = scheduler-tracks laws _ (beside laws k _ refl refl refl h)

  clock_interrupt-tracks : (k : Kernel) (saved : State) → P k → P (clock_interrupt c k saved).0
  unfolding clock_interrupt
  clock_interrupt-tracks k saved h =
      let sem = device_semaphore c 48 in
      let k1 : Kernel = emit k (Event.load_interval psecond) in
      let h1 = beside laws k k1 refl refl refl h in
      by_result k1 h1 (wake_all (suc (blocked_count k1.asl sem)) k1 sem)
        (wake_all-tracks (suc (blocked_count k1.asl sem)) k1 48 (omega arith) h1)
    where
      by_result :
          (k1 : Kernel)
          → P k1
          → (o : Option Kernel) → Answers P o
          → P (finish_clock (device_semaphore c 48) k1 saved o).0
      by_result k1 g none a = unfold finish_clock in g
      by_result k1 g (some k2) a =
          unfold finish_clock in resume-tracks _ saved (laws.valued k2 48 (pos 0) (omega arith) a)

  serve_terminal-tracks :
      (k : Kernel) (reg i : ℕ)
      → i < sem_dev_len
      → P k
      → P (serve_terminal k reg (device_semaphore c i))
  unfolding serve_terminal
  serve_terminal-tracks k reg i lt h =
      let acked : Kernel = emit k (Event.write_register (reg + 4) ack) in
      if_cases {A = Kernel} P (k.registers reg % 256 == 0) k
        (serve_device acked (device_semaphore c i) (k.registers reg)) (λ _. h)
        (λ _.
          serve_device-tracks acked i (k.registers reg) lt (beside laws k acked refl refl refl h))

  serve_line-tracks :
      (k : Kernel) (line dev : ℕ) → line ≤ 7 → dev < 8 → P k → P (serve_line c k line dev)
  unfolding serve_line
  serve_line-tracks k line dev l d h =
      let base = dev_reg_base line dev in
      let sent = serve_terminal k (base + 8) (device_semaphore c (40 + dev)) in
      let acked : Kernel = emit k (Event.write_register (base + 4) ack) in
      let sem = device_semaphore c (dev_sem_base line dev) in
      if_cases {A = Kernel} P (line == 7) (serve_terminal sent base (device_semaphore c (32 + dev)))
        (serve_device acked sem (k.registers base))
        (λ _.
          serve_terminal-tracks sent base (32 + dev) (omega (arith, d))
            (serve_terminal-tracks k (base + 8) (40 + dev) (omega (arith, d)) h))
        (λ _.
          serve_device-tracks acked (dev_sem_base line dev) (k.registers base) (omega (arith, l, d))
            (beside laws k acked refl refl refl h))

  serve_pending-tracks :
      (k : Kernel) (saved : State) (line bitmap : ℕ) (o : Option ℕ)
      → line ≤ 7
      → Lowest 0 8 bitmap o
      → P k
      → P (serve_pending c k saved line o).0
  unfolding serve_pending
  serve_pending-tracks k saved line bitmap none l low h = resume-tracks k saved h
  serve_pending-tracks k saved line bitmap (some dev) l low h =
      resume-tracks (serve_line c k line dev) saved
        (serve_line-tracks k line dev l (omega (arith, low.1)) h)

  account-tracks : (k : Kernel) → P k → P (account k)
  unfolding account
  account-tracks k h =
      beside laws (charge (tick k) (tod k) k.current_process) _ refl refl refl
        (by_current k.current_process)
    where
      by_current : (o : Option ℕ) → P (charge (tick k) (tod k) o)
      by_current none = unfold charge in beside laws k _ refl refl refl h
      by_current (some p) = unfold charge in beside laws k _ refl refl refl h

  pub interrupt_handler-tracks :
      (k : Kernel) (saved : State) → P k → P (interrupt_handler c k saved).0
  unfolding interrupt_handler timer_interrupt device_interrupt
  interrupt_handler-tracks k saved h =
      let code = bit_and saved.cause c.cause_exccode_mask in
      let k1 = account k in
      let h1 : P k1 = account-tracks k h in
      let line = code - 14 in
      let device = device_interrupt c k1 saved line in
      let other = resume k1 saved in
      let rest : Kernel × Outcome = if leb 17 code && leb code 21 then device else other in
      let later : Kernel × Outcome = if code == 3 then clock_interrupt c k1 saved else rest in
      let timed : Kernel = emit k1 (Event.set_timer never) in
      if_cases {A = Kernel × Outcome} (λ r. P r.0) (code == 7) (timer_interrupt k1 saved) later
        (λ _.
          preempt-tracks timed saved k1.current_process (beside laws k1 timed refl refl refl h1))
        (λ _.
          if_cases {A = Kernel × Outcome} (λ r. P r.0) (code == 3) (clock_interrupt c k1 saved) rest
            (λ _. clock_interrupt-tracks k1 saved h1)
            (λ _.
              if_cases {A = Kernel × Outcome} (λ r. P r.0) (leb 17 code && leb code 21) device other
                (λ e.
                  serve_pending-tracks k1 saved line (int_bitmap k1 line)
                    (get_highest_priority_device (int_bitmap k1 line)) (ground (arith, e))
                    (get_highest_priority_device-Lowest (int_bitmap k1 line)) h1)
                (λ _. resume-tracks k1 saved h1)))
