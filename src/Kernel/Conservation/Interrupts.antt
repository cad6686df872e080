-- ===== src/Kernel/Conservation/Interrupts.antt =====
-- The places of Kernel/Placement before and after an interrupt of phase2/interrupt.c.
use sistemi_operativi_proget.Common.{
  ℕ, zero, suc, ◌+◌, ◌≡◌, refl, ap, ◌∙◌, sym, subst, ℤ, pos, ltb_ℤ, Option, none, some, arith,
  if◌then◌else◌, hit, if_cases, ◌==◌, leb, ◌&&◌, bit_and, ◌-◌, ◌%◌,
}
use sistemi_operativi_proget.Const.{Platform, device_semaphore, ack}
use sistemi_operativi_proget.Types.{State, Outcome, Event}
use sistemi_operativi_proget.Pcb.Queue.{found, count-insert_proc_q}
use sistemi_operativi_proget.Asl.{Asl, remove_blocked}
use sistemi_operativi_proget.Asl.Count.{waiting, waiting-remove_blocked}
use sistemi_operativi_proget.Kernel.{Kernel, set_sem, emit, incr, tick, tod}
use sistemi_operativi_proget.Kernel.Interrupt.{
  charge, account, resume, resume_at, complete, hand_status, serve_device, wake_all, preempt,
  timer_interrupt, finish_clock, clock_interrupt, serve_terminal, serve_line, serve_pending,
  device_interrupt, interrupt_handler, dev_reg_base, dev_sem_base,
}
use sistemi_operativi_proget.Kernel.Placement.{placed, scheduler-placed}
use sistemi_operativi_proget.Kernel.Conservation.{Conserves}
use sistemi_operativi_proget.Kernel.Conservation.Clock.{next_round, wake_all_round}

complete-placed :
    (k : Kernel) (p status x : ℕ) → placed (complete k p status) x ≡ hit x p + placed k x
unfolding complete
complete-placed k p status x = omega (arith, count-insert_proc_q _ x k.ready_queue p)

hand_status-placed :
    (k : Kernel) (status x : ℕ) (r : Asl × Option ℕ)
    → waiting x r.0.semd_h + found x r.1 ≡ waiting x k.asl.semd_h
    → placed (hand_status k status r) x ≡ placed k x
unfolding hand_status
hand_status-placed k status x (a, none) h = omega arith
hand_status-placed k status x (a, some p) h =
    omega (arith, complete-placed (record k { asl = a }) p status x)

serve_device-placed :
    (k : Kernel) (sem status x : ℕ) → placed (serve_device k sem status) x ≡ placed k x
unfolding serve_device
serve_device-placed k sem status x =
    if_cases {A = Kernel} (λ k1. placed k1 x ≡ placed k x) (ltb_ℤ (k.sems sem) (pos 0))
      (hand_status (set_sem k sem (incr (k.sems sem))) status (remove_blocked k.asl sem)) k
      (λ _.
        hand_status-placed (set_sem k sem (incr (k.sems sem))) status x (remove_blocked k.asl sem)
          (waiting-remove_blocked x k.asl sem))
      (λ _. refl)

serve_terminal-placed :
    (k : Kernel) (reg sem x : ℕ) → placed (serve_terminal k reg sem) x ≡ placed k x
unfolding serve_terminal
serve_terminal-placed k reg sem x =
    if_cases {A = Kernel} (λ k1. placed k1 x ≡ placed k x) (k.registers reg % 256 == 0) k
      (serve_device (emit k (Event.write_register (reg + 4) 1)) sem (k.registers reg)) (λ _. refl)
      (λ _. serve_device-placed (emit k (Event.write_register (reg + 4) 1)) sem (k.registers reg) x)

resume_at-placed :
    (k : Kernel) (saved : State) (x : ℕ) (o : Option ℕ)
    → k.current_process ≡ o
    → placed (resume_at k saved o).0 x ≡ placed k x
unfolding resume_at
resume_at-placed k saved x none e = scheduler-placed k x e
resume_at-placed k saved x (some p) e = refl

resume-placed : (k : Kernel) (saved : State) (x : ℕ) → placed (resume k saved).0 x ≡ placed k x
unfolding resume
resume-placed k saved x = resume_at-placed k saved x k.current_process refl

preempt-placed :
    (k : Kernel) (saved : State) (x : ℕ) (o : Option ℕ)
    → k.current_process ≡ o
    → placed (preempt k saved o).0 x ≡ placed k x
unfolding preempt
preempt-placed k saved x none e = scheduler-placed k x e
preempt-placed k saved x (some p) e =
    scheduler-placed _ x refl
    ∙ omega (arith, count-insert_proc_q _ x k.ready_queue p, ap (found x) e)

charge-placed :
    (k : Kernel) (now : ℤ) (o : Option ℕ) (x : ℕ) → placed (charge k now o) x ≡ placed k x
unfolding charge
charge-placed k now none x = refl
charge-placed k now (some p) x = refl

account-placed : (k : Kernel) (x : ℕ) → placed (account k) x ≡ placed k x
unfolding account
account-placed k x = charge-placed (tick k) (tod k) k.current_process x

serve_line-placed :
    (c : Platform) (k : Kernel) (line dev x : ℕ) → placed (serve_line c k line dev) x ≡ placed k x
unfolding serve_line
serve_line-placed c k line dev x =
    let base = dev_reg_base line dev in
    let sent = serve_terminal k (base + 8) (device_semaphore c (40 + dev)) in
    let acked : Kernel = emit k (Event.write_register (base + 4) ack) in
    let sem = device_semaphore c (dev_sem_base line dev) in
    if_cases {A = Kernel} (λ k1. placed k1 x ≡ placed k x) (line == 7)
      (serve_terminal sent base (device_semaphore c (32 + dev)))
      (serve_device acked sem (k.registers base))
      (λ _.
        serve_terminal-placed sent base (device_semaphore c (32 + dev)) x
        ∙ serve_terminal-placed k (base + 8) (device_semaphore c (40 + dev)) x)
      (λ _. serve_device-placed acked sem (k.registers base) x)

serve_pending-placed :
    (c : Platform) (k : Kernel) (saved : State) (line x : ℕ) (o : Option ℕ)
    → placed (serve_pending c k saved line o).0 x ≡ placed k x
unfolding serve_pending
serve_pending-placed c k saved line x none = resume-placed k saved x
serve_pending-placed c k saved line x (some dev) =
    resume-placed (serve_line c k line dev) saved x ∙ serve_line-placed c k line dev x

abbrev Ended : ℕ → Kernel → Option Kernel → Type 0
Ended x k none = Unit
Ended x k (some k1) = placed k1 x ≡ placed k x

Ended-trans :
    (k k1 : Kernel) (x : ℕ) (o : Option Kernel)
    → placed k1 x ≡ placed k x
    → Ended x k1 o
    → Ended x k o
Ended-trans k k1 x none e f = tt
Ended-trans k k1 x (some k2) e f = f ∙ e

module _ (sem x : ℕ) where
  round-Ended :
      (n : ℕ) (k : Kernel) (r : Asl × Option ℕ)
      → waiting x r.0.semd_h + found x r.1 ≡ waiting x k.asl.semd_h
      → ((k1 : Kernel) → Ended x k1 (wake_all n k1 sem))
      → Ended x k (next_round n k sem r)
  round-Ended n k (a, none) h ih = omega arith
  round-Ended n k (a, some p) h ih =
      let k1 = complete (record k { asl = a }) p 0 in
      Ended-trans k k1 x (wake_all n k1 sem)
        (omega (arith, complete-placed (record k { asl = a }) p 0 x)) (ih k1)

  wake_all-Ended : (n : ℕ) (k : Kernel) → Ended x k (wake_all n k sem)
  unfolding wake_all
  wake_all-Ended zero k = tt
  wake_all-Ended (suc n) k = subst (Ended x k) (sym (wake_all_round n k sem)) (
      round-Ended n k (remove_blocked k.asl sem) (waiting-remove_blocked x k.asl sem)
        (wake_all-Ended n))

finish_clock-placed :
    (sem : ℕ) (k : Kernel) (saved : State) (x : ℕ) (o : Option Kernel)
    → Ended x k o
    → placed (finish_clock sem k saved o).0 x ≡ placed k x
unfolding finish_clock
finish_clock-placed sem k saved x none h = refl
finish_clock-placed sem k saved x (some k1) h = resume-placed (set_sem k1 sem (pos 0)) saved x ∙ h

module _ (c : Platform) (k : Kernel) (saved : State) where
  clock_interrupt-Conserves : Conserves k (clock_interrupt c k saved)
  unfolding clock_interrupt
  clock_interrupt-Conserves x =
      finish_clock-placed (device_semaphore c 48) _ saved x _
        (wake_all-Ended (device_semaphore c 48) x _ _)

  timer_interrupt-Conserves : Conserves k (timer_interrupt k saved)
  unfolding timer_interrupt
  timer_interrupt-Conserves x = preempt-placed _ saved x k.current_process refl

  device_interrupt-Conserves : (line : ℕ) → Conserves k (device_interrupt c k saved line)
  unfolding device_interrupt
  device_interrupt-Conserves line x = serve_pending-placed c k saved line x _

abbrev Kept : Kernel → ℕ → Kernel × Outcome → Type 0
Kept k x r = placed r.0 x ≡ placed k x

-- An interrupt of any kind leaves every process in as many places as it was in: it may move it
-- between the processor, the ready queue and the semaphores, and never loses or duplicates it.
pub interrupt_handler-Conserves :
    (c : Platform) (k : Kernel) (saved : State) → Conserves k (interrupt_handler c k saved)
unfolding interrupt_handler
interrupt_handler-Conserves c k saved x =
    let code = bit_and saved.cause c.cause_exccode_mask in
    let k1 = account k in
    let device = device_interrupt c k1 saved (code - 14) in
    let other = resume k1 saved in
    let rest : Kernel × Outcome = if leb 17 code && leb code 21 then device else other in
    let later : Kernel × Outcome = if code == 3 then clock_interrupt c k1 saved else rest in
    if_cases {A = Kernel × Outcome} (Kept k1 x) (code == 7) (timer_interrupt k1 saved) later
      (λ _. timer_interrupt-Conserves c k1 saved x)
      (λ _.
        if_cases {A = Kernel × Outcome} (Kept k1 x) (code == 3) (clock_interrupt c k1 saved) rest
          (λ _. clock_interrupt-Conserves c k1 saved x)
          (λ _.
            if_cases {A = Kernel × Outcome} (Kept k1 x) (leb 17 code && leb code 21) device other
              (λ _. device_interrupt-Conserves c k1 saved (code - 14) x)
              (λ _. resume-placed k1 saved x)))
    ∙ account-placed k x
