-- ===== src/Kernel/Conservation.antt =====
-- The places of Kernel/Placement before and after each system call but TERMPROCESS.
pub mod Clock
pub mod Interrupts
use sistemi_operativi_proget.Common.{
  ℕ, ◌+◌, ◌≡◌, refl, ◌≢◌, ap, ◌∙◌, pos, ltb_ℤ, Option, none, some, List, [], ◌∷◌, arith,
  if◌then◌else◌, Bool-cases, inl, inr, hit, count, if_cases, ◌||◌, ltb, ◌-◌,
}
use sistemi_operativi_proget.Const.{Platform, device_semaphore, start_devreg}
use sistemi_operativi_proget.Types.{State, Outcome}
use sistemi_operativi_proget.Pcb.{alloc_pcb, alloc_from, insert_child}
use sistemi_operativi_proget.Pcb.Queue.{found, count-insert_proc_q}
use sistemi_operativi_proget.Asl.{remove_blocked}
use sistemi_operativi_proget.Asl.Count.{waiting-remove_blocked}
use sistemi_operativi_proget.Kernel.{Kernel, pcb, set_sem, incr, decr, with_current_cases}
use sistemi_operativi_proget.Kernel.Functions.{save_state, update_cpu_time, block_current_process}
use sistemi_operativi_proget.Kernel.Syscalls.{
  create_process, passeren, verhogen, do_io, wait_for_clock, yield, make_ready, wake_first, admit,
  finish_create,
}
use sistemi_operativi_proget.Kernel.Placement.{
  placed, scheduler-placed, block_current_process-placed,
}

-- The result leaves every process in as many places as it was in.
abbrev pub Conserves : Kernel → Kernel × Outcome → Type 0
Conserves k r = (x : ℕ) → placed r.0 x ≡ placed k x

abbrev Keeps : Kernel → ℕ → Kernel × Outcome → Type 0
Keeps k x r = placed r.0 x ≡ placed k x

module _ (c : Platform) (k : Kernel) (state : State) (free : k.asl.semd_free ≢ []) where
  -- P leaves every process in as many places (free blocks, ready queue, semaphore queues,
  -- processor) as it was in, as long as a semaphore descriptor is free.
  pub passeren-Conserves : Conserves k (passeren c k state)
  unfolding passeren update_cpu_time
  passeren-Conserves x = with_current_cases (Keeps k x) k _ refl λ p e.
      let sem = state.reg_a1 in
      let k1 = save_state (update_cpu_time k (some p)) p state in
      let k2 : Kernel = set_sem k1 sem (decr (k1.sems sem)) in
      if_cases {A = Kernel × Outcome} (Keeps k x) (ltb_ℤ (k2.sems sem) (pos 0))
        (block_current_process c k2 sem) (k2, Outcome.ldst (pcb k2 p).p_s)
        (λ _. block_current_process-placed c k2 sem x free) (λ _. refl)

  -- WAITCLOCK leaves every process in as many places as it was in, as long as a semaphore
  -- descriptor is free.
  pub wait_for_clock-Conserves : Conserves k (wait_for_clock c k state)
  unfolding wait_for_clock update_cpu_time
  wait_for_clock-Conserves x =
      with_current_cases (Keeps k x) k _ refl
        λ p e. block_current_process-placed c _ (device_semaphore c 48) x free

  -- DOIO leaves every process in as many places as it was in, as long as a semaphore descriptor is
  -- free.
  pub do_io-Conserves : Conserves k (do_io c k state)
  unfolding do_io update_cpu_time
  do_io-Conserves x =
      elim (Bool-cases (ltb state.reg_a1 start_devreg || ltb 0x100002D4 state.reg_a1)) [
        | inl outside ↦ rw outside
        | inr inside ↦ rw inside (
            with_current_cases (Keeps k x) k _ refl
              λ p e. block_current_process-placed c _ _ x free)
      ]

make_ready-placed : (k : Kernel) (p x : ℕ) → placed (make_ready k p) x ≡ hit x p + placed k x
unfolding make_ready
make_ready-placed k p x = omega (arith, count-insert_proc_q _ x k.ready_queue p)

by_released :
    (k : Kernel) (x : ℕ) (o : Option ℕ) (wake : ℕ → Kernel)
    → ((p : ℕ) → placed (wake p) x ≡ hit x p + placed k x)
    → placed (elim o [ none ↦ k | some p ↦ wake p ]) x ≡ found x o + placed k x
by_released k x none wake h = omega arith
by_released k x (some p) wake h = h p

-- V moves at most the first process of the queue to the ready queue.
wake_first-placed : (k : Kernel) (sem x : ℕ) → placed (wake_first k sem) x ≡ placed k x
unfolding wake_first
wake_first-placed k sem x =
    let k1 : Kernel = record k { asl = (remove_blocked k.asl sem).0 } in
    by_released k1 x (remove_blocked k.asl sem).1 (make_ready k1) (λ p. make_ready-placed k1 p x)
    ∙ omega (arith, waiting-remove_blocked x k.asl sem)

module _ (k : Kernel) (state : State) where
  -- V leaves every process in as many places as it was in.
  pub verhogen-Conserves : Conserves k (verhogen k state)
  unfolding verhogen update_cpu_time
  verhogen-Conserves x = with_current_cases (Keeps k x) k _ refl λ p e.
      let sem = state.reg_a1 in
      let k1 = save_state (update_cpu_time k (some p)) p state in
      let k2 : Kernel = set_sem k1 sem (incr (k1.sems sem)) in
      if_cases {A = Kernel} (λ k3. placed k3 x ≡ placed k x) (ltb_ℤ (pos 0) (k2.sems sem)) k2
        (wake_first k2 sem) (λ _. refl) (λ _. wake_first-placed k2 sem x)

  -- YIELD leaves every process in as many places as it was in.
  pub yield-Conserves : Conserves k (yield k state)
  unfolding yield update_cpu_time
  yield-Conserves x = with_current_cases (Keeps k x) k _ refl λ p e.
      scheduler-placed _ x refl
      ∙ omega (arith, count-insert_proc_q _ x k.ready_queue p, ap (found x) e)

  create_from :
      (q : List ℕ) (cur x : ℕ)
      → k.pcbs.pcb_free ≡ q
      → placed (finish_create k state cur (alloc_from k.pcbs q)).0 x ≡ placed k x
  unfolding finish_create alloc_from admit insert_child
  create_from [] cur x e = refl
  create_from (p ∷ q) cur x e =
      omega (arith, count-insert_proc_q _ x k.ready_queue p, ap (count x) e)

  -- CREATEPROCESS leaves every process in as many places as it was in: the block that it takes off
  -- the free blocks is in the ready queue.
  pub create_process-Conserves : Conserves k (create_process k state)
  unfolding create_process alloc_pcb
  create_process-Conserves x =
      with_current_cases (Keeps k x) k _ refl λ p e. create_from k.pcbs.pcb_free p x refl
