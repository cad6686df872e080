-- ===== src/Kernel/Closed/Syscalls.antt =====
-- The system calls of phase2/exception.c keep what each kind of change keeps.
use sistemi_operativi_proget.Common.{
  ℕ, ◌≡◌, refl, ◌∙◌, inl, inr, pos, ltb_ℤ, Option, none, some, List, [], ◌∷◌, arith, if_cases,
  Bool-cases, ltb, ◌||◌,
}
use sistemi_operativi_proget.Const.{Platform, device_semaphore, start_devreg}
use sistemi_operativi_proget.Types.{State, Outcome}
use sistemi_operativi_proget.Pcb.{alloc_pcb, alloc_from}
use sistemi_operativi_proget.Asl.{remove_blocked}
use sistemi_operativi_proget.Kernel.{Kernel, pcb, set_sem, incr, decr, with_current_cases}
use sistemi_operativi_proget.Kernel.Functions.{save_state, update_cpu_time, block_current_process}
use sistemi_operativi_proget.Kernel.Syscalls.{
  admit, adopt, finish_create, create_process, passeren, make_ready, wake_first, verhogen,
  sem_index, do_io, get_cpu_time, wait_for_clock, get_support_data, get_process_id, yield,
}
use sistemi_operativi_proget.Kernel.Closed.{
  Quiet-refl, Waking, Closed, save_state-Quiet, update_cpu_time-Quiet, scheduler-keeps,
  save_state-keeps, update_cpu_time-keeps, block_current_process-keeps,
}

-- make_ready is a waking.
make_ready-Waking :
    (k : Kernel) (sem p : ℕ)
    → Waking k (make_ready (record k { asl = (remove_blocked k.asl sem).0 }) p) sem p
unfolding make_ready
make_ready-Waking k sem p = record {
  steady = record {
    kin = record { pid = λ x. ground arith; child = λ x. ground arith; prio = λ x. ground arith };
    free = refl;
    next = refl;
    alive = refl;
    current = refl;
    root = refl;
  };
  waits_on = λ x. ground arith;
  asl = refl;
  ready = refl;
}

module _ {P : Kernel → Type 0} {Fits : Kernel → ℕ → Type 0} (laws : Closed P Fits) where
  -- The caller has its time charged and its state saved.
  saved-keeps :
      (k : Kernel) (x : ℕ) (state : State)
      → P k
      → P (save_state (update_cpu_time k (some x)) x state)
  saved-keeps k x state p =
      save_state-keeps laws (update_cpu_time k (some x)) x state
        (update_cpu_time-keeps laws k (some x) p)

  saved-current :
      (k : Kernel) (x : ℕ) (state : State)
      → (save_state (update_cpu_time k (some x)) x state).current_process ≡ k.current_process
  unfolding update_cpu_time
  saved-current k x state = refl

  saved-fits :
      (k : Kernel) (x sem : ℕ) (state : State)
      → Fits k sem
      → Fits (save_state (update_cpu_time k (some x)) x state) sem
  saved-fits k x sem state f =
      let k1 = update_cpu_time k (some x) in
      laws.fits k1 (save_state k1 x state) sem (save_state-Quiet k1 x state)
        (laws.fits k k1 sem (update_cpu_time-Quiet k (some x)) f)

  create_from :
      (k : Kernel) (state : State) (cur : ℕ) (q : List ℕ)
      → k.pcbs.pcb_free ≡ q
      → k.current_process ≡ some cur
      → P k
      → P (finish_create k state cur (alloc_from k.pcbs q)).0
  unfolding finish_create alloc_from
  create_from k state cur [] e h p = save_state-keeps laws k cur _ p
  create_from k state cur (x ∷ q) e h p =
      save_state-keeps laws
        (admit (adopt (record k { pcbs = (alloc_from k.pcbs (x ∷ q)).0 }) x state) cur x) cur _
        (laws.created k state cur x q h e p)

  pub create_process-keeps : (k : Kernel) (state : State) → P k → P (create_process k state).0
  unfolding create_process alloc_pcb
  create_process-keeps k state p =
      with_current_cases (λ r. P r.0) k _ p λ x e. create_from k state x k.pcbs.pcb_free refl e p

  pub passeren-keeps :
      (c : Platform) (k : Kernel) (state : State)
      → Fits k state.reg_a1
      → P k
      → P (passeren c k state).0
  unfolding passeren
  passeren-keeps c k state f p =
      with_current_cases (λ r. P r.0) k _ p
        λ x e.
          let sem = state.reg_a1 in
          let k1 = save_state (update_cpu_time k (some x)) x state in
          let k2 : Kernel = set_sem k1 sem (decr (k1.sems sem)) in
          let p2 : P k2 = laws.quiet k1 k2 (Quiet-refl k1) (saved-keeps k x state p) in
          if_cases {A = Kernel × Outcome} (λ r. P r.0) (ltb_ℤ (k2.sems sem) (pos 0))
            (block_current_process c k2 sem) (k2, Outcome.ldst (pcb k2 x).p_s)
            (λ _.
              block_current_process-keeps laws c k2 sem
                (laws.fits k1 k2 sem (Quiet-refl k1) (saved-fits k x sem state f)) p2)
            (λ _. p2)

  pub wait_for_clock-keeps :
      (c : Platform) (k : Kernel) (state : State)
      → Fits k (device_semaphore c 48)
      → P k
      → P (wait_for_clock c k state).0
  unfolding wait_for_clock
  wait_for_clock-keeps c k state f p =
      with_current_cases (λ r. P r.0) k _ p
        λ x e.
          let sem = device_semaphore c 48 in
          let k1 = save_state (update_cpu_time k (some x)) x state in
          let k2 : Kernel = set_sem k1 sem (decr (k1.sems sem)) in
          block_current_process-keeps laws c k2 sem
            (laws.fits k1 k2 sem (Quiet-refl k1) (saved-fits k x sem state f))
            (laws.quiet k1 k2 (Quiet-refl k1) (saved-keeps k x state p))

  pub do_io-keeps :
      (c : Platform) (k : Kernel) (state : State)
      → Fits k (device_semaphore c (sem_index state.reg_a1))
      → P k
      → P (do_io c k state).0
  unfolding do_io
  do_io-keeps c k state f p =
      elim (Bool-cases (ltb state.reg_a1 start_devreg || ltb 0x100002D4 state.reg_a1)) [
        | inl outside ↦ rw outside p
        | inr inside ↦ rw inside (
            with_current_cases (λ r. P r.0) k _ p
              λ x e.
                let sem = device_semaphore c (sem_index state.reg_a1) in
                let k1 = save_state (update_cpu_time k (some x)) x state in
                let k2 = set_sem k1 sem (decr (k1.sems sem)) in
                block_current_process-keeps laws c _ sem
                  (laws.fits k1 _ sem (Quiet-refl k1) (saved-fits k x sem state f))
                  (laws.quiet k1 _ (Quiet-refl k1) (saved-keeps k x state p)))
      ]

  wake_first-keeps : (k : Kernel) (sem : ℕ) → P k → P (wake_first k sem)
  unfolding wake_first
  wake_first-keeps k sem p = by_released (remove_blocked k.asl sem).1 refl
    where
      by_released :
          (o : Option ℕ)
          → (remove_blocked k.asl sem).1 ≡ o
          → P (elim o [
            | none ↦ record k { asl = (remove_blocked k.asl sem).0 }
            | some x ↦ make_ready (record k { asl = (remove_blocked k.asl sem).0 }) x
          ])
      by_released none e = laws.missed k sem e p
      by_released (some x) e = laws.woken k _ sem x e (make_ready-Waking k sem x) p

  pub verhogen-keeps : (k : Kernel) (state : State) → P k → P (verhogen k state).0
  unfolding verhogen
  verhogen-keeps k state p =
      with_current_cases (λ r. P r.0) k _ p
        λ x e.
          let sem = state.reg_a1 in
          let k1 = save_state (update_cpu_time k (some x)) x state in
          let k2 : Kernel = set_sem k1 sem (incr (k1.sems sem)) in
          let p2 : P k2 = laws.quiet k1 k2 (Quiet-refl k1) (saved-keeps k x state p) in
          if_cases {A = Kernel} P (ltb_ℤ (pos 0) (k2.sems sem)) k2 (wake_first k2 sem) (λ _. p2)
            (λ _. wake_first-keeps k2 sem p2)

  pub yield-keeps : (k : Kernel) (state : State) → P k → P (yield k state).0
  unfolding yield
  yield-keeps k state p =
      with_current_cases (λ r. P r.0) k _ p
        λ x e.
          let k1 = save_state (update_cpu_time k (some x)) x state in
          scheduler-keeps laws _ refl
            (laws.released k1 x (saved-current k x state ∙ e) (saved-keeps k x state p))

  pub get_cpu_time-keeps : (k : Kernel) (state : State) → P k → P (get_cpu_time k state).0
  unfolding get_cpu_time
  get_cpu_time-keeps k state p =
      with_current_cases (λ r. P r.0) k _ p λ x e. update_cpu_time-keeps laws k (some x) p

  pub get_support_data-keeps : (k : Kernel) (state : State) → P k → P (get_support_data k state).0
  unfolding get_support_data
  get_support_data-keeps k state p = with_current_cases (λ r. P r.0) k _ p λ x e. p

  pub get_process_id-keeps : (k : Kernel) (state : State) → P k → P (get_process_id k state).0
  unfolding get_process_id
  get_process_id-keeps k state p = with_current_cases (λ r. P r.0) k _ p λ x e. p
