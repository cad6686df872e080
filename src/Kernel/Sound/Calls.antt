-- ===== src/Kernel/Sound/Calls.antt =====
-- The loops behind the system calls of phase2/exception.c come to an end.
use sistemi_operativi_proget.Common.{
  ℕ, ◌≡◌, ◌≢◌, refl, ◌∙◌, pos, ltb, ltb_ℤ, eqb_ℤ, to_int, Option, none, some, List, [], ◌∷◌, inl,
  if_cases, Bool, true, false, ◌==◌, ◌||◌, ◌&&◌,
}
use sistemi_operativi_proget.Const.{Platform, start_devreg}
use sistemi_operativi_proget.Types.{State, Outcome}
use sistemi_operativi_proget.Pcb.{Pcbs, alloc_pcb}
use sistemi_operativi_proget.Kernel.{Kernel, pcb, set_sem, decr, with_current_cases}
use sistemi_operativi_proget.Kernel.Scheduler.{scheduler, schedule, dispatch, idle}
use sistemi_operativi_proget.Kernel.Functions.{
  update_cpu_time, block_current_process, block_process, save_state,
}
use sistemi_operativi_proget.Kernel.Functions.Terminate.{kill, pass_up_or_die}
use sistemi_operativi_proget.Kernel.Syscalls.{
  create_process, finish_create, terminate_process, term_target, points_at, resume_caller, passeren,
  verhogen, do_io, get_cpu_time, wait_for_clock, get_support_data, get_process_id, yield,
}
use sistemi_operativi_proget.Kernel.Termination.{kill_fuel_enough}
use sistemi_operativi_proget.Kernel.Closed.{Target, update_cpu_time-Quiet}
use sistemi_operativi_proget.Kernel.Closed.Killing.{term_target-Target}
use sistemi_operativi_proget.Kernel.Sound.{Sound}
use sistemi_operativi_proget.Kernel.Sound.Moves.{Quiet-Sound}
use sistemi_operativi_proget.Kernel.Sound.Holds.{Target-Mortal}
use sistemi_operativi_proget.Kernel.Sound.Terminate.{Good-InRange}
use sistemi_operativi_proget.Kernel.Sound.Search.{Ended, search-Ended}

term_target-Ended : (k : Kernel) (state : State) → Sound k → Ended (term_target k state)
unfolding term_target
term_target-Ended k state s =
    if_cases {A = Option (Option ℕ)} Ended (eqb_ℤ (to_int state.reg_a1) (pos 0)) _ _ (λ _. tt)
      (λ _. search-Ended k (to_int state.reg_a1) k.root_process s.0)

-- The entry ends, one way or another.
abbrev pub Stops : Kernel × Outcome → Type 0
Stops r = r.1 ≢ Outcome.out_of_fuel

idle-Stops : (k : Kernel) → Stops (idle k)
unfolding idle
idle-Stops k =
    if_cases {A = Kernel × Outcome} Stops (eqb_ℤ k.process_count (pos 0)) _ _ (λ _ e. cc)
      (λ _.
        if_cases {A = Kernel × Outcome} Stops
          (ltb_ℤ (pos 0) k.process_count && ltb_ℤ (pos 0) k.soft_block_count) _ _ (λ _ e. cc)
          (λ _.
            if_cases {A = Kernel × Outcome} Stops
              (ltb_ℤ (pos 0) k.process_count && eqb_ℤ k.soft_block_count (pos 0)) _ _ (λ _ e. cc)
              (λ _ e. cc)))

schedule-Stops : (k : Kernel) (q : List ℕ) → Stops (schedule k q)
unfolding schedule dispatch
schedule-Stops k [] = idle-Stops k
schedule-Stops k (p ∷ q) = λ e. cc

pub scheduler-Stops : (k : Kernel) → Stops (scheduler k)
unfolding scheduler
scheduler-Stops k = schedule-Stops k k.ready_queue

module _ (c : Platform) where
  kill-Stops :
      (k : Kernel) (t : ℕ) (next : Kernel → Kernel × Outcome)
      → Sound k
      → Target k t
      → ((k1 : Kernel) → Stops (next k1))
      → Stops (kill c k t next)
  kill-Stops k t next s target h =
      let end = kill_fuel_enough c k t (Target-Mortal k t s target).0 (Good-InRange k s.0) in
      rw (end.1, kill) (h end.0)

  pub pass_up_or_die-Stops :
      (k : Kernel) (kind : ℕ) (state : State) → Sound k → Stops (pass_up_or_die c k kind state)
  unfolding pass_up_or_die
  pass_up_or_die-Stops k kind state s =
      with_current_cases Stops k _ (λ e. cc)
        λ p e.
          let sup = (pcb k p).p_support_struct in
          let k1 = update_cpu_time k (some p) in
          let charged = update_cpu_time-Quiet k (some p) in
          if_cases {A = Kernel × Outcome} Stops (sup == 0) _ _
            (λ _.
              kill-Stops k1 p (λ k2. scheduler (record k2 { current_process = none }))
                (Quiet-Sound k k1 charged s) (inl (charged.0.current ∙ e))
                (λ k2. scheduler-Stops (record k2 { current_process = none })))
            (λ _ e. cc)

  resume_caller-Stops : (b : Bool) (state : State) (k : Kernel) → Stops (resume_caller b state k)
  unfolding resume_caller
  resume_caller-Stops true state k = scheduler-Stops (record k { current_process = none })
  resume_caller-Stops false state k = by_current k.current_process
    where
      by_current :
          (o : Option ℕ)
          → Stops (elim o [
            | none ↦ scheduler k
            | some cur ↦ (save_state k cur state, Outcome.ldst state)
          ])
      by_current none = scheduler-Stops k
      by_current (some p) = λ e. cc

  pub terminate_process-Stops :
      (k : Kernel) (state : State) → Sound k → Stops (terminate_process c k state)
  unfolding terminate_process
  terminate_process-Stops k state s =
      let k1 = update_cpu_time k k.current_process in
      let s1 : Sound k1 = Quiet-Sound k k1 (update_cpu_time-Quiet k k.current_process) s in
      by_target k1 s1 (term_target k1 state) refl (term_target-Ended k1 state s1)
    where
      by_target :
          (k : Kernel)
          → Sound k
          → (o : Option (Option ℕ)) → term_target k state ≡ o
          → Ended o
          → Stops (elim o [
            | none ↦ (k, Outcome.out_of_fuel)
            | some none ↦ (k, Outcome.ldst state)
            | some (some t) ↦ kill c k t (resume_caller (points_at k.current_process t) state)
          ])
      by_target k s none r end = absurd end
      by_target k s (some none) r end = λ e. cc
      by_target k s (some (some t)) r end =
          kill-Stops k t (resume_caller (points_at k.current_process t) state) s
            (term_target-Target k state t r)
            (resume_caller-Stops (points_at k.current_process t) state)

  block_process-Stops : (k : Kernel) (sem : ℕ) (o : Option ℕ) → Stops (block_process c k sem o)
  unfolding block_process
  block_process-Stops k sem none = λ e. cc
  block_process-Stops k sem (some p) = scheduler-Stops _

  block_current_process-Stops : (k : Kernel) (sem : ℕ) → Stops (block_current_process c k sem)
  unfolding block_current_process
  block_current_process-Stops k sem = block_process-Stops k sem k.current_process

  pub passeren-Stops : (k : Kernel) (state : State) → Stops (passeren c k state)
  unfolding passeren
  passeren-Stops k state =
      with_current_cases Stops k _ (λ e. cc)
        λ p e.
          let k1 = save_state (update_cpu_time k (some p)) p state in
          let k2 : Kernel = set_sem k1 state.reg_a1 (decr (k1.sems state.reg_a1)) in
          if_cases {A = Kernel × Outcome} Stops (ltb_ℤ (k2.sems state.reg_a1) (pos 0)) _ _
            (λ _. block_current_process-Stops k2 state.reg_a1) (λ _ e. cc)

  pub do_io-Stops : (k : Kernel) (state : State) → Stops (do_io c k state)
  unfolding do_io
  do_io-Stops k state =
      if_cases {A = Kernel × Outcome} Stops
        (ltb state.reg_a1 start_devreg || ltb 0x100002D4 state.reg_a1) _ _ (λ _ e. cc)
        (λ _. with_current_cases Stops k _ (λ e. cc) λ p e. block_current_process-Stops _ _)

  pub wait_for_clock-Stops : (k : Kernel) (state : State) → Stops (wait_for_clock c k state)
  unfolding wait_for_clock
  wait_for_clock-Stops k state =
      with_current_cases Stops k _ (λ e. cc) λ p e. block_current_process-Stops _ _

module _ (k : Kernel) (state : State) where
  create_from : (cur : ℕ) (r : Pcbs × Option ℕ) → Stops (finish_create k state cur r)
  unfolding finish_create
  create_from cur (s, none) e = cc
  create_from cur (s, some p) e = cc

  pub create_process-Stops : Stops (create_process k state)
  unfolding create_process
  create_process-Stops =
      with_current_cases Stops k _ (λ e. cc) λ p e. create_from p (alloc_pcb k.pcbs)

  pub verhogen-Stops : Stops (verhogen k state)
  unfolding verhogen
  verhogen-Stops = with_current_cases Stops k _ (λ e. cc) λ p e r. cc

  pub get_cpu_time-Stops : Stops (get_cpu_time k state)
  unfolding get_cpu_time
  get_cpu_time-Stops = with_current_cases Stops k _ (λ e. cc) λ p e r. cc

  pub get_support_data-Stops : Stops (get_support_data k state)
  unfolding get_support_data
  get_support_data-Stops = with_current_cases Stops k _ (λ e. cc) λ p e r. cc

  pub get_process_id-Stops : Stops (get_process_id k state)
  unfolding get_process_id
  get_process_id-Stops = with_current_cases Stops k _ (λ e. cc) λ p e r. cc

  pub yield-Stops : Stops (yield k state)
  unfolding yield
  yield-Stops = with_current_cases Stops k _ (λ e. cc) λ p e. scheduler-Stops _
