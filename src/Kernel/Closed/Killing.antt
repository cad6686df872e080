-- ===== src/Kernel/Closed/Killing.antt =====
-- terminateProcess of phase2/exception.c and passUpOrDie of phase2/functions.c keep what each kind
-- of change keeps.
use sistemi_operativi_proget.Common.{
  ℕ, suc, ◌≡◌, refl, ◌∙◌, inl, inr, ℤ, pos, ◌<ℤ◌, eqb_ℤ, ltb_ℤ, to_int, Bool, true, false, Option,
  none, some, arith, if◌then◌else◌, if_cases, ◌==◌,
}
use sistemi_operativi_proget.Const.{Platform, max_proc}
use sistemi_operativi_proget.Types.{State, Outcome}
use sistemi_operativi_proget.Kernel.{Kernel, pcb, with_current_cases}
use sistemi_operativi_proget.Kernel.Scheduler.{scheduler}
use sistemi_operativi_proget.Kernel.Functions.{save_state, update_cpu_time, find_in_tree}
use sistemi_operativi_proget.Kernel.Functions.Found.{find_in_tree-Found}
use sistemi_operativi_proget.Kernel.Functions.Terminate.{
  kill, enough, recursive_terminate_process, pass_up_or_die,
}
use sistemi_operativi_proget.Kernel.Syscalls.{
  term_target, points_at, resume_caller, terminate_process,
}
use sistemi_operativi_proget.Kernel.Closed.{
  Quiet-refl, Target, Closed, update_cpu_time-Quiet, scheduler-keeps, save_state-keeps,
  update_cpu_time-keeps,
}

-- The process that terminateProcess goes for is the current one or was found by its identifier.
pub term_target-Target :
    (k : Kernel) (state : State) (t : ℕ) → term_target k state ≡ some (some t) → Target k t
unfolding term_target
term_target-Target k state t e = by_argument (eqb_ℤ (to_int state.reg_a1) (pos 0)) refl e
  where
    by_argument :
        (b : Bool)
        → eqb_ℤ (to_int state.reg_a1) (pos 0) ≡ b
        → ◌≡◌ {A = Option (Option ℕ)}
            (if b
              then some k.current_process
              else find_in_tree (suc (suc max_proc)) k.pcbs (to_int state.reg_a1) k.root_process)
            (some (some t))
        → Target k t
    by_argument true h r = inl cc
    by_argument false h r =
        let found =
          find_in_tree-Found (suc (suc max_proc)) k.pcbs (to_int state.reg_a1) k.root_process t r in
        inr (positive (pcb k t).p_pid (to_int state.reg_a1) found.0 found.1 h)
      where
        positive :
            (z w : ℤ)
            → ltb_ℤ z (pos 0) ≡ false
            → eqb_ℤ z w ≡ true
            → eqb_ℤ w (pos 0) ≡ false
            → pos 0 <ℤ z
        positive z w live same other = ground (arith, live, same, other)

module _ {P : Kernel → Type 0} {Fits : Kernel → ℕ → Type 0} (laws : Closed P Fits) where
  abbrev After : Kernel × Outcome → Type 0
  After r = P r.0

  kill-keeps :
      (c : Platform) (k : Kernel) (t : ℕ) (next : Kernel → Kernel × Outcome)
      → P k
      → ((k1 : Kernel) → recursive_terminate_process (enough k) c k t ≡ some k1 → P (next k1).0)
      → P (kill c k t next).0
  kill-keeps c k t next p go = by_result (recursive_terminate_process (enough k) c k t) refl
    where
      by_result :
          (o : Option Kernel)
          → recursive_terminate_process (enough k) c k t ≡ o
          → After (elim o [ none ↦ (k, Outcome.out_of_fuel) | some k1 ↦ next k1 ])
      by_result none e = p
      by_result (some k1) e = go k1 e

  resume_other-keeps :
      (k : Kernel) (state : State) (o : Option ℕ)
      → k.current_process ≡ o
      → P k
      → After
          (elim o [ none ↦ scheduler k | some cur ↦ (save_state k cur state, Outcome.ldst state) ])
  resume_other-keeps k state none e p = scheduler-keeps laws k e p
  resume_other-keeps k state (some x) e p = save_state-keeps laws k x state p

  terminate-keeps :
      (c : Platform) (k : Kernel) (state : State) (t : ℕ) (b : Bool)
      → points_at k.current_process t ≡ b
      → Target k t
      → P k
      → P (kill c k t (resume_caller b state)).0
  unfolding resume_caller
  terminate-keeps c k state t true e g p = kill-keeps c k t (resume_caller true state) p λ k1 r.
      scheduler-keeps laws (record k1 { current_process = none }) refl
        (laws.killed_current c k k1 t (points_at-some k.current_process t e) r p)
    where
      points_at-some : (o : Option ℕ) (t : ℕ) → points_at o t ≡ true → o ≡ some t
      points_at-some none t e = cc
      points_at-some (some x) t e = ground (arith, e)
  terminate-keeps c k state t false e g p =
      kill-keeps c k t (resume_caller false state) p
        λ k1 r. resume_other-keeps k1 state k1.current_process refl (laws.killed c k k1 t g r p)

  by_target :
      (c : Platform) (k : Kernel) (state : State) (o : Option (Option ℕ))
      → term_target k state ≡ o
      → P k
      → After (elim o [
        | none ↦ (k, Outcome.out_of_fuel)
        | some none ↦ (k, Outcome.ldst state)
        | some (some t) ↦ kill c k t (resume_caller (points_at k.current_process t) state)
      ])
  by_target c k state none e p = p
  by_target c k state (some none) e p = p
  by_target c k state (some (some t)) e p =
      terminate-keeps c k state t (points_at k.current_process t) refl
        (term_target-Target k state t e) p

  pub terminate_process-keeps :
      (c : Platform) (k : Kernel) (state : State) → P k → P (terminate_process c k state).0
  unfolding terminate_process
  terminate_process-keeps c k state p =
      let k1 = update_cpu_time k k.current_process in
      by_target c k1 state (term_target k1 state) refl
        (update_cpu_time-keeps laws k k.current_process p)

  pub pass_up_or_die-keeps :
      (c : Platform) (k : Kernel) (kind : ℕ) (state : State)
      → P k
      → P (pass_up_or_die c k kind state).0
  unfolding pass_up_or_die
  pass_up_or_die-keeps c k kind state p =
      with_current_cases (λ r. P r.0) k _ p
        λ x e.
          let sup = (pcb k x).p_support_struct in
          let k1 = update_cpu_time k (some x) in
          if_cases {A = Kernel × Outcome} (λ r. P r.0) (sup == 0) _ _
            (λ _.
              kill-keeps c k1 x (λ k2. scheduler (record k2 { current_process = none }))
                (update_cpu_time-keeps laws k (some x) p)
                (λ k2 r.
                  scheduler-keeps laws (record k2 { current_process = none }) refl
                    (laws.killed_current c k1 k2 x
                      ((update_cpu_time-Quiet k (some x)).0.current ∙ e) r
                      (update_cpu_time-keeps laws k (some x) p))))
            (λ _. laws.quiet k _ (Quiet-refl k) p)
