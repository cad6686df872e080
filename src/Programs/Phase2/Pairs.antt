-- ===== src/Programs/Phase2/Pairs.antt =====
-- phase2/p2test.c: the V and P calls with which `test` opens and which p2 makes on each semaphore of
-- the array s, as calls of verhogen and passeren on the kernel.
use sistemi_operativi_proget.Common.{
  ℕ, zero, suc, ◌+◌, ◌≡◌, refl, ap, ◌∙◌, ℤ, pos, ◌+ℤ◌, ltb_ℤ, eqb_ℤ, Bool, true, false, some, arith,
  if◌then◌else◌, if_cases, ◌==◌, subst, Bool-cases, inl, inr, ==→eq,
}
use sistemi_operativi_proget.Const.{Platform}
use sistemi_operativi_proget.Types.{State, Outcome}
use sistemi_operativi_proget.Kernel.{Kernel, pcb, set_sem, incr, decr, with_current_runs}
use sistemi_operativi_proget.Kernel.Functions.{save_state, update_cpu_time, block_current_process}
use sistemi_operativi_proget.Kernel.Syscalls.{passeren, verhogen, wake_first}

-- The caller's registers at a call on the semaphore.
abbrev pub on : State → ℕ → State
on state sem = record state { reg_a1 = sem }

-- n times `SYSCALL(VERHOGEN, sem, 0, 0)`, where the caller goes on after each.
unfoldable pub v_rounds : ℕ → ℕ → State → Kernel → Kernel
v_rounds zero sem state k = k
v_rounds (suc n) sem state k = v_rounds n sem state (verhogen k (on state sem)).0

-- n times `SYSCALL(PASSEREN, sem, 0, 0)`.
unfoldable pub p_rounds : ℕ → Platform → ℕ → State → Kernel → Kernel
p_rounds zero c sem state k = k
p_rounds (suc n) c sem state k = p_rounds n c sem state (passeren c k (on state sem)).0

-- The loop of p2 over s[i], s[i + 1], ..., with n semaphores left; FALSE where one is not 0 after its
-- pair of calls.
unfoldable pub pair_rounds : ℕ → ℕ → Platform → (ℕ → ℕ) → State → Kernel → Bool × Kernel
pair_rounds zero i c s state k = (true, k)
pair_rounds (suc n) i c s state k =
    let k1 = p_rounds 1 c (s i) state (v_rounds 1 (s i) state k) in
    let (fine, k2) = pair_rounds n (i + 1) c s state k1 in
    ((if eqb_ℤ (k1.sems (s i)) (pos 0) then fine else false), k2)

-- A call that only moved the value of the semaphore: the caller runs on, and every queue is as it was.
pub record Moved (k k' : Kernel) (p sem : ℕ) (z : ℤ) : Type 0 where
  pub value : k'.sems sem ≡ z
  pub others : (x : ℕ) → (x == sem) ≡ false → k'.sems x ≡ k.sems x
  pub asl : k'.asl ≡ k.asl
  pub runs : k'.current_process ≡ some p

incr_pos : (m : ℕ) → incr (pos m) ≡ pos (suc m)
unfolding ◌+ℤ◌
incr_pos m = ground arith

decr_pos : (m : ℕ) → decr (pos (suc m)) ≡ pos m
unfolding ◌+ℤ◌
decr_pos m = ground arith

verhogen-Moved :
    (k : Kernel) (state : State) (p m : ℕ)
    → k.current_process ≡ some p
    → k.sems state.reg_a1 ≡ pos m
    → Moved k (verhogen k state).0 p state.reg_a1 (pos (suc m))
unfolding verhogen update_cpu_time
verhogen-Moved k state p m e v =
    let sem = state.reg_a1 in
    let k1 = save_state (update_cpu_time k (some p)) p state in
    let k2 = set_sem k1 sem (incr (k1.sems sem)) in
    let up : k2.sems sem ≡ pos (suc m) = ground (arith, ap incr v, incr_pos m) in
    with_current_runs (λ r. Moved k r.0 p sem (pos (suc m))) k _ p e
      (if_cases {A = Kernel} (λ k3. Moved k k3 p sem (pos (suc m))) (ltb_ℤ (pos 0) (k2.sems sem)) k2
        (wake_first k2 sem)
        (λ _. record { value = up; others = λ x n. ground (arith, n); asl = refl; runs = e })
        (λ l. absurd (ground (arith, l, up))))

passeren-Moved :
    (c : Platform) (k : Kernel) (state : State) (p m : ℕ)
    → k.current_process ≡ some p
    → k.sems state.reg_a1 ≡ pos (suc m)
    → Moved k (passeren c k state).0 p state.reg_a1 (pos m)
unfolding passeren update_cpu_time
passeren-Moved c k state p m e v =
    let sem = state.reg_a1 in
    let k1 = save_state (update_cpu_time k (some p)) p state in
    let k2 = set_sem k1 sem (decr (k1.sems sem)) in
    let down : k2.sems sem ≡ pos m = ground (arith, ap decr v, decr_pos m) in
    with_current_runs (λ r. Moved k r.0 p sem (pos m)) k _ p e
      (if_cases {A = Kernel × Outcome} (λ r. Moved k r.0 p sem (pos m))
        (ltb_ℤ (k2.sems sem) (pos 0)) (block_current_process c k2 sem)
        (k2, Outcome.ldst (pcb k2 p).p_s) (λ l. absurd (ground (arith, l, down)))
        (λ _. record { value = down; others = λ x n. ground (arith, n); asl = refl; runs = e }))

then_Moved :
    {k k1 k2 : Kernel} {p sem : ℕ} {y z : ℤ}
    → Moved k k1 p sem y
    → Moved k1 k2 p sem z
    → Moved k k2 p sem z
then_Moved a b = record {
  value = b.value;
  others = λ x n. b.others x n ∙ a.others x n;
  asl = b.asl ∙ a.asl;
  runs = b.runs;
}

-- n calls V of the running process on a semaphore whose value m is not negative make the value
-- m + n: the process runs on, the queues and the other semaphores are as they were.
pub v_rounds-Moved :
    (n : ℕ) (k : Kernel) (state : State) (p sem m : ℕ)
    → k.current_process ≡ some p
    → k.sems sem ≡ pos m
    → Moved k (v_rounds n sem state k) p sem (pos (m + n))
unfolding v_rounds
v_rounds-Moved zero k state p sem m e v = record {
  value = v ∙ ap pos (omega arith);
  others = λ x n. refl;
  asl = refl;
  runs = e;
}
v_rounds-Moved (suc n) k state p sem m e v =
    let first = verhogen-Moved k (on state sem) p m e v in
    let rest =
      v_rounds-Moved n (verhogen k (on state sem)).0 state p sem (suc m) first.runs first.value in
    subst (λ z. Moved k (v_rounds n sem state (verhogen k (on state sem)).0) p sem (pos z))
      (shift m n) (then_Moved first rest)
  where
    shift : (m n : ℕ) → suc m + n ≡ m + suc n
    shift m n = omega arith

-- n calls P of the running process on a semaphore whose value is m + n make the value m, and do not
-- block it.
pub p_rounds-Moved :
    (n : ℕ) (c : Platform) (k : Kernel) (state : State) (p sem m : ℕ)
    → k.current_process ≡ some p
    → k.sems sem ≡ pos (m + n)
    → Moved k (p_rounds n c sem state k) p sem (pos m)
unfolding p_rounds
p_rounds-Moved zero c k state p sem m e v = record {
  value = v ∙ ap pos (omega arith);
  others = λ x n. refl;
  asl = refl;
  runs = e;
}
p_rounds-Moved (suc n) c k state p sem m e v =
    let first = passeren-Moved c k (on state sem) p (m + n) e (v ∙ ap pos (shift m n)) in
    let rest =
      p_rounds-Moved n c (passeren c k (on state sem)).0 state p sem m first.runs first.value in
    then_Moved first rest
  where
    shift : (m n : ℕ) → m + suc n ≡ suc (m + n)
    shift m n = omega arith

-- n calls V and then n calls P of the running process, on a semaphore whose value is not negative,
-- leave that value, every other semaphore and all queues of blocked processes as they were, and the
-- process runs on; in between the value is higher by n.
pub v_then_p :
    (n : ℕ) (c : Platform) (k : Kernel) (state : State) (p sem m : ℕ)
    → k.current_process ≡ some p
    → k.sems sem ≡ pos m
    → (let raised = v_rounds n sem state k in
        (raised.sems sem ≡ pos (m + n)) × Moved k (p_rounds n c sem state raised) p sem (pos m))
v_then_p n c k state p sem m e v =
    let up = v_rounds-Moved n k state p sem m e v in
    (
      up.value,
      then_Moved up (p_rounds-Moved n c (v_rounds n sem state k) state p sem m up.runs up.value),
    )

-- The loop of p2 over semaphores that are all 0: every check holds, and p2 runs on.
pub pair_rounds_pass :
    (n i : ℕ) (c : Platform) (s : ℕ → ℕ) (state : State) (k : Kernel) (p : ℕ)
    → k.current_process ≡ some p
    → ((j : ℕ) → k.sems (s j) ≡ pos 0)
    → (let r = pair_rounds n i c s state k in
        (r.0 ≡ true)
        × (r.1.asl ≡ k.asl)
        × (r.1.current_process ≡ some p)
        × ((j : ℕ) → r.1.sems (s j) ≡ pos 0))
unfolding pair_rounds
pair_rounds_pass zero i c s state k p e z = (refl, refl, e, z)
pair_rounds_pass (suc n) i c s state k p e z =
    let k1 = p_rounds 1 c (s i) state (v_rounds 1 (s i) state k) in
    let pair = (v_then_p 1 c k state p (s i) 0 e (z i)).1 in
    let clear : (j : ℕ) → k1.sems (s j) ≡ pos 0 = λ j. elim (Bool-cases (s j == s i)) [
      | inl same ↦ ap k1.sems (==→eq (s j) (s i) same) ∙ pair.value
      | inr other ↦ pair.others (s j) other ∙ z j
    ] in
    let rest = pair_rounds_pass n (i + 1) c s state k1 p pair.runs clear in
    let fine : eqb_ℤ (k1.sems (s i)) (pos 0) ≡ true = ground (arith, clear i) in
    (rw fine rest.0, rest.1 ∙ pair.asl, rest.2, rest.3)
