-- ===== src/Kernel/Choice.antt =====
-- Which process phase2/scheduler.c runs next: after yield of phase2/exception.c, and with no process
-- ready.
use sistemi_operativi_proget.Common.{
  ℕ, ◌+◌, ◌≡◌, refl, sym, ap, ◌∙◌, ◌≢◌, ◌⊎◌, inl, inr, ℤ, pos, ◌+ℤ◌, ◌-ℤ◌, ◌≤ℤ◌, ◌<ℤ◌, ltb_ℤ, none,
  some, List, [], ◌∷◌, arith, hit, count, Bool-cases, subst, ◌==◌, ==→eq,
}
use sistemi_operativi_proget.Types.{State, Pcb, Outcome}
use sistemi_operativi_proget.Pcb.{insert_proc_q}
use sistemi_operativi_proget.Pcb.Queue.{AtMost, IsSorted, found, count-insert_proc_q}
use sistemi_operativi_proget.Kernel.{Kernel, pcb, with_current_runs}
use sistemi_operativi_proget.Kernel.Functions.{save_state, update_cpu_time}
use sistemi_operativi_proget.Kernel.Scheduler.{scheduler, schedule, dispatch, idle}
use sistemi_operativi_proget.Kernel.Syscalls.{yield}
use sistemi_operativi_proget.Kernel.Sound.{Sound, IsSorted-ext}

AtMost-member :
    (t : ℕ → Pcb) (b : ℤ) (q : List ℕ) (x : ℕ) → AtMost t b q → count x q ≢ 0 → (t x).p_prio ≤ℤ b
AtMost-member t b [] x m n = absurd (n refl)
AtMost-member t b (c ∷ q) x m n = elim (Bool-cases (x == c)) [
  | inl same ↦ rw (==→eq x c same) m.0
  | inr other ↦ AtMost-member t b q x m.1 (λ z. n (ground (arith, z, other)))
]

-- The front of a queue that p has entered: it has the highest priority of all, and is another than p
-- where one of at least p's priority was there.
record Front (t : ℕ → Pcb) (q : List ℕ) (p : ℕ) : Type 0 where
  pub first : ℕ
  pub rest : List ℕ
  pub queue : insert_proc_q t q p ≡ first ∷ rest
  pub highest : (x : ℕ) → (count x q ≢ 0) ⊎ (x ≡ p) → (t x).p_prio ≤ℤ (t first).p_prio
  pub fair : (x : ℕ) → count x q ≢ 0 → (t p).p_prio ≤ℤ (t x).p_prio → first ≢ p

front : (t : ℕ → Pcb) (q : List ℕ) (p : ℕ) → IsSorted t q → count p q ≡ 0 → Front t q p
unfolding insert_proc_q
front t [] p s out = record {
  first = p;
  rest = [];
  queue = refl;
  highest = λ x h. elim h [ inl n ↦ absurd (n refl) | inr e ↦ rw e (omega arith) ];
  fair = λ x n h. absurd (n refl);
}
front t (c ∷ q) p s out =
    let behind : (x : ℕ) → count x (c ∷ q) ≢ 0 → (t x).p_prio ≤ℤ (t c).p_prio =
      λ x n. AtMost-member t (t c).p_prio (c ∷ q) x (omega arith, s.0) n in
    elim (Bool-cases (ltb_ℤ (t c).p_prio (t p).p_prio)) [
      | inl less ↦ record {
        first = p;
        rest = c ∷ q;
        queue = rw less refl;
        highest =
            λ x h. elim h [ inl n ↦ ground (arith, less, behind x n) | inr e ↦ rw e (omega arith) ];
        fair = λ x n h. absurd (ground (arith, less, h, behind x n));
      }
      | inr more ↦ record {
        first = c;
        rest = insert_proc_q t q p;
        queue = rw more refl;
        highest = λ x h. elim h [ inl n ↦ behind x n | inr e ↦ rw e (ground (arith, more)) ];
        fair = λ x n h e. ground (arith, out, e);
      }
    ]

-- What a yield of p does: the process that runs next has the highest priority of p and all ready
-- processes, and it is not p where another of at least p's priority is ready; it starts from where
-- it stopped; the others stay ready, p with them; p is charged for the time that it ran, and the new
-- quantum counts from the next reading of the clock.
pub record HandsOver (k : Kernel) (state : State) (p : ℕ) (r : Kernel × Outcome) : Type 0 where
  pub chosen : ℕ
  pub running : r.0.current_process ≡ some chosen
  pub highest :
      (x : ℕ) → (count x k.ready_queue ≢ 0) ⊎ (x ≡ p) → (pcb k x).p_prio ≤ℤ (pcb k chosen).p_prio
  pub fair : (x : ℕ) → count x k.ready_queue ≢ 0 → (pcb k p).p_prio ≤ℤ (pcb k x).p_prio → chosen ≢ p
  pub others : (x : ℕ) → hit x chosen + count x r.0.ready_queue ≡ hit x p + count x k.ready_queue
  pub resumes : chosen ≢ p → r.1 ≡ Outcome.ldst (pcb k chosen).p_s
  pub continues : chosen ≡ p → r.1 ≡ Outcome.ldst state
  pub charged : (pcb r.0 p).p_time ≡ (pcb k p).p_time +ℤ (k.clock k.clock_reads -ℤ k.start_time)
  pub quantum : r.0.start_time ≡ k.clock (k.clock_reads + 1)

-- Where the kernel is sound, a process p that yields gives the processor to the ready process of the
-- highest priority, p counted, and to another than p if one of at least p's priority is ready. The one
-- chosen goes on from its saved state, or p from the state at the call; whoever is not chosen stays
-- ready, once for each time that it was in the queue, and p once more; p is charged for the time
-- since its quantum began, and the next quantum starts from the clock.
pub yield-HandsOver :
    (k : Kernel) (state : State) (p : ℕ)
    → Sound k
    → k.current_process ≡ some p
    → HandsOver k state p (yield k state)
unfolding yield update_cpu_time scheduler schedule dispatch
yield-HandsOver k state p s e =
    let k1 = save_state (update_cpu_time k (some p)) p state in
    let prio : (x : ℕ) → (pcb k1 x).p_prio ≡ (pcb k x).p_prio = λ x. ground arith in
    let out : count p k.ready_queue ≡ 0 = ground (arith, s.0.once p, ap (found p) e) in
    let sorted = IsSorted-ext k.pcbs.table k1.pcbs.table k.ready_queue (λ x n. prio x) s.0.sorted in
    let f = front k1.pcbs.table k.ready_queue p sorted out in
    with_current_runs (HandsOver k state p) k _ p e (
      subst
        (λ q. HandsOver k state p (
          schedule
            (record k1 {
              ready_queue = insert_proc_q k1.pcbs.table k.ready_queue p;
              current_process = none;
            })
            q))
        (sym f.queue)
        (record {
          chosen = f.first;
          running = refl;
          highest = λ x h. rw (sym (prio x), sym (prio f.first)) (f.highest x h);
          fair = λ x n h. f.fair x n (rw (prio x, prio p) h);
          others =
              λ x. ap (count x) (sym f.queue) ∙ count-insert_proc_q k1.pcbs.table x k.ready_queue p;
          resumes = λ n. ground (arith, n);
          continues = λ same. ground (arith, same);
          charged = ground arith;
          quantum = refl;
        }))

schedule_idle :
    (k : Kernel) (q : List ℕ)
    → q ≡ []
    → pos 0 ≤ℤ k.process_count
    → pos 0 ≤ℤ k.soft_block_count
    → (((schedule k q).1 ≡ Outcome.halt) × (k.process_count ≡ pos 0))
      ⊎ (((schedule k q).1 ≡ Outcome.wait)
          × (pos 0 <ℤ k.process_count)
          × (pos 0 <ℤ k.soft_block_count))
      ⊎ (((schedule k q).1 ≡ Outcome.panic)
          × (pos 0 <ℤ k.process_count)
          × (k.soft_block_count ≡ pos 0))
unfolding schedule idle
schedule_idle k [] e a b = ground arith
schedule_idle k (p ∷ q) e a b = cc

-- With no process ready and counters that are not negative, the scheduler halts exactly when no
-- process is left, waits exactly when one is soft-blocked, and panics exactly in a deadlock.
pub scheduler_idle :
    (k : Kernel)
    → k.ready_queue ≡ []
    → pos 0 ≤ℤ k.process_count
    → pos 0 ≤ℤ k.soft_block_count
    → (((scheduler k).1 ≡ Outcome.halt) × (k.process_count ≡ pos 0))
      ⊎ (((scheduler k).1 ≡ Outcome.wait)
          × (pos 0 <ℤ k.process_count)
          × (pos 0 <ℤ k.soft_block_count))
      ⊎ (((scheduler k).1 ≡ Outcome.panic)
          × (pos 0 <ℤ k.process_count)
          × (k.soft_block_count ≡ pos 0))
unfolding scheduler
scheduler_idle k e a b = schedule_idle k k.ready_queue e a b
