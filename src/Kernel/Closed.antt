-- ===== src/Kernel/Closed.antt =====
-- What the nucleus does to its processes, as a few kinds of change. An interface: a predicate on the
-- kernel that survives each of them. Kernel/Closed/Exceptions carries it to exceptionHandler.
pub mod Syscalls
pub mod Killing
pub mod Interrupts
pub mod Exceptions
pub mod Terminate
use sistemi_operativi_proget.Common.{
  ℕ, ◌≡◌, refl, ◌⊎◌, ◌∙◌, subst, ℤ, pos, ◌<ℤ◌, Bool, true, false, Option, none, some, List, [], ◌∷◌,
  arith, if◌then◌else◌, if_cases, ◌==◌, ltb_ℤ, eqb_ℤ, ◌&&◌,
}
use sistemi_operativi_proget.Const.{Platform}
use sistemi_operativi_proget.Types.{State, Pcb, Outcome}
use sistemi_operativi_proget.Pcb.{Pcbs, alloc_from, insert_proc_q}
use sistemi_operativi_proget.Asl.{Asl, remove_blocked}
use sistemi_operativi_proget.Kernel.{Kernel, pcb, set_pcb, incr}
use sistemi_operativi_proget.Kernel.Scheduler.{scheduler, schedule, dispatch, idle}
use sistemi_operativi_proget.Kernel.Functions.{
  save_state, update_cpu_time, mark_blocked, join_semaphore, block_process, block_current_process,
  is_soft_block_semaphore,
}
use sistemi_operativi_proget.Kernel.Functions.Terminate.{enough, recursive_terminate_process}
use sistemi_operativi_proget.Kernel.Syscalls.{admit, adopt}

-- Identifiers, children and priorities are as they were.
pub record Kin (t t' : ℕ → Pcb) : Type 0 where
  pub pid : (x : ℕ) → (t' x).p_pid ≡ (t x).p_pid
  pub child : (x : ℕ) → (t' x).p_child ≡ (t x).p_child
  pub prio : (x : ℕ) → (t' x).p_prio ≡ (t x).p_prio

pub record Unmoved (s s' : Pcbs) (n n' : ℤ) (o o' r r' : Option ℕ) : Type 0 where
  pub kin : Kin s.table s'.table
  pub free : s'.pcb_free ≡ s.pcb_free
  pub next : s'.next_pid ≡ s.next_pid
  pub alive : n' ≡ n
  pub current : o' ≡ o
  pub root : r' ≡ r

-- Processes, their identifiers and their tree are as they were, and so is who runs.
abbrev pub Steady : Kernel → Kernel → Type 0
Steady k k' =
    Unmoved k.pcbs k'.pcbs k.process_count k'.process_count k.current_process k'.current_process
      k.root_process k'.root_process

pub record Resting (s s' : Pcbs) (a a' : Asl) (q q' : List ℕ) : Type 0 where
  pub waits_on : (x : ℕ) → (s'.table x).p_sem_add ≡ (s.table x).p_sem_add
  pub asl : a' ≡ a
  pub ready : q' ≡ q

-- Neither the processes nor the queues that hold them have changed.
abbrev pub Quiet : Kernel → Kernel → Type 0
Quiet k k' = Steady k k' × Resting k.pcbs k'.pcbs k.asl k'.asl k.ready_queue k'.ready_queue

-- The process that removeBlocked took off a semaphore waits no longer, and is ready.
pub record Waking (k k' : Kernel) (sem p : ℕ) : Type 0 where
  pub steady : Steady k k'
  pub waits_on :
      (x : ℕ) → (k'.pcbs.table x).p_sem_add ≡ (if x == p then 0 else (k.pcbs.table x).p_sem_add)
  pub asl : k'.asl ≡ (remove_blocked k.asl sem).0
  pub ready : k'.ready_queue ≡ insert_proc_q k'.pcbs.table k.ready_queue p

-- The processes that a handler terminates: the current one, or one found by its identifier.
abbrev pub Target : Kernel → ℕ → Type 0
Target k t = (k.current_process ≡ some t) ⊎ (pos 0 <ℤ (pcb k t).p_pid)

-- A predicate on the kernel that each kind of change keeps; a process may wait on the semaphores
-- that Fits admits.
pub record Closed (P : Kernel → Type 0) (Fits : Kernel → ℕ → Type 0) : Type 0 where
  pub quiet : (k k' : Kernel) → Quiet k k' → P k → P k'
  pub fits : (k k' : Kernel) (sem : ℕ) → Quiet k k' → Fits k sem → Fits k' sem
  pub dispatched :
      (k : Kernel) (p : ℕ) (q : List ℕ)
      → k.ready_queue ≡ p ∷ q
      → k.current_process ≡ none
      → P k
      → P (record k { ready_queue = q; current_process = some p })
  pub released :
      (k : Kernel) (p : ℕ)
      → k.current_process ≡ some p
      → P k
      → P (record k {
        ready_queue = insert_proc_q k.pcbs.table k.ready_queue p;
        current_process = none;
      })
  pub blocked :
      (k : Kernel) (sem p : ℕ)
      → Fits k sem
      → k.current_process ≡ some p
      → P k
      → P (record (join_semaphore (set_pcb k p (record (pcb k p) { p_sem_add = sem })) sem p) {
        current_process = none;
      })
  pub missed :
      (k : Kernel) (sem : ℕ)
      → (remove_blocked k.asl sem).1 ≡ none
      → P k
      → P (record k { asl = (remove_blocked k.asl sem).0 })
  pub woken :
      (k k' : Kernel) (sem p : ℕ)
      → (remove_blocked k.asl sem).1 ≡ some p
      → Waking k k' sem p
      → P k
      → P k'
  pub created :
      (k : Kernel) (state : State) (cur p : ℕ) (q : List ℕ)
      → k.current_process ≡ some cur
      → k.pcbs.pcb_free ≡ p ∷ q
      → P k
      → P (admit (adopt (record k { pcbs = (alloc_from k.pcbs (p ∷ q)).0 }) p state) cur p)
  pub killed :
      (c : Platform) (k k1 : Kernel) (t : ℕ)
      → Target k t
      → recursive_terminate_process (enough k) c k t ≡ some k1
      → P k
      → P k1
  pub killed_current :
      (c : Platform) (k k1 : Kernel) (t : ℕ)
      → k.current_process ≡ some t
      → recursive_terminate_process (enough k) c k t ≡ some k1
      → P k
      → P (record k1 { current_process = none })

pub Quiet-refl : (k : Kernel) → Quiet k k
Quiet-refl k = (
  record {
    kin = record { pid = λ x. refl; child = λ x. refl; prio = λ x. refl };
    free = refl;
    next = refl;
    alive = refl;
    current = refl;
    root = refl;
  },
  record { waits_on = λ x. refl; asl = refl; ready = refl },
)

-- A block that keeps its identifier, children, priority and semaphore.
pub record SameLinks (b b' : Pcb) : Type 0 where
  pub pid : b'.p_pid ≡ b.p_pid
  pub child : b'.p_child ≡ b.p_child
  pub prio : b'.p_prio ≡ b.p_prio
  pub waits_on : b'.p_sem_add ≡ b.p_sem_add

set_pcb-Quiet : (k : Kernel) (p : ℕ) (b : Pcb) → SameLinks (pcb k p) b → Quiet k (set_pcb k p b)
set_pcb-Quiet k p b e = (
  record {
    kin = record {
      pid = λ x. ground (arith, e.pid);
      child = λ x. ground (arith, e.child);
      prio = λ x. ground (arith, e.prio);
    };
    free = refl;
    next = refl;
    alive = refl;
    current = refl;
    root = refl;
  },
  record { waits_on = λ x. ground (arith, e.waits_on); asl = refl; ready = refl },
)

pub save_state-Quiet : (k : Kernel) (p : ℕ) (state : State) → Quiet k (save_state k p state)
save_state-Quiet k p state =
    set_pcb-Quiet k p (record (pcb k p) { p_s = state })
      (record { pid = refl; child = refl; prio = refl; waits_on = refl })

pub set_time-Quiet :
    (k : Kernel) (p : ℕ) (z : ℤ) → Quiet k (set_pcb k p (record (pcb k p) { p_time = z }))
set_time-Quiet k p z =
    set_pcb-Quiet k p (record (pcb k p) { p_time = z })
      (record { pid = refl; child = refl; prio = refl; waits_on = refl })

pub update_cpu_time-Quiet : (k : Kernel) (o : Option ℕ) → Quiet k (update_cpu_time k o)
unfolding update_cpu_time
update_cpu_time-Quiet k none = Quiet-refl k
update_cpu_time-Quiet k (some p) = set_time-Quiet k p _

idle-Quiet : (k : Kernel) → Quiet k (idle k).0
unfolding idle
idle-Quiet k =
    if_cases {A = Kernel × Outcome} (λ r. Quiet k r.0) (eqb_ℤ k.process_count (pos 0)) _ _
      (λ _. Quiet-refl k)
      (λ _.
        if_cases {A = Kernel × Outcome} (λ r. Quiet k r.0)
          (ltb_ℤ (pos 0) k.process_count && ltb_ℤ (pos 0) k.soft_block_count) _ _
          (λ _. Quiet-refl k)
          (λ _.
            if_cases {A = Kernel × Outcome} (λ r. Quiet k r.0)
              (ltb_ℤ (pos 0) k.process_count && eqb_ℤ k.soft_block_count (pos 0)) _ _
              (λ _. Quiet-refl k) (λ _. Quiet-refl k)))

-- The soft-block count may be updated before the process notes its semaphore.
counted_first :
    (c : Platform) (k : Kernel) (sem x : ℕ)
    → (let counted : Kernel = record k {
      soft_block_count =
          if is_soft_block_semaphore c sem then incr k.soft_block_count else k.soft_block_count;
    } in
        set_pcb counted x (record (pcb counted x) { p_sem_add = sem }))
      ≡ mark_blocked c k sem x
unfolding mark_blocked
counted_first c k sem x = by_test (is_soft_block_semaphore c sem)
  where
    by_test :
        (b : Bool)
        → (let k1 = set_pcb k x (record (pcb k x) { p_sem_add = sem }) in
            (record k1 {
              soft_block_count = if b then incr k.soft_block_count else k.soft_block_count;
            })
            ≡ (if b then record k1 { soft_block_count = incr k1.soft_block_count } else k1))
    by_test true = refl
    by_test false = refl

module _ {P : Kernel → Type 0} {Fits : Kernel → ℕ → Type 0} (laws : Closed P Fits) where
  schedule-keeps :
      (k : Kernel) (q : List ℕ)
      → k.ready_queue ≡ q
      → k.current_process ≡ none
      → P k
      → P (schedule k q).0
  unfolding schedule dispatch
  schedule-keeps k [] e h p = laws.quiet k (idle k).0 (idle-Quiet k) p
  schedule-keeps k (x ∷ q) e h p =
      let k1 : Kernel = record k { ready_queue = q; current_process = some x } in
      laws.quiet k1 _ (Quiet-refl k1) (laws.dispatched k x q e h p)

  pub scheduler-keeps : (k : Kernel) → k.current_process ≡ none → P k → P (scheduler k).0
  unfolding scheduler
  scheduler-keeps k h p = schedule-keeps k k.ready_queue refl h p

  pub save_state-keeps : (k : Kernel) (x : ℕ) (state : State) → P k → P (save_state k x state)
  save_state-keeps k x state p = laws.quiet k (save_state k x state) (save_state-Quiet k x state) p

  pub update_cpu_time-keeps : (k : Kernel) (o : Option ℕ) → P k → P (update_cpu_time k o)
  update_cpu_time-keeps k o p = laws.quiet k (update_cpu_time k o) (update_cpu_time-Quiet k o) p

  block_process-keeps :
      (c : Platform) (k : Kernel) (sem : ℕ) (o : Option ℕ)
      → k.current_process ≡ o
      → Fits k sem
      → P k
      → P (block_process c k sem o).0
  unfolding block_process mark_blocked
  block_process-keeps c k sem none e f p = p
  block_process-keeps c k sem (some x) e f p =
      let k1 = update_cpu_time k (some x) in
      let timed = update_cpu_time-Quiet k (some x) in
      let counted : Kernel = record k1 {
        soft_block_count =
            if is_soft_block_semaphore c sem then incr k1.soft_block_count else k1.soft_block_count;
      } in
      let marked = set_pcb counted x (record (pcb counted x) { p_sem_add = sem }) in
      scheduler-keeps _ refl (
        subst (λ (b : Kernel). P (record (join_semaphore b sem x) { current_process = none }))
          (counted_first c k1 sem x)
          (laws.blocked counted sem x (laws.fits k counted sem timed f) (timed.0.current ∙ e)
            (laws.quiet k counted timed p)))

  pub block_current_process-keeps :
      (c : Platform) (k : Kernel) (sem : ℕ) → Fits k sem → P k → P (block_current_process c k sem).0
  unfolding block_current_process
  block_current_process-keeps c k sem f p = block_process-keeps c k sem k.current_process refl f p
