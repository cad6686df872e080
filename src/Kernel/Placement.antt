-- ===== src/Kernel/Placement.antt =====
-- Where a process is: on the list of free blocks, in the ready queue, in a semaphore's queue, or
-- on the processor. A process has one p_list link, so the queues of the model stand for those of
-- the code only as long as no process is in two places; here, how the kernel moves processes.
use sistemi_operativi_proget.Common.{
  ℕ, ◌+◌, ◌≡◌, refl, ◌≢◌, ap, ◌∙◌, sym, false, Option, none, some, List, [], ◌∷◌, arith, hit, count,
}
use sistemi_operativi_proget.Const.{Platform}
use sistemi_operativi_proget.Pcb.Queue.{found}
use sistemi_operativi_proget.Asl.{Asl, insert_blocked}
use sistemi_operativi_proget.Asl.Cases.{
  Insertion, known, new, full, insertion, insert-known, insert-new, insert-full,
}
use sistemi_operativi_proget.Asl.Count.{waiting, waiting-insert_blocked}
use sistemi_operativi_proget.Kernel.{Kernel}
use sistemi_operativi_proget.Kernel.Scheduler.{schedule, scheduler, idle, dispatch}
use sistemi_operativi_proget.Kernel.Functions.{
  update_cpu_time, mark_blocked, join_semaphore, block_process, block_current_process,
}

-- In how many places a process is.
abbrev pub placed : Kernel → ℕ → ℕ
placed k x =
    count x k.pcbs.pcb_free
    + (count x k.ready_queue + (waiting x k.asl.semd_h + found x k.current_process))

idle-placed : (k : Kernel) (x : ℕ) → placed (idle k).0 x ≡ placed k x
unfolding idle
idle-placed k x = ground arith

schedule-placed :
    (k : Kernel) (q : List ℕ) (x : ℕ)
    → k.ready_queue ≡ q
    → k.current_process ≡ none
    → placed (schedule k q).0 x ≡ placed k x
unfolding schedule dispatch
schedule-placed k [] x e h = idle-placed k x
schedule-placed k (p ∷ q) x e h = rw (e, h) (omega arith)

-- The scheduler, entered with no current process, moves the head of the ready queue onto the
-- processor, and nothing else.
pub scheduler-placed :
    (k : Kernel) (x : ℕ) → k.current_process ≡ none → placed (scheduler k).0 x ≡ placed k x
unfolding scheduler
scheduler-placed k x h = schedule-placed k k.ready_queue x refl h

update_cpu_time-placed :
    (k : Kernel) (o : Option ℕ) (x : ℕ) → placed (update_cpu_time k o) x ≡ placed k x
unfolding update_cpu_time
update_cpu_time-placed k none x = refl
update_cpu_time-placed k (some p) x = refl

-- insertBlocked answers FALSE as long as a descriptor is free.
insert_blocked-fits :
    (k : Kernel) (sem p : ℕ) → k.asl.semd_free ≢ [] → (insert_blocked k.pcbs k.asl sem p).2 ≡ false
insert_blocked-fits k sem p free = by_case (insertion k.asl sem)
  where
    by_case : Insertion k.asl sem → (insert_blocked k.pcbs k.asl sem p).2 ≡ false
    by_case (known d e) = rw (insert-known k.pcbs k.asl sem p d e)
    by_case (new d rest e f) = rw (insert-new k.pcbs k.asl sem p d rest e f)
    by_case (full e f) = absurd (free f)

pub insert_blocked-pcb_free :
    (k : Kernel) (sem p : ℕ) → (insert_blocked k.pcbs k.asl sem p).0.pcb_free ≡ k.pcbs.pcb_free
insert_blocked-pcb_free k sem p = by_case (insertion k.asl sem)
  where
    by_case : Insertion k.asl sem → (insert_blocked k.pcbs k.asl sem p).0.pcb_free ≡ k.pcbs.pcb_free
    by_case (known d e) = rw (insert-known k.pcbs k.asl sem p d e)
    by_case (new d rest e f) = rw (insert-new k.pcbs k.asl sem p d rest e f)
    by_case (full e f) = rw (insert-full k.pcbs k.asl sem p e f)

pub join_semaphore-placed :
    (k : Kernel) (sem p x : ℕ)
    → k.asl.semd_free ≢ []
    → placed (join_semaphore k sem p) x ≡ hit x p + placed k x
unfolding join_semaphore
join_semaphore-placed k sem p x free = omega (
  arith,
  waiting-insert_blocked x k.pcbs k.asl sem p (insert_blocked-fits k sem p free),
  ap (count x) (insert_blocked-pcb_free k sem p),
)

-- Nothing that placement looks at has changed.
pub record SamePlaces (k k' : Kernel) : Type 0 where
  pub free : k'.pcbs.pcb_free ≡ k.pcbs.pcb_free
  pub ready : k'.ready_queue ≡ k.ready_queue
  pub asl : k'.asl ≡ k.asl
  pub current : k'.current_process ≡ k.current_process

SamePlaces-placed : {k k' : Kernel} (x : ℕ) → SamePlaces k k' → placed k' x ≡ placed k x
SamePlaces-placed x s = rw (s.free, s.ready, s.asl, s.current)

update_cpu_time-SamePlaces : (k : Kernel) (o : Option ℕ) → SamePlaces k (update_cpu_time k o)
unfolding update_cpu_time
update_cpu_time-SamePlaces k none = record { free = refl; ready = refl; asl = refl; current = refl }
update_cpu_time-SamePlaces k (some p) = record {
  free = refl;
  ready = refl;
  asl = refl;
  current = refl;
}

SamePlaces-trans : {k k1 k2 : Kernel} → SamePlaces k k1 → SamePlaces k1 k2 → SamePlaces k k2
SamePlaces-trans s t = record {
  free = t.free ∙ s.free;
  ready = t.ready ∙ s.ready;
  asl = t.asl ∙ s.asl;
  current = t.current ∙ s.current;
}

module _ (c : Platform) where
  mark_blocked-SamePlaces : (k : Kernel) (sem p : ℕ) → SamePlaces k (mark_blocked c k sem p)
  unfolding mark_blocked
  mark_blocked-SamePlaces k sem p = record {
    free = ground arith;
    ready = ground arith;
    asl = ground arith;
    current = ground arith;
  }

  block_process-placed :
      (k : Kernel) (sem x : ℕ) (o : Option ℕ)
      → k.current_process ≡ o
      → k.asl.semd_free ≢ []
      → placed (block_process c k sem o).0 x ≡ placed k x
  unfolding block_process join_semaphore
  block_process-placed k sem x none e free = refl
  block_process-placed k sem x (some p) e free =
      let timed = update_cpu_time k (some p) in
      let marked = mark_blocked c timed sem p in
      let same =
        SamePlaces-trans (update_cpu_time-SamePlaces k (some p))
          (mark_blocked-SamePlaces timed sem p) in
      let joined =
        join_semaphore-placed marked sem p x (λ f. free (ap Asl.semd_free (sym same.asl) ∙ f)) in
      scheduler-placed _ x refl
      ∙ omega (arith, SamePlaces-placed x same, ap (found x) (same.current ∙ e))

  -- Blocking moves the current process into the queue of the semaphore.
  pub block_current_process-placed :
      (k : Kernel) (sem x : ℕ)
      → k.asl.semd_free ≢ []
      → placed (block_current_process c k sem).0 x ≡ placed k x
  unfolding block_current_process
  block_current_process-placed k sem x free =
      block_process-placed k sem x k.current_process refl free
