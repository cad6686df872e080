-- ===== src/Kernel/Sound/Exact.antt =====
-- exceptionHandler of phase2/exception.c and the processes that are in exactly one place.
use sistemi_operativi_proget.Common.{
  ℕ, ◌≡◌, ◌≢◌, sym, ap, ◌∙◌, pos, negsuc, ◌≤ℤ◌, none, some, List, [], ◌∷◌, arith, count, inl, inr,
  eqb_ℤ, to_int, true, Bool-cases, ◌==◌, ==→eq,
}
use sistemi_operativi_proget.Const.{Platform}
use sistemi_operativi_proget.Types.{State}
use sistemi_operativi_proget.Pcb.{alloc_from, insert_child}
use sistemi_operativi_proget.Pcb.Queue.{found, count-insert_proc_q}
use sistemi_operativi_proget.Asl.{Asl, remove_blocked}
use sistemi_operativi_proget.Asl.Count.{waiting, waiting-remove_blocked}
use sistemi_operativi_proget.Kernel.{Kernel, pcb, set_pcb}
use sistemi_operativi_proget.Kernel.Functions.{join_semaphore}
use sistemi_operativi_proget.Kernel.Syscalls.{admit, adopt}
use sistemi_operativi_proget.Kernel.Exception.{exception_handler}
use sistemi_operativi_proget.Kernel.Placement.{placed, join_semaphore-placed}
use sistemi_operativi_proget.Kernel.Closed.{Closed, Quiet, Waking}
use sistemi_operativi_proget.Kernel.Closed.Exceptions.{IsCall, exception_handler-keeps}
use sistemi_operativi_proget.Kernel.Sound.{Sound}
use sistemi_operativi_proget.Kernel.Sound.Sweep.{Freed, Swept}
use sistemi_operativi_proget.Kernel.Sound.Descent.{Ends}
use sistemi_operativi_proget.Kernel.Sound.Holds.{Sound-Closed, killed-Ends}

-- The process is in exactly one place.
abbrev Exact : ℕ → Kernel → Type 0
Exact x k = Sound k × (placed k x ≡ 1)

-- A semaphore has an address, and a descriptor is free.
abbrev Spare : Kernel → ℕ → Type 0
Spare k sem = (sem ≢ 0) × (k.asl.semd_free ≢ [])

Quiet-placed : (k k' : Kernel) (x : ℕ) → Quiet k k' → placed k' x ≡ placed k x
Quiet-placed k k' x (e, r) = rw (e.free, r.ready, r.asl, e.current)

woken-placed :
    (k k' : Kernel) (sem p x : ℕ)
    → (remove_blocked k.asl sem).1 ≡ some p
    → Waking k k' sem p
    → placed k' x ≡ placed k x
woken-placed k k' sem p x e w = omega (
  arith,
  waiting-remove_blocked x k.asl sem,
  ap (found x) e,
  ap (λ (a : Asl). waiting x a.semd_h) w.asl,
  ap (count x) w.ready,
  count-insert_proc_q k'.pcbs.table x k.ready_queue p,
  ap (count x) w.steady.free,
  ap (found x) w.steady.current,
)

created-placed :
    (k : Kernel) (state : State) (cur p x : ℕ) (q : List ℕ)
    → k.pcbs.pcb_free ≡ p ∷ q
    → placed (admit (adopt (record k { pcbs = (alloc_from k.pcbs (p ∷ q)).0 }) p state) cur p) x
      ≡ placed k x
unfolding alloc_from admit insert_child
created-placed k state cur p x q e =
    omega (arith, ap (count x) e, count-insert_proc_q _ x k.ready_queue p)

-- A termination leaves a process that was in one place in one place.
ends-placed : (k k1 : Kernel) (x : ℕ) → Swept k k1 → placed k x ≡ 1 → placed k1 x ≡ 1
ends-placed k k1 x sw h = elim (sw.fate x) [
  | inl kept ↦ omega (arith, kept.free, kept.held, h)
  | inr freed ↦ omega (arith, freed.free, freed.held)
]

-- Once the process that ran is terminated, none runs.
stopped-placed :
    (k k1 : Kernel) (t x : ℕ)
    → k.current_process ≡ some t
    → Sound k
    → Ends k t k1
    → placed k x ≡ 1
    → placed (record k1 { current_process = none }) x ≡ 1
stopped-placed k k1 t x e (g, l) (sw, frees, only) h =
    let live : pos 0 ≤ℤ (pcb k t).p_pid =
      omega (arith, l t (λ z. ground (arith, z, ap (found t) e))) in
    let freed : Freed k1 t = frees live in
    let idle : found x k1.current_process ≡ 0 = elim (Bool-cases (x == t)) [
      | inl same ↦ rw (==→eq x t same) (omega (arith, freed.held))
      | inr other ↦ elim (sw.fate x) [
        | inl kept ↦ kept.runs ∙ ap (found x) e ∙ ground (arith, other)
        | inr gone ↦ omega (arith, gone.held)
      ]
    ] in
    omega (arith, idle, ends-placed k k1 x sw h)

pub Exact-Closed : (x : ℕ) → Closed (Exact x) Spare
unfolding join_semaphore
Exact-Closed x =
    let laws = Sound-Closed in
    record {
      quiet = λ k k' q (s, h). (laws.quiet k k' q s, Quiet-placed k k' x q ∙ h);
      fits = λ k k' sem q (n, free). (n, λ e. free (ap Asl.semd_free (sym q.1.asl) ∙ e));
      dispatched = λ k p q e i (s, h).
          (laws.dispatched k p q e i s, omega (arith, h, ap (count x) e, ap (found x) i));
      released = λ k p e (s, h). (
        laws.released k p e s,
        omega (arith, h, count-insert_proc_q k.pcbs.table x k.ready_queue p, ap (found x) e),
      );
      blocked = λ k sem p (n, free) e (s, h). (
        laws.blocked k sem p n e s,
        omega (
          arith,
          h,
          join_semaphore-placed (set_pcb k p (record (pcb k p) { p_sem_add = sem })) sem p x free,
          ap (found x) e,
        ),
      );
      missed = λ k sem e (s, h). (
        laws.missed k sem e s,
        omega (arith, h, waiting-remove_blocked x k.asl sem, ap (found x) e),
      );
      woken =
          λ k k' sem p e w (s, h). (laws.woken k k' sem p e w s, woken-placed k k' sem p x e w ∙ h);
      created = λ k state cur p q i e (s, h).
          (laws.created k state cur p q i e s, created-placed k state cur p x q e ∙ h);
      killed = λ c k k1 t target r (s, h). (
        laws.killed c k k1 t target r s,
        ends-placed k k1 x (killed-Ends c k k1 t target r s).0 h,
      );
      killed_current = λ c k k1 t e r (s, h). (
        laws.killed_current c k k1 t e r s,
        stopped-placed k k1 t x e s (killed-Ends c k k1 t (inl e) r s) h,
      );
    }

-- Where the kernel is sound, device semaphores have addresses, a semaphore descriptor is free and a
-- call P does not name NULL, every exception, whatever its cause and however it is answered, leaves
-- a process that is in exactly one place (free blocks, ready queue, one semaphore's queue,
-- processor) in exactly one place.
pub exception_handler-Exact :
    (c : Platform) (k : Kernel) (state : State) (bad_vaddr x : ℕ)
    → Sound k
    → c.device_semaphores ≢ 0
    → k.asl.semd_free ≢ []
    → (IsCall c state → eqb_ℤ (to_int state.reg_a0) (negsuc 2) ≡ true → state.reg_a1 ≢ 0)
    → placed k x ≡ 1
    → placed (exception_handler c k state bad_vaddr).0 x ≡ 1
exception_handler-Exact c k state bad_vaddr x s dev free named h =
    (exception_handler-keeps (Exact-Closed x) c k (s, h) state bad_vaddr
      ((λ i. (λ z. dev (omega (arith, z)), free)), λ call p. (named call p, free))).1
