-- ===== src/Kernel/Sound/Holds.antt =====
-- Every kind of change of Kernel/Closed, on where the processes are.
use sistemi_operativi_proget.Common.{ℕ, ◌≡◌, ◌≢◌, subst, ap, ◌∙◌, none, some, arith, inl, inr}
use sistemi_operativi_proget.Const.{Platform}
use sistemi_operativi_proget.Pcb.Queue.{found}
use sistemi_operativi_proget.Kernel.{Kernel}
use sistemi_operativi_proget.Kernel.Functions.Terminate.{enough, recursive_terminate_process}
use sistemi_operativi_proget.Kernel.Closed.{Closed, Target}
use sistemi_operativi_proget.Kernel.Sound.{Sound}
use sistemi_operativi_proget.Kernel.Sound.Moves.{
  Quiet-Sound, dispatched-Sound, released-Sound, missed-Sound, woken-Sound,
}
use sistemi_operativi_proget.Kernel.Sound.Entries.{blocked-Sound}
use sistemi_operativi_proget.Kernel.Sound.Creation.{created-Sound}
use sistemi_operativi_proget.Kernel.Sound.Descent.{Ends}
use sistemi_operativi_proget.Kernel.Sound.Family.{recursive_terminate-Ends}
use sistemi_operativi_proget.Kernel.Closed.Terminate.{Answers}
use sistemi_operativi_proget.Kernel.Sound.Sweep.{Swept, Mortal, pid_near}

pub Target-Mortal : (k : Kernel) (t : ℕ) → Sound k → Target k t → Mortal k t
Target-Mortal k t (g, l) (inl e) = (
  pid_near k t g (λ z. ground (arith, z, l t (λ h. ground (arith, h, ap (found t) e)))),
  inr (ground (arith, g.once t, ap (found t) e)),
)
Target-Mortal k t (g, l) (inr positive) =
    (pid_near k t g (λ z. ground (arith, z, positive)), inr (ground (arith, positive, g.dead t)))

-- What a termination that answers has done.
pub killed-Ends :
    (c : Platform) (k k1 : Kernel) (t : ℕ)
    → Target k t
    → recursive_terminate_process (enough k) c k t ≡ some k1
    → Sound k
    → Ends k t k1
killed-Ends c k k1 t target r s =
    subst (Answers (Ends k t)) r
      (recursive_terminate-Ends (enough k) c k t s.0 (Target-Mortal k t s target))

Swept-Sound : (k k1 : Kernel) → Swept k k1 → Sound k → Sound k1
Swept-Sound k k1 sw (g, l) = (
  sw.good,
  λ x n. elim (sw.fate x) [
    | inl kept ↦ rw kept.pid (l x (λ z. n (kept.held ∙ z)))
    | inr freed ↦ absurd (n freed.held)
  ],
)

-- Whoever ran, nobody does.
stopped-Sound : (k : Kernel) → Sound k → Sound (record k { current_process = none })
stopped-Sound k (g, l) = (
  record {
    once = λ x. omega (arith, g.once x);
    dead = g.dead;
    child = g.child;
    fresh = g.fresh;
    named = g.named;
    distinct = g.distinct;
    sorted = g.sorted;
    beyond = λ x far. ((g.beyond x far).0, omega (arith, (g.beyond x far).1));
    older = g.older;
    young = g.young;
  },
  λ x n. l x (λ z. n (omega (arith, z))),
)

-- Every kind of change keeps the processes sound, where they wait on semaphores with an address.
pub Sound-Closed : Closed Sound (λ k sem. sem ≢ 0)
Sound-Closed = record {
  quiet = Quiet-Sound;
  fits = λ k k' sem q f. f;
  dispatched = dispatched-Sound;
  released = released-Sound;
  blocked = blocked-Sound;
  missed = missed-Sound;
  woken = woken-Sound;
  created = λ k state cur p q h e s. created-Sound k state cur p q h e s;
  killed = λ c k k1 t target r s. Swept-Sound k k1 (killed-Ends c k k1 t target r s).0 s;
  killed_current =
      λ c k k1 t h r s. stopped-Sound k1 (Swept-Sound k k1 (killed-Ends c k k1 t (inl h) r s).0 s);
}
