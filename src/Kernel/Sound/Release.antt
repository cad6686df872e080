-- ===== src/Kernel/Sound/Release.antt =====
-- The end of recursiveTerminateProcess of phase2/functions.c: a process leaves its semaphore, the
-- ready queue, the processor and the tree, and its block is free.
use sistemi_operativi_proget.Common.{
  ℕ, ◌+◌, ◌≡◌, ◌≢◌, ◌≤◌, refl, sym, ap, ◌∙◌, ℤ, pos, negsuc, ◌<ℤ◌, ltb_ℤ, ◌<◌, Option, none, some,
  List, [], ◌∷◌, arith, count, erase, Bool-cases, inl, inr, ◌⊎◌, ◌==◌, if_cases, ==→eq, ==→ne,
}
use sistemi_operativi_proget.Const.{Platform, max_proc}
use sistemi_operativi_proget.Pcb.{Pcbs, leave_parent, out_proc_q}
use sistemi_operativi_proget.Pcb.Queue.{found, count-out_proc_q, out_proc_q_self}
use sistemi_operativi_proget.Asl.{Asl, out_blocked}
use sistemi_operativi_proget.Asl.Count.{waiting, waiting-out_blocked}
use sistemi_operativi_proget.Asl.Queues.{queue_of, DistinctKeys}
use sistemi_operativi_proget.Asl.Refines.{Withdrawn, out_blocked-refines}
use sistemi_operativi_proget.Kernel.{Kernel, pcb}
use sistemi_operativi_proget.Kernel.Functions.Terminate.{give_back, leave_semaphore}
use sistemi_operativi_proget.Kernel.Sound.{Good, IsSorted-ext, waiting-none}

-- The blocks keep what they say, but that some may be marked and children may leave.
pub record Pruned (s s' : Pcbs) : Type 0 where
  pub pid :
      (x : ℕ)
      → ((s'.table x).p_pid ≡ (s.table x).p_pid)
        ⊎ (((s'.table x).p_pid ≡ negsuc 0) × (x < max_proc))
  pub waits_on : (x : ℕ) → (s'.table x).p_sem_add ≡ (s.table x).p_sem_add
  pub prio : (x : ℕ) → (s'.table x).p_prio ≡ (s.table x).p_prio
  pub child : (x y : ℕ) → count x (s'.table y).p_child ≢ 0 → count x (s.table y).p_child ≢ 0
  pub free : s'.pcb_free ≡ s.pcb_free
  pub next : s'.next_pid ≡ s.next_pid

marked_parent : (z w : ℤ) → (z <ℤ pos 0) ⊎ (w <ℤ z) → (z <ℤ pos 0) ⊎ (negsuc 0 <ℤ z)
marked_parent z w h = elim (Bool-cases (ltb_ℤ z (pos 0))) [
  | inl less ↦ inl (ground (arith, less))
  | inr more ↦ inr (ground (arith, more))
]

pub Pruned-Good :
    (s s' : Pcbs) (a : Asl) (q : List ℕ) (o : Option ℕ) → Pruned s s' → Good s a q o → Good s' a q o
Pruned-Good s s' a q o e g = record {
  once = λ x. rw e.free (g.once x);
  dead = λ x n. elim (e.pid x) [
    | inl same ↦ rw same (g.dead x (λ z. n (rw e.free z)))
    | inr (marked, near) ↦ rw marked (omega arith)
  ];
  child = λ x y n. elim (e.pid x) [
    | inl same ↦ rw same (g.child x y (e.child x y n))
    | inr (marked, near) ↦ rw marked (λ z. cc)
  ];
  fresh = rw e.next g.fresh;
  named = λ x key n. (e.waits_on x ∙ (g.named x key n).0, (g.named x key n).1);
  distinct = g.distinct;
  sorted = IsSorted-ext s.table s'.table q (λ x n. e.prio x) g.sorted;
  beyond = λ x far. elim (e.pid x) [
    | inl same ↦ (same ∙ (g.beyond x far).0, rw e.free (g.beyond x far).1)
    | inr (marked, near) ↦ absurd (omega (arith, far, near))
  ];
  older = λ x y n. elim (e.pid x) [
    | inl same ↦ elim (e.pid y) [
      | inl also ↦ rw (same, also) (g.older x y (e.child x y n))
      | inr (marked, near) ↦
          rw (same, marked)
            (marked_parent (s.table x).p_pid (s.table y).p_pid (g.older x y (e.child x y n)))
    ]
    | inr (marked, near) ↦ inl (rw marked (omega arith))
  ];
  young = λ x. elim (e.pid x) [
    | inl same ↦ rw (same, e.next) (g.young x)
    | inr (marked, near) ↦ rw (marked, e.next) (omega (arith, g.fresh))
  ];
}

count-erase : (x p : ℕ) (q : List ℕ) → count x (erase p q) ≤ count x q
count-erase x p [] = omega arith
count-erase x p (c ∷ q) = ground (arith, count-erase x p q)

count-erase-others : (x p : ℕ) (q : List ℕ) → x ≢ p → count x (erase p q) ≡ count x q
count-erase-others x p [] n = refl
count-erase-others x p (c ∷ q) n = ground (arith, n, count-erase-others x p q n)

pub out_proc_q-others : (x t : ℕ) (q : List ℕ) → x ≢ t → count x (out_proc_q q t).0 ≡ count x q
out_proc_q-others x t q n = elim (out_proc_q_self q t) [
  | inl e ↦ ground (arith, n, count-out_proc_q x q t, ap (found x) e)
  | inr (e, z) ↦ omega (arith, count-out_proc_q x q t, ap (found x) e)
]

-- A process waits on no semaphore any more, and the others wait as before.
pub record Vacated (a b : Asl) (t : ℕ) : Type 0 where
  pub distinct : DistinctKeys b.semd_h
  pub others : (x : ℕ) → x ≢ t → waiting x b.semd_h ≡ waiting x a.semd_h
  pub kept : (x key : ℕ) → x ≢ t → count x (queue_of key b.semd_h) ≡ count x (queue_of key a.semd_h)
  pub gone : waiting t b.semd_h ≡ 0
  pub queues : (x key : ℕ) → count x (queue_of key b.semd_h) ≤ count x (queue_of key a.semd_h)

module _ (s : Pcbs) (a : Asl) (q : List ℕ) (o : Option ℕ) (g : Good s a q o) (t : ℕ) where
  -- A process that is not in the queue of the semaphore that it notes does not wait.
  unnamed :
      ((key : ℕ) → (s.table t).p_sem_add ≡ key → key ≢ 0 → count t (queue_of key a.semd_h) ≡ 0)
      → waiting t a.semd_h ≡ 0
  unnamed h = waiting-none t a.semd_h g.distinct λ key.
      elim (Bool-cases (count t (queue_of key a.semd_h) == 0)) [
        | inl absent ↦ ==→eq _ _ absent
        | inr there ↦ let n = g.named t key (==→ne _ _ there) in h key n.0 n.1
      ]

  stay-Vacated : (s.table t).p_sem_add ≡ 0 → Vacated a a t
  stay-Vacated e = record {
    distinct = g.distinct;
    others = λ x n. refl;
    kept = λ x key n. refl;
    gone = unnamed (λ key h n. absurd (n (sym h ∙ e)));
    queues = λ x key. omega arith;
  }

  out_blocked-Vacated : Vacated a (out_blocked s a t).0 t
  out_blocked-Vacated =
      let w : Withdrawn s a t (out_blocked s a t) = out_blocked-refines s a t g.distinct in
      let sem = (s.table t).p_sem_add in
      let rest : (x : ℕ)
          → waiting x (out_blocked s a t).0.semd_h + found x (out_blocked s a t).1
            ≡ waiting x a.semd_h =
        λ x. waiting-out_blocked x s a t in
      let shrinks : (x key : ℕ)
          → count x (queue_of key (out_blocked s a t).0.semd_h) ≤ count x (queue_of key a.semd_h) =
        λ x key. rw (w.queues key) (
          ground (
            arith,
            count-out_proc_q x (queue_of sem a.semd_h) t,
            ==→eq key sem,
            ap (λ y. count x (queue_of y a.semd_h)),
          )) in
      let same : (x key : ℕ)
          → x ≢ t
          → count x (queue_of key (out_blocked s a t).0.semd_h) ≡ count x (queue_of key a.semd_h) =
        λ x key n. rw (w.queues key) (
          ground (
            arith,
            out_proc_q-others x t (queue_of sem a.semd_h) n,
            ==→eq key sem,
            ap (λ y. count x (queue_of y a.semd_h)),
          )) in
      elim (out_proc_q_self (queue_of sem a.semd_h) t) [
        | inl found_t ↦ record {
          distinct = w.distinct;
          others = λ x n. ground (arith, rest x, n, ap (found x) (w.returned ∙ found_t));
          kept = same;
          gone = ground (arith, rest t, g.once t, ap (found t) (w.returned ∙ found_t));
          queues = shrinks;
        }
        | inr (missing, none_t) ↦
            let absent : waiting t a.semd_h ≡ 0 =
              unnamed (λ key h n. ap (λ y. count t (queue_of y a.semd_h)) (sym h) ∙ none_t) in
            record {
              distinct = w.distinct;
              others = λ x n. omega (arith, rest x, ap (found x) (w.returned ∙ missing));
              kept = same;
              gone = omega (arith, rest t, absent);
              queues = shrinks;
            }
      ]

-- The queues have changed, and neither the blocks nor who is ready or runs.
pub record OnlyAsl (k k1 : Kernel) (a : Asl) : Type 0 where
  pub asl : k1.asl ≡ a
  pub pcbs : k1.pcbs ≡ k.pcbs
  pub ready : k1.ready_queue ≡ k.ready_queue
  pub current : k1.current_process ≡ k.current_process

give_back-OnlyAsl :
    (c : Platform) (k : Kernel) (sem : ℕ) (r : Asl × Option ℕ) → OnlyAsl k (give_back c k sem r) r.0
unfolding give_back
give_back-OnlyAsl c k sem (a, none) = record {
  asl = refl;
  pcbs = refl;
  ready = refl;
  current = refl;
}
give_back-OnlyAsl c k sem (a, some p) = record {
  asl = ground arith;
  pcbs = ground arith;
  ready = ground arith;
  current = ground arith;
}

-- What leaving the semaphore does.
abbrev pub Left : Kernel → ℕ → Kernel → Type 0
Left k t k1 = OnlyAsl k k1 k1.asl × Vacated k.asl k1.asl t

pub leave_semaphore-Left :
    (c : Platform) (k : Kernel) (t : ℕ)
    → Good k.pcbs k.asl k.ready_queue k.current_process
    → Left k t (leave_semaphore c k t)
unfolding leave_semaphore
leave_semaphore-Left c k t g =
    let sem = (pcb k t).p_sem_add in
    let r = out_blocked k.pcbs k.asl t in
    let back : OnlyAsl k (give_back c k sem r) r.0 = give_back-OnlyAsl c k sem r in
    if_cases {A = Kernel} (Left k t) (sem == 0) k (give_back c k sem r)
      (λ e. (
        record { asl = refl; pcbs = refl; ready = refl; current = refl },
        stay-Vacated k.pcbs k.asl k.ready_queue k.current_process g t (==→eq _ _ e),
      ))
      (λ _. (
        record { asl = refl; pcbs = back.pcbs; ready = back.ready; current = back.current },
        rw back.asl (out_blocked-Vacated k.pcbs k.asl k.ready_queue k.current_process g t),
      ))

pub leave_parent-Pruned :
    (s : Pcbs) (p : ℕ) (o : Option ℕ)
    → Pruned s (leave_parent s p o).0
      × ((x : ℕ) → ((leave_parent s p o).0.table x).p_pid ≡ (s.table x).p_pid)
unfolding leave_parent
leave_parent-Pruned s p none = (
  record {
    pid = λ x. inl refl;
    waits_on = λ x. refl;
    prio = λ x. refl;
    child = λ x y n. n;
    free = refl;
    next = refl;
  },
  λ x. refl,
)
leave_parent-Pruned s p (some prnt) = (
  record {
    pid = λ x. inl (ground arith);
    waits_on = λ x. ground arith;
    prio = λ x. ground arith;
    child = λ x y n z. n (ground (arith, z, count-erase x p (s.table prnt).p_child));
    free = refl;
    next = refl;
  },
  λ x. ground arith,
)

-- No child but p leaves a list of children.
pub leave_parent-others :
    (s : Pcbs) (p : ℕ) (o : Option ℕ) (x y : ℕ)
    → x ≢ p
    → count x ((leave_parent s p o).0.table y).p_child ≡ count x (s.table y).p_child
unfolding leave_parent
leave_parent-others s p none x y n = refl
leave_parent-others s p (some prnt) x y n =
    ground (arith, n, count-erase-others x p (s.table prnt).p_child n)
