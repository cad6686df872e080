-- ===== src/Programs/Phase2.antt =====
-- phase2/p2test.c: the processor states that `test` sets up for the processes that it starts. What
-- STST stores is the parameter `stst`, by the number of the call; the addresses of the processes'
-- functions are parameters too.
pub mod Pairs
use sistemi_operativi_proget.Common.{
  ℕ, ◌+◌, ◌-◌, ◌*◌, ◌%◌, ◌^◌, ◌≤◌, ◌<◌, ◌≡◌, List, [], ◌∷◌, arith, bit_or,
}
use sistemi_operativi_proget.Const.{mstatus_mie_mask, mstatus_mpp_m, mie_all}
use sistemi_operativi_proget.Types.{State}

abbrev pub qpage : ℕ
qpage = 1024

-- Where the functions are.
pub record Entries : Type 0 where
  pub hp_p1 : ℕ
  pub hp_p2 : ℕ
  pub p2 : ℕ
  pub p3 : ℕ
  pub p4 : ℕ
  pub p5 : ℕ
  pub p6 : ℕ
  pub p7 : ℕ
  pub p8root : ℕ
  pub child1 : ℕ
  pub child2 : ℕ
  pub p8leaf1 : ℕ
  pub p8leaf2 : ℕ
  pub p8leaf3 : ℕ
  pub p8leaf4 : ℕ
  pub p9 : ℕ
  pub p10 : ℕ

-- The state variables, in the order in which they are set up.
pub record TestStates : Type 0 where
  pub hp_p1state : State
  pub hp_p2state : State
  pub p2state : State
  pub p3state : State
  pub p4state : State
  pub p5state : State
  pub p6state : State
  pub p7state : State
  pub p8rootstate : State
  pub child1state : State
  pub child2state : State
  pub gchild1state : State
  pub gchild2state : State
  pub gchild3state : State
  pub gchild4state : State
  pub p9state : State
  pub p10state : State
  pub p5_stack : ℕ

-- `sp - n`, of unsigned words.
abbrev pub word_minus : ℕ → ℕ → ℕ
word_minus sp n = (sp + (2 ^ 32 - n)) % 2 ^ 32

-- One block of the set-up: the stack pointer, the entry, the interrupt and mode bits.
unfoldable pub new_state : State → ℕ → ℕ → State
new_state stored sp entry = record stored {
  reg_sp = sp;
  pc_epc = entry;
  status = bit_or stored.status (bit_or mstatus_mie_mask mstatus_mpp_m);
  mie = mie_all;
}

unfoldable pub set_up_states : (ℕ → State) → Entries → TestStates
unfolding new_state
set_up_states stst at =
    let a = new_state (stst 0) (word_minus (stst 0).reg_sp qpage) at.hp_p1 in
    let b = new_state (stst 1) (word_minus a.reg_sp qpage) at.hp_p2 in
    let c = new_state (stst 2) (word_minus b.reg_sp qpage) at.p2 in
    let d = new_state (stst 3) (word_minus c.reg_sp qpage) at.p3 in
    let e = new_state (stst 4) (word_minus d.reg_sp qpage) at.p4 in
    let f = new_state (stst 5) (word_minus e.reg_sp (2 * qpage)) at.p5 in
    let g = new_state (stst 6) (word_minus f.reg_sp (2 * qpage)) at.p6 in
    let h = new_state (stst 7) (word_minus g.reg_sp qpage) at.p7 in
    let i = new_state (stst 8) (word_minus h.reg_sp qpage) at.p8root in
    let j = new_state (stst 9) (word_minus i.reg_sp qpage) at.child1 in
    let k = new_state (stst 10) (word_minus j.reg_sp qpage) at.child2 in
    let l = new_state (stst 11) (word_minus k.reg_sp qpage) at.p8leaf1 in
    let m = new_state (stst 12) (word_minus l.reg_sp qpage) at.p8leaf2 in
    let n = new_state (stst 13) (word_minus m.reg_sp qpage) at.p8leaf3 in
    let o = new_state (stst 14) (word_minus n.reg_sp qpage) at.p8leaf4 in
    let p = new_state (stst 15) (word_minus o.reg_sp qpage) at.p9 in
    let q = new_state (stst 16) (word_minus p.reg_sp qpage) at.p10 in
    record {
      hp_p1state = a;
      hp_p2state = b;
      p2state = c;
      p3state = d;
      p4state = e;
      p5state = f;
      p6state = g;
      p7state = h;
      p8rootstate = i;
      child1state = j;
      child2state = k;
      gchild1state = l;
      gchild2state = m;
      gchild3state = n;
      gchild4state = o;
      p9state = p;
      p10state = q;
      p5_stack = f.reg_sp;
    }

-- The states in the order in which they are set up.
abbrev pub states_of : TestStates → List State
states_of t =
    t.hp_p1state ∷ t.hp_p2state ∷ t.p2state ∷ t.p3state ∷ t.p4state ∷ t.p5state ∷ t.p6state
    ∷ t.p7state ∷ t.p8rootstate ∷ t.child1state ∷ t.child2state ∷ t.gchild1state ∷ t.gchild2state
    ∷ t.gchild3state ∷ t.gchild4state ∷ t.p9state ∷ t.p10state ∷ []

-- Each stack starts at least a QPAGE below the one before, and the last has a QPAGE below it.
abbrev pub Spaced : ℕ → List State → Type 0
Spaced top [] = qpage ≤ top
Spaced top (s ∷ ss) = (s.reg_sp + qpage ≤ top) × Spaced s.reg_sp ss

-- Stacks that go down from sp by the given steps.
abbrev chain : ℕ → List (State × ℕ × ℕ) → List State
chain sp [] = []
chain sp ((stored, n, entry) ∷ rest) =
    let s = new_state stored (word_minus sp n) entry in s ∷ chain (word_minus sp n) rest

abbrev AtLeast : List (State × ℕ × ℕ) → Type 0
AtLeast [] = Unit
AtLeast ((stored, n, entry) ∷ rest) = (qpage ≤ n) × AtLeast rest

abbrev depth : List (State × ℕ × ℕ) → ℕ
depth [] = qpage
depth ((stored, n, entry) ∷ rest) = n + depth rest

chain-Spaced :
    (sp : ℕ) (l : List (State × ℕ × ℕ))
    → AtLeast l
    → depth l ≤ sp
    → sp < 2 ^ 32
    → Spaced sp (chain sp l)
unfolding new_state
chain-Spaced sp [] a d lt = d
chain-Spaced sp ((stored, n, entry) ∷ rest) a d lt =
    let lower : word_minus sp n + n ≡ sp = ground (arith, d, lt) in
    (
      omega (arith, lower, a.0),
      chain-Spaced (word_minus sp n) rest a.1 (omega (arith, lower, d)) (omega (arith, lower, lt)),
    )

-- Where the stack pointer that the first STST stores leaves room for twenty QPAGEs, each of the 17
-- processes gets a stack of its own, of at least a QPAGE, below the stack of `test`.
pub set_up_states-Spaced :
    (stst : ℕ → State) (at : Entries)
    → 20 * qpage ≤ (stst 0).reg_sp
    → (stst 0).reg_sp < 2 ^ 32
    → Spaced (stst 0).reg_sp (states_of (set_up_states stst at))
unfolding set_up_states new_state
set_up_states-Spaced stst at room word =
    chain-Spaced (stst 0).reg_sp
      ((stst 0, qpage, at.hp_p1)
        ∷ (stst 1, qpage, at.hp_p2)
        ∷ (stst 2, qpage, at.p2)
        ∷ (stst 3, qpage, at.p3)
        ∷ (stst 4, qpage, at.p4)
        ∷ (stst 5, 2 * qpage, at.p5)
        ∷ (stst 6, 2 * qpage, at.p6)
        ∷ (stst 7, qpage, at.p7)
        ∷ (stst 8, qpage, at.p8root)
        ∷ (stst 9, qpage, at.child1)
        ∷ (stst 10, qpage, at.child2)
        ∷ (stst 11, qpage, at.p8leaf1)
        ∷ (stst 12, qpage, at.p8leaf2)
        ∷ (stst 13, qpage, at.p8leaf3)
        ∷ (stst 14, qpage, at.p8leaf4)
        ∷ (stst 15, qpage, at.p9)
        ∷ (stst 16, qpage, at.p10)
        ∷ [])
      (ground arith) (omega (arith, room)) word
