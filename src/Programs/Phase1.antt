-- ===== src/Programs/Phase1.antt =====
-- phase1/p1test.c: the test program of the process queues, the tree and the active semaphore list.
-- What a print does to the terminal is the parameter `print`; termprint is in Programs/Terminal.
-- adderrbuf never returns, so a failed check ends the run: none.
pub mod Queues
pub mod Trees
pub mod Semaphores
pub mod Passes
use Prim.Native.Char.{code}
use Prim.Native.String.{String}
use sistemi_operativi_proget.Common.{
  ℕ, zero, suc, ◌+◌, pos, Bool, true, false, Option, none, some, List, [], ◌∷◌, ◌++◌, ◌==◌,
  if◌then◌else◌, write,
}
use sistemi_operativi_proget.Pcb.{
  Pcbs, init_pcbs, alloc_pcb, free_pcb, insert_proc_q, remove_proc_q, out_proc_q, insert_child,
  remove_child, out_child,
}
use sistemi_operativi_proget.Asl.{
  Asl, init_asl, insert_blocked, remove_blocked, out_blocked, head_blocked,
}

-- The module's variables (okbuf up to mp), and those of the modules under test. A pointer to a process control
-- block is NULL or the number of the block.
pub record Phase1 (T : Type 0) : Type 0 where
  pub pcbs : Pcbs
  pub asl : Asl
  pub procp : ℕ → Option ℕ
  pub qa : List ℕ
  pub q : Option ℕ
  pub p : Option ℕ
  pub firstproc : Option ℕ
  pub midproc : Option ℕ
  pub lastproc : Option ℕ
  pub okbuf : List ℕ
  pub terminal : T

abbrev pub M : Type 0 → Type 0 → Type 0
M T A = Phase1 T → Option (A × Phase1 T)

infixl 5 ◌>>=◌ ◌>>◌
abbrev pub ◌>>=◌ : {T A B : Type 0} → M T A → (A → M T B) → M T B
◌>>=◌ m f s = elim (m s) [ none ↦ none | some (a, s1) ↦ f a s1 ]

abbrev pub ◌>>◌ : {T B : Type 0} → M T (Unit {0}) → M T B → M T B
m >> k = m >>= λ _. k

abbrev pub skip : {T : Type 0} → M T (Unit {0})
skip s = some (tt, s)

-- `if (!ok) adderrbuf(...)`
abbrev pub require : {T : Type 0} → Bool → M T (Unit {0})
require ok s = if ok then some (tt, s) else none

-- A pointer that the code follows.
abbrev pub follow : {T : Type 0} → Option ℕ → M T ℕ
follow o s = elim o [ none ↦ none | some x ↦ some (x, s) ]

abbrev pub same : Option ℕ → Option ℕ → Bool
same none none = true
same none (some y) = false
same (some x) none = false
same (some x) (some y) = x == y

-- `for (i = first; i < first + n; i++)`
unfoldable pub for_range : {T : Type 0} → ℕ → ℕ → (ℕ → M T (Unit {0})) → M T (Unit {0})
for_range zero i body s = some (tt, s)
for_range (suc n) i body s = elim (body i s) [
  | none ↦ none
  | some (u, s1) ↦ for_range n (i + 1) body s1
]

-- The characters of a string before its EOS.
abbrev pub codes : String → List ℕ
codes String.[] = []
codes (String.◌∷◌ c s) = code c ∷ codes s

module _ {T : Type 0} where
  -- The operations of pcb.c on the state of the test.
  abbrev pub init_p : M T (Unit {0})
  init_p s = some (tt, record s { pcbs = init_pcbs s.pcbs })

  abbrev pub alloc : M T (Option ℕ)
  alloc s = let (b, o) = alloc_pcb s.pcbs in some (o, record s { pcbs = b })

  abbrev pub free : ℕ → M T (Unit {0})
  free x s = some (tt, record s { pcbs = free_pcb s.pcbs x })

  abbrev pub insert_q : ℕ → M T (Unit {0})
  insert_q x s = some (tt, record s { qa = insert_proc_q s.pcbs.table s.qa x })

  abbrev pub remove_q : M T (Option ℕ)
  remove_q s = let (q, o) = remove_proc_q s.qa in some (o, record s { qa = q })

  abbrev pub out_q : ℕ → M T (Option ℕ)
  out_q x s = let (q, o) = out_proc_q s.qa x in some (o, record s { qa = q })

  abbrev pub set_prio : ℕ → ℕ → M T (Unit {0})
  set_prio x n s = some (
    tt,
    record s {
      pcbs = record (s.pcbs) {
        table = write s.pcbs.table x (record (s.pcbs.table x) { p_prio = pos n });
      };
    },
  )

  abbrev pub add_child : ℕ → ℕ → M T (Unit {0})
  add_child prnt x s = some (tt, record s { pcbs = insert_child s.pcbs prnt x })

  abbrev pub first_child : ℕ → M T (Option ℕ)
  first_child x s = let (b, o) = remove_child s.pcbs x in some (o, record s { pcbs = b })

  abbrev pub drop_child : ℕ → M T (Option ℕ)
  drop_child x s = let (b, o) = out_child s.pcbs x in some (o, record s { pcbs = b })

  -- The operations of asl.c.
  abbrev pub init_a : M T (Unit {0})
  init_a s = some (tt, record s { asl = init_asl })

  abbrev pub insert_b : ℕ → ℕ → M T Bool
  insert_b sem x s =
      let (b, a, full) = insert_blocked s.pcbs s.asl sem x in
      some (full, record s { pcbs = b; asl = a })

  abbrev pub remove_b : ℕ → M T (Option ℕ)
  remove_b sem s = let (a, o) = remove_blocked s.asl sem in some (o, record s { asl = a })

  abbrev pub out_b : ℕ → M T (Option ℕ)
  out_b x s = let (a, o) = out_blocked s.pcbs s.asl x in some (o, record s { asl = a })

  abbrev pub head_b : ℕ → M T (Option ℕ)
  head_b sem s = some (head_blocked s.asl sem, s)

  -- `procp[i]`, followed, and `procp[i] = o`
  abbrev pub procp_at : ℕ → M T ℕ
  procp_at i s = follow (s.procp i) s

  abbrev pub put_procp : ℕ → Option ℕ → M T (Unit {0})
  put_procp i o s = some (tt, record s { procp = write s.procp i o })

  abbrev pub get {ℓ} : {A : Type ℓ} → (Phase1 T → A) → Phase1 T → Option (A × Phase1 T)
  get f s = some (f s, s)

  -- The copy to okbuf, and the print.
  unfoldable pub addokbuf : (T → List ℕ → T) → List ℕ → M T (Unit {0})
  addokbuf print text s =
      some (tt, record s { okbuf = s.okbuf ++ text; terminal = print s.terminal text })

  abbrev pub set_q : Option ℕ → M T (Unit {0})
  set_q o s = some (tt, record s { q = o })

  abbrev pub set_p : Option ℕ → M T (Unit {0})
  set_p o s = some (tt, record s { p = o })
