-- ===== src/Tests/Rings.antt =====
-- A ring of three cells, and the theorems on rings and on the queues over them.
use sistemi_operativi_proget.Common.{ℕ, ◌-◌, pos, [], ◌∷◌, arith, write}
use sistemi_operativi_proget.Types.{Pcb}
use sistemi_operativi_proget.Listx.{Memory}
use sistemi_operativi_proget.Listx.Ring.{Ring}
use sistemi_operativi_proget.Pcb.{fresh_pcb, insert_proc_q, out_proc_q}
use sistemi_operativi_proget.Pcb.Linked.{
  Arrives, Yields, insert_linked, out_linked, insert_linked-Ring, out_linked-Ring,
}

-- The ring 1 -> 2 -> 3 -> 1 with sentinel 1.
abbrev ring : Memory
ring =
    write
      (write (write (λ a. record { next = a; prev = a }) 1 (record { next = 2; prev = 3 })) 2
        (record { next = 3; prev = 1 }))
      3 (record { next = 1; prev = 2 })

ring-Ring : Ring ring 1 (2 ∷ 3 ∷ [])
ring-Ring = record { links = ground arith; apart = ground arith; distinct = ground arith }

-- The later a cell's address, the lower its priority.
abbrev prios : ℕ → Pcb
prios p = record (fresh_pcb (pos 1)) { p_prio = pos (10 - p) }

insert_linked-Ring_example :
    Arrives 1 (insert_proc_q prios (2 ∷ 3 ∷ []) 4) (insert_linked 3 ring prios 1 4)
insert_linked-Ring_example =
    insert_linked-Ring ring 1 4 prios (2 ∷ 3 ∷ []) ring-Ring (ground arith) (omega arith)

out_linked-Ring_example : Yields 1 (out_proc_q (2 ∷ 3 ∷ []) 3) (out_linked 3 ring 1 3)
out_linked-Ring_example = out_linked-Ring ring 1 3 (2 ∷ 3 ∷ []) ring-Ring
