-- ===== src/Programs/Phase1/Passes.antt =====
-- A run of phase1/p1test.c.
use sistemi_operativi_proget.Common.{
  ℕ, ◌+◌, ◌*◌, ◌<◌, ◌≡◌, refl, Option, none, some, List, [], arith, length,
}
use sistemi_operativi_proget.Pcb.{
  init_pcbs, alloc_pcb, alloc_from, free_pcb, insert_proc_q, out_proc_q, insert_child, take_child,
  remove_child, leave_parent, out_child,
}
use sistemi_operativi_proget.Asl.{
  find_semd, init_asl, insert_blocked, remove_blocked, out_blocked, head_blocked, place,
  place_before, set_procq, drop_semd,
}
use sistemi_operativi_proget.Programs.Phase1.{Phase1, for_range, addokbuf}
use sistemi_operativi_proget.Programs.Phase1.Queues.{
  check_alloc, check_out, check_remove, check_prio,
}
use sistemi_operativi_proget.Programs.Phase1.Trees.{check_tree}
use sistemi_operativi_proget.Programs.Phase1.Semaphores.{
  check_insert, check_move, check_head, phase1_main,
}

abbrev sem_array : ℕ → ℕ
sem_array i = 0x20010000 + i * 4

-- The end of main is reached, where the given condition holds.
abbrev pub Reaches : {T : Type 0} → (Phase1 T → Type 0) → Option (Unit {0} × Phase1 T) → Type 0
Reaches P none = ¬ Unit {0}
Reaches P (some (u, s)) = P s

-- Whatever the process blocks, the ASL and the variables held before, and whatever a print does to
-- the terminal: every check of the program passes, the messages fit into the 2048 bytes of okbuf,
-- 18 processes are left blocked, and all 20 descriptors minus ten are free: that of sem[9], whose
-- queue outBlocked emptied, is not.
pub phase1_passes :
    {T : Type 0} (print : T → List ℕ → T) (s : Phase1 T)
    → Reaches
        (λ r.
          (length r.okbuf < 2048)
          × (length r.pcbs.pcb_free ≡ 0)
          × (length r.asl.semd_h ≡ 10)
          × (length r.asl.semd_free ≡ 10)
          × (head_blocked r.asl (sem_array 9) ≡ none))
        (phase1_main print sem_array 0x20010100 (record s { okbuf = [] }))
unfolding phase1_main check_alloc check_out check_remove check_prio check_tree check_insert
    check_move check_head addokbuf for_range init_pcbs alloc_pcb alloc_from free_pcb insert_proc_q
    out_proc_q insert_child take_child remove_child leave_parent out_child find_semd init_asl
    insert_blocked remove_blocked out_blocked head_blocked place place_before set_procq drop_semd
phase1_passes print s = (omega arith, refl, refl, refl, refl)
