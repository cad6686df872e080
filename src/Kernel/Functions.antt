-- ===== src/Kernel/Functions.antt =====
-- phase2/functions.c
pub mod Terminate
pub mod Found
use sistemi_operativi_proget.Common.{
  ℕ, zero, suc, ◌+◌, ◌/◌, ℤ, pos, ◌+ℤ◌, ◌-ℤ◌, leb, ltb, eqb_ℤ, ltb_ℤ, Bool, ◌&&◌, Option, none,
  some, List, [], ◌∷◌, if◌then◌else◌, write,
}
use sistemi_operativi_proget.Const.{Platform, sem_dev_len, word_len, state_t_size, device_semaphore}
use sistemi_operativi_proget.Types.{State, Outcome}
use sistemi_operativi_proget.Pcb.{Pcbs}
use sistemi_operativi_proget.Asl.{insert_blocked}
use sistemi_operativi_proget.Kernel.{Kernel, pcb, set_pcb, tod, tick, incr}
use sistemi_operativi_proget.Kernel.Scheduler.{scheduler}

-- The loop of copyState over the words of two states, with n rounds left.
unfoldable pub copy_words : ℕ → ℕ → (ℕ → ℕ) → (ℕ → ℕ) → ℕ → ℕ
copy_words zero i d s = d
copy_words (suc n) i d s = copy_words n (i + 1) (write d i (s i)) s

-- copyState between the word arrays; over the words of a state_t it is an assignment, as which the
-- other functions use it.
unfoldable pub copy_state : (ℕ → ℕ) → (ℕ → ℕ) → ℕ → ℕ
copy_state dst src = copy_words (state_t_size / word_len) 0 dst src

unfoldable pub is_soft_block_semaphore : Platform → ℕ → Bool
is_soft_block_semaphore c sem =
    leb (device_semaphore c 0) sem && ltb sem (device_semaphore c sem_dev_len)

-- `currentProcess->p_s = *state`
abbrev pub save_state : Kernel → ℕ → State → Kernel
save_state k p s = set_pcb k p (record (pcb k p) { p_s = s })

unfoldable pub update_cpu_time : Kernel → Option ℕ → Kernel
update_cpu_time k none = k
update_cpu_time k (some p) =
    let now = tod k in
    let k1 = tick k in
    let b = pcb k1 p in
    record (set_pcb k1 p (record b { p_time = b.p_time +ℤ (now -ℤ k1.start_time) })) {
      start_time = now;
    }

-- The process notes its semaphore, and a device semaphore counts it as soft-blocked.
unfoldable pub mark_blocked : Platform → Kernel → ℕ → ℕ → Kernel
mark_blocked c k sem p =
    let k1 = set_pcb k p (record (pcb k p) { p_sem_add = sem }) in
    if is_soft_block_semaphore c sem
    then record k1 { soft_block_count = incr k1.soft_block_count }
    else k1

-- The result of insertBlocked is not looked at.
unfoldable pub join_semaphore : Kernel → ℕ → ℕ → Kernel
join_semaphore k sem p =
    let (s, a, failed) = insert_blocked k.pcbs k.asl sem p in record k { pcbs = s; asl = a }

-- By currentProcess, which block_current_process reads.
unfoldable pub block_process : Platform → Kernel → ℕ → Option ℕ → Kernel × Outcome
block_process c k sem none = (k, Outcome.panic)
block_process c k sem (some p) =
    scheduler (record (join_semaphore (mark_blocked c (update_cpu_time k (some p)) sem p) sem p) {
      current_process = none;
    })

unfoldable pub block_current_process : Platform → Kernel → ℕ → Kernel × Outcome
block_current_process c k sem = block_process c k sem k.current_process

-- The first child whose subtree has an answer; the outer none is a search that ran out of fuel.
unfoldable pub find_first : (ℕ → Option (Option ℕ)) → List ℕ → Option (Option ℕ)
find_first f [] = some none
find_first f (c ∷ cs) =
    let rest = find_first f cs in
    elim (f c) [ none ↦ none | some none ↦ rest | some (some p) ↦ some (some p) ]

unfoldable pub find_in_tree : ℕ → Pcbs → ℤ → Option ℕ → Option (Option ℕ)
find_in_tree fuel s pid none = some none
find_in_tree zero s pid (some node) = none
find_in_tree (suc fuel) s pid (some node) =
    let below = find_first (λ c. find_in_tree fuel s pid (some c)) (s.table node).p_child in
    if ltb_ℤ (s.table node).p_pid (pos 0)
    then some none
    else if eqb_ℤ (s.table node).p_pid pid
    then some (some node)
    else below
