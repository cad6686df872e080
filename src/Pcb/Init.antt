-- ===== src/Pcb/Init.antt =====
-- The list of free blocks that initPcbs of phase1/pcb.c builds.
use sistemi_operativi_proget.Common.{ℕ, zero, suc, ◌+◌, ◌≤◌, ◌≡◌, refl, List, [], ◌∷◌, arith, count}
use sistemi_operativi_proget.Const.{max_proc}
use sistemi_operativi_proget.Pcb.{Pcbs, add_rounds, init_pcbs}

-- No round adds a block that is on the list already.
add_rounds_once :
    (n y : ℕ) (free : List ℕ) (x : ℕ)
    → count x free ≤ 1
    → (y ≤ x → count x free ≡ 0)
    → count x (add_rounds n y free) ≤ 1
unfolding add_rounds
add_rounds_once zero y free x h away = h
add_rounds_once (suc n) y free x h away =
    add_rounds_once n (y + 1) (y ∷ free) x (ground (arith, h, away))
      (λ le. ground (arith, le, away))

-- After initPcbs no block is on the list of free blocks twice.
pub init_pcbs_once : (s : Pcbs) (x : ℕ) → count x (init_pcbs s).pcb_free ≤ 1
unfolding init_pcbs
init_pcbs_once s x = add_rounds_once max_proc 0 [] x (omega arith) (λ le. refl)

add_rounds_bound :
    (n y : ℕ) (free : List ℕ) (x : ℕ)
    → y + n ≤ x
    → count x free ≡ 0
    → count x (add_rounds n y free) ≡ 0
unfolding add_rounds
add_rounds_bound zero y free x h away = away
add_rounds_bound (suc n) y free x h away =
    add_rounds_bound n (y + 1) (y ∷ free) x (omega (arith, h)) (ground (arith, h, away))

-- After initPcbs only the blocks of the table are on the list of free blocks.
pub init_pcbs_bound : (s : Pcbs) (x : ℕ) → max_proc ≤ x → count x (init_pcbs s).pcb_free ≡ 0
unfolding init_pcbs
init_pcbs_bound s x far = add_rounds_bound max_proc 0 [] x far refl
