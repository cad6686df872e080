-- ===== src/Kernel/Sound/Start.antt =====
-- Where initKernel of phase2/initial.c puts the processes.
use sistemi_operativi_proget.Common.{ℕ, ◌≡◌, ◌≤◌, refl, ap, pos, ◌+ℤ◌, ltb, false, [], arith, count}
use sistemi_operativi_proget.Const.{Platform, page_size}
use sistemi_operativi_proget.Pcb.{init_pcbs, alloc_pcb, alloc_from, insert_proc_q}
use sistemi_operativi_proget.Pcb.Init.{init_pcbs_once, init_pcbs_bound}
use sistemi_operativi_proget.Asl.{init_asl, find_semd}
use sistemi_operativi_proget.Kernel.{Kernel, pcb}
use sistemi_operativi_proget.Kernel.Scheduler.{scheduler, schedule, dispatch}
use sistemi_operativi_proget.Kernel.Init.{init_globals, start_root, init_kernel}
use sistemi_operativi_proget.Kernel.Sound.{Sound}

-- The static variables of phase1/pcb.c before main: zeros, and `next_pid = 1`.
pub record Zeroed (k : Kernel) : Type 0 where
  pub pid : (x : ℕ) → (pcb k x).p_pid ≡ pos 0
  pub child : (x : ℕ) → (pcb k x).p_child ≡ []
  pub next : k.pcbs.next_pid ≡ pos 1

pub init_kernel-Sound :
    (c : Platform) (ramtop sizeof_pcb : ℕ) (k : Kernel)
    → sizeof_pcb ≤ page_size
    → Zeroed k
    → Sound (init_kernel c ramtop sizeof_pcb k).0
unfolding init_kernel init_globals start_root init_pcbs alloc_pcb alloc_from insert_proc_q scheduler
    schedule dispatch init_asl find_semd ◌+ℤ◌
init_kernel-Sound c ramtop sizeof_pcb k fits z =
    let small : ltb page_size sizeof_pcb ≡ false = ground arith in
    rw small (
      record {
        once = λ x. omega (arith, init_pcbs_once k.pcbs x);
        dead = λ x n. ground (arith, n, init_pcbs_once k.pcbs x, z.pid x);
        child = λ x y n. absurd (n (ground (arith, ap (count x) (z.child y))));
        fresh = rw z.next (omega arith);
        named = λ x key n. absurd (n refl);
        distinct = tt;
        sorted = tt;
        beyond =
            λ x far. (ground (arith, z.pid x, far), ground (arith, far, init_pcbs_bound k.pcbs x));
        older = λ x y n. absurd (n (ground (arith, ap (count x) (z.child y))));
        young = λ x. ground (arith, z.pid x, z.next);
      },
      λ x n. ground (arith, n, z.next),
    )
