-- ===== src/Tests/Waiting.antt =====
-- The nucleus where a process waits on a mutex, and the theorems on its semaphores.
use sistemi_operativi_proget.Common.{◌≡◌, refl, false, ◌≢◌, ◌⊎◌, ◌<ℤ◌, pos, none, [], ◌∷◌, arith}
use sistemi_operativi_proget.Const.{device_semaphore}
use sistemi_operativi_proget.Kernel.{Kernel}
use sistemi_operativi_proget.Kernel.Scheduler.{scheduler}
use sistemi_operativi_proget.Kernel.SoftBlock.{Counted}
use sistemi_operativi_proget.Kernel.SoftBlock.Holds.{scheduler_detects}
use sistemi_operativi_proget.Asl.Sleepers.{sleepers}
use sistemi_operativi_proget.Types.{State, zero_state, Outcome}
use sistemi_operativi_proget.Asl.{find_semd}
use sistemi_operativi_proget.Kernel.Functions.{is_soft_block_semaphore}
use sistemi_operativi_proget.Kernel.Exception.{exception_handler}
use sistemi_operativi_proget.Kernel.Balance.{InStep}
use sistemi_operativi_proget.Kernel.Balance.Holds.{exception_handler-InStep}
use sistemi_operativi_proget.Tests.{platform, busy, mutex, free_left}

-- VERHOGEN of the mutex.
abbrev signalling : State
signalling = record zero_state { cause = 11; status = 0x1800; reg_a0 = 0xFFFFFFFC; reg_a1 = mutex }

mutex_generic : is_soft_block_semaphore platform mutex ≡ false
unfolding is_soft_block_semaphore
mutex_generic = refl

mutex-InStep : InStep busy mutex
unfolding find_semd
mutex-InStep = refl

exception_handler-InStep_example : InStep (exception_handler platform busy signalling 0).0 mutex
exception_handler-InStep_example =
    exception_handler-InStep platform mutex mutex_generic busy signalling 0 (tt, tt) free_left
      mutex-InStep

-- Nobody is ready, and process 4 waits for the pseudo-clock.
abbrev sleeping : Kernel
sleeping = record busy {
  asl = record (busy.asl) {
    semd_h = record { s_key = device_semaphore platform 48; s_procq = 4 ∷ [] } ∷ [];
  };
  ready_queue = [];
  current_process = none;
  process_count = pos 1;
  soft_block_count = pos 1;
}

sleeping-Counted : Counted platform sleeping
unfolding is_soft_block_semaphore
sleeping-Counted = refl

scheduler_detects_example :
    let asleep = sleepers (is_soft_block_semaphore platform) sleeping.asl.semd_h in
    (((scheduler sleeping).1 ≡ Outcome.halt) × (pos 1 ≡ pos 0))
    ⊎ (((scheduler sleeping).1 ≡ Outcome.wait) × (pos 0 <ℤ pos 1) × (asleep ≢ 0))
    ⊎ (((scheduler sleeping).1 ≡ Outcome.panic) × (pos 0 <ℤ pos 1) × (asleep ≡ 0))
scheduler_detects_example = scheduler_detects platform sleeping refl (omega arith) sleeping-Counted
