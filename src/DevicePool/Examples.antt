-- ===== src/DevicePool/Examples.antt =====
-- Runs of the device memory pool at concrete inputs.
use llm_steady_infer.Base.{
  ℕ, ◌<◌, ◌≡◌, All, refl, true, false, none, List, [], ◌∷◌, arith, Returns, length,
}
use llm_steady_infer.DevicePool.{
  Block, DevicePool, k_alignment, round_up, best_fit, release_locked, merge_all_idle,
}
use llm_steady_infer.DevicePool.Bump.{Bump, bump, bump_laws, boot, boot-BumpSound}
use llm_steady_infer.DevicePool.Merge.{Bounded, Merged}
use llm_steady_infer.DevicePool.MergeAll.{SettledBelow, merge_all_idle-Merged}
use llm_steady_infer.DevicePool.Fit.{BestFit, best_fit-BestFit, RoundedUp, round_up-RoundedUp}
use llm_steady_infer.DevicePool.Locked.{allocate_locked}
use llm_steady_infer.DevicePool.Allocator.{allocate, release, free_idle}
use llm_steady_infer.DevicePool.Invariant.{PoolInv}
use llm_steady_infer.DevicePool.Growing.{AllocatedIn}
use llm_steady_infer.DevicePool.Allocation.{allocate_locked-AllocatedIn}
use llm_steady_infer.DevicePool.Release.{Released, release_locked-Released}
use llm_steady_infer.DevicePool.Operations.{Consistent, allocate-Consistent}
use llm_steady_infer.DevicePool.ReleaseAny.{release-Consistent}
use llm_steady_infer.DevicePool.Overlap.{Handed, allocate-Handed, in_use_at}
use llm_steady_infer.DevicePool.Drained.{IsDrained}
use llm_steady_infer.DevicePool.FreeIdle.{free_idle-Drained}

-- One region of 1536 bytes: 512 in use, 256 and 256 idle, 512 in use.
abbrev sample_blocks : List Block
sample_blocks =
    record { address = 4096; byte_size = 512; busy = true; region = 4096 }
    ∷ record { address = 4608; byte_size = 256; busy = false; region = 4096 }
    ∷ record { address = 4864; byte_size = 256; busy = false; region = 4096 }
    ∷ record { address = 5120; byte_size = 512; busy = true; region = 4096 }
    ∷ []

abbrev sample : DevicePool
sample = record {
  blocks = sample_blocks;
  regions = (4096, 1536) ∷ [];
  idle_bytes = 512;
  reserved_bytes = 1536;
  flush_threshold = 0;
}

-- The driver that has handed out that region.
abbrev sample_world : Bump
sample_world = (bump.malloc 1536 boot).1

sample-PoolInv : PoolInv sample_world.table sample
sample-PoolInv = record {
  sound = record {
    owned = ((refl, omega arith, omega arith, omega arith), tt);
    once = λ k. ground arith;
  };
  tiled = λ m. omega (
    arith,
    m.additive 4096 4096 512 1024,
    m.additive 4096 4608 256 768,
    m.additive 4096 4864 256 512,
  );
  idle_ledger = refl;
  reserved_ledger = refl;
}

sample-Consistent : Consistent bump_laws ((0, sample) ∷ []) sample_world
unfolding bump_laws
sample-Consistent = record {
  sound = bump_laws.malloc-Sound 1536 boot boot-BumpSound;
  inv = record {
    each = (sample-PoolInv, tt);
    once = λ q. omega (arith, sample-PoolInv.sound.once q);
  };
}

sample-Bounded : Bounded sample_blocks
sample-Bounded = record { bounded = λ r. ground arith }

best_fit-BestFit_example : BestFit 200 sample_blocks (best_fit 200 0 none sample_blocks)
best_fit-BestFit_example = best_fit-BestFit 200 sample_blocks

round_up-RoundedUp_example : RoundedUp 1000 (round_up 1000 k_alignment)
round_up-RoundedUp_example = round_up-RoundedUp 1000

merge_all_idle-Merged_example :
    Returns
      (merge_all_idle 5 sample_blocks)
      (λ out. Merged sample_blocks out × SettledBelow (length out) out)
merge_all_idle-Merged_example = merge_all_idle-Merged 5 sample_blocks (omega arith) sample-Bounded

release_locked-Released_example :
    Returns (release_locked 5120 sample) (Released sample_world.table 5120 sample)
release_locked-Released_example =
    release_locked-Released sample_world.table 5120 sample sample-PoolInv

sample_sound : bump_laws.Sound sample_world
sample_sound = sample-Consistent.sound

sample_inv : PoolInv (bump_laws.allocated sample_world) sample
sample_inv = sample-Consistent.inv.each.0

allocate_locked-AllocatedIn_example :
    bump_laws.Sound (allocate_locked bump 0 sample 1000 sample_world).1
    × AllocatedIn
        (bump_laws.allocated sample_world)
        sample
        1000
        (bump_laws.allocated (allocate_locked bump 0 sample 1000 sample_world).1)
        (allocate_locked bump 0 sample 1000 sample_world).0
allocate_locked-AllocatedIn_example =
    allocate_locked-AllocatedIn bump bump_laws 1000 sample sample_world (omega arith) (omega arith)
      sample_sound sample_inv 0

allocate-Consistent_example :
    Returns
      (allocate bump 1000 ((0, sample) ∷ []) sample_world)
      (λ r. Consistent bump_laws r.0.1 r.1)
allocate-Consistent_example =
    allocate-Consistent bump bump_laws 1000 0 ((0, sample) ∷ []) sample_world (omega arith) refl
      sample-Consistent

release-Consistent_example :
    Returns (release bump 5120 ((0, sample) ∷ []) sample_world) (λ r. Consistent bump_laws r.0 r.1)
release-Consistent_example =
    release-Consistent bump bump_laws 5120 ((0, sample) ∷ []) sample_world sample-Consistent

allocate-Handed_example :
    Returns
      (allocate bump 1000 ((0, sample) ∷ []) sample_world)
      (λ r. Handed 1000 ((0, sample) ∷ []) r.0)
allocate-Handed_example =
    allocate-Handed bump bump_laws 1000 0 ((0, sample) ∷ []) sample_world (omega arith) refl
      sample-Consistent

-- The driver refuses no pointer that it has handed out.
bump_reliable :
    (p : ℕ) (v : Bump) → bump_laws.Sound v → 0 < bump_laws.allocated v p → (bump.free p v).0 ≡ true
unfolding bump_laws
bump_reliable p v s h = ground (arith, h)

free_idle-Drained_example : Returns (free_idle bump ((0, sample) ∷ []) sample_world) (λ r.
    Consistent bump_laws r.0 r.1
    × All (λ entry. IsDrained entry.1) r.0
    × ((x : ℕ) → in_use_at x r.0 ≡ in_use_at x ((0, sample) ∷ [])))
free_idle-Drained_example =
    free_idle-Drained bump bump_laws bump_reliable ((0, sample) ∷ []) sample_world sample-Consistent
