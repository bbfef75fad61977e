-- ===== src/DevicePool/Allocator.antt =====
-- The public operations of CUDADeviceAllocator, over the pools of all devices. `none` is a CHECK
-- that fails. The checks of a build without NDEBUG are included; the mutex makes the operations
-- run one after the other.
use llm_steady_infer.Base.{
  ℕ, ◌+◌, Bool, true, false, Option, none, some, List, [], ◌∷◌, leb, ◌==◌, if◌then◌else◌, length,
  check, ◌>>=◌, ◌>>◌,
}
use llm_steady_infer.DevicePool.{
  DevicePool, sub_size, find, assign, release_locked, merge_all_idle, ledger_holds,
}
use llm_steady_infer.DevicePool.Driver.{Driver, guarded}
use llm_steady_infer.DevicePool.Locked.{allocate_locked, free_regions_locked, idle_flush_threshold}

-- pools_
abbrev pub Pools : Type 0
Pools = List (ℕ × DevicePool)

abbrev pub empty_pool : DevicePool
empty_pool = record {
  blocks = [];
  regions = [];
  idle_bytes = 0;
  reserved_bytes = 0;
  flush_threshold = 0;
}

-- pools_[device_id]
unfoldable pub pool_of : ℕ → Pools → DevicePool
pool_of device_id pools = elim (find device_id pools) [ none ↦ empty_pool | some pool ↦ pool ]

unfoldable pub check_ledger : Pools → Bool
check_ledger [] = true
check_ledger (entry ∷ pools) = if ledger_holds entry.1 then check_ledger pools else false

-- The loop of release over the pools.
unfoldable pub release_in : ℕ → Pools → Option (Bool × Pools)
release_in ptr [] = some (false, [])
release_in ptr (entry ∷ pools) =
    let rest = release_in ptr pools in
    release_locked ptr entry.1 >>= λ done.
    if done.0
    then some (true, (entry.0, done.1) ∷ pools)
    else rest >>= λ later. some (later.0, (entry.0, done.1) ∷ later.1)

pub record DeviceStats : Type 0 where
  pub reserved_bytes : ℕ
  pub busy_bytes : ℕ
  pub idle_bytes : ℕ
  pub blocks : ℕ
  pub regions : ℕ

abbrev no_stats : DeviceStats
no_stats = record { reserved_bytes = 0; busy_bytes = 0; idle_bytes = 0; blocks = 0; regions = 0 }

unfoldable pub pool_stats : DevicePool → DeviceStats
pool_stats pool = record {
  reserved_bytes = pool.reserved_bytes;
  busy_bytes = sub_size pool.reserved_bytes pool.idle_bytes;
  idle_bytes = pool.idle_bytes;
  blocks = length pool.blocks;
  regions = length pool.regions;
}

module _ {W : Type 0} (d : Driver W) where
  -- Nothing is known of what a failed cudaGetDevice leaves: `none`.
  unfoldable pub allocate : ℕ → Pools → W → Option ((ℕ × Pools) × W)
  allocate byte_size pools w =
      if byte_size == 0
      then some ((0, pools), w)
      else d.get_device w >>= λ device_id.
          let got = allocate_locked d device_id (pool_of device_id pools) byte_size w in
          check (check_ledger (assign device_id got.0.1 pools))
          >> some ((got.0.0, assign device_id got.0.1 pools), got.1)

  unfoldable pub flush_pool : ℕ → DevicePool → W → DevicePool × W
  flush_pool device_id pool w =
      let line = idle_flush_threshold d device_id pool w in
      if leb pool.idle_bytes line.0.0
      then (line.0.1, line.1)
      else let freed = free_regions_locked d device_id line.0.1 line.1 in (freed.0.1, freed.1)

  unfoldable pub flush_over_waterline : Pools → W → Pools × W
  flush_over_waterline [] w = ([], w)
  flush_over_waterline (entry ∷ pools) w =
      let first = flush_pool entry.0 entry.1 w in
      let rest = flush_over_waterline pools first.1 in ((entry.0, first.0) ∷ rest.0, rest.1)

  unfoldable pub release : ℕ → Pools → W → Option (Pools × W)
  release ptr pools w =
      if ptr == 0
      then some (pools, w)
      else release_in ptr pools >>= λ done.
          if done.0
          then check (check_ledger done.1) >> some (flush_over_waterline done.1 w)
          else some (done.1, (d.free ptr w).1)

  unfoldable pub free_idle : Pools → W → Option (Pools × W)
  free_idle [] w = some ([], w)
  free_idle (entry ∷ pools) w =
      merge_all_idle (1 + length entry.1.blocks) entry.1.blocks >>= λ blocks.
      let freed = free_regions_locked d entry.0 (record entry.1 { blocks = blocks }) w in
      free_idle pools freed.1 >>= λ rest. some ((entry.0, freed.0.1) ∷ rest.0, rest.1)

  -- `none` for the device is a negative device_id: the current device.
  unfoldable pub stats : Option ℕ → Pools → W → DeviceStats
  stats device pools w =
      elim (elim device as (λ _. Option ℕ) [ none ↦ d.get_device w | some i ↦ some i ]) [
        | none ↦ no_stats
        | some device_id ↦ elim (find device_id pools) [
          | none ↦ no_stats
          | some pool ↦ pool_stats pool
        ]
      ]

  -- ~CUDADeviceAllocator: every region goes back to the driver, whatever cudaFree answers.
  unfoldable pub free_all_regions : List (ℕ × ℕ) → W → W
  free_all_regions [] w = w
  free_all_regions (region ∷ regions) w = free_all_regions regions (d.free region.0 w).1

  unfoldable pub destroy : Pools → W → W
  destroy [] w = w
  destroy (entry ∷ pools) w =
      destroy pools (guarded d entry.0 (λ v. (tt, free_all_regions entry.1.regions v)) w).1
