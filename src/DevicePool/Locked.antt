-- ===== src/DevicePool/Locked.antt =====
-- The operations of one pool that call the driver: allocate_locked, free_regions_locked and
-- idle_flush_threshold.
use llm_steady_infer.Base.{
  ℕ, ◌/◌, Bool, true, false, not, ◌&&◌, Option, none, some, List, [], ◌∷◌, ◌++◌, ltb, ◌==◌,
  if◌then◌else◌,
}
use llm_steady_infer.DevicePool.{
  Block, DevicePool, add_size, sub_size, round_up, best_fit, hand_out, find, assign, erase_key,
  k_alignment, k_min_idle_flush_bytes,
}
use llm_steady_infer.DevicePool.Driver.{Driver, guarded}

-- The variables of the loop of free_regions_locked.
pub record Flushing (W : Type 0) : Type 0 where
  pub kept : List Block
  pub regions : List (ℕ × ℕ)
  pub idle_bytes : ℕ
  pub reserved_bytes : ℕ
  pub freed_bytes : ℕ
  pub world : W

unfoldable pub whole_region_idle : List (ℕ × ℕ) → Block → Bool
whole_region_idle regions block =
    not block.busy
    && block.address == block.region
    && (elim (find block.region regions) [ none ↦ false | some size ↦ size == block.byte_size ])

-- The end of allocate_locked on a miss: a new region with one block in use, or nullptr.
abbrev pub book : Option ℕ × DevicePool → ℕ → ℕ × DevicePool
book (none, pool) wanted = (0, pool)
book (some ptr, pool) wanted = (
  ptr,
  record pool {
    regions = assign ptr wanted pool.regions;
    reserved_bytes = add_size pool.reserved_bytes wanted;
    blocks =
        pool.blocks
        ++ (record { address = ptr; byte_size = wanted; busy = true; region = ptr } ∷ []);
  },
)

unfoldable pub total_mem_of : Option (ℕ × ℕ) → ℕ
total_mem_of none = 0
total_mem_of (some info) = info.1

module _ {W : Type 0} (d : Driver W) where
  unfoldable pub flush_block : Block → Flushing W → Flushing W
  flush_block block st =
      let freed = d.free block.address st.world in
      if whole_region_idle st.regions block
      then if freed.0
        then record st {
          regions = erase_key block.region st.regions;
          idle_bytes = sub_size st.idle_bytes block.byte_size;
          reserved_bytes = sub_size st.reserved_bytes block.byte_size;
          freed_bytes = add_size st.freed_bytes block.byte_size;
          world = freed.1;
        }
        else record st { kept = st.kept ++ (block ∷ []); world = freed.1 }
      else record st { kept = st.kept ++ (block ∷ []) }

  unfoldable pub flush_blocks : List Block → Flushing W → Flushing W
  flush_blocks [] st = st
  flush_blocks (block ∷ blocks) st = flush_blocks blocks (flush_block block st)

  -- The bytes released and the pool.
  unfoldable pub free_regions_locked : ℕ → DevicePool → W → (ℕ × DevicePool) × W
  free_regions_locked device_id pool = guarded d device_id (λ w.
      let st = flush_blocks pool.blocks (record {
        kept = [];
        regions = pool.regions;
        idle_bytes = pool.idle_bytes;
        reserved_bytes = pool.reserved_bytes;
        freed_bytes = 0;
        world = w;
      }) in
      (
        (
          st.freed_bytes,
          record pool {
            blocks = st.kept;
            regions = st.regions;
            idle_bytes = st.idle_bytes;
            reserved_bytes = st.reserved_bytes;
          },
        ),
        st.world,
      ))

  -- cudaMalloc, and once more after the idle regions have gone back to the driver.
  unfoldable pub malloc_or_reclaim : ℕ → DevicePool → ℕ → W → (Option ℕ × DevicePool) × W
  malloc_or_reclaim device_id pool wanted w =
      let first = d.malloc wanted w in
      elim first.0 [
        | some ptr ↦ ((some ptr, pool), first.1)
        | none ↦
            let freed = free_regions_locked device_id pool first.1 in
            let second = d.malloc wanted freed.1 in ((second.0, freed.0.1), second.1)
      ]

  -- The pointer, 0 when there is no memory, and the pool.
  unfoldable pub allocate_locked : ℕ → DevicePool → ℕ → W → (ℕ × DevicePool) × W
  allocate_locked device_id pool byte_size w =
      let wanted = round_up byte_size k_alignment in
      elim (best_fit wanted 0 none pool.blocks) [
        | some (i, best) ↦ ((best.address, hand_out wanted i best pool), w)
        | none ↦
            let got = guarded d device_id (malloc_or_reclaim device_id pool wanted) w in
            (book got.0 wanted, got.1)
      ]

  -- The waterline, computed once and kept in the pool.
  unfoldable pub idle_flush_threshold : ℕ → DevicePool → W → (ℕ × DevicePool) × W
  idle_flush_threshold device_id pool w =
      if not (pool.flush_threshold == 0)
      then ((pool.flush_threshold, pool), w)
      else let info = guarded d device_id (λ v. (d.mem_get_info v, v)) w in
        let total_mem = total_mem_of info.0 in
        let threshold =
          if ltb (total_mem / 20) k_min_idle_flush_bytes
          then k_min_idle_flush_bytes
          else total_mem / 20 in
        ((threshold, record pool { flush_threshold = threshold }), info.1)
