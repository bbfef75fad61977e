-- ===== src/DevicePool/Overlap.antt =====
-- No memory is handed out twice: allocate, and the buffers in use.
use llm_steady_infer.Base.{
  ℕ, ◌+◌, ◌≤◌, ◌<◌, ◌≡◌, inl, inr, refl, some, List, [], ◌∷◌, ◌++◌, arith, ◌==◌, Bool-cases, All,
  All-append, Returns,
}
use llm_steady_infer.DevicePool.{
  DevicePool, assign, k_alignment, size_limit, round_up, weigh, weigh-append,
}
use llm_steady_infer.DevicePool.Driver.{Driver, Lawful}
use llm_steady_infer.DevicePool.Locked.{allocate_locked}
use llm_steady_infer.DevicePool.Allocator.{Pools, pool_of, allocate}
use llm_steady_infer.DevicePool.Measure.{tile, busy_part, region_tile, covers, inside, tile_split}
use llm_steady_infer.DevicePool.Fit.{round_up-RoundedUp}
use llm_steady_infer.DevicePool.Invariant.{IsOwned, is_key, covers-once}
use llm_steady_infer.DevicePool.Growing.{AllocatedIn, no_memory, granted}
use llm_steady_infer.DevicePool.Allocation.{allocate_locked-AllocatedIn}
use llm_steady_infer.DevicePool.Across.{HasInv, weigh-assign_pool, pool_of-PoolInv}
use llm_steady_infer.DevicePool.Operations.{Consistent, allocated_inv, allocate_then}

abbrev all_regions : Pools → List (ℕ × ℕ)
all_regions [] = []
all_regions (entry ∷ pools) = entry.1.regions ++ all_regions pools

All-IsOwned :
    (al : ℕ → ℕ) (pools : Pools) → All (HasInv al) pools → All (IsOwned al) (all_regions pools)
All-IsOwned al [] h = tt
All-IsOwned al (entry ∷ pools) h =
    All-append (IsOwned al) entry.1.regions (all_regions pools) h.0.sound.owned
      (All-IsOwned al pools h.1)

all_weight :
    (f : ℕ × ℕ → ℕ) (pools : Pools)
    → weigh f (all_regions pools) ≡ weigh (λ entry. weigh f entry.1.regions) pools
all_weight f [] = refl
all_weight f (entry ∷ pools) =
    omega (arith, weigh-append f entry.1.regions (all_regions pools), all_weight f pools)

All-tiled :
    (al : ℕ → ℕ) (x : ℕ) (pools : Pools)
    → All (HasInv al) pools
    → weigh (λ entry. weigh (tile (covers x)) entry.1.blocks) pools
      ≡ weigh (λ entry. weigh (region_tile (covers x)) entry.1.regions) pools
All-tiled al x [] h = refl
All-tiled al x (entry ∷ pools) h = omega (arith, h.0.tiled (covers x), All-tiled al x pools h.1)

-- Every address lies in at most one block, of all blocks of all pools.
one_block :
    {W : Type 0} (d : Driver W) (law : Lawful d) (pools : Pools) (w : W) (x : ℕ)
    → Consistent law pools w
    → weigh (λ entry. weigh (tile (covers x)) entry.1.blocks) pools ≤ 1
one_block d law pools w x c = omega (
  arith,
  All-tiled (law.allocated w) x pools c.inv.each,
  all_weight (region_tile (covers x)) pools,
  covers-once (law.allocated w) (λ p q y. law.apart w p q y c.sound) x (all_regions pools)
      (record {
        owned = All-IsOwned (law.allocated w) pools c.inv.each;
        once = λ k. omega (arith, all_weight (is_key k) pools, c.inv.once k);
      }),
)

-- How many buffers in use hold the address `x`.
abbrev pub in_use_at : ℕ → Pools → ℕ
in_use_at x pools = weigh (λ entry. weigh (busy_part (tile (covers x))) entry.1.blocks) pools

in_use-le-blocks :
    (x : ℕ) (pools : Pools)
    → in_use_at x pools ≤ weigh (λ entry. weigh (tile (covers x)) entry.1.blocks) pools
in_use-le-blocks x [] = omega arith
in_use-le-blocks x (entry ∷ pools) =
    omega (arith, tile_split (covers x) entry.1.blocks, in_use-le-blocks x pools)

-- What a request is answered with: nullptr, with the same buffers in use, or a buffer that is large
-- enough and has no address in common with any buffer that was in use.
pub data Handed (byte_size : ℕ) (before : Pools) : ℕ × Pools → Type 0 where
  nothing :
      (after : Pools)
      → ((x : ℕ) → in_use_at x after ≡ in_use_at x before)
      → Handed byte_size before (0, after)
  buffer :
      (ptr size : ℕ) (after : Pools)
      → 0 < ptr
      → byte_size ≤ size
      → ((x : ℕ) → ptr ≤ x → x < ptr + size → in_use_at x before ≡ 0)
      → ((x : ℕ) → in_use_at x after ≡ in_use_at x before + inside x ptr size)
      → Handed byte_size before (ptr, after)

assigned :
    (device_id x : ℕ) (out : DevicePool) (pools : Pools)
    → in_use_at x (assign device_id out pools)
        + weigh (busy_part (tile (covers x))) (pool_of device_id pools).blocks
      ≡ in_use_at x pools + weigh (busy_part (tile (covers x))) out.blocks
assigned device_id x out pools =
    weigh-assign_pool (λ entry. weigh (busy_part (tile (covers x))) entry.1.blocks) device_id out
      pools refl

AllocatedIn-Handed :
    (al : ℕ → ℕ) (device_id byte_size : ℕ) (pools : Pools) (al' : ℕ → ℕ) (got : ℕ × DevicePool)
    → byte_size ≤ round_up byte_size k_alignment
    → ((x : ℕ) → in_use_at x (assign device_id got.1 pools) ≤ 1)
    → AllocatedIn al (pool_of device_id pools) byte_size al' got
    → Handed byte_size pools (got.0, assign device_id got.1 pools)
AllocatedIn-Handed al device_id byte_size pools al' _ rounded once (no_memory out r) =
    nothing (assign device_id out pools)
      (λ x. omega (arith, assigned device_id x out pools, r.in_use (tile (covers x))))
AllocatedIn-Handed al device_id byte_size pools al' _ rounded once (granted ptr out p m g) =
    buffer ptr g.given (assign device_id out pools) p (omega (arith, rounded, g.enough))
      (λ x from to.
        ground (arith, from, to, once x, assigned device_id x out pools, g.in_use (covers x)))
      (λ x. omega (arith, assigned device_id x out pools, g.in_use (covers x)))

module _ {W : Type 0} (d : Driver W) (law : Lawful d) where
  -- allocate: for a request that does not overflow, when cudaGetDevice succeeds, on pools that
  -- agree with the driver, the operation returns. Either it gives nullptr and the same addresses
  -- are in use, or it gives a buffer that is large enough, of which no address was in any buffer in
  -- use on any device, and exactly the addresses of that buffer come into use.
  pub allocate-Handed :
      (byte_size device_id : ℕ) (pools : Pools) (w : W)
      → byte_size + k_alignment ≤ size_limit
      → d.get_device w ≡ some device_id
      → Consistent law pools w
      → Returns (allocate d byte_size pools w) (λ r. Handed byte_size pools r.0)
  unfolding allocate
  allocate-Handed byte_size device_id pools w small known c = elim (Bool-cases (byte_size == 0)) [
    | inl zero_size ↦ rw zero_size (nothing pools (λ x. refl))
    | inr positive ↦
        let after =
          allocated_inv d law device_id byte_size pools w (ground (arith, positive)) small c in
        allocate_then d law byte_size device_id pools w (λ r. Handed byte_size pools r.0)
          (ground (arith, positive)) small known c
          (AllocatedIn-Handed (law.allocated w) device_id byte_size pools _ _
            ((round_up-RoundedUp byte_size).enough small)
            (λ x. omega (
              arith,
              in_use-le-blocks x (
                  assign device_id
                    (allocate_locked d device_id (pool_of device_id pools) byte_size w).0.1 pools),
              one_block d law _ _ x after,
            ))
            (allocate_locked-AllocatedIn d law byte_size (pool_of device_id pools) w
              (ground (arith, positive)) small c.sound
              (pool_of-PoolInv (law.allocated w) device_id pools c.inv.each) device_id).1)
  ]
