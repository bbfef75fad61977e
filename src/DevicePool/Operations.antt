-- ===== src/DevicePool/Operations.antt =====
-- Pools and driver in agreement, and allocate.
use llm_steady_infer.Base.{
  ℕ, ◌+◌, ◌≤◌, ◌<◌, ◌≡◌, inl, inr, false, some, arith, ◌==◌, Bool-cases, Returns,
}
use llm_steady_infer.DevicePool.{DevicePool, assign, k_alignment, size_limit}
use llm_steady_infer.DevicePool.Driver.{Driver, Lawful}
use llm_steady_infer.DevicePool.Locked.{allocate_locked}
use llm_steady_infer.DevicePool.Allocator.{Pools, pool_of, allocate}
use llm_steady_infer.DevicePool.Reclaim.{Moved}
use llm_steady_infer.DevicePool.Growing.{AllocatedIn, no_memory, granted}
use llm_steady_infer.DevicePool.Allocation.{allocate_locked-AllocatedIn}
use llm_steady_infer.DevicePool.Across.{
  AllocatorInv, AllocatorInv-check_ledger, assign_inv, pool_of-PoolInv,
}

-- The pools and the driver agree.
pub record Consistent {W : Type 0} {d : Driver W} (law : Lawful d) (pools : Pools) (w : W)
    : Type 0 where
  pub sound : law.Sound w
  pub inv : AllocatorInv (law.allocated w) pools

AllocatedIn-Moved :
    (al : ℕ → ℕ) (pool : DevicePool) (byte_size : ℕ) (al' : ℕ → ℕ) (got : ℕ × DevicePool)
    → AllocatedIn al pool byte_size al' got
    → Moved al pool al' got.1
AllocatedIn-Moved al pool byte_size al' _ (no_memory out r) = r.moved
AllocatedIn-Moved al pool byte_size al' _ (granted ptr out p m g) = m

module _ {W : Type 0} (d : Driver W) (law : Lawful d) where
  pub allocated_inv :
      (device_id byte_size : ℕ) (pools : Pools) (w : W)
      → 0 < byte_size
      → byte_size + k_alignment ≤ size_limit
      → Consistent law pools w
      → Consistent law
          (assign device_id
            (allocate_locked d device_id (pool_of device_id pools) byte_size w).0.1
            pools)
          (allocate_locked d device_id (pool_of device_id pools) byte_size w).1
  allocated_inv device_id byte_size pools w positive small c =
      let got =
        allocate_locked-AllocatedIn d law byte_size (pool_of device_id pools) w positive small
          c.sound (pool_of-PoolInv (law.allocated w) device_id pools c.inv.each) device_id in
      record {
        sound = got.0;
        inv =
            assign_inv (law.allocated w) _ device_id _ pools c.inv
              (AllocatedIn-Moved (law.allocated w) (pool_of device_id pools) byte_size _ _ got.1);
      }

  positive_ne : (n : ℕ) → 0 < n → (n == 0) ≡ false
  positive_ne n h = ground (arith, h)

  pub allocate_then :
      (byte_size device_id : ℕ) (pools : Pools) (w : W) (P : (ℕ × Pools) × W → Type 0)
      → 0 < byte_size
      → byte_size + k_alignment ≤ size_limit
      → d.get_device w ≡ some device_id
      → Consistent law pools w
      → (let got = allocate_locked d device_id (pool_of device_id pools) byte_size w in
          P ((got.0.0, assign device_id got.0.1 pools), got.1))
      → Returns (allocate d byte_size pools w) P
  unfolding allocate
  allocate_then byte_size device_id pools w P positive small known c p =
      rw
        (
          positive_ne byte_size positive,
          known,
          AllocatorInv-check_ledger
              (law.allocated (allocate_locked d device_id (pool_of device_id pools) byte_size w).1)
              (assign device_id
                (allocate_locked d device_id (pool_of device_id pools) byte_size w).0.1 pools)
              (allocated_inv device_id byte_size pools w positive small c).inv.each,
          allocate,
        )
        p

  -- allocate: for a request that does not overflow, when cudaGetDevice succeeds, the operation
  -- returns, which includes that check_ledger finds nothing wrong, and pools and driver agree
  -- afterwards.
  pub allocate-Consistent :
      (byte_size device_id : ℕ) (pools : Pools) (w : W)
      → byte_size + k_alignment ≤ size_limit
      → d.get_device w ≡ some device_id
      → Consistent law pools w
      → Returns (allocate d byte_size pools w) (λ r. Consistent law r.0.1 r.1)
  unfolding allocate
  allocate-Consistent byte_size device_id pools w small known c =
      elim (Bool-cases (byte_size == 0)) [
        | inl nothing ↦ rw nothing c
        | inr positive ↦
            allocate_then byte_size device_id pools w (λ r. Consistent law r.0.1 r.1)
              (ground (arith, positive)) small known c
              (allocated_inv device_id byte_size pools w (ground (arith, positive)) small c)
      ]
