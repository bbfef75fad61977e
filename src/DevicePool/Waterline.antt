-- ===== src/DevicePool/Waterline.antt =====
-- flush_over_waterline_locked: each pool against its own waterline.
use llm_steady_infer.Base.{
  ℕ, ◌≡◌, not, inl, inr, refl, sym, subst, [], ◌∷◌, arith, leb, ◌==◌, Bool-cases,
}
use llm_steady_infer.DevicePool.{DevicePool}
use llm_steady_infer.DevicePool.Driver.{Driver, Lawful, guarded_ind}
use llm_steady_infer.DevicePool.Locked.{idle_flush_threshold}
use llm_steady_infer.DevicePool.Allocator.{Pools, flush_pool, flush_over_waterline}
use llm_steady_infer.DevicePool.Invariant.{PoolInv}
use llm_steady_infer.DevicePool.Reclaim.{
  Moved, Moved-refl, Moved-trans, free_regions_locked-Reclaimed,
}
use llm_steady_infer.DevicePool.Across.{
  AllocatorInv, MovedAll, MovedAll-refl, MovedAll-cons, rest_inv,
}

module _ {W : Type 0} (d : Driver W) (law : Lawful d) where
  with_threshold :
      (al : ℕ → ℕ) (pool : DevicePool) (n : ℕ)
      → PoolInv al pool
      → Moved al pool al (record pool { flush_threshold = n })
  with_threshold al pool n inv = record {
    inv = record {
      sound = inv.sound;
      tiled = inv.tiled;
      idle_ledger = inv.idle_ledger;
      reserved_ledger = inv.reserved_ledger;
    };
    others = λ q h k. refl;
    keys = λ q h. omega arith;
  }

  idle_flush_threshold-Moved :
      (device_id : ℕ) (pool : DevicePool) (al : ℕ → ℕ) (w : W)
      → law.Sound w
      → law.allocated w ≡ al
      → PoolInv al pool
      → law.Sound (idle_flush_threshold d device_id pool w).1
        × (law.allocated (idle_flush_threshold d device_id pool w).1 ≡ al)
        × Moved al pool al (idle_flush_threshold d device_id pool w).0.1
  unfolding idle_flush_threshold
  idle_flush_threshold-Moved device_id pool al w sound same inv =
      elim (Bool-cases (not (pool.flush_threshold == 0))) [
        | inl cached ↦ rw (cached, idle_flush_threshold) (sound, same, Moved-refl al pool inv)
        | inr first ↦
            let asked =
              guarded_ind d law (λ t. t ≡ al) (λ info t. t ≡ al) (λ v. (d.mem_get_info v, v))
                (λ v s e. (s, e)) device_id w sound same in
            rw (first, idle_flush_threshold) (asked.0, asked.1, with_threshold al pool _ inv)
      ]

  -- One pool after the waterline test.
  flush_pool-Moved :
      (device_id : ℕ) (pool : DevicePool) (al : ℕ → ℕ) (w : W)
      → law.Sound w
      → law.allocated w ≡ al
      → PoolInv al pool
      → law.Sound (flush_pool d device_id pool w).1
        × Moved al pool
            (law.allocated (flush_pool d device_id pool w).1)
            (flush_pool d device_id pool w).0
  unfolding flush_pool
  flush_pool-Moved device_id pool al w sound same inv =
      let line = idle_flush_threshold-Moved device_id pool al w sound same inv in
      let pool' = (idle_flush_threshold d device_id pool w).0.1 in
      let w' = (idle_flush_threshold d device_id pool w).1 in
      elim (Bool-cases (leb pool.idle_bytes (idle_flush_threshold d device_id pool w).0.0)) [
        | inl low ↦
            rw (low, flush_pool)
              (
                line.0,
                subst (λ t. Moved al pool t (idle_flush_threshold d device_id pool w).0.1)
                    (sym line.1) line.2,
              )
        | inr high ↦
            let freed =
              free_regions_locked-Reclaimed d law al (idle_flush_threshold d device_id pool w).0.1
                line.2.inv device_id (idle_flush_threshold d device_id pool w).1 line.0 line.1 in
            rw (high, flush_pool) (freed.0, Moved-trans inv line.2 freed.1.moved)
      ]

  pub flush_over_waterline-MovedAll :
      (pools : Pools) (al : ℕ → ℕ) (w : W)
      → law.Sound w
      → law.allocated w ≡ al
      → AllocatorInv al pools
      → law.Sound (flush_over_waterline d pools w).1
        × MovedAll al pools
            (law.allocated (flush_over_waterline d pools w).1)
            (flush_over_waterline d pools w).0
  unfolding flush_over_waterline
  flush_over_waterline-MovedAll [] al w sound same inv =
      (sound, subst (λ t. MovedAll al [] t []) (sym same) (MovedAll-refl al [] inv))
  flush_over_waterline-MovedAll (entry ∷ pools) al w sound same inv =
      let head = flush_pool-Moved entry.0 entry.1 al w sound same inv.each.0 in
      let al' = law.allocated (flush_pool d entry.0 entry.1 w).1 in
      let out = (flush_pool d entry.0 entry.1 w).0 in
      let rest =
        flush_over_waterline-MovedAll pools (law.allocated (flush_pool d entry.0 entry.1 w).1)
          (flush_pool d entry.0 entry.1 w).1 head.0 refl
          (rest_inv al (law.allocated (flush_pool d entry.0 entry.1 w).1) entry.0 entry.1
            (flush_pool d entry.0 entry.1 w).0 pools inv head.1) in
      (
        rest.0,
        MovedAll-cons al (law.allocated (flush_pool d entry.0 entry.1 w).1) entry.0 entry.1
            (flush_pool d entry.0 entry.1 w).0 pools inv head.1 _ _ rest.1,
      )
