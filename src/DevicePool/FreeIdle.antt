-- ===== src/DevicePool/FreeIdle.antt =====
-- free_idle, over the pools of all devices.
use llm_steady_infer.Base.{
  ℕ, ◌+◌, ◌%◌, ◌<◌, ◌≡◌, refl, sym, ap, ◌∙◌, subst, List, [], ◌∷◌, arith, Returns, Returns-bind,
  Returns-mono, length, All, true,
}
use llm_steady_infer.DevicePool.{Block, DevicePool, size_limit, merge_all_idle}
use llm_steady_infer.DevicePool.Driver.{Driver, Lawful}
use llm_steady_infer.DevicePool.Locked.{free_regions_locked}
use llm_steady_infer.DevicePool.Allocator.{Pools, free_idle}
use llm_steady_infer.DevicePool.Merge.{Merged, Merged-tile}
use llm_steady_infer.DevicePool.MergeAll.{SettledBelow, merge_all_idle-Merged}
use llm_steady_infer.DevicePool.Invariant.{PoolInv, PoolInv-Bounded}
use llm_steady_infer.DevicePool.Measure.{bytes, tile, covers}
use llm_steady_infer.DevicePool.Reclaim.{Moved, Moved-trans, free_regions_locked-Reclaimed}
use llm_steady_infer.DevicePool.Across.{
  AllocatorInv, MovedAll, MovedAll-refl, MovedAll-cons, rest_inv,
}
use llm_steady_infer.DevicePool.Operations.{Consistent}
use llm_steady_infer.DevicePool.Overlap.{in_use_at}
use llm_steady_infer.DevicePool.Drained.{IsDrained, free_regions_locked-IsDrained}
use llm_steady_infer.DevicePool.Apart.{SettledBelow-AllApart}

module _ {W : Type 0} (d : Driver W) (law : Lawful d) where
  Merged-Moved :
      (al : ℕ → ℕ) (pool : DevicePool) (blocks : List Block)
      → PoolInv al pool
      → Merged pool.blocks blocks
      → Moved al pool al (record pool { blocks = blocks })
  Merged-Moved al pool blocks inv g = record {
    inv = record {
      sound = inv.sound;
      tiled = λ m. Merged-tile m pool.blocks blocks g ∙ inv.tiled m;
      idle_ledger = inv.idle_ledger ∙ ap (λ n. n % size_limit) (sym (g.idle_same bytes));
      reserved_ledger = inv.reserved_ledger;
    };
    others = λ q h k. refl;
    keys = λ q h. omega arith;
  }

  -- What the loop over the pools leaves.
  record Drained (al : ℕ → ℕ) (pools : Pools) (r : Pools × W) : Type 0 where
    sound : law.Sound r.1
    moved : MovedAll al pools (law.allocated r.1) r.0
    each : All (λ entry. IsDrained entry.1) r.0
    in_use : (x : ℕ) → in_use_at x r.0 ≡ in_use_at x pools

  module _
      (reliable : (p : ℕ) (v : W)
        → law.Sound v
        → 0 < law.allocated v p
        → (d.free p v).0 ≡ true) where
    free_idle_from :
        (pools : Pools) (al : ℕ → ℕ) (w : W)
        → law.Sound w
        → law.allocated w ≡ al
        → AllocatorInv al pools
        → Returns (free_idle d pools w) (Drained al pools)
    unfolding free_idle
    free_idle_from [] al w sound same inv = record {
      sound = sound;
      moved = subst (λ t. MovedAll al [] t []) (sym same) (MovedAll-refl al [] inv);
      each = tt;
      in_use = λ x. refl;
    }
    free_idle_from (entry ∷ pools) al w sound same inv =
        Returns-bind (λ out. Merged entry.1.blocks out × SettledBelow (length out) out)
          (Drained al (entry ∷ pools)) (merge_all_idle (1 + length entry.1.blocks) entry.1.blocks) _
          (merge_all_idle-Merged (1 + length entry.1.blocks) entry.1.blocks (omega arith)
            (PoolInv-Bounded al entry.1 inv.each.0))
          (λ blocks g.
            let start : DevicePool = record entry.1 { blocks = blocks } in
            let moved = Merged-Moved al entry.1 blocks inv.each.0 g.0 in
            let freed =
              free_regions_locked-Reclaimed d law al start moved.inv entry.0 w sound same in
            let drained =
              free_regions_locked-IsDrained d law reliable al start entry.0 w moved.inv
                (SettledBelow-AllApart blocks g.1) sound same in
            let m = Moved-trans inv.each.0 moved freed.1.moved in
            let next = free_regions_locked d entry.0 start w in
            Returns-bind (Drained (law.allocated next.1) pools) (Drained al (entry ∷ pools))
              (free_idle d pools next.1) _
              (free_idle_from pools _ _ freed.0 refl (rest_inv al _ entry.0 entry.1 _ pools inv m))
              (λ rest q. record {
                sound = q.sound;
                moved = MovedAll-cons al _ entry.0 entry.1 _ pools inv m _ _ q.moved;
                each = (drained, q.each);
                in_use = λ x. omega (
                  arith,
                  q.in_use x,
                  freed.1.in_use (tile (covers x)),
                  g.0.busy_same (tile (covers x)),
                );
              }))

    -- free_idle: if cudaFree takes back every allocation, the operation returns on pools that agree
    -- with the driver, and pools and driver agree afterwards. The same addresses are in use as
    -- before; in every pool no region is idle as a whole, and no idle block has an idle neighbour.
    pub free_idle-Drained :
        (pools : Pools) (w : W)
        → Consistent law pools w
        → Returns (free_idle d pools w) (λ r.
          Consistent law r.0 r.1
          × All (λ entry. IsDrained entry.1) r.0
          × ((x : ℕ) → in_use_at x r.0 ≡ in_use_at x pools))
    free_idle-Drained pools w c =
        Returns-mono (Drained (law.allocated w) pools)
          (λ r.
            Consistent law r.0 r.1
            × All (λ entry. IsDrained entry.1) r.0
            × ((x : ℕ) → in_use_at x r.0 ≡ in_use_at x pools))
          (free_idle d pools w) (free_idle_from pools (law.allocated w) w c.sound refl c.inv)
          (λ r m. (record { sound = m.sound; inv = m.moved.inv }, m.each, m.in_use))
