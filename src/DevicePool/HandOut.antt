-- ===== src/DevicePool/HandOut.antt =====
-- allocate_locked on a hit: an idle block is handed out whole, or split.
use llm_steady_infer.Base.{
  ℕ, ◌+◌, ◌-◌, ◌≤◌, ◌<◌, ◌≡◌, inl, inr, refl, ap, ◌∙◌, true, false, some, List, [], ◌∷◌, ◌++◌,
  arith, leb, get_elem?, set, Bool-cases,
}
use llm_steady_infer.DevicePool.{
  Block, DevicePool, sub_size, hand_out, weigh, weigh-set, weigh-append, k_alignment,
  k_min_split_bytes,
}
use llm_steady_infer.DevicePool.Measure.{Measure, tile, idle_part, busy_part, bytes, sub_size-mod}
use llm_steady_infer.DevicePool.Invariant.{PoolInv}

-- A buffer of at least `wanted` bytes at `ptr` is in use afterwards, and nothing else has changed
-- hands.
pub record Granted (ptr wanted : ℕ) (blocks out : List Block) : Type 0 where
  pub region : ℕ
  pub given : ℕ
  pub enough : wanted ≤ given
  pub tight : given < wanted + k_alignment
  pub in_use :
      (m : Measure)
      → weigh (busy_part (tile m)) out
        ≡ weigh (busy_part (tile m)) blocks + m.weight region ptr given

module _ (allocated : ℕ → ℕ) (pool : DevicePool) (wanted i : ℕ) (best : Block)
    (inv : PoolInv allocated pool) (at : get_elem? pool.blocks i ≡ some best)
    (idle : best.busy ≡ false) (large : wanted ≤ best.byte_size) where
  abbrev head : Block
  head = record best { byte_size = wanted; busy = true }

  abbrev tail : Block
  tail = record {
    address = best.address + wanted;
    byte_size = best.byte_size - wanted;
    busy = false;
    region = best.region;
  }

  abbrev whole : Block
  whole = record best { busy = true }

  abbrev cut : List Block
  cut = set pool.blocks i head ++ (tail ∷ [])

  cut_weight : (f : Block → ℕ) → weigh f cut + f best ≡ weigh f pool.blocks + f head + f tail
  cut_weight f = omega (
    arith,
    weigh-append f (set pool.blocks i head) (tail ∷ []),
    weigh-set f pool.blocks i best head at,
  )

  size_cut : best.byte_size ≡ wanted + (best.byte_size - wanted)
  size_cut = omega (arith, large)

  cut_tile : (m : Measure) → tile m best ≡ tile m head + tile m tail
  cut_tile m =
      ap (m.weight best.region best.address) size_cut
      ∙ m.additive best.region best.address wanted (best.byte_size - wanted)

  split_inv :
      PoolInv allocated (record pool { blocks = cut; idle_bytes = sub_size pool.idle_bytes wanted })
  split_inv = record {
    sound = inv.sound;
    tiled = λ m. omega (arith, cut_weight (tile m), cut_tile m, inv.tiled m);
    idle_ledger = grind (
      arith,
      inv.idle_ledger,
      idle,
      size_cut,
      cut_weight (idle_part bytes),
      sub_size-mod (weigh (idle_part bytes) cut) wanted,
    );
    reserved_ledger = inv.reserved_ledger;
  }

  whole_inv : PoolInv allocated (record pool {
    blocks = set pool.blocks i whole;
    idle_bytes = sub_size pool.idle_bytes best.byte_size;
  })
  whole_inv = record {
    sound = inv.sound;
    tiled = λ m. omega (arith, weigh-set (tile m) pool.blocks i best whole at, inv.tiled m);
    idle_ledger = grind (
      arith,
      inv.idle_ledger,
      idle,
      weigh-set (idle_part bytes) pool.blocks i best whole at,
      sub_size-mod (weigh (idle_part bytes) (set pool.blocks i whole)) best.byte_size,
    );
    reserved_ledger = inv.reserved_ledger;
  }

  pub hand_out-Granted :
      PoolInv allocated (hand_out wanted i best pool)
      × Granted best.address wanted pool.blocks (hand_out wanted i best pool).blocks
      × ((hand_out wanted i best pool).regions ≡ pool.regions)
  unfolding hand_out
  hand_out-Granted = elim (Bool-cases (leb k_min_split_bytes (best.byte_size - wanted))) [
    | inl splits ↦
        rw (splits, hand_out)
          (
            split_inv,
            record {
              region = best.region;
              given = wanted;
              enough = omega arith;
              tight = omega arith;
              in_use = λ m. ground (arith, cut_weight (busy_part (tile m)), idle);
            },
            refl,
          )
    | inr fits ↦
        rw (fits, hand_out)
          (
            whole_inv,
            record {
              region = best.region;
              given = best.byte_size;
              enough = large;
              tight = ground (arith, fits, large);
              in_use = λ m.
                  ground (arith, weigh-set (busy_part (tile m)) pool.blocks i best whole at, idle);
            },
            refl,
          )
  ]
