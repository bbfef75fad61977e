-- ===== src/DevicePool/Reclaim.antt =====
-- free_regions_locked: idle regions go back to the driver.
use llm_steady_infer.Base.{
  ℕ, ◌+◌, ◌≤◌, ◌<◌, ◌≡◌, ◌≢◌, inl, inr, refl, sym, ap, ◌∙◌, subst, true, false, some, List, [], ◌∷◌,
  ◌++◌, arith, ◌==◌, Bool-cases, All, update-ne, ==_iff,
}
use mathlib.Core.List.{append_assoc, append-nil}
use llm_steady_infer.DevicePool.{
  Block, DevicePool, add_size, sub_size, weigh, weigh-append, find, erase_key, weigh-erase_key,
}
use llm_steady_infer.DevicePool.Measure.{
  tile, region_tile, idle_part, busy_part, bytes, sub_size-mod,
}
use llm_steady_infer.DevicePool.Driver.{Driver, Lawful, guarded_ind}
use llm_steady_infer.DevicePool.Locked.{
  Flushing, whole_region_idle, flush_block, flush_blocks, free_regions_locked,
}
use llm_steady_infer.DevicePool.Invariant.{PoolInv, IsOwned, is_key, All-erase_key}

-- The pool and the driver's allocations move together: what the driver holds for others stays.
pub record Moved (al : ℕ → ℕ) (pool : DevicePool) (al' : ℕ → ℕ) (out : DevicePool) : Type 0 where
  pub inv : PoolInv al' out
  pub others : (q : ℕ) → weigh (is_key q) pool.regions ≡ 0 → 0 < al q → al' q ≡ al q
  pub keys : (q : ℕ) → 0 < al q → weigh (is_key q) out.regions ≤ weigh (is_key q) pool.regions

pub Moved-refl : (al : ℕ → ℕ) (pool : DevicePool) → PoolInv al pool → Moved al pool al pool
Moved-refl al pool inv = record { inv = inv; others = λ q h k. refl; keys = λ q h. omega arith }

module _ {al al' al'' : ℕ → ℕ} {a b c : DevicePool} where
  pub Moved-trans : PoolInv al a → Moved al a al' b → Moved al' b al'' c → Moved al a al'' c
  Moved-trans before p q = record {
    inv = q.inv;
    others = λ x absent live.
        let same = p.others x absent live in
        q.others x (omega (arith, p.keys x live, absent)) (omega (arith, same, live)) ∙ same;
    keys = λ x live. elim (Bool-cases (weigh (is_key x) a.regions == 0)) [
      | inl absent ↦
          let none_there = (==_iff (weigh (is_key x) a.regions) 0).0 absent in
          omega (arith, p.keys x live, q.keys x (omega (arith, live, p.others x none_there live)))
      | inr there ↦ ground (arith, there, q.inv.sound.once x)
    ];
  }

-- What free_regions_locked does to the pool that it gets with the allocations `al`.
pub record Reclaimed (al : ℕ → ℕ) (pool : DevicePool) (al' : ℕ → ℕ) (out : DevicePool)
    : Type 0 where
  pub moved : Moved al pool al' out
  pub in_use : (f : Block → ℕ) → weigh (busy_part f) out.blocks ≡ weigh (busy_part f) pool.blocks

pub Reclaimed-refl : (al : ℕ → ℕ) (pool : DevicePool) → PoolInv al pool → Reclaimed al pool al pool
Reclaimed-refl al pool inv = record { moved = Moved-refl al pool inv; in_use = λ f. refl }

-- An erased region and the others.
pub IsOwned-frame :
    (al al' : ℕ → ℕ) (p : ℕ) (regions : List (ℕ × ℕ))
    → ((q : ℕ) → q ≢ p → al' q ≡ al q)
    → weigh (is_key p) regions ≡ 0
    → All (IsOwned al) regions
    → All (IsOwned al') regions
IsOwned-frame al al' p [] same absent owned = tt
IsOwned-frame al al' p (e ∷ regions) same absent owned = (
  (same e.0 (λ h. ground (arith, h, absent)) ∙ owned.0.0, owned.0.1, owned.0.2, owned.0.3),
  IsOwned-frame al al' p regions same (omega (arith, absent)) owned.1,
)

module _ {W : Type 0} (d : Driver W) (law : Lawful d) where
  -- The pool that the loop's variables stand for, with the blocks not yet visited.
  abbrev pub pool_at : DevicePool → List Block → Flushing W → DevicePool
  pool_at pool rest st = record pool {
    blocks = st.kept ++ rest;
    regions = st.regions;
    idle_bytes = st.idle_bytes;
    reserved_bytes = st.reserved_bytes;
  }

  -- The pool after the loop.
  abbrev pub finished : DevicePool → Flushing W → DevicePool
  finished pool st = record pool {
    blocks = st.kept;
    regions = st.regions;
    idle_bytes = st.idle_bytes;
    reserved_bytes = st.reserved_bytes;
  }

  -- The loop's variables at its start.
  abbrev pub started : DevicePool → W → Flushing W
  started pool w = record {
    kept = [];
    regions = pool.regions;
    idle_bytes = pool.idle_bytes;
    reserved_bytes = pool.reserved_bytes;
    freed_bytes = 0;
    world = w;
  }

  pub record Flushed (al : ℕ → ℕ) (pool : DevicePool) (rest : List Block) (st : Flushing W)
      : Type 0 where
    pub sound : law.Sound st.world
    pub moved : Moved al pool (law.allocated st.world) (pool_at pool rest st)
    pub in_use :
        (f : Block → ℕ) → weigh (busy_part f) (st.kept ++ rest) ≡ weigh (busy_part f) pool.blocks

  module _ (al : ℕ → ℕ) (pool : DevicePool) (block : Block) (rest : List Block) (st : Flushing W)
      (f : Flushed al pool (block ∷ rest) st) where
    regrouped : (st.kept ++ (block ∷ [])) ++ rest ≡ st.kept ++ (block ∷ rest)
    regrouped = append_assoc st.kept (block ∷ []) rest

    kept_Flushed :
        (w : W)
        → law.Sound w
        → law.allocated w ≡ law.allocated st.world
        → Flushed al pool rest (record st { kept = st.kept ++ (block ∷ []); world = w })
    kept_Flushed w sound same = record {
      sound = sound;
      moved =
          subst
            (λ t.
              Moved al pool t
                (pool_at pool rest (record st { kept = st.kept ++ (block ∷ []); world = w })))
            (sym same)
            (subst
              (λ bs. Moved al pool (law.allocated st.world) (record pool {
                blocks = bs;
                regions = st.regions;
                idle_bytes = st.idle_bytes;
                reserved_bytes = st.reserved_bytes;
              }))
              (sym regrouped) f.moved);
      in_use = λ g. ap (weigh (busy_part g)) regrouped ∙ f.in_use g;
    }

    module _ (free_ok : (d.free block.address st.world).0 ≡ true)
        (whole : whole_region_idle st.regions block ≡ true) where
      is_idle : block.busy ≡ false
      unfolding whole_region_idle
      is_idle = ground (arith, whole)

      is_base : block.address ≡ block.region
      unfolding whole_region_idle
      is_base = ground (arith, whole)

      is_region : find block.region st.regions ≡ some block.byte_size
      unfolding whole_region_idle
      is_region = ground (arith, whole)

      erased_weight :
          (g : ℕ × ℕ → ℕ)
          → weigh g (erase_key block.region st.regions) + g (block.region, block.byte_size)
            ≡ weigh g st.regions
      erased_weight g = weigh-erase_key g block.region block.byte_size st.regions is_region

      gone_weight :
          (g : Block → ℕ)
          → weigh g (st.kept ++ rest) + g block ≡ weigh g (st.kept ++ (block ∷ rest))
      gone_weight g =
          omega (arith, weigh-append g st.kept rest, weigh-append g st.kept (block ∷ rest))

      abbrev freed : Flushing W
      freed = record st {
        regions = erase_key block.region st.regions;
        idle_bytes = sub_size st.idle_bytes block.byte_size;
        reserved_bytes = sub_size st.reserved_bytes block.byte_size;
        freed_bytes = add_size st.freed_bytes block.byte_size;
        world = (d.free block.address st.world).1;
      }

      freed_table :
          (q : ℕ) → q ≢ block.region → law.allocated freed.world q ≡ law.allocated st.world q
      freed_table q ne =
          ap (λ t. t q) (law.free-true block.address st.world free_ok)
          ∙ update-ne (law.allocated st.world) block.address 0 q (λ h. ne (h ∙ is_base))

      freed_absent : weigh (is_key block.region) freed.regions ≡ 0
      freed_absent =
          ground (arith, erased_weight (is_key block.region), f.moved.inv.sound.once block.region)

      freed-PoolInv : PoolInv (law.allocated freed.world) (pool_at pool rest freed)
      freed-PoolInv = record {
        sound = record {
          owned =
              IsOwned-frame (law.allocated st.world) (law.allocated freed.world) block.region
                freed.regions freed_table freed_absent
                (All-erase_key (IsOwned (law.allocated st.world)) block.region st.regions
                  f.moved.inv.sound.owned);
          once = λ k. omega (arith, erased_weight (is_key k), f.moved.inv.sound.once k);
        };
        tiled = λ m. grind (
          arith,
          erased_weight (region_tile m),
          gone_weight (tile m),
          f.moved.inv.tiled m,
          is_base,
        );
        idle_ledger = grind (
          arith,
          f.moved.inv.idle_ledger,
          gone_weight (idle_part bytes),
          is_idle,
          sub_size-mod (weigh (idle_part bytes) (st.kept ++ rest)) block.byte_size,
        );
        reserved_ledger = grind (
          arith,
          f.moved.inv.reserved_ledger,
          erased_weight (region_tile bytes),
          sub_size-mod (weigh (region_tile bytes) freed.regions) block.byte_size,
        );
      }

      freed-Flushed : Flushed al pool rest freed
      freed-Flushed = record {
        sound = law.free-Sound block.address st.world f.sound;
        moved = record {
          inv = freed-PoolInv;
          others = λ q absent live.
              freed_table q (λ h.
                ground (arith, h, absent, f.moved.keys q live, erased_weight (is_key block.region)))
              ∙ f.moved.others q absent live;
          keys = λ q live. omega (arith, erased_weight (is_key q), f.moved.keys q live);
        };
        in_use = λ g. grind (arith, gone_weight (busy_part g), is_idle, f.in_use g);
      }

    pub flush_block-Flushed : Flushed al pool rest (flush_block d block st)
    unfolding flush_block
    flush_block-Flushed = elim (Bool-cases (whole_region_idle st.regions block)) [
      | inl whole ↦ elim (Bool-cases (d.free block.address st.world).0) [
        | inl free_ok ↦ rw (whole, free_ok, flush_block) (freed-Flushed free_ok whole)
        | inr failed ↦
            rw (whole, failed, flush_block)
              (kept_Flushed (d.free block.address st.world).1
                (law.free-Sound block.address st.world f.sound)
                (law.free-false block.address st.world failed))
      ]
      | inr used ↦ rw (used, flush_block) (kept_Flushed st.world f.sound refl)
    ]

  flush_blocks-Flushed :
      (al : ℕ → ℕ) (pool : DevicePool) (blocks : List Block) (st : Flushing W)
      → Flushed al pool blocks st
      → Flushed al pool [] (flush_blocks d blocks st)
  unfolding flush_blocks
  flush_blocks-Flushed al pool [] st f = f
  flush_blocks-Flushed al pool (block ∷ blocks) st f =
      flush_blocks-Flushed al pool blocks (flush_block d block st)
        (flush_block-Flushed al pool block blocks st f)

  module _ (al : ℕ → ℕ) (pool : DevicePool) (inv : PoolInv al pool) where
    pub first_Flushed :
        (w : W) → law.Sound w → law.allocated w ≡ al → Flushed al pool pool.blocks (started pool w)
    first_Flushed w sound same = record {
      sound = sound;
      moved = subst (λ t. Moved al pool t pool) (sym same) (Moved-refl al pool inv);
      in_use = λ f. refl;
    }

    pub Flushed-from :
        (w : W)
        → law.Sound w
        → law.allocated w ≡ al
        → Flushed al pool [] (flush_blocks d pool.blocks (started pool w))
    Flushed-from w sound same =
        flush_blocks-Flushed al pool pool.blocks (started pool w) (first_Flushed w sound same)

    pub Reclaimed-from :
        (st : Flushing W)
        → Flushed al pool [] st
        → law.Sound st.world × Reclaimed al pool (law.allocated st.world) (finished pool st)
    Reclaimed-from st f = (
      f.sound,
      record {
        moved =
            subst
              (λ bs.
                Moved al pool (law.allocated st.world) (record (finished pool st) { blocks = bs }))
              (append-nil st.kept) f.moved;
        in_use = λ g. ap (weigh (busy_part g)) (sym (append-nil st.kept)) ∙ f.in_use g;
      },
    )

    pub free_regions_locked-Reclaimed :
        (device_id : ℕ) (w : W)
        → law.Sound w
        → law.allocated w ≡ al
        → law.Sound (free_regions_locked d device_id pool w).1
          × Reclaimed al pool
              (law.allocated (free_regions_locked d device_id pool w).1)
              (free_regions_locked d device_id pool w).0.1
    unfolding free_regions_locked
    free_regions_locked-Reclaimed device_id w sound same =
        guarded_ind d law (λ t. t ≡ al) (λ a t. Reclaimed al pool t a.1) _
          (λ v s e.
            Reclaimed-from (flush_blocks d pool.blocks (started pool v)) (Flushed-from v s e))
          device_id w sound same
