-- ===== src/DevicePool/Drained.antt =====
-- free_regions_locked: what it leaves when the driver takes back what it has handed out.
use llm_steady_infer.Base.{
  ℕ, ◌≤◌, ◌<◌, ◌≡◌, ◌⊎◌, inl, inr, refl, ap, ◌∙◌, true, false, none, some, List, [], ◌∷◌, arith,
  ◌==◌, Bool-cases, All, All-append, All-mono,
}
use llm_steady_infer.DevicePool.{Block, DevicePool, weigh, find, erase_key}
use llm_steady_infer.DevicePool.Driver.{Driver, Lawful, guarded_ind}
use llm_steady_infer.DevicePool.Locked.{
  Flushing, whole_region_idle, flush_block, flush_blocks, free_regions_locked,
}
use llm_steady_infer.DevicePool.Invariant.{PoolInv, IsOwned, is_key, none-find, All-find}
use llm_steady_infer.DevicePool.Apart.{AllApart, flush_blocks-AllApart}
use llm_steady_infer.DevicePool.Reclaim.{
  Flushed, flush_block-Flushed, Flushed-from, first_Flushed, Reclaimed-from, started,
}

-- No region is idle as a whole, and no idle block has an idle neighbour.
pub record IsDrained (out : DevicePool) : Type 0 where
  pub none_whole : All (λ b. whole_region_idle out.regions b ≡ false) out.blocks
  pub apart : AllApart out.blocks

-- The block is not a whole region that is idle.
abbrev IsKept : List (ℕ × ℕ) → Block → Type 0
IsKept regions b = whole_region_idle regions b ≡ false

find-erase_key :
    (q k : ℕ) (m : List (ℕ × ℕ))
    → weigh (is_key q) m ≤ 1
    → (find q (erase_key k m) ≡ none) ⊎ (find q (erase_key k m) ≡ find q m)
find-erase_key q k [] h = inr refl
find-erase_key q k (e ∷ m) h = elim (Bool-cases (e.0 == k)) [
  | inl hit ↦ elim (Bool-cases (e.0 == q)) [
    | inl same ↦ inl (rw hit (none-find q m (ground (arith, h, same))))
    | inr other ↦ inr (rw (hit, other) refl)
  ]
  | inr miss ↦ elim (Bool-cases (e.0 == q)) [
    | inl same ↦ inr (rw (miss, same) refl)
    | inr other ↦ elim (find-erase_key q k m (ground (arith, h, other))) [
      | inl gone ↦ inl (rw (miss, other) gone)
      | inr there ↦ inr (rw (miss, other) there)
    ]
  ]
]

IsKept-erase_key :
    (k : ℕ) (regions : List (ℕ × ℕ)) (b : Block)
    → weigh (is_key b.region) regions ≤ 1
    → IsKept regions b
    → IsKept (erase_key k regions) b
unfolding whole_region_idle
IsKept-erase_key k regions b once h = elim (find-erase_key b.region k regions once) [
  | inl gone ↦ rw gone (ground arith)
  | inr there ↦ rw there h
]

whole-base :
    (regions : List (ℕ × ℕ)) (b : Block) → whole_region_idle regions b ≡ true → b.address ≡ b.region
unfolding whole_region_idle
whole-base regions b h = ground (arith, h)

whole-region :
    (regions : List (ℕ × ℕ)) (b : Block)
    → whole_region_idle regions b ≡ true
    → find b.region regions ≡ some b.byte_size
unfolding whole_region_idle
whole-region regions b h = ground (arith, h)

module _ {W : Type 0} (d : Driver W) (law : Lawful d)
    (reliable : (p : ℕ) (v : W) → law.Sound v → 0 < law.allocated v p → (d.free p v).0 ≡ true) where
  abbrev Clean : Flushing W → Type 0
  Clean st = All (IsKept st.regions) st.kept

  flush_block-Clean :
      (al : ℕ → ℕ) (pool : DevicePool) (block : Block) (rest : List Block) (st : Flushing W)
      → Flushed d law al pool (block ∷ rest) st
      → Clean st
      → Clean (flush_block d block st)
  unfolding flush_block
  flush_block-Clean al pool block rest st f k =
      elim (Bool-cases (whole_region_idle st.regions block)) [
        | inl whole ↦
            let own =
              All-find (IsOwned (law.allocated st.world)) block.region block.byte_size st.regions
                (whole-region st.regions block whole) f.moved.inv.sound.owned in
            let at_base = ap (law.allocated st.world) (whole-base st.regions block whole) ∙ own.0 in
            rw
              (
                whole,
                reliable block.address st.world f.sound (omega (arith, at_base, own.1)),
                flush_block,
              )
              (All-mono (IsKept st.regions) (IsKept (erase_key block.region st.regions)) st.kept
                (λ b h.
                  IsKept-erase_key block.region st.regions b (f.moved.inv.sound.once b.region) h)
                k)
        | inr used ↦
            rw (used, flush_block)
              (All-append (IsKept st.regions) st.kept (block ∷ []) k (used, tt))
      ]

  flush_blocks-Clean :
      (al : ℕ → ℕ) (pool : DevicePool) (blocks : List Block) (st : Flushing W)
      → Flushed d law al pool blocks st
      → Clean st
      → Clean (flush_blocks d blocks st)
  unfolding flush_blocks
  flush_blocks-Clean al pool [] st f k = k
  flush_blocks-Clean al pool (block ∷ blocks) st f k =
      flush_blocks-Clean al pool blocks (flush_block d block st)
        (flush_block-Flushed d law al pool block blocks st f)
        (flush_block-Clean al pool block blocks st f k)

  pub free_regions_locked-IsDrained :
      (al : ℕ → ℕ) (pool : DevicePool) (device_id : ℕ) (w : W)
      → PoolInv al pool
      → AllApart pool.blocks
      → law.Sound w
      → law.allocated w ≡ al
      → IsDrained (free_regions_locked d device_id pool w).0.1
  unfolding free_regions_locked
  free_regions_locked-IsDrained al pool device_id w inv apart sound same =
      (guarded_ind {A = ℕ × DevicePool} d law (λ t. t ≡ al) (λ a t. IsDrained a.1) _
        (λ v s e. (
          (Reclaimed-from d law al pool inv _ (Flushed-from d law al pool inv v s e)).0,
          record {
            none_whole =
                flush_blocks-Clean al pool pool.blocks (started d law pool v)
                  (first_Flushed d law al pool inv v s e) tt;
            apart = flush_blocks-AllApart d pool.blocks (started d law pool v) apart;
          },
        ))
        device_id w sound same).1
