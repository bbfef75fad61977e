-- ===== src/DevicePool/Growing.antt =====
-- allocate_locked: a new region with one block.
use llm_steady_infer.Base.{
  ℕ, ◌+◌, ◌≤◌, ◌<◌, ◌≡◌, ◌≢◌, inl, inr, sym, ap, ◌∙◌, subst, true, Option, none, some, [], ◌∷◌,
  ◌++◌, arith, ◌==◌, Bool-cases, All, update, update-ne, update_self, ==_iff,
}
use llm_steady_infer.DevicePool.{
  Block, DevicePool, size_limit, add_size, weigh, weigh-append, assign, assign_absent, weigh-assign,
  round_up, k_alignment,
}
use llm_steady_infer.DevicePool.Measure.{
  tile, region_tile, idle_part, busy_part, bytes, add_size-mod,
}
use llm_steady_infer.DevicePool.HandOut.{Granted}
use llm_steady_infer.DevicePool.Invariant.{
  PoolInv, IsOwned, is_key, All-insert, none-find, absent_of_free,
}
use llm_steady_infer.DevicePool.Reclaim.{Moved, Reclaimed, IsOwned-frame}

-- What cudaMalloc and the retry leave.
pub data Got (al : ℕ → ℕ) (pool : DevicePool) (wanted : ℕ)
    : Option ℕ × DevicePool → (ℕ → ℕ) → Type 0 where
  got_none :
      (out : DevicePool) (t : ℕ → ℕ) → Reclaimed al pool t out → Got al pool wanted (none, out) t
  got_some :
      (p : ℕ) (out : DevicePool) (mid t : ℕ → ℕ)
      → Reclaimed al pool mid out
      → 0 < p
      → mid p ≡ 0
      → t ≡ update mid p wanted
      → Got al pool wanted (some p, out) t

-- The results of allocate_locked: a pointer to a buffer that is large enough and that no other
-- buffer overlaps, or nullptr.
pub data AllocatedIn (al : ℕ → ℕ) (pool : DevicePool) (byte_size : ℕ) (al' : ℕ → ℕ)
    : ℕ × DevicePool → Type 0 where
  no_memory :
      (out : DevicePool) → Reclaimed al pool al' out → AllocatedIn al pool byte_size al' (0, out)
  granted :
      (ptr : ℕ) (out : DevicePool)
      → 0 < ptr
      → Moved al pool al' out
      → Granted ptr (round_up byte_size k_alignment) pool.blocks out.blocks
      → AllocatedIn al pool byte_size al' (ptr, out)

-- A new region with one block.
module _ (al : ℕ → ℕ) (pool : DevicePool) (wanted p : ℕ) (out : DevicePool) (mid t : ℕ → ℕ)
    (positive : 0 < wanted) (small : wanted < size_limit) (r : Reclaimed al pool mid out)
    (p_positive : 0 < p) (fresh : mid p ≡ 0) (table : t ≡ update mid p wanted) where
  abbrev block : Block
  block = record { address = p; byte_size = wanted; busy = true; region = p }

  abbrev grown : DevicePool
  grown = record out {
    regions = assign p wanted out.regions;
    reserved_bytes = add_size out.reserved_bytes wanted;
    blocks = out.blocks ++ (block ∷ []);
  }

  absent : weigh (is_key p) out.regions ≡ 0
  absent = absent_of_free mid p out.regions r.moved.inv.sound.owned fresh

  region_weight :
      (f : ℕ × ℕ → ℕ) → weigh f (assign p wanted out.regions) ≡ f (p, wanted) + weigh f out.regions
  region_weight f = weigh-assign f p wanted out.regions (none-find p out.regions absent)

  block_weight :
      (f : Block → ℕ) → weigh f (out.blocks ++ (block ∷ [])) ≡ weigh f out.blocks + f block
  block_weight f = omega (arith, weigh-append f out.blocks (block ∷ []))

  at_p : t p ≡ wanted
  at_p = ap (λ u. u p) table ∙ update_self mid p wanted

  off_p : (q : ℕ) → q ≢ p → t q ≡ mid q
  off_p q ne = ap (λ u. u q) table ∙ update-ne mid p wanted q ne

  grown-PoolInv : PoolInv t grown
  grown-PoolInv = record {
    sound = record {
      owned =
          subst (All (IsOwned t))
            (sym (assign_absent p wanted out.regions (none-find p out.regions absent)))
            (All-insert (IsOwned t) p wanted out.regions (at_p, positive, small, p_positive)
              (IsOwned-frame mid t p out.regions off_p absent r.moved.inv.sound.owned));
      once = λ k. ground (arith, region_weight (is_key k), r.moved.inv.sound.once k, absent);
    };
    tiled = λ m.
        grind (arith, region_weight (region_tile m), block_weight (tile m), r.moved.inv.tiled m);
    idle_ledger = grind (arith, r.moved.inv.idle_ledger, block_weight (idle_part bytes));
    reserved_ledger = grind (
      arith,
      r.moved.inv.reserved_ledger,
      region_weight (region_tile bytes),
      add_size-mod (weigh (region_tile bytes) out.regions) wanted,
    );
  }

  grown_others : (q : ℕ) → weigh (is_key q) pool.regions ≡ 0 → 0 < al q → t q ≡ al q
  grown_others q gone live =
      let same = r.moved.others q gone live in
      off_p q (λ h. ground (arith, ap mid h, fresh, same, live)) ∙ same

  grown_keys_self : 0 < al p → weigh (is_key p) grown.regions ≤ weigh (is_key p) pool.regions
  grown_keys_self live = elim (Bool-cases (weigh (is_key p) pool.regions == 0)) [
    | inl gone ↦ absurd (
        omega (
          arith,
          live,
          fresh,
          r.moved.others p ((==_iff (weigh (is_key p) pool.regions) 0).0 gone) live,
        ))
    | inr there ↦ ground (arith, there, region_weight (is_key p), absent)
  ]

  grown_keys : (q : ℕ) → 0 < al q → weigh (is_key q) grown.regions ≤ weigh (is_key q) pool.regions
  grown_keys q live = elim (Bool-cases (p == q)) [
    | inl same ↦
        subst (λ x. weigh (is_key x) grown.regions ≤ weigh (is_key x) pool.regions)
          ((==_iff p q).0 same)
          (grown_keys_self (ground (arith, live, ap al ((==_iff p q).0 same))))
    | inr differ ↦ ground (arith, differ, region_weight (is_key q), r.moved.keys q live)
  ]

  pub grown-AllocatedIn :
      (byte_size : ℕ)
      → wanted ≡ round_up byte_size k_alignment
      → AllocatedIn al pool byte_size t (p, grown)
  grown-AllocatedIn byte_size e =
      granted p grown p_positive
        (record { inv = grown-PoolInv; others = grown_others; keys = grown_keys })
        (record {
          region = p;
          given = wanted;
          enough = omega (arith, e);
          tight = omega (arith, e);
          in_use = λ m. omega (arith, block_weight (busy_part (tile m)), r.in_use (tile m));
        })
