-- ===== src/DevicePool/Allocation.antt =====
-- allocate_locked: the best fit, or a new region.
use llm_steady_infer.Base.{
  ℕ, ◌+◌, ◌≤◌, ◌<◌, ◌≡◌, inl, inr, refl, sym, ◌∙◌, subst, Option, none, some, arith, Option-cases,
}
use llm_steady_infer.DevicePool.{
  Block, DevicePool, size_limit, round_up, best_fit, hand_out, k_alignment,
}
use llm_steady_infer.DevicePool.Driver.{Driver, Lawful, guarded_ind}
use llm_steady_infer.DevicePool.Fit.{BestFit, BestFit-some, best_fit-BestFit, round_up-RoundedUp}
use llm_steady_infer.DevicePool.HandOut.{hand_out-Granted}
use llm_steady_infer.DevicePool.Locked.{
  free_regions_locked, malloc_or_reclaim, allocate_locked, book,
}
use llm_steady_infer.DevicePool.Invariant.{PoolInv, address-positive}
use llm_steady_infer.DevicePool.Reclaim.{Reclaimed, Reclaimed-refl, free_regions_locked-Reclaimed}
use llm_steady_infer.DevicePool.Growing.{
  AllocatedIn, Got, got_none, got_some, granted, grown-AllocatedIn, no_memory,
}

module _ {W : Type 0} (d : Driver W) (law : Lawful d) where
  module _ (al : ℕ → ℕ) (pool : DevicePool) (wanted device_id : ℕ) (inv : PoolInv al pool)
      (positive : 0 < wanted) where
    retry-Got :
        (w : W) (out : DevicePool)
        → law.Sound w
        → Reclaimed al pool (law.allocated w) out
        → law.Sound (d.malloc wanted w).1
          × Got al pool wanted ((d.malloc wanted w).0, out) (law.allocated (d.malloc wanted w).1)
    retry-Got w out sound r = elim (Option-cases (d.malloc wanted w).0) [
      | inl refused ↦ (
        law.malloc-Sound wanted w sound,
        rw refused (
            got_none out (law.allocated (d.malloc wanted w).1)
              (subst (λ t. Reclaimed al pool t out) (sym (law.malloc-none wanted w refused)) r)),
      )
      | inr (p, got) ↦
          let (p_positive, fresh, table) = law.malloc-some wanted w p sound positive got in
          (
            law.malloc-Sound wanted w sound,
            rw got (
                got_some p out (law.allocated w) (law.allocated (d.malloc wanted w).1) r p_positive
                  fresh table),
          )
    ]

    malloc_or_reclaim-Got :
        (w : W)
        → law.Sound w
        → law.allocated w ≡ al
        → law.Sound (malloc_or_reclaim d device_id pool wanted w).1
          × Got al pool wanted
              (malloc_or_reclaim d device_id pool wanted w).0
              (law.allocated (malloc_or_reclaim d device_id pool wanted w).1)
    unfolding malloc_or_reclaim
    malloc_or_reclaim-Got w sound same = elim (Option-cases (d.malloc wanted w).0) [
      | inl refused ↦
          let freed =
            free_regions_locked-Reclaimed d law al pool inv device_id (d.malloc wanted w).1
              (law.malloc-Sound wanted w sound) (law.malloc-none wanted w refused ∙ same) in
          rw (refused, malloc_or_reclaim)
            (retry-Got (free_regions_locked d device_id pool (d.malloc wanted w).1).1
              (free_regions_locked d device_id pool (d.malloc wanted w).1).0.1 freed.0 freed.1)
      | inr (p, got) ↦
          let direct =
            retry-Got w pool sound
              (subst (λ t. Reclaimed al pool t pool) (sym same) (Reclaimed-refl al pool inv)) in
          rw (got, malloc_or_reclaim)
            (
              direct.0,
              subst (λ o. Got al pool wanted (o, pool) (law.allocated (d.malloc wanted w).1)) got
                  direct.1,
            )
    ]

  -- The end of allocate_locked.
  finish :
      (al : ℕ → ℕ) (pool : DevicePool) (byte_size : ℕ) (got : Option ℕ × DevicePool) (t : ℕ → ℕ)
      → 0 < round_up byte_size k_alignment
      → Got al pool (round_up byte_size k_alignment) got t
      → AllocatedIn al pool byte_size t (book got (round_up byte_size k_alignment))
  finish al pool byte_size _ _ positive (got_none out t r) = no_memory out r
  finish al pool byte_size _ _ positive (got_some p out mid t r p_positive fresh table) =
      grown-AllocatedIn al pool (round_up byte_size k_alignment) p out mid t positive
        (round_up-RoundedUp byte_size).small r p_positive fresh table byte_size refl

  module _ (byte_size : ℕ) (pool : DevicePool) (w : W) (positive : 0 < byte_size)
      (representable : byte_size + k_alignment ≤ size_limit) (sound : law.Sound w)
      (inv : PoolInv (law.allocated w) pool) where
    wanted_positive : 0 < round_up byte_size k_alignment
    wanted_positive = omega (arith, (round_up-RoundedUp byte_size).enough representable, positive)

    reused :
        (i : ℕ) (best : Block)
        → best_fit (round_up byte_size k_alignment) 0 none pool.blocks ≡ some (i, best)
        → AllocatedIn
            (law.allocated w)
            pool
            byte_size
            (law.allocated w)
            (best.address, hand_out (round_up byte_size k_alignment) i best pool)
    reused i best hit =
        let (at, fit) = BestFit-some (round_up byte_size k_alignment) pool.blocks i best (
          subst (BestFit (round_up byte_size k_alignment) pool.blocks) hit
            (best_fit-BestFit (round_up byte_size k_alignment) pool.blocks)) in
        let (after, given, regions) =
          hand_out-Granted (law.allocated w) pool (round_up byte_size k_alignment) i best inv at
            fit.is_idle fit.large in
        granted best.address (hand_out (round_up byte_size k_alignment) i best pool)
          (address-positive (law.allocated w) pool i best inv at
            (omega (arith, wanted_positive, fit.large)))
          (record {
            inv = after;
            others = λ q gone live. refl;
            keys = λ q live. rw regions (omega arith);
          })
          given

    -- For a request of at least one byte that does not overflow when it is rounded up, on a pool
    -- that keeps the invariant: allocate_locked gives back either a pointer other than nullptr to a
    -- buffer of at least the size that is asked for, which is added to the buffers in use and
    -- changes no other, or nullptr; the invariant holds afterwards in both cases, with the driver's
    -- new allocations, and what the driver holds for others is as before.
    pub allocate_locked-AllocatedIn :
        (device_id : ℕ)
        → law.Sound (allocate_locked d device_id pool byte_size w).1
          × AllocatedIn
              (law.allocated w)
              pool
              byte_size
              (law.allocated (allocate_locked d device_id pool byte_size w).1)
              (allocate_locked d device_id pool byte_size w).0
    unfolding allocate_locked
    allocate_locked-AllocatedIn device_id =
        elim (Option-cases (best_fit (round_up byte_size k_alignment) 0 none pool.blocks)) [
          | inl miss ↦
              let got =
                guarded_ind d law (λ t. t ≡ law.allocated w)
                  (Got (law.allocated w) pool (round_up byte_size k_alignment))
                  (malloc_or_reclaim d device_id pool (round_up byte_size k_alignment))
                  (malloc_or_reclaim-Got (law.allocated w) pool (round_up byte_size k_alignment)
                    device_id inv wanted_positive)
                  device_id w sound refl in
              rw (miss, allocate_locked)
                (got.0, finish (law.allocated w) pool byte_size _ _ wanted_positive got.1)
          | inr ((i, best), hit) ↦ rw (hit, allocate_locked) (sound, reused i best hit)
        ]
