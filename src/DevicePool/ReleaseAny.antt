-- ===== src/DevicePool/ReleaseAny.antt =====
-- release, over the pools of all devices.
use llm_steady_infer.Base.{
  ℕ, ◌≡◌, inl, inr, refl, sym, ap, ◌∙◌, subst, Bool, false, some, [], ◌∷◌, arith, ◌==◌,
  if◌then◌else◌, Bool-cases, All, update-ne, check, ◌>>◌, Returns, Returns-bind, Returns-mono,
}
use llm_steady_infer.DevicePool.{DevicePool, weigh, release_locked}
use llm_steady_infer.DevicePool.Driver.{Driver, Lawful}
use llm_steady_infer.DevicePool.Allocator.{
  Pools, check_ledger, release, release_in, flush_over_waterline,
}
use llm_steady_infer.DevicePool.Invariant.{PoolInv, is_key}
use llm_steady_infer.DevicePool.Foreign.{foreign_region}
use llm_steady_infer.DevicePool.Release.{
  Released, release_locked-Released, foreign, double_release, freed,
}
use llm_steady_infer.DevicePool.Across.{
  AllocatorInv, HasInv, All-frame, AllocatorInv-check_ledger, keys_of,
}
use llm_steady_infer.DevicePool.Operations.{Consistent}
use llm_steady_infer.DevicePool.Waterline.{flush_over_waterline-MovedAll}

-- What release_in leaves: the same regions, and no pool has a region at a pointer that none knows.
record ReleasedIn (al : ℕ → ℕ) (ptr : ℕ) (pools : Pools) (r : Bool × Pools) : Type 0 where
  each : All (HasInv al) r.1
  same_keys : (q : ℕ) → weigh (keys_of q) r.1 ≡ weigh (keys_of q) pools
  unknown : r.0 ≡ false → weigh (keys_of ptr) pools ≡ 0

record ReleasedPool (al : ℕ → ℕ) (ptr : ℕ) (pool : DevicePool) (r : Bool × DevicePool)
    : Type 0 where
  after : PoolInv al r.1
  regions_same : r.1.regions ≡ pool.regions
  not_here : r.0 ≡ false → weigh (is_key ptr) pool.regions ≡ 0

released_pool :
    (al : ℕ → ℕ) (ptr : ℕ) (pool : DevicePool) (r : Bool × DevicePool)
    → PoolInv al pool
    → Released al ptr pool r
    → ReleasedPool al ptr pool r
released_pool al ptr pool _ inv (foreign away) = record {
  after = inv;
  regions_same = refl;
  not_here = λ e. foreign_region al pool ptr inv away;
}
released_pool al ptr pool _ inv (double_release i b at here idle) = record {
  after = inv;
  regions_same = refl;
  not_here = λ e. absurd (ground (arith, e));
}
released_pool al ptr pool _ inv
      (freed i place b result out at here busy after same in_use stands idle around settled) =
    record { after = after; regions_same = same; not_here = λ e. absurd (ground (arith, e)) }

release_in-ReleasedIn :
    (al : ℕ → ℕ) (ptr : ℕ) (pools : Pools)
    → All (HasInv al) pools
    → Returns (release_in ptr pools) (ReleasedIn al ptr pools)
unfolding release_in
release_in-ReleasedIn al ptr [] h = record { each = tt; same_keys = λ q. refl; unknown = λ e. refl }
release_in-ReleasedIn al ptr (entry ∷ pools) h =
    Returns-bind (λ r. ReleasedPool al ptr entry.1 r) (ReleasedIn al ptr (entry ∷ pools))
      (release_locked ptr entry.1) _
      (Returns-mono (Released al ptr entry.1) (λ r. ReleasedPool al ptr entry.1 r)
        (release_locked ptr entry.1) (release_locked-Released al ptr entry.1 h.0)
        (λ r. released_pool al ptr entry.1 r h.0))
      (λ done p. elim (Bool-cases done.0) [
        | inl known ↦ rw known (record {
          each = (p.after, h.1);
          same_keys = λ q. omega (arith, ap (weigh (is_key q)) p.regions_same);
          unknown = λ e. absurd (ground (arith, e));
        })
        | inr not_known ↦ rw not_known (
            Returns-bind (ReleasedIn al ptr pools) (ReleasedIn al ptr (entry ∷ pools))
              (release_in ptr pools) _ (release_in-ReleasedIn al ptr pools h.1)
              (λ later q. record {
                each = (p.after, q.each);
                same_keys = λ k. omega (arith, ap (weigh (is_key k)) p.regions_same, q.same_keys k);
                unknown = λ e. omega (arith, p.not_here not_known, q.unknown e);
              }))
      ])

module _ {W : Type 0} (d : Driver W) (law : Lawful d) where
  free_foreign :
      (ptr : ℕ) (pools : Pools) (w : W)
      → weigh (keys_of ptr) pools ≡ 0
      → Consistent law pools w
      → Consistent law pools (d.free ptr w).1
  free_foreign ptr pools w unknown c = record {
    sound = law.free-Sound ptr w c.sound;
    inv = record {
      each = elim (Bool-cases (d.free ptr w).0) [
        | inl done ↦
            All-frame (law.allocated w) (law.allocated (d.free ptr w).1) pools
              (λ q there live.
                ap (λ t. t q) (law.free-true ptr w done)
                ∙ update-ne (law.allocated w) ptr 0 q
                    (λ h. ground (arith, there, unknown, ap (λ x. weigh (keys_of x) pools) h)))
              c.inv.each
        | inr refused ↦
            subst (λ t. All (HasInv t) pools) (sym (law.free-false ptr w refused)) c.inv.each
      ];
      once = c.inv.once;
    };
  }

  released_inv :
      (ptr : ℕ) (pools : Pools) (w : W)
      → Consistent law pools w
      → (done : Bool × Pools) → ReleasedIn (law.allocated w) ptr pools done
      → AllocatorInv (law.allocated w) done.1
  released_inv ptr pools w c done p = record {
    each = p.each;
    once = λ q. omega (arith, p.same_keys q, c.inv.once q);
  }

  released_then :
      (ptr : ℕ) (pools : Pools) (w : W)
      → Consistent law pools w
      → (done : Bool × Pools) → ReleasedIn (law.allocated w) ptr pools done
      → Returns
          (if done.0
            then check (check_ledger done.1) >> some (flush_over_waterline d done.1 w)
            else some (done.1, (d.free ptr w).1))
          (λ r. Consistent law r.0 r.1)
  released_then ptr pools w c done p = elim (Bool-cases done.0) [
    | inl known ↦
        let flushed =
          flush_over_waterline-MovedAll d law done.1 (law.allocated w) w c.sound refl
            (released_inv ptr pools w c done p) in
        rw (known, AllocatorInv-check_ledger (law.allocated w) done.1 p.each)
          (record { sound = flushed.0; inv = flushed.1.inv })
    | inr unknown ↦ rw unknown (
        free_foreign ptr done.1 w (p.same_keys ptr ∙ p.unknown unknown)
          (record { sound = c.sound; inv = released_inv ptr pools w c done p }))
  ]

  -- release: the operation returns on pools that agree with the driver, which includes that
  -- check_ledger finds nothing wrong, and pools and driver agree afterwards; a pointer that no pool
  -- knows goes to cudaFree, which takes no region of a pool away.
  pub release-Consistent :
      (ptr : ℕ) (pools : Pools) (w : W)
      → Consistent law pools w
      → Returns (release d ptr pools w) (λ r. Consistent law r.0 r.1)
  unfolding release
  release-Consistent ptr pools w c = elim (Bool-cases (ptr == 0)) [
    | inl null ↦ rw null c
    | inr real ↦ rw real (
        Returns-bind (ReleasedIn (law.allocated w) ptr pools) (λ r. Consistent law r.0 r.1)
          (release_in ptr pools) _ (release_in-ReleasedIn (law.allocated w) ptr pools c.inv.each)
          (λ done p. released_then ptr pools w c done p))
  ]
