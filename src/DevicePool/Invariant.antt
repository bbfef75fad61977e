-- ===== src/DevicePool/Invariant.antt =====
-- The invariant of one pool: its blocks tile its regions, and the counters are right.
use llm_steady_infer.Base.{
  ℕ, ◌+◌, ◌%◌, ◌≤◌, ◌<◌, ◌≡◌, inl, inr, refl, ap, subst, true, none, some, List, [], ◌∷◌, arith,
  ltb, ◌==◌, if◌then◌else◌, get_elem?, All, Bool-cases, ==_iff,
}
use llm_steady_infer.DevicePool.{
  Block, DevicePool, size_limit, weigh, weigh-member, find, insert, erase_key, ledger_holds,
}
use llm_steady_infer.DevicePool.Measure.{
  Measure, tile, region_tile, idle_part, bytes, bytes_of, covers, inside,
}
use llm_steady_infer.DevicePool.Merge.{Bounded}

-- A region is the driver's allocation at its key.
abbrev pub IsOwned : (ℕ → ℕ) → ℕ × ℕ → Type 0
IsOwned allocated r = (allocated r.0 ≡ r.1) × (0 < r.1) × (r.1 < size_limit) × (0 < r.0)

abbrev pub is_key : ℕ → ℕ × ℕ → ℕ
is_key k r = if r.0 == k then 1 else 0

pub record Regions (allocated : ℕ → ℕ) (regions : List (ℕ × ℕ)) : Type 0 where
  pub owned : All (IsOwned allocated) regions
  pub once : (k : ℕ) → weigh (is_key k) regions ≤ 1

pub record PoolInv (allocated : ℕ → ℕ) (pool : DevicePool) : Type 0 where
  pub sound : Regions allocated pool.regions
  pub tiled : (m : Measure) → weigh (tile m) pool.blocks ≡ weigh (region_tile m) pool.regions
  pub idle_ledger : pool.idle_bytes ≡ weigh (idle_part bytes) pool.blocks % size_limit
  pub reserved_ledger : pool.reserved_bytes ≡ weigh (region_tile bytes) pool.regions % size_limit

module _ {V : Type 0} where
  pub find-none :
      (k : ℕ) (m : List (ℕ × V)) → find k m ≡ none → weigh (λ e. if e.0 == k then 1 else 0) m ≡ 0
  find-none k [] h = refl
  find-none k (e ∷ m) h = ground (arith, h, find-none k m)

  pub none-find :
      (k : ℕ) (m : List (ℕ × V)) → weigh (λ e. if e.0 == k then 1 else 0) m ≡ 0 → find k m ≡ none
  none-find k [] h = refl
  none-find k (e ∷ m) h = ground (arith, h, none-find k m)

  pub All-insert :
      (P : ℕ × V → Type 0) (k : ℕ) (v : V) (m : List (ℕ × V))
      → P (k, v)
      → All P m
      → All P (insert k v m)
  All-insert P k v [] new old = (new, tt)
  All-insert P k v (e ∷ m) new old = elim (Bool-cases (ltb k e.0)) [
    | inl below ↦ rw below (new, old)
    | inr above ↦ rw above (old.0, All-insert P k v m new old.1)
  ]

  pub All-erase_key :
      (P : ℕ × V → Type 0) (k : ℕ) (m : List (ℕ × V)) → All P m → All P (erase_key k m)
  All-erase_key P k [] h = tt
  All-erase_key P k (e ∷ m) h = elim (Bool-cases (e.0 == k)) [
    | inl hit ↦ rw hit h.1
    | inr miss ↦ rw miss (h.0, All-erase_key P k m h.1)
  ]

  pub All-find :
      (P : ℕ × V → Type 0) (k : ℕ) (v : V) (m : List (ℕ × V))
      → find k m ≡ some v
      → All P m
      → P (k, v)
  All-find P k v [] found h = absurd (ground (arith, found))
  All-find P k v (e ∷ m) found h = elim (Bool-cases (e.0 == k)) [
    | inl hit ↦ subst P (ground (arith, found, hit)) h.0
    | inr miss ↦ All-find P k v m (ground (arith, found, miss)) h.1
  ]

-- The bytes of a region that is not there.
bytes_of-absent :
    (r : ℕ) (regions : List (ℕ × ℕ))
    → weigh (is_key r) regions ≡ 0
    → weigh (region_tile (bytes_of r)) regions ≡ 0
bytes_of-absent r [] h = refl
bytes_of-absent r (e ∷ regions) h = ground (arith, h, bytes_of-absent r regions)

bytes_of-small :
    (allocated : ℕ → ℕ) (r : ℕ) (regions : List (ℕ × ℕ))
    → All (IsOwned allocated) regions
    → weigh (is_key r) regions ≤ 1
    → weigh (region_tile (bytes_of r)) regions < size_limit
bytes_of-small allocated r [] owned one = omega arith
bytes_of-small allocated r (e ∷ regions) owned one = elim (Bool-cases (e.0 == r)) [
  | inl hit ↦ ground (arith, hit, one, owned.0, bytes_of-absent r regions)
  | inr miss ↦ ground (arith, miss, one, bytes_of-small allocated r regions owned.1)
]

pub PoolInv-Bounded :
    (allocated : ℕ → ℕ) (pool : DevicePool) → PoolInv allocated pool → Bounded pool.blocks
PoolInv-Bounded allocated pool inv = record {
  bounded = λ r. omega (
    arith,
    inv.tiled (bytes_of r),
    bytes_of-small allocated r pool.regions inv.sound.owned (inv.sound.once r),
  );
}

-- No region, and so no block, lies at nullptr.
covers_null :
    (allocated : ℕ → ℕ) (regions : List (ℕ × ℕ))
    → All (IsOwned allocated) regions
    → weigh (region_tile (covers 0)) regions ≡ 0
covers_null allocated [] owned = refl
covers_null allocated (e ∷ regions) owned =
    ground (arith, owned.0.3, covers_null allocated regions owned.1)

pub address-positive :
    (allocated : ℕ → ℕ) (pool : DevicePool) (i : ℕ) (b : Block)
    → PoolInv allocated pool
    → get_elem? pool.blocks i ≡ some b
    → 0 < b.byte_size
    → 0 < b.address
address-positive allocated pool i b inv at size = ground (
  arith,
  size,
  weigh-member (tile (covers 0)) pool.blocks i b at,
  inv.tiled (covers 0),
  covers_null allocated pool.regions inv.sound.owned,
)

-- The driver has nothing else where a region is.
pub absent_of_free :
    (allocated : ℕ → ℕ) (p : ℕ) (regions : List (ℕ × ℕ))
    → All (IsOwned allocated) regions
    → allocated p ≡ 0
    → weigh (is_key p) regions ≡ 0
absent_of_free allocated p [] owned free = refl
absent_of_free allocated p (e ∷ regions) owned free = elim (Bool-cases (e.0 == p)) [
  | inl hit ↦
      absurd (ground (arith, owned.0.0, owned.0.1, free, ap allocated ((==_iff e.0 p).0 hit)))
  | inr miss ↦ ground (arith, miss, absent_of_free allocated p regions owned.1 free)
]

-- The checks of a build without NDEBUG pass.
pub PoolInv-ledger_holds :
    (allocated : ℕ → ℕ) (pool : DevicePool) → PoolInv allocated pool → ledger_holds pool ≡ true
unfolding ledger_holds
PoolInv-ledger_holds allocated pool inv = grind (arith, inv.idle_ledger, inv.reserved_ledger)

-- No address lies in two blocks.
module _ (allocated : ℕ → ℕ)
    (apart : (p q x : ℕ)
      → (p ≡ q → ⊥)
      → inside x p (allocated p) + inside x q (allocated q) ≤ 1) where
  covers-other :
      (k x : ℕ) (regions : List (ℕ × ℕ))
      → All (IsOwned allocated) regions
      → weigh (is_key k) regions ≡ 0
      → inside x k (allocated k) ≡ 1
      → weigh (region_tile (covers x)) regions ≡ 0
  covers-other k x [] owned absent here = refl
  covers-other k x (e ∷ regions) owned absent here = ground (
    arith,
    here,
    absent,
    owned.0.0,
    apart k e.0 x (λ same. ground (arith, same, absent)),
    covers-other k x regions owned.1 (omega (arith, absent)) here,
  )

  pub covers-once :
      (x : ℕ) (regions : List (ℕ × ℕ))
      → Regions allocated regions
      → weigh (region_tile (covers x)) regions ≤ 1
  covers-once x [] sound = omega arith
  covers-once x (e ∷ regions) sound = elim (Bool-cases (inside x e.0 (allocated e.0) == 1)) [
    | inl here ↦ ground (
      arith,
      sound.owned.0.0,
      covers-other e.0 x regions sound.owned.1 (ground (arith, sound.once e.0))
          ((==_iff (inside x e.0 (allocated e.0)) 1).0 here),
    )
    | inr elsewhere ↦ ground (
      arith,
      sound.owned.0.0,
      elsewhere,
      covers-once x regions
          (record { owned = sound.owned.1; once = λ k. omega (arith, sound.once k) }),
    )
  ]
