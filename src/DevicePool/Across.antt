-- ===== src/DevicePool/Across.antt =====
-- The pools of all devices together: no region belongs to two of them.
use llm_steady_infer.Base.{
  ℕ, ◌+◌, ◌≤◌, ◌<◌, ◌≡◌, inl, inr, refl, sym, ap, ◌∙◌, subst, true, false, none, some, List, [],
  ◌∷◌, arith, ◌==◌, Bool-cases, Option-cases, All, ==_iff,
}
use llm_steady_infer.DevicePool.{
  DevicePool, weigh, find, assign, assign_absent, assign_present, replace, weigh-insert,
  weigh-replace, weigh-find,
}
use llm_steady_infer.DevicePool.Allocator.{Pools, empty_pool, pool_of, check_ledger}
use llm_steady_infer.DevicePool.Invariant.{
  PoolInv, IsOwned, is_key, absent_of_free, PoolInv-ledger_holds, All-insert, All-find,
}
use llm_steady_infer.DevicePool.Reclaim.{Moved}

abbrev pub keys_of : ℕ → ℕ × DevicePool → ℕ
keys_of q entry = weigh (is_key q) entry.1.regions

abbrev pub HasInv : (ℕ → ℕ) → ℕ × DevicePool → Type 0
HasInv al entry = PoolInv al entry.1

pub record AllocatorInv (al : ℕ → ℕ) (pools : Pools) : Type 0 where
  pub each : All (HasInv al) pools
  pub once : (q : ℕ) → weigh (keys_of q) pools ≤ 1

pub record MovedAll (al : ℕ → ℕ) (pools : Pools) (al' : ℕ → ℕ) (out : Pools) : Type 0 where
  pub inv : AllocatorInv al' out
  pub others : (q : ℕ) → weigh (keys_of q) pools ≡ 0 → 0 < al q → al' q ≡ al q
  pub keys : (q : ℕ) → 0 < al q → weigh (keys_of q) out ≤ weigh (keys_of q) pools

IsOwned-same :
    (al al' : ℕ → ℕ) (regions : List (ℕ × ℕ))
    → ((q : ℕ) → 0 < weigh (is_key q) regions → 0 < al q → al' q ≡ al q)
    → All (IsOwned al) regions
    → All (IsOwned al') regions
IsOwned-same al al' [] same owned = tt
IsOwned-same al al' (e ∷ regions) same owned =
    let at = owned.0.0 in
    (
      (
        same e.0 (ground arith) (omega (arith, owned.0.1, at)) ∙ at,
        owned.0.1,
        owned.0.2,
        owned.0.3,
      ),
      IsOwned-same al al' regions (λ q h. same q (omega (arith, h))) owned.1,
    )

pub PoolInv-frame :
    (al al' : ℕ → ℕ) (pool : DevicePool)
    → ((q : ℕ) → 0 < weigh (is_key q) pool.regions → 0 < al q → al' q ≡ al q)
    → PoolInv al pool
    → PoolInv al' pool
PoolInv-frame al al' pool same inv = record {
  sound = record {
    owned = IsOwned-same al al' pool.regions same inv.sound.owned;
    once = inv.sound.once;
  };
  tiled = inv.tiled;
  idle_ledger = inv.idle_ledger;
  reserved_ledger = inv.reserved_ledger;
}

pub All-frame :
    (al al' : ℕ → ℕ) (pools : Pools)
    → ((q : ℕ) → 0 < weigh (keys_of q) pools → 0 < al q → al' q ≡ al q)
    → All (HasInv al) pools
    → All (HasInv al') pools
All-frame al al' [] same h = tt
All-frame al al' (entry ∷ pools) same h = (
  PoolInv-frame al al' entry.1 (λ q k. same q (omega (arith, k))) h.0,
  All-frame al al' pools (λ q k. same q (omega (arith, k))) h.1,
)

absent_of_free-All :
    (al : ℕ → ℕ) (q : ℕ) (pools : Pools)
    → All (HasInv al) pools
    → al q ≡ 0
    → weigh (keys_of q) pools ≡ 0
absent_of_free-All al q [] h free = refl
absent_of_free-All al q (entry ∷ pools) h free = omega (
  arith,
  absent_of_free al q entry.1.regions h.0.sound.owned free,
  absent_of_free-All al q pools h.1 free,
)

pub MovedAll-refl :
    (al : ℕ → ℕ) (pools : Pools) → AllocatorInv al pools → MovedAll al pools al pools
MovedAll-refl al pools inv = record { inv = inv; others = λ q h k. refl; keys = λ q h. omega arith }

-- The first pool moves, then the others.
module _ (al al' : ℕ → ℕ) (device : ℕ) (pool out : DevicePool) (pools : Pools)
    (inv : AllocatorInv al ((device, pool) ∷ pools)) (m : Moved al pool al' out) where
  pub rest_inv : AllocatorInv al' pools
  rest_inv = record {
    each =
        All-frame al al' pools (λ q there live. m.others q (omega (arith, there, inv.once q)) live)
          inv.each.1;
    once = λ q. omega (arith, inv.once q);
  }

  head_keys : (q : ℕ) → weigh (is_key q) out.regions + weigh (keys_of q) pools ≤ 1
  head_keys q = elim (Bool-cases (al q == 0)) [
    | inl free ↦ omega (
      arith,
      m.inv.sound.once q,
      absent_of_free-All al q pools inv.each.1 ((==_iff (al q) 0).0 free),
    )
    | inr live ↦ omega (arith, inv.once q, m.keys q (ground (arith, live)))
  ]

  pub cons_inv : AllocatorInv al' ((device, out) ∷ pools)
  cons_inv = record { each = (m.inv, rest_inv.each); once = head_keys }

  module _ (al'' : ℕ → ℕ) (later : Pools) (n : MovedAll al' pools al'' later) where
    cons_once : (q : ℕ) → weigh (is_key q) out.regions + weigh (keys_of q) later ≤ 1
    cons_once q = elim (Bool-cases (al' q == 0)) [
      | inl free ↦ omega (
        arith,
        n.inv.once q,
        absent_of_free al' q out.regions m.inv.sound.owned ((==_iff (al' q) 0).0 free),
      )
      | inr live ↦ omega (arith, head_keys q, n.keys q (ground (arith, live)))
    ]

    cons_keys :
        (q : ℕ)
        → 0 < al q
        → weigh (is_key q) out.regions + weigh (keys_of q) later
          ≤ weigh (is_key q) pool.regions + weigh (keys_of q) pools
    cons_keys q live = elim (Bool-cases (al' q == 0)) [
      | inl gone ↦
          let none_left = (==_iff (al' q) 0).0 gone in
          elim (Bool-cases (weigh (is_key q) pool.regions == 0)) [
            | inl absent ↦ absurd (
                omega (
                  arith,
                  none_left,
                  live,
                  m.others q ((==_iff (weigh (is_key q) pool.regions) 0).0 absent) live,
                ))
            | inr there ↦ ground (
              arith,
              there,
              n.inv.once q,
              absent_of_free al' q out.regions m.inv.sound.owned none_left,
            )
          ]
      | inr live' ↦ omega (arith, m.keys q live, n.keys q (ground (arith, live')))
    ]

    pub MovedAll-cons : MovedAll al ((device, pool) ∷ pools) al'' ((device, out) ∷ later)
    MovedAll-cons = record {
      inv = record {
        each = (
          PoolInv-frame al' al'' out
              (λ q there live. n.others q (omega (arith, there, head_keys q)) live) m.inv,
          n.inv.each,
        );
        once = cons_once;
      };
      others = λ q absent live.
          let same = m.others q (omega (arith, absent)) live in
          n.others q (omega (arith, absent)) (omega (arith, same, live)) ∙ same;
      keys = cons_keys;
    }

-- The checks of a build without NDEBUG pass.
pub AllocatorInv-check_ledger :
    (al : ℕ → ℕ) (pools : Pools) → All (HasInv al) pools → check_ledger pools ≡ true
unfolding check_ledger
AllocatorInv-check_ledger al [] h = refl
AllocatorInv-check_ledger al (entry ∷ pools) h =
    rw (PoolInv-ledger_holds al entry.1 h.0) (AllocatorInv-check_ledger al pools h.1)

find_later :
    {V : Type 0} (k : ℕ) (e : ℕ × V) (m : List (ℕ × V)) (v : V)
    → find k (e ∷ m) ≡ some v
    → (e.0 == k) ≡ false
    → find k m ≡ some v
find_later k e m v h miss = ground (arith, h, miss)

pool_of_absent :
    (device : ℕ) (pools : Pools) → find device pools ≡ none → pool_of device pools ≡ empty_pool
unfolding pool_of
pool_of_absent device pools h = rw (h, pool_of) refl

pool_of_present :
    (device : ℕ) (pools : Pools) (pool : DevicePool)
    → find device pools ≡ some pool
    → pool_of device pools ≡ pool
unfolding pool_of
pool_of_present device pools pool h = rw (h, pool_of) refl

empty_pool-PoolInv : (al : ℕ → ℕ) → PoolInv al empty_pool
empty_pool-PoolInv al = record {
  sound = record { owned = tt; once = λ k. omega arith };
  tiled = λ m. refl;
  idle_ledger = refl;
  reserved_ledger = refl;
}

pub pool_of-PoolInv :
    (al : ℕ → ℕ) (device : ℕ) (pools : Pools)
    → All (HasInv al) pools
    → PoolInv al (pool_of device pools)
pool_of-PoolInv al device pools h = elim (Option-cases (find device pools)) [
  | inl absent ↦
      subst (PoolInv al) (sym (pool_of_absent device pools absent)) (empty_pool-PoolInv al)
  | inr (pool, there) ↦
      subst (PoolInv al) (sym (pool_of_present device pools pool there))
        (All-find (HasInv al) device pool pools there h)
]

-- A sum over the pools changes by what the assigned pool changes.
pub weigh-assign_pool :
    (f : ℕ × DevicePool → ℕ) (device : ℕ) (out : DevicePool) (pools : Pools)
    → f (device, empty_pool) ≡ 0
    → weigh f (assign device out pools) + f (device, pool_of device pools)
      ≡ weigh f pools + f (device, out)
unfolding pool_of
weigh-assign_pool f device out pools empty = elim (Option-cases (find device pools)) [
  | inl absent ↦ grind (arith, absent, empty, weigh-insert f device out pools)
  | inr (pool, there) ↦ grind (arith, there, weigh-replace f device out pool pools there)
]

-- The pool of one device moves, in the place where it stands or where it is inserted.
module _ (al al' : ℕ → ℕ) (device : ℕ) (out : DevicePool) where
  replace_each :
      (pool : DevicePool) (pools : Pools)
      → AllocatorInv al pools
      → find device pools ≡ some pool
      → Moved al pool al' out
      → All (HasInv al') (replace device out pools)
  replace_each pool [] inv there m = tt
  replace_each pool (entry ∷ pools) inv there m = elim (Bool-cases (entry.0 == device)) [
    | inl hit ↦ rw hit (
      m.inv,
      All-frame al al' pools
          (λ q k live. m.others q (ground (arith, k, hit, there, inv.once q)) live) inv.each.1,
    )
    | inr miss ↦
        let there' = find_later device entry pools pool there miss in
        rw miss (
          PoolInv-frame al al' entry.1
              (λ q k live.
                m.others q
                  (omega (arith, k, inv.once q, weigh-find (keys_of q) device pool pools there'))
                  live)
              inv.each.0,
          replace_each pool pools
              (record { each = inv.each.1; once = λ q. omega (arith, inv.once q) }) there' m,
        )
  ]

  assign_each :
      (pools : Pools)
      → AllocatorInv al pools
      → Moved al (pool_of device pools) al' out
      → All (HasInv al') (assign device out pools)
  unfolding pool_of
  assign_each pools inv m = elim (Option-cases (find device pools)) [
    | inl absent ↦ subst (All (HasInv al')) (sym (assign_absent device out pools absent)) (
        All-insert (HasInv al') device out pools m.inv (
          All-frame al al' pools
            (λ q k live.
              m.others q (ap (λ p. weigh (is_key q) p.regions) (pool_of_absent device pools absent))
                live)
            inv.each))
    | inr (pool, there) ↦
        subst (All (HasInv al')) (sym (assign_present device out pool pools there)) (
          replace_each pool pools inv there
            (subst (λ p. Moved al p al' out) (pool_of_present device pools pool there) m))
  ]

  assign_keys :
      (pools : Pools) (q : ℕ)
      → weigh (keys_of q) (assign device out pools)
          + weigh (is_key q) (pool_of device pools).regions
        ≡ weigh (keys_of q) pools + weigh (is_key q) out.regions
  assign_keys pools q = weigh-assign_pool (keys_of q) device out pools refl

  pub assign_inv :
      (pools : Pools)
      → AllocatorInv al pools
      → Moved al (pool_of device pools) al' out
      → AllocatorInv al' (assign device out pools)
  assign_inv pools inv m = record {
    each = assign_each pools inv m;
    once = λ q. elim (Bool-cases (al q == 0)) [
      | inl free ↦ omega (
        arith,
        assign_keys pools q,
        m.inv.sound.once q,
        absent_of_free-All al q pools inv.each ((==_iff (al q) 0).0 free),
      )
      | inr live ↦ omega (arith, assign_keys pools q, inv.once q, m.keys q (ground (arith, live)))
    ];
  }
