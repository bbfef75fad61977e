-- ===== src/DevicePool/Driver.antt =====
-- The CUDA runtime that alloc_cu.cpp calls, as a parameter: cudaGetDevice, cudaSetDevice,
-- cudaMalloc, cudaFree and cudaMemGetInfo over the type `W` of its states, and DeviceGuard.
use llm_steady_infer.Base.{
  ℕ, ◌+◌, ◌≤◌, ◌<◌, ◌≡◌, Bool, true, false, Option, none, some, ◌==◌, if◌then◌else◌, update,
  Option-cases, Bool-cases, inl, inr, subst, sym,
}
use llm_steady_infer.DevicePool.Measure.{inside}

-- `none` and `false` are the results other than cudaSuccess.
pub record Driver (W : Type 0) : Type 0 where
  pub get_device : W → Option ℕ
  pub set_device : ℕ → W → Bool × W
  pub malloc : ℕ → W → Option ℕ × W
  pub free : ℕ → W → Bool × W
  pub mem_get_info : W → Option (ℕ × ℕ)

-- What the pool relies on: `allocated w p` is the size of the allocation that starts at `p`, 0 when
-- there is none; allocations do not overlap, and only cudaMalloc and cudaFree change them.
pub record Lawful {W : Type 0} (d : Driver W) : Type 1 where
  pub Sound : W → Type 0
  pub allocated : W → ℕ → ℕ
  pub apart :
      (w : W) (p q x : ℕ)
      → Sound w
      → (p ≡ q → ⊥)
      → inside x p (allocated w p) + inside x q (allocated w q) ≤ 1
  pub set_device-Sound : (device : ℕ) (w : W) → Sound w → Sound (d.set_device device w).1
  pub malloc-Sound : (size : ℕ) (w : W) → Sound w → Sound (d.malloc size w).1
  pub free-Sound : (p : ℕ) (w : W) → Sound w → Sound (d.free p w).1
  pub set_device-same : (device : ℕ) (w : W) → allocated (d.set_device device w).1 ≡ allocated w
  pub malloc-some :
      (size : ℕ) (w : W) (p : ℕ)
      → Sound w
      → 0 < size
      → (d.malloc size w).0 ≡ some p
      → (0 < p)
        × (allocated w p ≡ 0)
        × (allocated (d.malloc size w).1 ≡ update (allocated w) p size)
  pub malloc-none :
      (size : ℕ) (w : W) → (d.malloc size w).0 ≡ none → allocated (d.malloc size w).1 ≡ allocated w
  pub free-true :
      (p : ℕ) (w : W) → (d.free p w).0 ≡ true → allocated (d.free p w).1 ≡ update (allocated w) p 0
  pub free-false : (p : ℕ) (w : W) → (d.free p w).0 ≡ false → allocated (d.free p w).1 ≡ allocated w

-- The destructor of DeviceGuard.
abbrev pub switch_back : {W A : Type 0} → Driver W → ℕ → Bool → A × W → A × W
switch_back d current true done = (done.0, (d.set_device current done.1).1)
switch_back d current false done = done

-- DeviceGuard around `body`.
unfoldable pub guarded : {W A : Type 0} → Driver W → ℕ → (W → A × W) → W → A × W
guarded d device_id body w = elim (d.get_device w) [
  | none ↦ body w
  | some current ↦
      if current == device_id
      then body w
      else let switched = d.set_device device_id w in
        switch_back d current switched.0 (body switched.1)
]

-- What holds of the body's result holds after the device has been switched back.
module _ {W A : Type 0} (d : Driver W) (law : Lawful d) (Pre : (ℕ → ℕ) → Type 0)
    (Post : A → (ℕ → ℕ) → Type 0) (body : W → A × W)
    (body_ok : (w : W)
      → law.Sound w
      → Pre (law.allocated w)
      → law.Sound (body w).1 × Post (body w).0 (law.allocated (body w).1)) where
  switched_ok :
      (current : ℕ) (back : Bool) (w : W)
      → law.Sound w
      → Pre (law.allocated w)
      → law.Sound (switch_back d current back (body w)).1
        × Post
            (switch_back d current back (body w)).0
            (law.allocated (switch_back d current back (body w)).1)
  switched_ok current false w sound pre = body_ok w sound pre
  switched_ok current true w sound pre =
      let done = body_ok w sound pre in
      (
        law.set_device-Sound current (body w).1 done.0,
        subst (Post (body w).0) (sym (law.set_device-same current (body w).1)) done.1,
      )

  pub guarded_ind :
      (device_id : ℕ) (w : W)
      → law.Sound w
      → Pre (law.allocated w)
      → law.Sound (guarded d device_id body w).1
        × Post (guarded d device_id body w).0 (law.allocated (guarded d device_id body w).1)
  unfolding guarded
  guarded_ind device_id w sound pre = elim (Option-cases (d.get_device w)) [
    | inl unknown ↦ rw (unknown, guarded) (body_ok w sound pre)
    | inr (current, known) ↦ elim (Bool-cases (current == device_id)) [
      | inl here ↦ rw (known, here, guarded) (body_ok w sound pre)
      | inr away ↦
          rw (known, away, guarded)
            (switched_ok current (d.set_device device_id w).0 (d.set_device device_id w).1
              (law.set_device-Sound device_id w sound)
              (subst Pre (sym (law.set_device-same device_id w)) pre))
    ]
  ]
