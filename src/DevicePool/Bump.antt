-- ===== src/DevicePool/Bump.antt =====
-- A driver that keeps what `Lawful` asks for: it hands out rising addresses until a budget is used.
use llm_steady_infer.Base.{
  ℕ, ◌+◌, ◌-◌, ◌≤◌, ◌<◌, ◌≡◌, ◌≢◌, refl, subst, Bool, true, false, Option, none, some, arith, ltb,
  ◌==◌, if◌then◌else◌, update, Bool-cases, inl, inr,
}
use llm_steady_infer.DevicePool.Driver.{Driver, Lawful}
use llm_steady_infer.DevicePool.Measure.{inside}

pub record Bump : Type 0 where
  pub device : ℕ
  pub next : ℕ
  pub budget : ℕ
  pub table : ℕ → ℕ

abbrev bump_malloc : ℕ → Bump → Option ℕ × Bump
bump_malloc size w = if ltb w.budget size then (none, w) else (
  some w.next,
  record w { next = w.next + size; budget = w.budget - size; table = update w.table w.next size },
)

abbrev bump_free : ℕ → Bump → Bool × Bump
bump_free p w =
    if w.table p == 0
    then (false, w)
    else (true, record w { budget = w.budget + w.table p; table = update w.table p 0 })

abbrev pub bump : Driver Bump
bump = record {
  get_device = λ w. some w.device;
  set_device = λ device w. (true, record w { device = device });
  malloc = bump_malloc;
  free = bump_free;
  mem_get_info = λ w. some (w.budget, 8192);
}

pub record BumpSound (w : Bump) : Type 0 where
  pub started : 0 < w.next
  pub below : (q : ℕ) → 0 < w.table q → q + w.table q ≤ w.next
  pub separate : (p q x : ℕ) → p ≢ q → inside x p (w.table p) + inside x q (w.table q) ≤ 1

pub malloc_sound : (size : ℕ) (w : Bump) → BumpSound w → BumpSound (bump_malloc size w).1
malloc_sound size w s = elim (Bool-cases (ltb w.budget size)) [
  | inl poor ↦ rw poor s
  | inr rich ↦ rw rich (record {
    started = ground (arith, s.started);
    below = λ q h. ground (arith, h, s.below q);
    separate = λ p q x ne. ground (arith, ne, s.separate p q x, s.below p, s.below q);
  })
]

pub free_sound : (p : ℕ) (w : Bump) → BumpSound w → BumpSound (bump_free p w).1
free_sound p w s = elim (Bool-cases (w.table p == 0)) [
  | inl unknown ↦ rw unknown s
  | inr known ↦ rw known (record {
    started = s.started;
    below = λ q h. ground (arith, h, s.below q);
    separate = λ a b x ne. ground (arith, ne, s.separate a b x);
  })
]

pub malloc_some :
    (size : ℕ) (w : Bump) (p : ℕ)
    → BumpSound w
    → (bump_malloc size w).0 ≡ some p
    → (0 < p) × (w.table p ≡ 0) × ((bump_malloc size w).1.table ≡ update w.table p size)
malloc_some size w p s h = elim (Bool-cases (ltb w.budget size)) [
  | inl poor ↦ absurd (ground (arith, h, poor))
  | inr rich ↦
      subst
        (λ q. (0 < q) × (w.table q ≡ 0) × ((bump_malloc size w).1.table ≡ update w.table q size))
        (ground (arith, h, rich)) (s.started, ground (arith, s.below w.next), rw rich refl)
]

pub malloc_none :
    (size : ℕ) (w : Bump) → (bump_malloc size w).0 ≡ none → (bump_malloc size w).1.table ≡ w.table
malloc_none size w h = elim (Bool-cases (ltb w.budget size)) [
  | inl poor ↦ rw poor refl
  | inr rich ↦ absurd (ground (arith, h, rich))
]

pub free_true :
    (p : ℕ) (w : Bump) → (bump_free p w).0 ≡ true → (bump_free p w).1.table ≡ update w.table p 0
free_true p w h = elim (Bool-cases (w.table p == 0)) [
  | inl unknown ↦ absurd (ground (arith, h, unknown))
  | inr known ↦ rw known refl
]

pub free_false : (p : ℕ) (w : Bump) → (bump_free p w).0 ≡ false → (bump_free p w).1.table ≡ w.table
free_false p w h = elim (Bool-cases (w.table p == 0)) [
  | inl unknown ↦ rw unknown refl
  | inr known ↦ absurd (ground (arith, h, known))
]

unfoldable pub bump_laws : Lawful bump
bump_laws = record {
  Sound = BumpSound;
  allocated = λ w. w.table;
  apart = λ w p q x s ne. s.separate p q x ne;
  set_device-Sound =
      λ device w s. record { started = s.started; below = s.below; separate = s.separate };
  malloc-Sound = malloc_sound;
  free-Sound = free_sound;
  set_device-same = λ device w. refl;
  malloc-some = λ size w p s positive h. malloc_some size w p s h;
  malloc-none = malloc_none;
  free-true = free_true;
  free-false = free_false;
}

-- 8 KB of memory on device 0.
abbrev pub boot : Bump
boot = record { device = 0; next = 4096; budget = 8192; table = λ q. 0 }

pub boot-BumpSound : BumpSound boot
boot-BumpSound = record {
  started = omega arith;
  below = λ q h. absurd (omega (arith, h));
  separate = λ p q x ne. ground (arith, ne);
}
