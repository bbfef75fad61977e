-- ===== src/DevicePool/Weigh.antt =====
-- Lists with places taken out, maps as association lists in key order, and sums over both.
use llm_steady_infer.Base.{
  ℕ, zero, suc, ◌+◌, ◌≤◌, ◌<◌, ◌≡◌, ◌≢◌, refl, ap, ◌∙◌, Option, none, some, List, [], ◌∷◌, ◌++◌,
  arith, ltb, ◌==◌, if◌then◌else◌, length, get_elem?, set, Bool-cases, inl, inr,
}

module _ {A : Type 0} where
  -- vector::erase at a place
  abbrev pub erase : List A → ℕ → List A
  erase [] i = []
  erase (x ∷ xs) zero = xs
  erase (x ∷ xs) (suc i) = x ∷ erase xs i

  -- The sum of a number per entry.
  abbrev pub weigh : (A → ℕ) → List A → ℕ
  weigh f [] = 0
  weigh f (x ∷ xs) = f x + weigh f xs

module _ {A : Type 0} where
  pub weigh-append : (f : A → ℕ) (xs ys : List A) → weigh f (xs ++ ys) ≡ weigh f xs + weigh f ys
  weigh-append f [] ys = omega arith
  weigh-append f (x ∷ xs) ys = omega (arith, weigh-append f xs ys)

  pub weigh-set :
      (f : A → ℕ) (xs : List A) (i : ℕ) (a b : A)
      → get_elem? xs i ≡ some a
      → weigh f (set xs i b) + f a ≡ weigh f xs + f b
  weigh-set f [] i a b h = ground (arith, h)
  weigh-set f (x ∷ xs) zero a b h = ground (arith, h)
  weigh-set f (x ∷ xs) (suc i) a b h = omega (arith, weigh-set f xs i a b h)

  pub weigh-erase :
      (f : A → ℕ) (xs : List A) (i : ℕ) (a : A)
      → get_elem? xs i ≡ some a
      → weigh f (erase xs i) + f a ≡ weigh f xs
  weigh-erase f [] i a h = ground (arith, h)
  weigh-erase f (x ∷ xs) zero a h = ground (arith, h)
  weigh-erase f (x ∷ xs) (suc i) a h = omega (arith, weigh-erase f xs i a h)

  pub weigh-member :
      (f : A → ℕ) (xs : List A) (i : ℕ) (a : A) → get_elem? xs i ≡ some a → f a ≤ weigh f xs
  weigh-member f xs i a h = omega (arith, weigh-erase f xs i a h)

  pub weigh-two :
      (f : A → ℕ) (xs : List A) (i j : ℕ) (a b : A)
      → i ≢ j
      → get_elem? xs i ≡ some a
      → get_elem? xs j ≡ some b
      → f a + f b ≤ weigh f xs
  weigh-two f [] i j a b ne ha hb = ground (arith, ha)
  weigh-two f (x ∷ xs) zero zero a b ne ha hb = absurd (ne refl)
  weigh-two f (x ∷ xs) zero (suc j) a b ne ha hb = ground (arith, ha, weigh-member f xs j b hb)
  weigh-two f (x ∷ xs) (suc i) zero a b ne ha hb = ground (arith, hb, weigh-member f xs i a ha)
  weigh-two f (x ∷ xs) (suc i) (suc j) a b ne ha hb =
      omega (arith, weigh-two f xs i j a b (λ e. ne (ground (arith, e))) ha hb)

  pub weigh_witness :
      (f : A → ℕ) (xs : List A)
      → 0 < weigh f xs
      → (i : ℕ) × (a : A) × (get_elem? xs i ≡ some a) × (0 < f a)
  weigh_witness f [] h = absurd (omega (arith, h))
  weigh_witness f (x ∷ xs) h = elim (Bool-cases (f x == 0)) [
    | inl nothing ↦
        let (i, a, at, some_weight) = weigh_witness f xs (ground (arith, h, nothing)) in
        (suc i, a, at, some_weight)
    | inr here ↦ (0, x, refl, ground (arith, here))
  ]

  pub weigh-ext : (f g : A → ℕ) (xs : List A) → ((x : A) → f x ≡ g x) → weigh f xs ≡ weigh g xs
  weigh-ext f g [] h = refl
  weigh-ext f g (x ∷ xs) h = omega (arith, h x, weigh-ext f g xs h)

  pub weigh-add : (f g : A → ℕ) (xs : List A) → weigh (λ x. f x + g x) xs ≡ weigh f xs + weigh g xs
  weigh-add f g [] = omega arith
  weigh-add f g (x ∷ xs) = omega (arith, weigh-add f g xs)

  pub get_elem?-set_other :
      (xs : List A) (i j : ℕ) (b : A) → i ≢ j → get_elem? (set xs i b) j ≡ get_elem? xs j
  get_elem?-set_other [] i j b ne = refl
  get_elem?-set_other (x ∷ xs) zero zero b ne = absurd (ne refl)
  get_elem?-set_other (x ∷ xs) zero (suc j) b ne = refl
  get_elem?-set_other (x ∷ xs) (suc i) zero b ne = refl
  get_elem?-set_other (x ∷ xs) (suc i) (suc j) b ne =
      get_elem?-set_other xs i j b (λ e. ne (ground (arith, e)))

  pub get_elem?-set_self :
      (xs : List A) (i : ℕ) (a b : A) → get_elem? xs i ≡ some a → get_elem? (set xs i b) i ≡ some b
  get_elem?-set_self [] i a b h = ground (arith, h)
  get_elem?-set_self (x ∷ xs) zero a b h = refl
  get_elem?-set_self (x ∷ xs) (suc i) a b h = get_elem?-set_self xs i a b h

  pub get_elem?-erase_above :
      (xs : List A) (i j : ℕ) → j ≤ i → get_elem? (erase xs j) i ≡ get_elem? xs (suc i)
  get_elem?-erase_above [] i j h = refl
  get_elem?-erase_above (x ∷ xs) i zero h = refl
  get_elem?-erase_above (x ∷ xs) zero (suc j) h = absurd (omega (arith, h))
  get_elem?-erase_above (x ∷ xs) (suc i) (suc j) h = get_elem?-erase_above xs i j (omega (arith, h))

  pub get_elem?-erase_below :
      (xs : List A) (i j : ℕ) → i < j → get_elem? (erase xs j) i ≡ get_elem? xs i
  get_elem?-erase_below [] i j h = refl
  get_elem?-erase_below (x ∷ xs) i zero h = absurd (omega (arith, h))
  get_elem?-erase_below (x ∷ xs) zero (suc j) h = refl
  get_elem?-erase_below (x ∷ xs) (suc i) (suc j) h = get_elem?-erase_below xs i j (omega (arith, h))

  pub length-erase :
      (xs : List A) (i : ℕ) (a : A)
      → get_elem? xs i ≡ some a
      → suc (length (erase xs i)) ≡ length xs
  length-erase [] i a h = ground (arith, h)
  length-erase (x ∷ xs) zero a h = refl
  length-erase (x ∷ xs) (suc i) a h = omega (arith, length-erase xs i a h)

-- std::map: find, operator[] with an assignment, erase of a key.
module _ {V : Type 0} where
  abbrev pub find : ℕ → List (ℕ × V) → Option V
  find k [] = none
  find k (e ∷ m) = if e.0 == k then some e.1 else find k m

  abbrev pub insert : ℕ → V → List (ℕ × V) → List (ℕ × V)
  insert k v [] = (k, v) ∷ []
  insert k v (e ∷ m) = let rest = insert k v m in if ltb k e.0 then (k, v) ∷ e ∷ m else e ∷ rest

  abbrev pub replace : ℕ → V → List (ℕ × V) → List (ℕ × V)
  replace k v [] = []
  replace k v (e ∷ m) = let rest = replace k v m in if e.0 == k then (k, v) ∷ m else e ∷ rest

  abbrev pub assign : ℕ → V → List (ℕ × V) → List (ℕ × V)
  assign k v m = elim (find k m) [ none ↦ insert k v m | some old ↦ replace k v m ]

  abbrev pub erase_key : ℕ → List (ℕ × V) → List (ℕ × V)
  erase_key k [] = []
  erase_key k (e ∷ m) = let rest = erase_key k m in if e.0 == k then m else e ∷ rest

module _ {V : Type 0} where
  pub assign_absent :
      (k : ℕ) (v : V) (m : List (ℕ × V)) → find k m ≡ none → assign k v m ≡ insert k v m
  assign_absent k v m h = rw (h, assign) refl

  pub assign_present :
      (k : ℕ) (v old : V) (m : List (ℕ × V)) → find k m ≡ some old → assign k v m ≡ replace k v m
  assign_present k v old m h = rw (h, assign) refl

  pub weigh-insert :
      (f : ℕ × V → ℕ) (k : ℕ) (v : V) (m : List (ℕ × V))
      → weigh f (insert k v m) ≡ f (k, v) + weigh f m
  weigh-insert f k v [] = refl
  weigh-insert f k v (e ∷ m) = ground (arith, weigh-insert f k v m)

  pub weigh-replace :
      (f : ℕ × V → ℕ) (k : ℕ) (v old : V) (m : List (ℕ × V))
      → find k m ≡ some old
      → weigh f (replace k v m) + f (k, old) ≡ weigh f m + f (k, v)
  weigh-replace f k v old [] h = ground (arith, h)
  weigh-replace f k v old (e ∷ m) h = ground (arith, h, weigh-replace f k v old m)

  pub weigh-find :
      (f : ℕ × V → ℕ) (k : ℕ) (v : V) (m : List (ℕ × V)) → find k m ≡ some v → f (k, v) ≤ weigh f m
  weigh-find f k v [] h = ground (arith, h)
  weigh-find f k v (e ∷ m) h = ground (arith, h, weigh-find f k v m)

  pub weigh-assign :
      (f : ℕ × V → ℕ) (k : ℕ) (v : V) (m : List (ℕ × V))
      → find k m ≡ none
      → weigh f (assign k v m) ≡ f (k, v) + weigh f m
  weigh-assign f k v m h = ap (weigh f) (assign_absent k v m h) ∙ weigh-insert f k v m

  pub weigh-erase_key :
      (f : ℕ × V → ℕ) (k : ℕ) (v : V) (m : List (ℕ × V))
      → find k m ≡ some v
      → weigh f (erase_key k m) + f (k, v) ≡ weigh f m
  weigh-erase_key f k v [] h = ground (arith, h)
  weigh-erase_key f k v (e ∷ m) h = ground (arith, h, weigh-erase_key f k v m)
