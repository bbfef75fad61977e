-- ===== src/PrefixCache/Lookup.antt =====
-- lookup: what a match promises.
use llm_steady_infer.Base.{
  ℕ, zero, suc, ◌-◌, ◌*◌, ◌/◌, ◌≤◌, ◌<◌, ◌≡◌, ◌≢◌, inl, inr, refl, true, false, not, ◌&&◌, some,
  List, [], ◌∷◌, ◌==◌, length, take, drop, subst, All, Bool-cases, Option-cases, arith,
}
use llm_steady_infer.BlockAllocator.{
  BlockAllocator, ref_count, is_cached, reserve_shared_prefix, blocks_of,
}
use llm_steady_infer.BlockAllocator.Invariant.{is_free}
use llm_steady_infer.BlockAllocator.Sharing.{reserve_shared_prefix-accepts}
use llm_steady_infer.PrefixCache.{
  PrefixCache, Entry, block_hash, find, same_tokens, tokens_match, shareable, cacheable_blocks,
  lookup_from, lookup,
}
use llm_steady_infer.PrefixCache.Walking.{InPool}

-- The chained hashes of the first `n` blocks of a prompt, behind the hash `prev`.
abbrev pub chain_of : ℕ → ℕ → ℕ → List ℕ → List ℕ
chain_of size zero prev tokens = []
chain_of size (suc n) prev tokens =
    let h = block_hash prev (take size tokens) in h ∷ chain_of size n h (drop size tokens)

pub find-hash : (h : ℕ) (es : List Entry) (e : Entry) → find h es ≡ some e → e.hash ≡ h
unfolding find
find-hash h [] e f = cc
find-hash h (x ∷ es) e f = ground (arith, find-hash h es e)

find-All :
    (P : Entry → Type 0) (h : ℕ) (es : List Entry) (e : Entry) → find h es ≡ some e → All P es → P e
unfolding find
find-All P h [] e f k = absurd (cc)
find-All P h (x ∷ es) e f k = elim (Bool-cases (x.hash == h)) [
  | inl hit ↦ subst P (let same : x ≡ e = ground arith in same) k.0
  | inr miss ↦ find-All P h es e (ground arith) k.1
]

same_tokens-eq : (xs ys : List ℕ) → same_tokens xs ys ≡ true → xs ≡ ys
unfolding same_tokens
same_tokens-eq [] [] h = refl
same_tokens-eq [] (y ∷ ys) h = cc
same_tokens-eq (x ∷ xs) [] h = cc
same_tokens-eq (x ∷ xs) (y ∷ ys) h = ground (arith, same_tokens-eq xs ys)

tokens_match-eq :
    (size : ℕ) (e : Entry) (tokens : List ℕ)
    → tokens_match size e tokens ≡ true
    → e.tokens ≡ take size tokens
unfolding tokens_match
tokens_match-eq size e tokens h = ground (arith, same_tokens-eq e.tokens (take size tokens))

-- A matched block comes from an entry that was filed under the same context, holds the same tokens,
-- and still has its block.
pub record IsHit (c : PrefixCache) (a : BlockAllocator) (prev : ℕ) (tokens : List ℕ) (block h : ℕ)
    : Type 0 where
  pub entry : Entry
  pub found : find h c.entries ≡ some entry
  pub hash : h ≡ block_hash prev (take c.block_size tokens)
  pub block_id : entry.block_id ≡ block
  pub same_prefix : entry.prev_hash ≡ prev
  pub same_content : entry.tokens ≡ take c.block_size tokens
  pub held : (ref_count block a == 0 && not (is_cached block a)) ≡ false

abbrev pub IsMatch : PrefixCache → BlockAllocator → ℕ → List ℕ → List ℕ → List ℕ → Type 0
IsMatch c a prev tokens [] [] = Unit
IsMatch c a prev tokens [] (h ∷ hs) = ⊥
IsMatch c a prev tokens (b ∷ bs) [] = ⊥
IsMatch c a prev tokens (b ∷ bs) (h ∷ hs) =
    IsHit c a prev tokens b h × IsMatch c a h (drop c.block_size tokens) bs hs

shareable-IsHit :
    (c : PrefixCache) (a : BlockAllocator) (prev : ℕ) (tokens : List ℕ) (e : Entry)
    → find (block_hash prev (take c.block_size tokens)) c.entries ≡ some e
    → shareable c a prev tokens e ≡ true
    → IsHit c a prev tokens e.block_id (block_hash prev (take c.block_size tokens))
unfolding shareable
shareable-IsHit c a prev tokens e hit ok = record {
  entry = e;
  found = hit;
  hash = refl;
  block_id = refl;
  same_prefix = ground arith;
  same_content = tokens_match-eq c.block_size e tokens (ground arith);
  held = ground arith;
}

lookup_from-IsMatch :
    (n : ℕ) (tokens : List ℕ) (prev : ℕ) (c : PrefixCache) (a : BlockAllocator)
    → let m = lookup_from n tokens prev c a in
      IsMatch c a prev tokens m.blocks m.hashes × (length m.blocks ≤ n)
unfolding lookup_from
lookup_from-IsMatch zero tokens prev c a = (tt, omega arith)
lookup_from-IsMatch (suc n) tokens prev c a = elim (Option-cases (find h c.entries)) [
  | inl miss ↦ rw (miss, lookup_from) (tt, omega arith)
  | inr (e, hit) ↦
      rw (hit, lookup_from)
        (elim (Bool-cases (shareable c a prev tokens e)) [
          | inl ok ↦ rw ok (
              let (matches, few) = lookup_from-IsMatch n (drop c.block_size tokens) h c a in
              ((shareable-IsHit c a prev tokens e hit ok, matches), omega (arith, few)))
          | inr stale ↦ rw stale (tt, omega arith)
        ])
]
  where
    h : ℕ
    h = block_hash prev (take c.block_size tokens)

-- Every block that lookup proposes is the entry's under the chained hash of the prompt up to it, was
-- filed with the same tokens and the same preceding hash, and is cached or referenced.
pub lookup-IsMatch :
    (prompt : List ℕ) (c : PrefixCache) (a : BlockAllocator)
    → IsMatch c a 0 prompt (lookup prompt a c).blocks (lookup prompt a c).hashes
unfolding lookup
lookup-IsMatch prompt c a =
    (lookup_from-IsMatch (cacheable_blocks (length prompt) c) prompt 0 c a).0

div-mul-le : (n d k : ℕ) → k ≤ n / d → k * d ≤ n
div-mul-le n d k h = grind arith

-- The match for a prompt that is not empty never reaches the block of its last token.
pub lookup_stops_short :
    (prompt : List ℕ) (c : PrefixCache) (a : BlockAllocator)
    → 0 < length prompt
    → length (lookup prompt a c).blocks * c.block_size < length prompt
unfolding lookup cacheable_blocks
lookup_stops_short prompt c a h = ground (
  arith,
  (lookup_from-IsMatch (cacheable_blocks (length prompt) c) prompt 0 c a).1,
  div-mul-le (length prompt - 1) c.block_size (length (lookup prompt a c).blocks),
)

IsMatch-All :
    (c : PrefixCache) (a : BlockAllocator) (prev : ℕ) (tokens bs hs : List ℕ)
    → InPool c.entries a
    → IsMatch c a prev tokens bs hs
    → All (λ x. (x < a.num_blocks) × (is_free a x ≡ false)) bs
unfolding ref_count is_cached
IsMatch-All c a prev tokens [] [] k m = tt
IsMatch-All c a prev tokens [] (h ∷ hs) k m = absurd m
IsMatch-All c a prev tokens (b ∷ bs) [] k m = absurd m
IsMatch-All c a prev tokens (b ∷ bs) (h ∷ hs) k m =
    (hit_held, IsMatch-All c a h (drop c.block_size tokens) bs hs k m.1)
  where
    named : m.0.entry.block_id < a.num_blocks
    named = find-All (λ e. e.block_id < a.num_blocks) h c.entries m.0.entry m.0.found k

    hit_held : (b < a.num_blocks) × (is_free a b ≡ false)
    hit_held = ground (arith, named, m.0.block_id, m.0.held)

-- If every entry names a block of the pool, a match that is not empty and fits into the table is
-- accepted by reserve_shared_prefix on a row that mounts nothing.
pub lookup-reserve_shared_prefix :
    (prompt : List ℕ) (c : PrefixCache) (a : BlockAllocator) (row : ℕ)
    → InPool c.entries a
    → row < a.num_rows
    → blocks_of (a.block_tables row) ≡ []
    → (lookup prompt a c).blocks ≢ []
    → length (lookup prompt a c).blocks ≤ a.max_blocks_per_seq
    → (reserve_shared_prefix (some row) (lookup prompt a c).blocks a).1 ≡ true
lookup-reserve_shared_prefix prompt c a row k row_lt empty some_match fits =
    accept (lookup prompt a c).blocks some_match fits
      (IsMatch-All c a 0 prompt _ _ k (lookup-IsMatch prompt c a))
  where
    accept :
        (bs : List ℕ)
        → bs ≢ []
        → length bs ≤ a.max_blocks_per_seq
        → All (λ x. (x < a.num_blocks) × (is_free a x ≡ false)) bs
        → (reserve_shared_prefix (some row) bs a).1 ≡ true
    accept [] nonempty _ _ = absurd (nonempty refl)
    accept (b ∷ bs) _ small held = reserve_shared_prefix-accepts row b bs a row_lt empty small held
