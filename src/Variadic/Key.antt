-- ===== src/Variadic/Key.antt =====
-- The keys of a generator's cache: the identifiers of the types, one after the other.
use node_ffi.Base.{
  ℕ, ◌≡◌, refl, true, some, List, [], ◌∷◌, ◌++◌, length, length-append, arith, ap, ap₂, sym, ◌∙◌,
}
use node_ffi.World.{World}
use node_ffi.Variadic.{same_key, join}
use node_ffi.Variadic.Ids.{IsShort, HasShortIds}

same_key→≡ : (k j : List ℕ) → same_key k j ≡ true → k ≡ j
unfolding same_key
same_key→≡ [] [] h = refl
same_key→≡ (a ∷ k) (b ∷ j) h =
    let here : a ≡ b = ground arith in
    let there = same_key→≡ k j (ground arith) in ap₂ (λ (x : ℕ) (y : List ℕ). x ∷ y) here there
same_key→≡ _ _ h = cc

append-injective : (k j x y : List ℕ) → length k ≡ length j → k ++ x ≡ j ++ y → (k ≡ j) × (x ≡ y)
append-injective [] [] x y n h = (refl, h)
append-injective (a ∷ k) (b ∷ j) x y n h =
    let here : a ≡ b = cc h in
    let tails : k ++ x ≡ j ++ y = cc h in
    let (there, rest) = append-injective k j x y (omega arith) tails in
    (ap₂ (λ (u : ℕ) (v : List ℕ). u ∷ v) here there, rest)
append-injective [] (b ∷ j) x y n h = absurd (omega arith)
append-injective (a ∷ k) [] x y n h = absurd (omega arith)

-- The own identifiers of types, in order.
abbrev pub HasIds : {N : Type 0} → World N → List ℕ → List (List ℕ) → Type 0
HasIds w [] [] = Unit
HasIds w (t ∷ ts) (k ∷ ks) = (w.ffi_id t ≡ some k) × HasIds w ts ks
HasIds w _ _ = ⊥

-- Different types have different identifiers.
pub record HasOwnIds {N : Type 0} (w : World N) : Type 0 where
  pub distinct : (t u : ℕ) (k : List ℕ) → w.ffi_id t ≡ some k → w.ffi_id u ≡ some k → t ≡ u

joined-same :
    {N : Type 0} (w : World N) (ts us : List ℕ) (ks js : List (List ℕ))
    → HasShortIds w
    → HasOwnIds w
    → HasIds w ts ks
    → HasIds w us js
    → join ks ≡ join js
    → ts ≡ us
unfolding join
joined-same w [] [] [] [] short own a b h = refl
joined-same w (t ∷ ts) (u ∷ us) (k ∷ ks) (j ∷ js) short own a b h =
    let sk : IsShort k = short.given t k a.0 in
    let sj : IsShort j = short.given u j b.0 in
    let (here, there) = append-injective k j (join ks) (join js) (sk ∙ sym sj) h in
    let same : t ≡ u = own.distinct t u k a.0 (b.0 ∙ ap (λ (x : List ℕ). some x) (sym here)) in
    ap₂ (λ (x : ℕ) (y : List ℕ). x ∷ y) same (joined-same w ts us ks js short own a.1 b.1 there)
joined-same w (t ∷ ts) [] (k ∷ ks) [] short own a b h =
    let sk : IsShort k = short.given t k a.0 in
    absurd (omega (arith, sk, length-append k (join ks), ap (length {0} {A = ℕ}) h))
joined-same w [] (u ∷ us) [] (j ∷ js) short own a b h =
    let sj : IsShort j = short.given u j b.0 in
    absurd (omega (arith, sj, length-append j (join js), ap (length {0} {A = ℕ}) h))
joined-same w _ _ _ _ short own a b h = ground arith

-- Where identifiers have five characters and no two types share one, two lists of types with equal
-- keys are the same list.
pub same_key-same_types :
    {N : Type 0} (w : World N) (ts us : List ℕ) (ks js : List (List ℕ))
    → HasShortIds w
    → HasOwnIds w
    → HasIds w ts ks
    → HasIds w us js
    → same_key (join ks) (join js) ≡ true
    → ts ≡ us
same_key-same_types w ts us ks js short own a b h =
    joined-same w ts us ks js short own a b (same_key→≡ (join ks) (join js) h)
