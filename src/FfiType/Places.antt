-- ===== src/FfiType/Places.antt =====
-- What the fields of a struct ask for: how many elements, and which pointers.
use node_ffi.Base.{
  ℕ, ◌+◌, ◌≡◌, refl, inl, inr, String, List, [], ◌∷◌, ◌++◌, replicate, ltb, if◌then◌else◌,
  Bool-cases, ◌∙◌, ap, sym,
}
use node_ffi.Value.{Ptr, Value, object, to_value}
use node_ffi.World.{
  World, Js, TypeObject, find_own, chain, gets, pure, ◌>>=◌, elem_of, fixed_length_of,
}
use node_ffi.FfiType.{or_zero, count_elements}
use node_ffi.Platform.{Platform}

-- How many elements a field of type `f` takes.
abbrev pub places : {N : Type 0} → World N → ℕ → ℕ
places w f = let len = or_zero (fixed_length_of w f) in if ltb 0 len then len else 1

-- The type whose `ffi_type` fills the places: that of the elements of an array.
abbrev pub target : {N : Type 0} → World N → ℕ → Value
target w f = if ltb 0 (or_zero (fixed_length_of w f)) then to_value (elem_of w f) else object f

pub places_same : {N : Type 0} (w v : World N) (f : ℕ) → v.types ≡ w.types → places v f ≡ places w f
places_same w v f e =
    ap
      (λ (ts : ℕ → TypeObject).
        let len = or_zero (find_own (λ k. (ts k).fixed_length) (chain ts f)) in
        if ltb 0 len then len else 1)
      e

pub count_elements-cons :
    {N : Type 0} (w : World N) (n : ℕ) (s : String) (f : ℕ) (fs : List (String × ℕ))
    → count_elements w n ((s, f) ∷ fs) ≡ count_elements w (n + places w f) fs
unfolding count_elements
count_elements-cons w n s f fs = elim (Bool-cases (ltb 0 (or_zero (fixed_length_of w f)))) [
  | inl e ↦ rw e
  | inr e ↦ rw e
]

pub count_elements_same :
    {N : Type 0} (w v : World N) (n : ℕ) (fs : List (String × ℕ))
    → v.types ≡ w.types
    → count_elements v n fs ≡ count_elements w n fs
unfolding count_elements
count_elements_same w v n [] e = refl
count_elements_same w v n ((s, f) ∷ fs) e =
    count_elements-cons v n s f fs
    ∙ (rw (places_same w v f e) (count_elements_same w v (n + places w f) fs e)
        ∙ sym (count_elements-cons w n s f fs))

module _ (p : Platform) where
  open p use {Buf, Native}

  module _ (rec : Value → Js Native Ptr) where
    -- The pointers of a field, as a list: an array's element type counts as often as the array is
    -- long.
    unfoldable pub field_pointers : ℕ → Js Native (List Ptr)
    field_pointers f = do
      v ← gets (λ w. target w f)
      n ← gets (λ w. places w f)
      q ← rec v
      pure (replicate n q)

    unfoldable pub all_pointers : List (String × ℕ) → Js Native (List Ptr)
    all_pointers [] = pure []
    all_pointers ((_, f) ∷ fs) = do
      here ← field_pointers f
      rest ← all_pointers fs
      pure (here ++ rest)
