-- ===== src/FfiType/Fuel.antt =====
-- `Type()` ends on types whose structs are not nested in themselves.
use node_ffi.Base.{
  ℕ, zero, suc, ◌<◌, ◌≤◌, ◌≡◌, ◌≢◌, refl, true, inl, inr, String, Option, none, some, List, [], ◌∷◌,
  arith, ltb, if◌then◌else◌, Bool-cases, ◌∙◌, ap, sym, subst,
}
use node_ffi.Value.{Ptr, Value, object, undefined, to_value, overflow}
use node_ffi.World.{
  World, Js, TypeObject, find_own, chain, elem_of, fixed_length_of, fields_of, indirection_of,
}
use node_ffi.World.Ends.{Ends, bind-Ends, EndsAt}
use node_ffi.World.Keeps.{KeepsTypes}
use node_ffi.FfiType.{
  or_zero, write_field, write_fields, named_type, new_struct, cache, struct_type, require_ffi_type,
  complete, shortcut, type_body, ffi_type, at_least_one, is_one,
}
use node_ffi.FfiType.Frame.{ffi_type-KeepsTypes, write_field-KeepsTypes}
use node_ffi.FfiType.Open.{shortcut-IsOpen}
use node_ffi.FfiType.Body.{type_body-valid, type_body-invalid}
use node_ffi.Platform.{Platform, IsLawful}

-- A smaller rank, or no type at all.
abbrev pub Below : (ℕ → ℕ) → ℕ → Value → Type 0
Below rank k (object u) = rank u < k
Below rank k undefined = 0 < k
Below rank k _ = ⊥

abbrev pub target_in : (ℕ → TypeObject) → ℕ → Value
target_in ts f =
    if ltb 0 (or_zero (find_own (λ k. (ts k).fixed_length) (chain ts f)))
    then to_value (find_own (λ k. (ts k).elem) (chain ts f))
    else object f

abbrev pub AllBelow : (ℕ → TypeObject) → (ℕ → ℕ) → ℕ → List (String × ℕ) → Type 0
AllBelow ts rank k [] = Unit
AllBelow ts rank k ((s, f) ∷ fs) = Below rank k (target_in ts f) × AllBelow ts rank k fs

-- No struct is nested in itself: what the fields of a struct ask for has a smaller rank. A pointer
-- has no fields in this sense, though it inherits those of the type that it points to.
pub record HasRank (ts : ℕ → TypeObject) (rank : ℕ → ℕ) : Type 0 where
  pub descends :
      (t : ℕ) (fs : List (String × ℕ))
      → find_own (λ k. (ts k).indirection) (chain ts t) ≡ some 1
      → find_own (λ k. (ts k).fields) (chain ts t) ≡ some fs
      → AllBelow ts rank (rank t) fs

is_one→some : (o : Option ℕ) → is_one o ≡ true → o ≡ some 1
is_one→some none h = cc
is_one→some (some n) h = ground arith

Below-mono : (rank : ℕ → ℕ) (j k : ℕ) (v : Value) → j ≤ k → Below rank j v → Below rank k v
Below-mono rank j k (object u) h b = omega arith
Below-mono rank j k undefined h b = omega arith
Below-mono rank j k _ h b = absurd b

module _ (p : Platform) (laws : IsLawful p) (ts : ℕ → TypeObject) (rank : ℕ → ℕ) where
  open p use {Buf, Native}

  module _ (rec : Value → Js Native Ptr) (keeps : (v : Value) → KeepsTypes (rec v)) (k : ℕ)
      (ends : (v : Value) (w : World Native) → w.types ≡ ts → Below rank k v → Ends (rec v) w) where
    write_field-Ends :
        (f : ℕ) (b : Buf) (i : ℕ) (w : World Native)
        → w.types ≡ ts
        → Below rank k (target_in ts f)
        → Ends (write_field p rec f b i) w
    unfolding write_field
    write_field-Ends f b i w e h =
        let h' : Below rank k (target_in w.types f) =
          subst (λ (x : ℕ → TypeObject). Below rank k (target_in x f)) (sym e) h in
        elim (Bool-cases (ltb 0 (or_zero (fixed_length_of w f)))) [
          | inl array ↦ rw array (
              bind-Ends (rec (to_value (elem_of w f))) _ w (ends _ w e (rw array at h'))
                (λ q _ x. cc x))
          | inr single ↦
              rw single
                (bind-Ends (rec (object f)) _ w (ends _ w e (rw single at h')) (λ q _ x. cc x))
        ]

    write_fields-Ends :
        (fs : List (String × ℕ)) (b : Buf) (i : ℕ) (w : World Native)
        → w.types ≡ ts
        → AllBelow ts rank k fs
        → Ends (write_fields p rec fs b i) w
    unfolding write_fields
    write_fields-Ends [] b i w e h = λ x. cc x
    write_fields-Ends ((s, f) ∷ fs) b i w e h =
        bind-Ends (write_field p rec f b i) _ w (write_field-Ends f b i w e h.0) (λ r _.
          write_fields-Ends fs r.0 r.1 _ ((write_field-KeepsTypes p laws rec keeps f b i).at w ∙ e)
            h.1)

    struct_type-Ends :
        (t : ℕ) (fs : List (String × ℕ)) (w : World Native)
        → w.types ≡ ts
        → AllBelow ts rank k fs
        → Ends (struct_type p rec t fs) w
    unfolding struct_type new_struct cache
    struct_type-Ends t fs w e h =
        bind-Ends (write_fields p rec fs _ 0) _ w (write_fields-Ends fs _ 0 w e h) (λ r _ x. cc x)

    require_ffi_type-Ends :
        (t : ℕ) (r : Option Ptr) (w : World Native) → Ends (require_ffi_type p t r) w
    unfolding require_ffi_type
    require_ffi_type-Ends t none w = λ x. cc x
    require_ffi_type-Ends t (some q) w = λ x. cc x

    named_type-Ends : (t : ℕ) (w : World Native) → Ends (named_type p t) w
    unfolding named_type
    named_type-Ends t w = ground arith

    complete-Ends :
        (t : ℕ) (r : Option Ptr) (fs : Option (List (String × ℕ))) (w : World Native)
        → w.types ≡ ts
        → ((l : List (String × ℕ)) → r ≡ none → fs ≡ some l → AllBelow ts rank k l)
        → Ends (complete p rec t r fs) w
    unfolding complete
    complete-Ends t (some q) fs w e h = λ x. cc x
    complete-Ends t none (some fs) w e h = struct_type-Ends t fs w e (h fs refl refl)
    complete-Ends t none none w e h =
        bind-Ends (named_type p t) _ w (named_type-Ends t w) (λ r _. require_ffi_type-Ends t r _)

    type_body-Ends :
        HasRank ts rank
        → (t : ℕ) (w : World Native) → w.types ≡ ts
        → rank t ≡ k
        → Ends (type_body p rec t) w
    type_body-Ends ranked t w e same = elim (Bool-cases (at_least_one (indirection_of w t))) [
      | inl valid ↦ rw (type_body-valid p rec t w valid) (
          complete-Ends t (shortcut p w t) (fields_of w t) w e λ l open_type fields.
            subst (λ (j : ℕ). AllBelow ts rank j l) same
              (ranked.descends t l
                (sym (ap (λ (x : ℕ → TypeObject). find_own (λ j. (x j).indirection) (chain x t)) e)
                  ∙ is_one→some _ (shortcut-IsOpen p laws w t open_type).direct)
                (sym (ap (λ (x : ℕ → TypeObject). find_own (λ j. (x j).fields) (chain x t)) e)
                  ∙ fields)))
      | inr invalid ↦ rw (type_body-invalid p rec t w invalid) (λ x. cc x)
    ]

  -- Either the fuel is enough, or there is no type to go down to.
  ffi_type-Below-Ends :
      HasRank ts rank
      → (n : ℕ) (v : Value) (w : World Native) → w.types ≡ ts
      → Below rank n v
      → Ends (ffi_type p n v) w
  unfolding ffi_type
  ffi_type-Below-Ends ranked zero undefined w e h = absurd (omega arith)
  ffi_type-Below-Ends ranked zero (object t) w e h = absurd (omega arith)
  ffi_type-Below-Ends ranked (suc n) undefined w e h =
      bind-Ends (p.coerce_type undefined) _ w (laws.coerce_type-ends undefined w)
        (λ u c. absurd (laws.coerce_type-absent u w c))
  ffi_type-Below-Ends ranked (suc n) (object t) w e h =
      bind-Ends (p.coerce_type (object t)) _ w (laws.coerce_type-ends (object t) w) λ u c.
        subst (λ (x : ℕ). Ends (type_body p (ffi_type p n) x) (p.coerce_type (object t) w).1)
          (sym (laws.coerce_type-same t u w c))
          (type_body-Ends (ffi_type p n) (ffi_type-KeepsTypes p laws n) (rank t)
            (λ v w1 e1 b.
              ffi_type-Below-Ends ranked n v w1 e1 (Below-mono rank (rank t) n v (omega arith) b))
            ranked t _ (laws.types-coerce_type (object t) w ∙ e) refl)
  ffi_type-Below-Ends ranked _ _ w e h = elim h [ ]

  -- Any value that is taken for a type, where the fuel is above all ranks.
  pub ffi_type-EndsAt :
      HasRank ts rank → (n : ℕ) (v : Value) → ((t : ℕ) → rank t < n) → EndsAt ts (ffi_type p n v)
  unfolding ffi_type
  ffi_type-EndsAt ranked zero v h = absurd (omega (arith, h 0))
  ffi_type-EndsAt ranked (suc n) v h = record {
    ends = λ w e. bind-Ends (p.coerce_type v) _ w (laws.coerce_type-ends v w) λ u c.
        type_body-Ends (ffi_type p n) (ffi_type-KeepsTypes p laws n) (rank u)
          (λ x w1 e1 b.
            ffi_type-Below-Ends ranked n x w1 e1
              (Below-mono rank (rank u) n x (omega (arith, h u)) b))
          ranked u _ (laws.types-coerce_type v w ∙ e) refl;
    keeps = (ffi_type-KeepsTypes p laws (suc n) v).at;
  }

-- `Type()` ends, with a pointer or an error, on every type object once the fuel is above its rank,
-- where no struct is nested in itself: some rank falls from a struct to the types of its fields.
pub ffi_type-Ends :
    (p : Platform)
    → IsLawful p
    → (rank : ℕ → ℕ) (w : World p.Native) → HasRank w.types rank
    → (n t : ℕ) → rank t < n
    → (ffi_type p n (object t) w).0 ≢ overflow
ffi_type-Ends p laws rank w ranked n t h =
    ffi_type-Below-Ends p laws w.types rank ranked n (object t) w refl h
