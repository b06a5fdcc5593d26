-- ===== src/FfiType/Lookup.antt =====
-- What the lookup by name of `Type()` depends on, and what it leaves on the type.
use node_ffi.Base.{ℕ, ◌≡◌, refl, ◌⊎◌, none, some, List, [], ◌∷◌, arith, Option-cases, inl, inr, ap}
use node_ffi.Value.{Ptr, ok}
use node_ffi.World.{find_own, TypeObject, name_of, World, chain, set_ffi_type}
use node_ffi.Platform.{Platform}
use node_ffi.FfiType.{by_name, find_named, named_type}

module _ (p : Platform) where
  open p use {Buf, Native}

  -- What the loop finds depends on the names alone.
  find_named_same :
      (os : List ℕ) (w v : World Native)
      → v.types ≡ w.types
      → (find_named p os v).0 ≡ (find_named p os w).0
  unfolding find_named
  find_named_same [] w v e = refl
  find_named_same (o ∷ os) w v e =
      let ih =
        find_named_same os (set_ffi_type o (by_name p o os w) w)
          (set_ffi_type o (by_name p o os v) v) e in
      rw e (ground arith)

  native-find_named : (os : List ℕ) (w : World Native) → (find_named p os w).1.native ≡ w.native
  unfolding find_named
  native-find_named [] w = refl
  native-find_named (o ∷ os) w =
      ground (arith, native-find_named os (set_ffi_type o (by_name p o os w) w))

  -- An own property that is undefined stays so, or becomes what was found.
  abbrev pub Marked : World Native → ℕ → Ptr → Type 0
  Marked w o q = (w.ffi_type o ≡ some (some q)) ⊎ (w.ffi_type o ≡ some none)

  find_named-keeps_mark :
      (os : List ℕ) (w w' : World Native) (o : ℕ) (q : Ptr)
      → w.ffi_type o ≡ some none
      → find_named p os w ≡ (some q, w')
      → Marked w' o q
  unfolding find_named
  find_named-keeps_mark [] w w' o q m h = cc h
  find_named-keeps_mark (c ∷ os) w w' o q m h = elim (Option-cases (by_name p c os w)) [
    | inl e ↦
        find_named-keeps_mark os (set_ffi_type c (by_name p c os w) w) w' o q (ground arith)
          (rw (e, find_named) at h)
    | inr (r, e) ↦ ground arith
  ]

  find_named-marks :
      (o : ℕ) (os : List ℕ) (w w' : World Native) (q : Ptr)
      → find_named p (o ∷ os) w ≡ (some q, w')
      → Marked w' o q
  unfolding find_named
  find_named-marks o os w w' q h = elim (Option-cases (by_name p o os w)) [
    | inl e ↦
        find_named-keeps_mark os (set_ffi_type o (by_name p o os w) w) w' o q (ground arith)
          (rw (e, find_named) at h)
    | inr (r, e) ↦ ground arith
  ]

  -- A lookup by name gives the same again and makes nothing.
  pub named_type_same :
      (t : ℕ) (w v : World Native) → v.types ≡ w.types → (named_type p t v).0 ≡ (named_type p t w).0
  unfolding named_type
  named_type_same t w v e =
      let names : name_of v t ≡ name_of w t =
        ap (λ (ts : ℕ → TypeObject). find_own (λ k. (ts k).name) (chain ts t)) e in
      let protos : (v.types t).protos ≡ (w.types t).protos =
        ap (λ (ts : ℕ → TypeObject). (ts t).protos) e in
      rw names (ground (arith, protos, find_named_same (chain w.types t) w v e))

  pub native-named_type : (t : ℕ) (w : World Native) → (named_type p t w).1.native ≡ w.native
  unfolding named_type
  native-named_type t w = ground (arith, native-find_named (chain w.types t) w)

  pub named_type-marks :
      (t : ℕ) (w w' : World Native) (q : Ptr) → named_type p t w ≡ (ok (some q), w') → Marked w' t q
  unfolding named_type
  named_type-marks t w w' q h = ground (arith, find_named-marks t (w.types t).protos w w' q)
