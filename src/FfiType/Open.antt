-- ===== src/FfiType/Open.antt =====
-- Types for which no shortcut of `Type()` gives a pointer, and what later runs find there.
use node_ffi.Base.{ℕ, ◌≡◌, refl, none, some, arith, true, ap}
use node_ffi.Value.{Ptr}
use node_ffi.World.{find_own, TypeObject, elem_of, World, chain, indirection_of, ffi_type_of}
use node_ffi.Platform.{Platform, IsLawful}
use node_ffi.FfiType.{shortcut, is_one}

module _ (p : Platform) where
  open p use {Buf, Native}

  -- Where the shortcuts give nothing, the type is no pointer, and has no entry and no element.
  pub record IsOpen (w : World Native) (t : ℕ) : Type 0 where
    pub direct : is_one (indirection_of w t) ≡ true
    pub plain : elem_of w t ≡ none

  pub shortcut-IsOpen : IsLawful p → (w : World Native) (t : ℕ) → shortcut p w t ≡ none → IsOpen w t
  unfolding shortcut
  shortcut-IsOpen laws w t h = record {
    direct = ground (arith, laws.pointer_listed);
    plain = ground (arith, laws.pointer_listed);
  }

  pub shortcut-remembered :
      (w w' : World Native) (t : ℕ) (q : Ptr)
      → w'.types ≡ w.types
      → IsOpen w t
      → ffi_type_of w' t ≡ some q
      → shortcut p w' t ≡ some q
  unfolding shortcut
  shortcut-remembered w w' t q e o h =
      let same : indirection_of w' t ≡ indirection_of w t =
        ap (λ (ts : ℕ → TypeObject). find_own (λ k. (ts k).indirection) (chain ts t)) e in
      rw same (rw o.direct (rw h refl))

  pub shortcut-undefined :
      (w w' : World Native) (t : ℕ)
      → w'.types ≡ w.types
      → IsOpen w t
      → ffi_type_of w' t ≡ none
      → shortcut p w' t ≡ none
  unfolding shortcut
  shortcut-undefined w w' t e o h =
      let same : indirection_of w' t ≡ indirection_of w t =
        ap (λ (ts : ℕ → TypeObject). find_own (λ k. (ts k).indirection) (chain ts t)) e in
      let same_elem : elem_of w' t ≡ elem_of w t =
        ap (λ (ts : ℕ → TypeObject). find_own (λ k. (ts k).elem) (chain ts t)) e in
      rw same (rw o.direct (rw h (rw same_elem (rw o.plain refl))))
