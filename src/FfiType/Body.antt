-- ===== src/FfiType/Body.antt =====
-- The steps of `Type()` up to its branches.
use node_ffi.Base.{ℕ, suc, ◌≡◌, ◌≢◌, ◌∙◌, refl, true, false, some, none, Bool-cases, inl, inr}
use node_ffi.Value.{
  Ptr, Value, object, Message.invalid_type, failure, Kind.assertion_error, ok, thrown,
}
use node_ffi.World.{World, Js, fields_of, ffi_type_of, indirection_of, size_of}
use node_ffi.World.Bind.{bind-ok}
use node_ffi.Platform.{Platform, IsLawful}
use node_ffi.FfiType.{complete, type_body, ffi_type, shortcut, at_least_one}

module _ (p : Platform) where
  open p use {Native}

  module _ (rec : Value → Js Native Ptr) (t : ℕ) (w : World Native) where
    pub type_body-valid :
        at_least_one (indirection_of w t) ≡ true
        → type_body p rec t w ≡ complete p rec t (shortcut p w t) (fields_of w t) w
    unfolding type_body
    type_body-valid h = rw h

    pub type_body-invalid :
        at_least_one (indirection_of w t) ≡ false
        → type_body p rec t w ≡ (thrown (failure assertion_error (invalid_type t)), w)
    unfolding type_body
    type_body-invalid h = rw h

    pub type_body-eq-ok :
        {q : Ptr} {w' : World Native}
        → type_body p rec t w ≡ (ok q, w')
        → (at_least_one (indirection_of w t) ≡ true)
          × (complete p rec t (shortcut p w t) (fields_of w t) w ≡ (ok q, w'))
    type_body-eq-ok h = elim (Bool-cases (at_least_one (indirection_of w t))) [
      | inl valid ↦ (valid, rw (← type_body-valid valid) h)
      | inr invalid ↦ cc (type_body-invalid invalid)
    ]

  -- The `ffi_type` of a type that is no pointer, where it has one or inherits it.
  pub type_body-known :
      (rec : Value → Js Native Ptr) (t : ℕ) (q : Ptr) (w : World Native)
      → indirection_of w t ≡ some 1
      → ffi_type_of w t ≡ some q
      → type_body p rec t w ≡ (ok q, w)
  unfolding shortcut complete
  type_body-known rec t q w one known =
      let first : shortcut p w t ≡ some q = rw (one, known) refl in
      type_body-valid rec t w (rw one refl) ∙ rw first refl

  -- A type object is coerced to itself.
  pub ffi_type-object :
      IsLawful p
      → (n t : ℕ) (w : World Native) → size_of w t ≢ none
      → indirection_of w t ≢ none
      → ffi_type p (suc n) (object t) w ≡ type_body p (ffi_type p n) t w
  unfolding ffi_type
  ffi_type-object laws n t w hs hi =
      bind-ok (p.coerce_type (object t)) (type_body p (ffi_type p n)) w w
        (laws.coerce_type-object t w hs hi)
