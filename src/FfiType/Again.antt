-- ===== src/FfiType/Again.antt =====
-- A second `Type()` of the same type.
use node_ffi.Base.{
  ℕ, suc, ◌≡◌, refl, ◌≢◌, String, Option, none, some, List, arith, inl, inr, ap, subst, sym, ◌∙◌,
}
use node_ffi.Value.{Ptr, Value, object, Result, ok}
use node_ffi.World.{
  find_own, TypeObject, World, Js, chain, fields_of, indirection_of, size_of, ffi_type_of, continue,
}
use node_ffi.World.Bind.{bind-eq-ok}
use node_ffi.Platform.{Platform, IsLawful}
use node_ffi.FfiType.{
  write_fields, new_struct, cache, struct_type, named_type, require_ffi_type, complete, type_body,
  ffi_type, shortcut, at_least_one,
}
use node_ffi.FfiType.Body.{type_body-eq-ok, type_body-valid, ffi_type-object}
use node_ffi.FfiType.Frame.{ffi_type-KeepsTypes}
use node_ffi.FfiType.Open.{IsOpen, shortcut-IsOpen, shortcut-remembered, shortcut-undefined}
use node_ffi.FfiType.Lookup.{named_type_same, native-named_type, named_type-marks}

module _ (p : Platform) where
  open p use {Buf, Native}

  -- A struct that was made is remembered at its type.
  struct_type-remembers :
      (rec : Value → Js Native Ptr) (t : ℕ) (fs : List (String × ℕ)) (w w' : World Native) (q : Ptr)
      → struct_type p rec t fs w ≡ (ok q, w')
      → ffi_type_of w' t ≡ some q
  unfolding struct_type cache
  struct_type-remembers rec t fs w w' q h =
      let s = bind-eq-ok (write_fields p rec fs (p.new_buffer _) 0) _ w h in
      let s' = bind-eq-ok (new_struct p _) _ s.world s.second in ground (arith, s'.second)

  -- The answers of a second run: the same pointer, and nothing is made.
  abbrev Repeats : Js Native Ptr → Ptr → World Native → Type 0
  Repeats m q w = ((m w).0 ≡ ok q) × ((m w).1.native ≡ w.native)

  require-eq-ok :
      (t : ℕ) (r : Option Ptr) (v w' : World Native) (q : Ptr)
      → require_ffi_type p t r v ≡ (ok q, w')
      → (r ≡ some q) × (v ≡ w')
  unfolding require_ffi_type
  require-eq-ok t none v w' q h = cc
  require-eq-ok t (some r) v w' q h = (cc, ap (λ (x : Result Ptr × World Native). x.1) h)

  require-after :
      (t : ℕ) (r : Result (Option Ptr)) (v : World Native) (q : Ptr) (n : Native)
      → r ≡ ok (some q)
      → v.native ≡ n
      → ((continue r (require_ffi_type p t) v).0 ≡ ok q)
        × ((continue r (require_ffi_type p t) v).1.native ≡ n)
  unfolding require_ffi_type
  require-after t r v q n e h = rw e (refl, h)

  -- A type that was found by its name is found again.
  by_name-Repeats :
      (rec : Value → Js Native Ptr) (t : ℕ) (w w' : World Native) (q : Ptr)
      → w'.types ≡ w.types
      → IsOpen p w t
      → fields_of w' t ≡ none
      → named_type p t w ≡ (ok (some q), w')
      → Repeats (complete p rec t (shortcut p w' t) (fields_of w' t)) q w'
  unfolding complete
  by_name-Repeats rec t w w' q e o f h = elim (named_type-marks p t w w' q h) [
    | inl m ↦ rw (shortcut-remembered p w w' t q e o (rw m)) (refl, refl)
    | inr m ↦
        let n1 =
          named_type_same p t w w' e ∙ ap (λ (x : Result (Option Ptr) × World Native). x.0) h in
        rw (shortcut-undefined p w w' t e o (rw m), f)
          (require-after t (named_type p t w').0 (named_type p t w').1 q w'.native n1
            (native-named_type p t w'))
  ]

  complete-Repeats :
      IsLawful p
      → (rec : Value → Js Native Ptr) (t : ℕ) (w w' : World Native) (q : Ptr) (r : Option Ptr)
        (fs : Option (List (String × ℕ)))
      → shortcut p w t ≡ r
      → fields_of w t ≡ fs
      → complete p rec t r fs w ≡ (ok q, w')
      → w'.types ≡ w.types
      → Repeats (complete p rec t (shortcut p w' t) (fields_of w' t)) q w'
  unfolding complete
  complete-Repeats laws rec t w w' q (some r) fs er ef h e =
      subst (λ v. Repeats (complete p rec t (shortcut p v t) (fields_of v t)) q v)
        (ap (λ (x : Result Ptr × World Native). x.1) h) (rw er (cc, refl))
  complete-Repeats laws rec t w w' q none (some fs) er ef h e =
      rw
        (shortcut-remembered p w w' t q e (shortcut-IsOpen p laws w t er)
          (struct_type-remembers rec t fs w w' q h))
        (refl, refl)
  complete-Repeats laws rec t w w' q none none er ef h e =
      let s = bind-eq-ok (named_type p t) _ w h in
      let (found, same) = require-eq-ok t s.value s.world w' q s.second in
      by_name-Repeats rec t w w' q e (shortcut-IsOpen p laws w t er)
        (ap (λ (ts : ℕ → TypeObject). find_own (λ k. (ts k).fields) (chain ts t)) e ∙ ef)
        (s.first ∙ λ i. (ok (found i), same i))

  type_body-Repeats :
      IsLawful p
      → (rec : Value → Js Native Ptr) (t : ℕ) (w w' : World Native) (q : Ptr)
      → type_body p rec t w ≡ (ok q, w')
      → w'.types ≡ w.types
      → Repeats (type_body p rec t) q w'
  type_body-Repeats laws rec t w w' q h e =
      let (valid, rest) = type_body-eq-ok p rec t w h in
      let same : indirection_of w' t ≡ indirection_of w t =
        ap (λ (ts : ℕ → TypeObject). find_own (λ k. (ts k).indirection) (chain ts t)) e in
      rw (type_body-valid p rec t w' (ap at_least_one same ∙ valid))
        (complete-Repeats laws rec t w w' q _ _ refl refl rest e)

-- Once `Type()` has returned a pointer for a type object, a second call returns the same pointer
-- and makes no new `ffi_type` struct; with `bindings.FFI_TYPES.pointer` there, and for an object
-- with a size and an indirection.
pub ffi_type-again :
    (p : Platform)
    → IsLawful p
    → (n t : ℕ) (w w' : World p.Native) (q : Ptr) → size_of w t ≢ none
    → indirection_of w t ≢ none
    → ffi_type p (suc n) (object t) w ≡ (ok q, w')
    → ((ffi_type p (suc n) (object t) w').0 ≡ ok q)
      × ((ffi_type p (suc n) (object t) w').1.native ≡ w'.native)
ffi_type-again p laws n t w w' q hs hi h =
    let e = (ffi_type-KeepsTypes p laws (suc n) (object t)).at w in
    let same : w'.types ≡ w.types =
      ap (λ (x : Result Ptr × World p.Native). x.1.types) (sym h) ∙ e in
    let hs' =
      subst (λ (ts : ℕ → TypeObject). find_own (λ k. (ts k).size) (chain ts t) ≢ none) (sym same)
        hs in
    let hi' =
      subst (λ (ts : ℕ → TypeObject). find_own (λ k. (ts k).indirection) (chain ts t) ≢ none)
        (sym same) hi in
    rw (ffi_type-object p laws n t w' hs' hi') (
      type_body-Repeats p laws (ffi_type p n) t w w' q
        (sym (ffi_type-object p laws n t w hs hi) ∙ h) same)
