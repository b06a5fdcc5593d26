-- ===== src/FfiType/Named.antt =====
-- Types of another copy of ref: the `ffi_type` that a type has by its name or a prototype's.
use node_ffi.Base.{
  ℕ, suc, ◌≡◌, refl, ◌≢◌, ap, sym, subst, ◌∙◌, String, Option, none, some, or_else, List, [], ◌∷◌,
  arith, eq_iff,
}
use node_ffi.Value.{
  Ptr, object, Result, ok, thrown, failure, Kind.assertion_error, Message.no_ffi_type,
}
use node_ffi.World.{
  World, TypeObject, find_own, chain, name_of, size_of, indirection_of, elem_of, fields_of,
  ffi_type_of, set_ffi_type,
}
use node_ffi.World.Bind.{bind-ok}
use node_ffi.Platform.{Platform, IsLawful}
use node_ffi.FfiType.{
  as_key, by_name, find_named, named_type, require_ffi_type, complete, shortcut, ffi_type,
}
use node_ffi.FfiType.Body.{ffi_type-object, type_body-valid}

module _ (p : Platform) where
  open p use {Native}

  -- The entry of the first of these objects whose name is listed in `FFI_TYPES`.
  unfoldable pub first_listed : (ℕ → TypeObject) → List ℕ → Option Ptr
  first_listed ts [] = none
  first_listed ts (o ∷ os) =
      or_else (p.ffi_types (as_key (find_own (λ k. (ts k).name) (o ∷ os)))) (first_listed ts os)

  find_named-first :
      (os : List ℕ) (w : World Native) → (find_named p os w).0 ≡ first_listed w.types os
  unfolding find_named first_listed
  find_named-first [] w = refl
  find_named-first (o ∷ os) w =
      ground (arith, find_named-first os (set_ffi_type o (by_name p o os w) w))

  -- What the source's last assertion makes of it.
  abbrev pub answer : ℕ → Option Ptr → Result Ptr
  answer t none = thrown (failure assertion_error (no_ffi_type t))
  answer t (some q) = ok q

  require-answer :
      (t : ℕ) (r : Option Ptr) (w : World Native) → require_ffi_type p t r w ≡ (answer t r, w)
  unfolding require_ffi_type
  require-answer t none w = refl
  require-answer t (some q) w = refl

  named_type-loops :
      (t : ℕ) (s : String) (w : World Native)
      → name_of w t ≡ some s
      → s ≢ ""
      → s ≢ "CString"
      → named_type p t w
        ≡ (ok (find_named p (chain w.types t) w).0, (find_named p (chain w.types t) w).1)
  unfolding named_type
  named_type-loops t s w e h k = rw e (ground (arith, eq_iff s "", eq_iff s "CString"))

  -- A type without `ffi_type`, element or fields, which is not of `FFI_TYPES` by identity.
  pub record IsNamed (w : World Native) (t : ℕ) (s : String) : Type 0 where
    pub sized : size_of w t ≢ none
    pub direct : indirection_of w t ≡ some 1
    pub unset : ffi_type_of w t ≡ none
    pub plain : elem_of w t ≡ none
    pub whole : fields_of w t ≡ none
    pub named : name_of w t ≡ some s
    pub filled : s ≢ ""
    pub other : s ≢ "CString"

  -- A lookup by name, run to its end.
  ffi_type-named :
      IsLawful p
      → (n t : ℕ) (s : String) (w : World Native) → IsNamed w t s
      → ffi_type p (suc n) (object t) w
        ≡ (answer t (first_listed w.types (chain w.types t)), (find_named p (chain w.types t) w).1)
  unfolding complete shortcut
  ffi_type-named laws n t s w h =
      let os = chain w.types t in
      ffi_type-object p laws n t w h.sized (ground (arith, h.direct))
      ∙ (type_body-valid p (ffi_type p n) t w (rw h.direct)
          ∙ rw (h.direct, h.unset, h.plain, h.whole)
              (bind-ok (named_type p t) (require_ffi_type p t) w (find_named p os w).1
                  (named_type-loops t s w h.named h.filled h.other)
                ∙ (require-answer t (find_named p os w).0 (find_named p os w).1
                    ∙ ap
                        (λ (r : Option Ptr).
                          let x : Result Ptr × World Native = (answer t r, (find_named p os w).1) in
                          x)
                        (find_named-first os w))))

  -- Each of the objects has an own property `ffi_type` that is undefined.
  abbrev pub AllUndefined : World Native → List ℕ → Type 0
  AllUndefined w [] = Unit
  AllUndefined w (o ∷ os) = (w.ffi_type o ≡ some none) × AllUndefined w os

  find_named-next :
      (c : ℕ) (os : List ℕ) (w : World Native)
      → by_name p c os w ≡ none
      → find_named p (c ∷ os) w ≡ find_named p os (set_ffi_type c none w)
  unfolding find_named
  find_named-next c os w h = rw (h, find_named) (ap (λ r. find_named p os (set_ffi_type c r w)) h)

  stays_undefined :
      (os : List ℕ) (w : World Native) (o : ℕ)
      → first_listed w.types os ≡ none
      → w.ffi_type o ≡ some none
      → (find_named p os w).1.ffi_type o ≡ some none
  unfolding find_named first_listed
  stays_undefined [] w o h e = e
  stays_undefined (c ∷ os) w o h e =
      let w' = set_ffi_type c (by_name p c os w) w in
      let unlisted : by_name p c os w ≡ none = ground arith in
      rw (unlisted, find_named) (stays_undefined os w' o (ground arith) (ground arith))

  find_named-AllUndefined :
      (os : List ℕ) (w : World Native)
      → first_listed w.types os ≡ none
      → AllUndefined (find_named p os w).1 os
  unfolding find_named first_listed
  find_named-AllUndefined [] w h = tt
  find_named-AllUndefined (c ∷ os) w h =
      let w' = set_ffi_type c none w in
      let unlisted : by_name p c os w ≡ none = ground arith in
      subst (λ (x : Option Ptr × World Native). AllUndefined x.1 (c ∷ os))
        (sym (find_named-next c os w unlisted))
        (
          stays_undefined os w' c (ground arith) (ground arith),
          find_named-AllUndefined os w' (ground arith),
        )

-- For a type without `ffi_type`, element and fields, `Type()` returns the entry of the first object
-- among it and its prototypes whose name is listed in `FFI_TYPES`, and throws if none is.
pub ffi_type-first_listed :
    (p : Platform)
    → IsLawful p
    → (n t : ℕ) (s : String) (w : World p.Native) → IsNamed p w t s
    → (ffi_type p (suc n) (object t) w).0 ≡ answer p t (first_listed p w.types (chain w.types t))
ffi_type-first_listed p laws n t s w h =
    ap (λ (x : Result Ptr × World p.Native). x.0) (ffi_type-named p laws n t s w h)

-- For a type without `ffi_type`, element and fields, if neither its name nor one of its prototypes'
-- is listed in `FFI_TYPES`, `Type()` throws, and it leaves an own property `ffi_type`, undefined, on the
-- type and on every one of its prototypes, `Object.prototype` included.
pub ffi_type-pollutes :
    (p : Platform)
    → IsLawful p
    → (n t : ℕ) (s : String) (w : World p.Native) → IsNamed p w t s
    → first_listed p w.types (chain w.types t) ≡ none
    → let (r, w') = ffi_type p (suc n) (object t) w in
      (r ≡ thrown (failure assertion_error (no_ffi_type t)))
      × AllUndefined p w' (t ∷ (w.types t).protos)
ffi_type-pollutes p laws n t s w h unlisted =
    subst
      (λ (x : Result Ptr × World p.Native).
        (x.0 ≡ thrown (failure assertion_error (no_ffi_type t)))
        × AllUndefined p x.1 (t ∷ (w.types t).protos))
      (sym (ffi_type-named p laws n t s w h))
      (ap (answer p t) unlisted, find_named-AllUndefined p (chain w.types t) w unlisted)
