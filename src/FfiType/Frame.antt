-- ===== src/FfiType/Frame.antt =====
-- `Type()` assigns no property of a type object but `ffi_type`.
use node_ffi.Base.{ℕ, zero, suc, ◌≡◌, refl, String, Option, none, some, List, [], ◌∷◌, arith}
use node_ffi.Value.{Ptr, Value}
use node_ffi.World.{World, Js, chain, set_ffi_type}
use node_ffi.World.Keeps.{KeepsTypes, KeepsTypes-bind, keeps_rules}
use node_ffi.Platform.{Platform, IsLawful}
use node_ffi.FfiType.{
  write_field, write_fields, new_struct, cache, struct_type, by_name, find_named, named_type,
  require_ffi_type, complete, type_body, ffi_type,
}

module _ (p : Platform) (laws : IsLawful p) where
  open p use {Buf, Native}

  module _ (rec : Value → Js Native Ptr) (keeps : (v : Value) → KeepsTypes (rec v)) where
    pub write_field-KeepsTypes : (f : ℕ) (b : Buf) (i : ℕ) → KeepsTypes (write_field p rec f b i)
    unfolding write_field
    write_field-KeepsTypes f b i = search (keeps_rules, keeps)

    pub write_fields-KeepsTypes :
        (fs : List (String × ℕ)) (b : Buf) (i : ℕ) → KeepsTypes (write_fields p rec fs b i)
    unfolding write_fields
    write_fields-KeepsTypes [] b i = search keeps_rules
    write_fields-KeepsTypes ((s, f) ∷ fs) b i =
        KeepsTypes-bind (write_field p rec f b i) _ (write_field-KeepsTypes f b i)
          λ r. write_fields-KeepsTypes fs r.0 r.1

    new_struct-KeepsTypes : (b : Buf) → KeepsTypes (new_struct p b)
    unfolding new_struct
    new_struct-KeepsTypes b = record { at = λ w. refl; ids = λ w. refl; draws = λ w. refl }

    cache-KeepsTypes : (t : ℕ) (r : Option Ptr) → KeepsTypes (cache p t r)
    unfolding cache
    cache-KeepsTypes t r = record { at = λ w. refl; ids = λ w. refl; draws = λ w. refl }

    struct_type-KeepsTypes : (t : ℕ) (fs : List (String × ℕ)) → KeepsTypes (struct_type p rec t fs)
    unfolding struct_type
    struct_type-KeepsTypes t fs =
        search (keeps_rules, write_fields-KeepsTypes, new_struct-KeepsTypes, cache-KeepsTypes) depth
          9

  pub types-find_named : (os : List ℕ) (w : World Native) → (find_named p os w).1.types ≡ w.types
  unfolding find_named
  types-find_named [] w = refl
  types-find_named (o ∷ os) w =
      ground (arith, types-find_named os (set_ffi_type o (by_name p o os w) w))

  ids-find_named : (os : List ℕ) (w : World Native) → (find_named p os w).1.ffi_id ≡ w.ffi_id
  unfolding find_named
  ids-find_named [] w = refl
  ids-find_named (o ∷ os) w =
      ground (arith, ids-find_named os (set_ffi_type o (by_name p o os w) w))

  random-find_named : (os : List ℕ) (w : World Native) → (find_named p os w).1.random ≡ w.random
  unfolding find_named
  random-find_named [] w = refl
  random-find_named (o ∷ os) w =
      ground (arith, random-find_named os (set_ffi_type o (by_name p o os w) w))

  named_type-KeepsTypes : (t : ℕ) → KeepsTypes (named_type p t)
  unfolding named_type
  named_type-KeepsTypes t = record {
    at = λ w. ground (arith, types-find_named (chain w.types t) w);
    ids = λ w. ground (arith, ids-find_named (chain w.types t) w);
    draws = λ w. ground (arith, random-find_named (chain w.types t) w);
  }

  require_ffi_type-KeepsTypes : (t : ℕ) (r : Option Ptr) → KeepsTypes (require_ffi_type p t r)
  unfolding require_ffi_type
  require_ffi_type-KeepsTypes t none = search keeps_rules
  require_ffi_type-KeepsTypes t (some q) = search keeps_rules

  module _ (rec : Value → Js Native Ptr) (keeps : (v : Value) → KeepsTypes (rec v)) where
    complete-KeepsTypes :
        (t : ℕ) (r : Option Ptr) (fs : Option (List (String × ℕ)))
        → KeepsTypes (complete p rec t r fs)
    unfolding complete
    complete-KeepsTypes t (some q) fs = search keeps_rules
    complete-KeepsTypes t none (some fs) = struct_type-KeepsTypes rec keeps t fs
    complete-KeepsTypes t none none =
        search (keeps_rules, named_type-KeepsTypes, require_ffi_type-KeepsTypes)

    type_body-KeepsTypes : (t : ℕ) → KeepsTypes (type_body p rec t)
    unfolding type_body
    type_body-KeepsTypes t = search (keeps_rules, complete-KeepsTypes) depth 9

  -- Whatever it returns or throws.
  pub ffi_type-KeepsTypes : (n : ℕ) (v : Value) → KeepsTypes (ffi_type p n v)
  unfolding ffi_type
  ffi_type-KeepsTypes zero v = search keeps_rules
  ffi_type-KeepsTypes (suc n) v =
      KeepsTypes-bind (p.coerce_type v) _
        (record {
          at = laws.types-coerce_type v;
          ids = laws.ids-coerce_type v;
          draws = laws.random-coerce_type v;
        })
        (type_body-KeepsTypes (ffi_type p n) (ffi_type-KeepsTypes n))
