-- ===== src/Variadic/Fuel.antt =====
-- The generators of variadic functions end.
use node_ffi.Base.{ℕ, ◌<◌, ◌≢◌, refl, Option, none, some, List, [], ◌∷◌, map, length, arith}
use node_ffi.Value.{Value, object, overflow, Message.assertion}
use node_ffi.World.{World, TypeObject, assert}
use node_ffi.World.Ends.{EndsAt, EndsAt-bind, EndsAt-pure, EndsAt-assert, ends_rules}
use node_ffi.Platform.{Platform, IsLawful}
use node_ffi.FfiType.{ffi_type}
use node_ffi.FfiType.Fuel.{HasRank, ffi_type-EndsAt}
use node_ffi.Cif.{cif_var}
use node_ffi.Cif.Fuel.{cif_var-EndsAt}
use node_ffi.ForeignFunction.{Proxy, make_proxy}
use node_ffi.ForeignFunction.Fuel.{make_proxy-EndsAt, coerce_type-EndsAt}
use node_ffi.Variadic.{
  Generator, has_text, get_id, extra_types, create_function, cached_or_new,
  variadic_function_generator,
}

pub get_id-EndsAt : {N : Type 0} (ts : ℕ → TypeObject) (t : ℕ) → EndsAt {N = N} ts (get_id t)
unfolding get_id
get_id-EndsAt ts t = record { ends = λ w e. ground arith; keeps = λ w. ground arith }

module _ (p : Platform) (laws : IsLawful p) (ts : ℕ → TypeObject) (rank : ℕ → ℕ)
    (ranked : HasRank ts rank) (fuel : ℕ) (enough : (t : ℕ) → rank t < fuel) where
  open p use {Buf, Native}

  extra_types-EndsAt : (vs : List Value) → EndsAt ts (extra_types p fuel vs)
  unfolding extra_types
  extra_types-EndsAt [] = search ends_rules
  extra_types-EndsAt (v ∷ vs) =
      EndsAt-bind ts (p.coerce_type v) _ (coerce_type-EndsAt p ts laws v) λ t.
        EndsAt-bind ts (ffi_type p fuel (object t)) _
          (ffi_type-EndsAt p laws ts rank ranked fuel (object t) enough)
          λ q.
            EndsAt-bind ts (assert (has_text (p.ffi_type_name q)) assertion) _
              (EndsAt-assert ts (has_text (p.ffi_type_name q)) assertion)
              λ x. EndsAt-bind ts (get_id t) _ (get_id-EndsAt ts t) λ i.
                EndsAt-bind ts (extra_types p fuel vs) _ (extra_types-EndsAt vs)
                  λ r. EndsAt-pure ts (t ∷ r.0, i ∷ r.1)

  create_function-EndsAt :
      (g : Generator Buf) (key : List ℕ) (rtn : ℕ) (types : List ℕ)
      → EndsAt ts (create_function p fuel g key rtn types)
  unfolding create_function
  create_function-EndsAt g key rtn types =
      EndsAt-bind ts
        (cif_var p fuel g.prepared_type (some (map object types)) (length g.fixed_types) g.abi) _
        (cif_var-EndsAt p laws ts rank ranked fuel enough _ _ _ _)
        λ c.
          EndsAt-bind ts (make_proxy p c g.func_ptr rtn types) _
            (make_proxy-EndsAt p ts c g.func_ptr rtn types) λ f. EndsAt-pure ts _

  cached_or_new-EndsAt :
      (g : Generator Buf) (key : List ℕ) (rtn : ℕ) (types : List ℕ) (found : Option (Proxy Buf))
      → EndsAt ts (cached_or_new p fuel g key rtn types found)
  unfolding cached_or_new
  cached_or_new-EndsAt g key rtn types (some f) = search ends_rules
  cached_or_new-EndsAt g key rtn types none = create_function-EndsAt g key rtn types

  generator-EndsAt :
      (g : Generator Buf) (args : List Value)
      → EndsAt ts (variadic_function_generator p fuel g args)
  unfolding variadic_function_generator
  generator-EndsAt g args =
      EndsAt-bind ts (extra_types p fuel args) _ (extra_types-EndsAt args) λ x.
        search (ends_rules, coerce_type-EndsAt p ts laws, get_id-EndsAt, cached_or_new-EndsAt) depth
          9

-- A generator ends, with a function or an error, on all arguments whatever, where the fuel is above
-- the rank of every type, for some rank that falls from a struct to the types of its fields.
pub variadic_function_generator-Ends :
    (p : Platform)
    → IsLawful p
    → (rank : ℕ → ℕ) (w : World p.Native) → HasRank w.types rank
    → (fuel : ℕ) → ((t : ℕ) → rank t < fuel)
    → (g : Generator p.Buf) (args : List Value)
    → (variadic_function_generator p fuel g args w).0 ≢ overflow
variadic_function_generator-Ends p laws rank w ranked fuel enough g args =
    (generator-EndsAt p laws w.types rank ranked fuel enough g args).ends w refl
