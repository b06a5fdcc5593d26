-- ===== src/ForeignFunction/Fuel.antt =====
-- `ForeignFunction()` ends.
use node_ffi.Base.{ℕ, ◌<◌, ◌≢◌, refl, Option, some, List, map}
use node_ffi.Value.{Ptr, Value, buffer, object, overflow}
use node_ffi.World.{World, TypeObject}
use node_ffi.World.Ends.{EndsAt, EndsAt-bind, ends_rules}
use node_ffi.Platform.{Platform, IsLawful}
use node_ffi.Cif.{CifBuffer, cif}
use node_ffi.Cif.Fuel.{each-EndsAt, require_array-EndsAt, cif-EndsAt}
use node_ffi.FfiType.Fuel.{HasRank}
use node_ffi.ForeignFunction.{make_proxy, require_buffer, proxy_for, foreign_function}

module _ (p : Platform) (ts : ℕ → TypeObject) where
  open p use {Buf, Native}

  pub make_proxy-EndsAt :
      (c : CifBuffer Buf) (q : Ptr) (rtn : ℕ) (args : List ℕ)
      → EndsAt ts (make_proxy p c q rtn args)
  unfolding make_proxy
  make_proxy-EndsAt c q rtn args = search ends_rules depth 9

  pub require_buffer-EndsAt : (v : Value) → EndsAt ts (require_buffer p v)
  require_buffer-EndsAt (buffer q) = search ends_rules
  require_buffer-EndsAt _ = search ends_rules

  module _ (laws : IsLawful p) where
    pub coerce_type-EndsAt : (v : Value) → EndsAt ts (p.coerce_type v)
    coerce_type-EndsAt v = record {
      ends = λ w e. laws.coerce_type-ends v w;
      keeps = laws.types-coerce_type v;
    }

    module _ (rank : ℕ → ℕ) (ranked : HasRank ts rank) (fuel : ℕ)
        (enough : (t : ℕ) → rank t < fuel) where
      proxy_for-EndsAt :
          (q : Ptr) (rtn : ℕ) (args : List ℕ) (abi : Value)
          → EndsAt ts (proxy_for p fuel q rtn args abi)
      unfolding proxy_for
      proxy_for-EndsAt q rtn args abi =
          EndsAt-bind ts (cif p fuel (object rtn) (some (map object args)) abi) _
            (cif-EndsAt p laws ts rank ranked fuel enough _ _ _) λ c. make_proxy-EndsAt c q rtn args

      foreign_function-EndsAt :
          (func_ptr return_type : Value) (arg_types : Option (List Value)) (abi : Value)
          → EndsAt ts (foreign_function p fuel func_ptr return_type arg_types abi)
      unfolding foreign_function
      foreign_function-EndsAt func_ptr return_type arg_types abi =
          search
            (
              ends_rules, require_buffer-EndsAt, require_array-EndsAt, coerce_type-EndsAt,
              each-EndsAt, proxy_for-EndsAt,
            )
            depth 12

-- `ForeignFunction()` ends, with a proxy or an error, on all arguments whatever, where the fuel is above the
-- rank of every type, for some rank that falls from a struct to the types of its fields.
pub foreign_function-Ends :
    (p : Platform)
    → IsLawful p
    → (rank : ℕ → ℕ) (w : World p.Native) → HasRank w.types rank
    → (fuel : ℕ) → ((t : ℕ) → rank t < fuel)
    → (func_ptr return_type : Value) (arg_types : Option (List Value)) (abi : Value)
    → (foreign_function p fuel func_ptr return_type arg_types abi w).0 ≢ overflow
foreign_function-Ends p laws rank w ranked fuel enough func_ptr return_type arg_types abi =
    let run =
      foreign_function-EndsAt p w.types laws rank ranked fuel enough func_ptr return_type arg_types
        abi in
    run.ends w refl
