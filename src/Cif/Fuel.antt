-- ===== src/Cif/Fuel.antt =====
-- `CIF()` and `CIF_var()` end, where the fuel is above the rank of every type.
use node_ffi.Base.{ℕ, ◌+◌, ◌<◌, refl, Option, none, some, List, [], ◌∷◌}
use node_ffi.Value.{Ptr, Value}
use node_ffi.World.{TypeObject, Js}
use node_ffi.World.Ends.{EndsAt, EndsAt-bind, EndsAt-pure, ends_rules}
use node_ffi.Platform.{Platform, IsLawful}
use node_ffi.FfiType.{ffi_type}
use node_ffi.FfiType.Fuel.{HasRank, ffi_type-EndsAt}
use node_ffi.Cif.{
  require_array, write_arg_types, native_status, check_status, check_status_var, finish, prepare,
  cif, cif_var,
}
use node_ffi.Cif.ArgTypes.{each}

module _ {N A B : Type 0} (ts : ℕ → TypeObject) where
  pub each-EndsAt :
      (f : A → Js N B) (l : List A) → ((a : A) → EndsAt ts (f a)) → EndsAt ts (each f l)
  unfolding each
  each-EndsAt f [] h = EndsAt-pure ts []
  each-EndsAt f (a ∷ l) h =
      EndsAt-bind ts (f a) _ (h a)
        λ b. EndsAt-bind ts (each f l) _ (each-EndsAt f l h) λ bs. EndsAt-pure ts (b ∷ bs)

pub require_array-EndsAt :
    {N : Type 0} (ts : ℕ → TypeObject) (types : Option (List Value))
    → EndsAt {N = N} ts (require_array types)
unfolding require_array
require_array-EndsAt ts none = search ends_rules
require_array-EndsAt ts (some l) = search ends_rules

module _ (p : Platform) (laws : IsLawful p) (ts : ℕ → TypeObject) (rank : ℕ → ℕ)
    (ranked : HasRank ts rank) (fuel : ℕ) (enough : (t : ℕ) → rank t < fuel) where
  open p use {Buf, Native}

  write_arg_types-EndsAt :
      (types : List Value) (i : ℕ) (b : Buf)
      → EndsAt ts (write_arg_types p (ffi_type p fuel) types i b)
  unfolding write_arg_types
  write_arg_types-EndsAt [] i b = search ends_rules
  write_arg_types-EndsAt (v ∷ types) i b =
      EndsAt-bind ts (ffi_type p fuel v) _ (ffi_type-EndsAt p laws ts rank ranked fuel v enough)
        λ q. write_arg_types-EndsAt types (i + 1) _

  native_status-EndsAt : (call : Native → ℕ × Buf × Native) → EndsAt ts (native_status p call)
  unfolding native_status
  native_status-EndsAt call = record { ends = λ w e x. cc x; keeps = λ w. refl }

  check_status-EndsAt : (s : ℕ) → EndsAt ts (check_status p s)
  unfolding check_status
  check_status-EndsAt s = search ends_rules depth 9

  check_status_var-EndsAt : (s : ℕ) → EndsAt ts (check_status_var p s)
  unfolding check_status_var
  check_status_var-EndsAt s = search ends_rules depth 9

  finish-EndsAt :
      (call : Native → ℕ × Buf × Native) (check : ℕ → Js Native (Unit {0}))
      → ((s : ℕ) → EndsAt ts (check s))
      → (rtn : Ptr) (args : Buf) → EndsAt ts (finish p call check rtn args)
  unfolding finish
  finish-EndsAt call check checks rtn args =
      search (ends_rules, native_status-EndsAt, checks) depth 9

  prepare-EndsAt :
      (call : ℕ → Ptr → Buf → Native → ℕ × Buf × Native) (check : ℕ → Js Native (Unit {0}))
      → ((s : ℕ) → EndsAt ts (check s))
      → (rtype : Value) (types : List Value) → EndsAt ts (prepare p call check fuel rtype types)
  unfolding prepare
  prepare-EndsAt call check checks rtype types =
      EndsAt-bind ts (ffi_type p fuel rtype) _
        (ffi_type-EndsAt p laws ts rank ranked fuel rtype enough)
        λ q.
          EndsAt-bind ts (write_arg_types p (ffi_type p fuel) types 0 _) _
            (write_arg_types-EndsAt types 0 _) λ b. finish-EndsAt _ check checks q b

  pub cif-EndsAt :
      (rtype : Value) (types : Option (List Value)) (abi : Value)
      → EndsAt ts (cif p fuel rtype types abi)
  unfolding cif
  cif-EndsAt rtype types abi =
      search (ends_rules, require_array-EndsAt, prepare-EndsAt, check_status-EndsAt) depth 9

  pub cif_var-EndsAt :
      (rtype : Value) (types : Option (List Value)) (fixed : ℕ) (abi : Value)
      → EndsAt ts (cif_var p fuel rtype types fixed abi)
  unfolding cif_var
  cif_var-EndsAt rtype types fixed abi =
      search (ends_rules, require_array-EndsAt, prepare-EndsAt, check_status_var-EndsAt) depth 9
