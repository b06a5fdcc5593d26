-- ===== src/Cif/Frame.antt =====
-- `CIF_var()` assigns no property of a type object but `ffi_type`.
use node_ffi.Base.{ℕ, ◌+◌, refl, Option, none, some, List, [], ◌∷◌}
use node_ffi.Value.{Ptr, Value}
use node_ffi.World.Keeps.{KeepsTypes, KeepsTypes-bind, keeps_rules}
use node_ffi.Platform.{Platform, IsLawful}
use node_ffi.FfiType.{ffi_type}
use node_ffi.FfiType.Frame.{ffi_type-KeepsTypes}
use node_ffi.Cif.{
  require_array, write_arg_types, native_status, check_status_var, finish, prepare, cif_var,
}

require_array-KeepsTypes :
    {N : Type 0} (types : Option (List Value)) → KeepsTypes {N = N} (require_array types)
unfolding require_array
require_array-KeepsTypes none = search keeps_rules
require_array-KeepsTypes (some l) = search keeps_rules

module _ (p : Platform) (laws : IsLawful p) where
  open p use {Buf, Native}

  write_arg_types-KeepsTypes :
      (fuel : ℕ) (types : List Value) (i : ℕ) (b : Buf)
      → KeepsTypes (write_arg_types p (ffi_type p fuel) types i b)
  unfolding write_arg_types
  write_arg_types-KeepsTypes fuel [] i b = search keeps_rules
  write_arg_types-KeepsTypes fuel (v ∷ types) i b =
      KeepsTypes-bind (ffi_type p fuel v) _ (ffi_type-KeepsTypes p laws fuel v)
        λ q. write_arg_types-KeepsTypes fuel types (i + 1) _

  native_status-KeepsTypes : (call : Native → ℕ × Buf × Native) → KeepsTypes (native_status p call)
  unfolding native_status
  native_status-KeepsTypes call = record { at = λ w. refl; ids = λ w. refl; draws = λ w. refl }

  check_status_var-KeepsTypes : (s : ℕ) → KeepsTypes (check_status_var p s)
  unfolding check_status_var
  check_status_var-KeepsTypes s = search keeps_rules depth 9

  finish-KeepsTypes :
      (call : Native → ℕ × Buf × Native) (rtn : Ptr) (args : Buf)
      → KeepsTypes (finish p call (check_status_var p) rtn args)
  unfolding finish
  finish-KeepsTypes call rtn args =
      search (keeps_rules, native_status-KeepsTypes, check_status_var-KeepsTypes) depth 9

  prepare-KeepsTypes :
      (call : ℕ → Ptr → Buf → Native → ℕ × Buf × Native) (fuel : ℕ) (rtype : Value)
      (types : List Value)
      → KeepsTypes (prepare p call (check_status_var p) fuel rtype types)
  unfolding prepare
  prepare-KeepsTypes call fuel rtype types =
      search
        (
          keeps_rules,
          ffi_type-KeepsTypes p laws fuel,
          write_arg_types-KeepsTypes fuel,
          finish-KeepsTypes,
        )
        depth 9

  pub cif_var-KeepsTypes :
      (fuel : ℕ) (rtype : Value) (types : Option (List Value)) (fixed : ℕ) (abi : Value)
      → KeepsTypes (cif_var p fuel rtype types fixed abi)
  unfolding cif_var
  cif_var-KeepsTypes fuel rtype types fixed abi =
      search (keeps_rules, require_array-KeepsTypes, prepare-KeepsTypes) depth 9
