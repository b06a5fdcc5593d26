-- ===== src/Cif/Returns.antt =====
-- When `CIF()` and `CIF_var()` return, and with what.
use node_ffi.Base.{
  ℕ, ◌≤◌, ◌≡◌, ◌↔◌, true, List, arith, length, lt→ltb, Option, some, sym, ap, ◌∙◌, ◌==◌,
}
use node_ffi.Value.{Ptr, Value, truthy, Result, ok}
use node_ffi.World.{World, Js, pure, ◌>>◌}
use node_ffi.World.Bind.{bind-ok}
use node_ffi.Platform.{Platform, IsLawful}
use node_ffi.FfiType.{ffi_type}
use node_ffi.Cif.{
  CifBuffer, require_array, write_arg_types, prep_cif, prep_cif_var, native_status, finish, prepare,
  check_status, check_status_var, cif, cif_var,
}
use node_ffi.Cif.ArgTypes.{write_arg_types-found}
use node_ffi.Cif.Prepared.{IsPrepared, cif-IsPrepared, cif_var-IsPrepared}

module _ (p : Platform) where
  open p use {Buf, Native}

  -- A check that lets `FFI_OK` pass.
  Admits : (ℕ → Js Native (Unit {0})) → Type 0
  Admits check = (w : World Native) → check p.ffi_ok w ≡ (ok tt, w)

  check_status-Admits : Admits (check_status p)
  unfolding Admits check_status
  check_status-Admits w = let same : (p.ffi_ok == p.ffi_ok) ≡ true = ground arith in rw same

  check_status_var-Admits : Admits (check_status_var p)
  unfolding Admits check_status_var
  check_status_var-Admits w = let same : (p.ffi_ok == p.ffi_ok) ≡ true = ground arith in rw same

  finish-returns :
      (call : Native → ℕ × Buf × Native) (check : ℕ → Js Native (Unit {0}))
      → Admits check
      → (c : CifBuffer Buf) (w w' : World Native) → call w.native ≡ (p.ffi_ok, c.buffer, w'.native)
      → w' ≡ record w { native = w'.native }
      → finish p call check c.rtn_type_ptr c.arg_types_ptr w ≡ (ok c, w')
  unfolding Admits finish native_status
  finish-returns call check admits c w w' h e =
      let called : native_status p call w ≡ (ok (p.ffi_ok, c.buffer), w') =
        ap
          (λ (x : ℕ × Buf × Native).
            let y : Result (ℕ × Buf) × World Native = (ok (x.0, x.1), record w { native = x.2 }) in
            y)
          h
        ∙ (λ i. (ok (p.ffi_ok, c.buffer), sym e i)) in
      let made : Buf → Js Native (CifBuffer Buf) = λ b.
        pure
          (record { buffer = b; rtn_type_ptr = c.rtn_type_ptr; arg_types_ptr = c.arg_types_ptr }) in
      bind-ok (native_status p call) (λ x. check x.0 >> made x.1) w w' called
      ∙ bind-ok (check p.ffi_ok) (λ x. made c.buffer) w' w' (admits w')

  prepare-returns :
      (call : ℕ → Ptr → Buf → Native → ℕ × Buf × Native) (check : ℕ → Js Native (Unit {0}))
      → Admits check
      → (fuel : ℕ) (rtype : Value) (list : List Value) (w w' : World Native) (c : CifBuffer Buf)
      → IsPrepared p fuel rtype list call w w' c
      → prepare p call check fuel rtype list w ≡ (ok c, w')
  unfolding prepare
  prepare-returns call check admits fuel rtype list w w' c h =
      let stored =
        write_arg_types-found p (ffi_type p fuel) list h.coerced h.before h.pointers h.found in
      bind-ok (ffi_type p fuel rtype) _ w h.coerced h.rtn_found
      ∙ (bind-ok (write_arg_types p (ffi_type p fuel) list 0 _) _ h.coerced h.before stored
          ∙ (ap
                (λ (b : Buf).
                  finish p (call (length list) c.rtn_type_ptr b) check c.rtn_type_ptr b h.before)
                (sym h.built)
              ∙ finish-returns (call (length list) c.rtn_type_ptr c.arg_types_ptr) check admits c
                  h.before w' h.prepared h.unchanged))

-- `CIF()` returns exactly when the return type was given, the argument types are an array, each type
-- has its `ffi_type`, and libffi says `FFI_OK` to them, in order, and to the given ABI, the default
-- one if there was none; and what it returns is the Buffer that libffi has prepared, with these types.
pub cif-iff-IsPrepared :
    (p : Platform)
    → IsLawful p
    → (fuel : ℕ) (rtype : Value) (types : Option (List Value)) (abi : Value) (w w' : World p.Native)
      (c : CifBuffer p.Buf)
    → (cif p fuel rtype types abi w ≡ (ok c, w')) ↔ (
        (truthy rtype ≡ true)
        × ((list : List Value) × (types ≡ some list)
            × IsPrepared p fuel rtype list (prep_cif p abi) w w' c))
unfolding cif require_array
cif-iff-IsPrepared p laws fuel rtype types abi w w' c = (
  cif-IsPrepared p laws fuel rtype types abi w w' c,
  λ h.
      ap (λ (o : Option (List Value)). cif p fuel rtype o abi w) h.1.1
      ∙ rw h.0 (
          prepare-returns p (prep_cif p abi) (check_status p) (check_status-Admits p) fuel rtype
            h.1.0 w w' c h.1.2),
)

-- `CIF_var()` returns exactly when the return type was given, the argument types are an array, at
-- least one argument is fixed, each type has its `ffi_type`, and libffi says `FFI_OK` to them, in
-- order, to the number of fixed arguments, and to the given ABI, the default one if there was none;
-- and what it returns is the Buffer that libffi has prepared, with these types.
pub cif_var-iff-IsPrepared :
    (p : Platform)
    → IsLawful p
    → (fuel : ℕ) (rtype : Value) (types : Option (List Value)) (fixed : ℕ) (abi : Value)
      (w w' : World p.Native) (c : CifBuffer p.Buf)
    → (cif_var p fuel rtype types fixed abi w ≡ (ok c, w')) ↔ (
        (truthy rtype ≡ true)
        × (1 ≤ fixed)
        × ((list : List Value) × (types ≡ some list)
            × IsPrepared p fuel rtype list (prep_cif_var p abi fixed) w w' c))
unfolding cif_var require_array
cif_var-iff-IsPrepared p laws fuel rtype types fixed abi w w' c = (
  cif_var-IsPrepared p laws fuel rtype types fixed abi w w' c,
  λ h.
      ap (λ (o : Option (List Value)). cif_var p fuel rtype o fixed abi w) h.2.1
      ∙ rw (h.0, lt→ltb 0 fixed h.1)
          (prepare-returns p (prep_cif_var p abi fixed) (check_status_var p)
            (check_status_var-Admits p) fuel rtype h.2.0 w w' c h.2.2),
)
