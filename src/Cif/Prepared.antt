-- ===== src/Cif/Prepared.antt =====
-- What a `CIF()` that returned has established.
use node_ffi.Base.{
  ℕ, ◌*◌, ◌≤◌, ◌≡◌, true, List, length, ltb, ltb→lt, Option, some, sym, ap, ap₂, subst, ◌∙◌,
}
use node_ffi.Value.{
  Ptr, Value, truthy, Result, ok, Message.expected_return_type, Message.expected_fixed_args,
}
use node_ffi.World.{World, Js, assert}
use node_ffi.World.Bind.{bind-eq-ok, assert-eq-ok, ok-injective}
use node_ffi.Platform.{Platform, IsLawful}
use node_ffi.FfiType.{ffi_type}
use node_ffi.FfiType.Slots.{ReadsAs}
use node_ffi.FfiType.Store.{array_of, array_of-ReadsAs, length-array_of}
use node_ffi.Cif.{
  CifBuffer, require_array, write_arg_types, prep_cif, prep_cif_var, native_status, finish, prepare,
  check_status, check_status_var, cif, cif_var,
}
use node_ffi.Cif.ArgTypes.{each, length-each, write_arg_types-Written}
use node_ffi.Cif.Status.{
  require_array-eq-ok, native_status-eq-ok, Passes, check_status-Passes, check_status_var-Passes,
}

-- Each argument type has its `ffi_type`, and libffi, given the number of arguments and these
-- pointers in order, said `FFI_OK`.
pub record IsPrepared (p : Platform) (fuel : ℕ) (rtype : Value) (list : List Value)
    (call : ℕ → Ptr → p.Buf → p.Native → ℕ × p.Buf × p.Native) (w w' : World p.Native)
    (c : CifBuffer p.Buf) : Type 0 where
  pub coerced : World p.Native
  pub before : World p.Native
  pub rtn_found : ffi_type p fuel rtype w ≡ (ok c.rtn_type_ptr, coerced)
  pub pointers : List Ptr
  pub found : each (ffi_type p fuel) list coerced ≡ (ok pointers, before)
  pub built : c.arg_types_ptr ≡ array_of p pointers
  pub count : length pointers ≡ length list
  pub reads : ReadsAs p c.arg_types_ptr 0 pointers
  pub exact : p.length c.arg_types_ptr ≡ length list * p.pointer_size
  pub prepared :
      call (length list) c.rtn_type_ptr c.arg_types_ptr before.native
      ≡ (p.ffi_ok, c.buffer, w'.native)
  pub unchanged : w' ≡ record before { native = w'.native }

module _ (p : Platform) where
  open p use {Buf, Native}

  record Finished (call : Native → ℕ × Buf × Native) (rtn : Ptr) (args : Buf) (w w' : World Native)
      (c : CifBuffer Buf) : Type 0 where
    rtn_kept : c.rtn_type_ptr ≡ rtn
    args_kept : c.arg_types_ptr ≡ args
    called : call w.native ≡ (p.ffi_ok, c.buffer, w'.native)
    rest : w' ≡ record w { native = w'.native }

  finish-Finished :
      (call : Native → ℕ × Buf × Native) (check : ℕ → Js Native (Unit {0}))
      → Passes p check
      → (rtn : Ptr) (args : Buf) (w w' : World Native) (c : CifBuffer Buf)
      → finish p call check rtn args w ≡ (ok c, w')
      → Finished call rtn args w w' c
  unfolding finish Passes
  finish-Finished call check passes rtn args w w' c h =
      let s = bind-eq-ok (native_status p call) _ w h in
      let s' = bind-eq-ok (check s.value.0) _ s.world s.second in
      let (good, e) = passes s.value.0 s.world s'.world s'.value s'.first in
      let (status, next) = native_status-eq-ok p call w s.first in
      let same : s.world ≡ w' =
        e ∙ ap (λ (x : Result (CifBuffer Buf) × World Native). x.1) s'.second in
      let made = ok-injective (ap (λ (x : Result (CifBuffer Buf) × World Native). x.0) s'.second) in
      record {
        rtn_kept = ap (λ (x : CifBuffer Buf). x.rtn_type_ptr) (sym made);
        args_kept = ap (λ (x : CifBuffer Buf). x.arg_types_ptr) (sym made);
        called = status ∙ λ i. (good i, (made i).buffer, (same i).native);
        rest = sym same ∙ (next ∙ ap (λ (x : World Native). record w { native = x.native }) same);
      }

  prepare-IsPrepared :
      IsLawful p
      → (call : ℕ → Ptr → Buf → Native → ℕ × Buf × Native) (check : ℕ → Js Native (Unit {0}))
      → Passes p check
      → (fuel : ℕ) (rtype : Value) (list : List Value) (w w' : World Native) (c : CifBuffer Buf)
      → prepare p call check fuel rtype list w ≡ (ok c, w')
      → IsPrepared p fuel rtype list call w w' c
  unfolding prepare
  prepare-IsPrepared laws call check passes fuel rtype list w w' c h =
      let new = p.new_buffer (length list * p.pointer_size) in
      let s = bind-eq-ok (ffi_type p fuel rtype) _ w h in
      let s' = bind-eq-ok (write_arg_types p (ffi_type p fuel) list 0 new) _ s.world s.second in
      let f = finish-Finished _ check passes s.value s'.value s'.world w' c s'.second in
      let written =
        write_arg_types-Written p (ffi_type p fuel) list s.world s'.value s'.world s'.first in
      let built = f.args_kept ∙ written.built in
      let count = length-each (ffi_type p fuel) list s.world s'.world _ written.found in
      record {
        coerced = s.world;
        before = s'.world;
        rtn_found = s.first ∙ λ i. (ok (sym f.rtn_kept i), s.world);
        pointers = written.pointers;
        found = written.found;
        built = built;
        count = count;
        reads =
            subst (λ (b : Buf). ReadsAs p b 0 written.pointers) (sym built)
              (array_of-ReadsAs p laws written.pointers);
        exact =
            ap p.length built
            ∙ (length-array_of p laws written.pointers ∙ ap (λ (n : ℕ). n * p.pointer_size) count);
        prepared =
            ap₂ (λ (r : Ptr) (a : Buf). call (length list) r a s'.world.native) f.rtn_kept
              f.args_kept
            ∙ f.called;
        unchanged = f.rest;
      }

-- The same for the list that an array of types is.
pub some_list-IsPrepared :
    (p : Platform) (fuel : ℕ) (rtype : Value) (l l' : List Value)
    (call : ℕ → Ptr → p.Buf → p.Native → ℕ × p.Buf × p.Native) (w w' : World p.Native)
    (c : CifBuffer p.Buf)
    → some l ≡ some l'
    → IsPrepared p fuel rtype l' call w w' c
    → IsPrepared p fuel rtype l call w w' c
some_list-IsPrepared p fuel rtype l l' call w w' c e h =
    let same : l' ≡ l = cc e in
    subst (λ (x : List Value). IsPrepared p fuel rtype x call w w' c) same h

-- Where `CIF()` returns, the return type was given and the argument types were an array, and it has
-- prepared its Buffer for the types in order and for the given ABI, the default one if there was none.
pub cif-IsPrepared :
    (p : Platform)
    → IsLawful p
    → (fuel : ℕ) (rtype : Value) (types : Option (List Value)) (abi : Value) (w w' : World p.Native)
      (c : CifBuffer p.Buf)
    → cif p fuel rtype types abi w ≡ (ok c, w')
    → (truthy rtype ≡ true)
      × ((list : List Value) × (types ≡ some list)
          × IsPrepared p fuel rtype list (prep_cif p abi) w w' c)
unfolding cif
cif-IsPrepared p laws fuel rtype types abi w w' c h =
    let s = bind-eq-ok (assert (truthy rtype) expected_return_type) _ w h in
    let (given, e) = assert-eq-ok (truthy rtype) expected_return_type w s.first in
    let s' = bind-eq-ok (require_array types) _ s.world s.second in
    let (is_list, e') = require_array-eq-ok types s.world s'.first in
    (
      given,
      (
        s'.value,
        is_list,
        prepare-IsPrepared p laws (prep_cif p abi) (check_status p) (check_status-Passes p) fuel
            rtype s'.value w w' c
            (ap (prepare p (prep_cif p abi) (check_status p) fuel rtype s'.value) (e ∙ e')
              ∙ s'.second),
      ),
    )

-- Where `CIF_var()` returns, the return type was given, the argument types were an array and at least
-- one argument was fixed; and it has prepared its Buffer for the types in order, for the number of
-- fixed arguments, and for the given ABI, the default one if there was none.
pub cif_var-IsPrepared :
    (p : Platform)
    → IsLawful p
    → (fuel : ℕ) (rtype : Value) (types : Option (List Value)) (fixed : ℕ) (abi : Value)
      (w w' : World p.Native) (c : CifBuffer p.Buf)
    → cif_var p fuel rtype types fixed abi w ≡ (ok c, w')
    → (truthy rtype ≡ true)
      × (1 ≤ fixed)
      × ((list : List Value) × (types ≡ some list)
          × IsPrepared p fuel rtype list (prep_cif_var p abi fixed) w w' c)
unfolding cif_var
cif_var-IsPrepared p laws fuel rtype types fixed abi w w' c h =
    let s = bind-eq-ok (assert (truthy rtype) expected_return_type) _ w h in
    let (given, e) = assert-eq-ok (truthy rtype) expected_return_type w s.first in
    let s' = bind-eq-ok (require_array types) _ s.world s.second in
    let (is_list, e') = require_array-eq-ok types s.world s'.first in
    let s'' = bind-eq-ok (assert (ltb 0 fixed) expected_fixed_args) _ s'.world s'.second in
    let (some_fixed, e'') = assert-eq-ok (ltb 0 fixed) expected_fixed_args s'.world s''.first in
    (
      given,
      ltb→lt 0 fixed some_fixed,
      (
        s'.value,
        is_list,
        prepare-IsPrepared p laws (prep_cif_var p abi fixed) (check_status_var p)
            (check_status_var-Passes p) fuel rtype s'.value w w' c
            (ap (prepare p (prep_cif_var p abi fixed) (check_status_var p) fuel rtype s'.value)
                (e ∙ (e' ∙ e''))
              ∙ s''.second),
      ),
    )
