-- ===== src/Cif/Errors.antt =====
-- The errors that `CIF()` and `CIF_var()` throw for a status other than `FFI_OK`.
use node_ffi.Base.{
  ℕ, ◌*◌, ◌≡◌, ◌≢◌, true, String, List, arith, length, lt→ltb, ◌≤◌, ◌||◌, sym, Option, none, some,
  ap, ◌∙◌, ◌==◌, if◌then◌else◌,
}
use node_ffi.Value.{
  Ptr, Value, truthy, Result, ok, thrown, Failure, Kind.plain_error, Message.bad_typedef,
  Message.bad_abi, Message.prep_cif_failed,
}
use node_ffi.World.{World, Js, pure, ◌>>◌}
use node_ffi.World.Bind.{bind-ok, bind-thrown}
use node_ffi.Platform.{Platform}
use node_ffi.FfiType.{ffi_type}
use node_ffi.Cif.{
  CifBuffer, require_array, write_arg_types, prep_cif, prep_cif_var, native_status, finish, prepare,
  check_status, check_status_var, cif, cif_var,
}

module _ (p : Platform) where
  open p use {Buf, Native}

  -- The `code` by which a caller tells the statuses apart.
  abbrev pub code_of : ℕ → Option String
  code_of s =
      if s == p.ffi_bad_typedef
      then some "FFI_BAD_TYPEDEF"
      else if s == p.ffi_bad_abi
      then some "FFI_BAD_ABI"
      else none

  -- The types are found, and the call of libffi gives the status `s`.
  pub record Rejected (call : ℕ → Ptr → Buf → Native → ℕ × Buf × Native) (fuel : ℕ) (rtype : Value)
      (list : List Value) (s : ℕ) (w after : World Native) : Type 0 where
    pub bad : s ≢ p.ffi_ok
    pub coerced : World Native
    pub before : World Native
    pub rtn : Ptr
    pub args : Buf
    pub filled : Buf
    pub native : Native
    pub rtn_found : ffi_type p fuel rtype w ≡ (ok rtn, coerced)
    pub args_found :
        write_arg_types p
          (ffi_type p fuel)
          list
          0
          (p.new_buffer (length list * p.pointer_size))
          coerced
        ≡ (ok args, before)
    pub called : call (length list) rtn args before.native ≡ (s, filled, native)
    pub ends : after ≡ record before { native = native }

  -- The run up to the check, which decides.
  finish-checks :
      (call : Native → ℕ × Buf × Native) (check : ℕ → Js Native (Unit {0})) (rtn : Ptr) (args : Buf)
      (w : World Native) (s : ℕ) (b : Buf) (n : Native) (e : Failure)
      → call w.native ≡ (s, b, n)
      → check s (record w { native = n }) ≡ (thrown e, record w { native = n })
      → finish p call check rtn args w ≡ (thrown e, record w { native = n })
  unfolding finish native_status
  finish-checks call check rtn args w s b n e hc he =
      ap
        (λ (x : ℕ × Buf × Native).
          (check x.0 >> pure (record { buffer = x.1; rtn_type_ptr = rtn; arg_types_ptr = args }))
            (record w { native = x.2 }))
        hc
      ∙ bind-thrown (check s)
          (λ _. pure (record { buffer = b; rtn_type_ptr = rtn; arg_types_ptr = args })) _ _ he

  prepare-throws :
      (call : ℕ → Ptr → Buf → Native → ℕ × Buf × Native) (check : ℕ → Js Native (Unit {0}))
      (fuel : ℕ) (rtype : Value) (list : List Value) (s : ℕ) (w after : World Native) (e : Failure)
      → ((v : World Native) → check s v ≡ (thrown e, v))
      → Rejected call fuel rtype list s w after
      → prepare p call check fuel rtype list w ≡ (thrown e, after)
  unfolding prepare
  prepare-throws call check fuel rtype list s w after e he r =
      bind-ok (ffi_type p fuel rtype) _ w r.coerced r.rtn_found
      ∙ (bind-ok (write_arg_types p (ffi_type p fuel) list 0 _) _ r.coerced r.before r.args_found
          ∙ (finish-checks (call (length list) r.rtn r.args) check r.rtn r.args r.before s r.filled
                r.native e r.called (he _)
              ∙ ap
                  (λ (v : World Native).
                    let x : Result (CifBuffer Buf) × World Native = (thrown e, v) in x)
                  (sym r.ends)))

  -- The error of each function at a status.
  status_failure : (function : String) → (unknown : Option ℕ) → ℕ → Failure
  status_failure function unknown s =
      if s == p.ffi_bad_typedef
      then record {
        kind = plain_error;
        message = bad_typedef function;
        code = some "FFI_BAD_TYPEDEF";
        errno = some s;
      }
      else if s == p.ffi_bad_abi
      then record {
        kind = plain_error;
        message = bad_abi function;
        code = some "FFI_BAD_ABI";
        errno = some s;
      }
      else record {
        kind = plain_error;
        message = prep_cif_failed function s;
        code = none;
        errno = unknown;
      }

  check_status-throws :
      (s : ℕ) (w : World Native)
      → s ≢ p.ffi_ok
      → check_status p s w ≡ (thrown (status_failure "ffi_prep_cif()" none s), w)
  unfolding check_status status_failure
  check_status-throws s w h = ground arith

  check_status_var-throws :
      (s : ℕ) (w : World Native)
      → s ≢ p.ffi_ok
      → check_status_var p s w ≡ (thrown (status_failure "ffi_prep_cif_var()" (some s) s), w)
  unfolding check_status_var status_failure
  check_status_var-throws s w h = ground arith

  code-status_failure :
      (n : String) (u : Option ℕ) (s : ℕ) → (status_failure n u s).code ≡ code_of s
  unfolding status_failure
  code-status_failure n u s = ground arith

  errno-status_failure :
      (n : String) (u : Option ℕ) (s : ℕ)
      → (status_failure n u s).errno
        ≡ (if s == p.ffi_bad_typedef || s == p.ffi_bad_abi then some s else u)
  unfolding status_failure
  errno-status_failure n u s = ground arith

-- When the types are found and libffi gives a status other than `FFI_OK`, `CIF()` throws an error
-- with the `code` of the status. Its `errno` is the status if that is one of the two with a code,
-- and is not set otherwise.
pub cif-throws :
    (p : Platform) (fuel : ℕ) (rtype : Value) (list : List Value) (abi : Value) (s : ℕ)
    (w after : World p.Native)
    → truthy rtype ≡ true
    → Rejected p (prep_cif p abi) fuel rtype list s w after
    → (e : Failure) × (cif p fuel rtype (some list) abi w ≡ (thrown e, after))
      × (e.code ≡ code_of p s)
      × (e.errno ≡ (if s == p.ffi_bad_typedef || s == p.ffi_bad_abi then some s else none))
unfolding cif require_array
cif-throws p fuel rtype list abi s w after t r = (
  status_failure p "ffi_prep_cif()" none s,
  rw t (
      prepare-throws p (prep_cif p abi) (check_status p) fuel rtype list s w after _
        (λ v. check_status-throws p s v r.bad) r),
  code-status_failure p "ffi_prep_cif()" none s,
  errno-status_failure p "ffi_prep_cif()" none s,
)

-- When the types are found, at least one argument is fixed and libffi gives a status other than
-- `FFI_OK`, `CIF_var()` throws an error with the `code` of the status, and its `errno` is the status.
pub cif_var-throws :
    (p : Platform) (fuel : ℕ) (rtype : Value) (list : List Value) (fixed : ℕ) (abi : Value) (s : ℕ)
    (w after : World p.Native)
    → truthy rtype ≡ true
    → 1 ≤ fixed
    → Rejected p (prep_cif_var p abi fixed) fuel rtype list s w after
    → (e : Failure) × (cif_var p fuel rtype (some list) fixed abi w ≡ (thrown e, after))
      × (e.code ≡ code_of p s)
      × (e.errno ≡ some s)
unfolding cif_var require_array
cif_var-throws p fuel rtype list fixed abi s w after t f r = (
  status_failure p "ffi_prep_cif_var()" (some s) s,
  rw (t, lt→ltb 0 fixed f)
      (prepare-throws p (prep_cif_var p abi fixed) (check_status_var p) fuel rtype list s w after _
        (λ v. check_status_var-throws p s v r.bad) r),
  code-status_failure p "ffi_prep_cif_var()" (some s) s,
  errno-status_failure p "ffi_prep_cif_var()" (some s) s ∙ (ground arith),
)
