-- ===== src/Callback/Bound.antt =====
-- What a `Callback()` that returned has established.
use node_ffi.Base.{ℕ, ◌≡◌, ◌↔◌, refl, true, some, List, map, length, ap, sym, subst, ◌∙◌}
use node_ffi.Value.{Value, func, object, truthy, Result, ok, Message.expected_return_type}
use node_ffi.World.{World, size_of, assert}
use node_ffi.World.Bind.{bind-eq-ok, bind-ok, assert-eq-ok, ok-injective}
use node_ffi.Platform.{Platform, IsLawful}
use node_ffi.Cif.{CifBuffer, cif, require_array, prep_cif}
use node_ffi.Cif.ArgTypes.{each}
use node_ffi.Cif.Prepared.{IsPrepared, cif-IsPrepared, some_list-IsPrepared}
use node_ffi.Cif.Returns.{cif-iff-IsPrepared}
use node_ffi.Callback.{
  Closure, Callback, Closures, shift_args, require_function, callback_for, checked_callback,
  callback,
}

module _ (p : Platform) (c : Closures p) where
  open p use {Buf, Native}

  -- The addon was given the user's function, the types by which it is called, and a cif that was
  -- prepared for these types.
  pub record IsBound (fuel : ℕ) (ret_type : Value) (arg_types : List Value) (abi f : Value)
      (w w' : World Native) (cb : Callback Buf) : Type 0 where
    pub given : truthy ret_type ≡ true
    pub closure : Closure
    pub is_function : f ≡ func closure.func
    pub converted : World Native
    pub typed : World Native
    pub before : World Native
    pub ret_coerced : p.coerce_type ret_type w ≡ (ok closure.ret_type, converted)
    pub args_coerced : each p.coerce_type arg_types converted ≡ (ok closure.arg_types, typed)
    pub prepared :
        IsPrepared p fuel
          (object closure.ret_type)
          (map object closure.arg_types)
          (prep_cif p abi)
          typed
          before
          cb.cif
    pub bound :
        c.new_closure cb.cif.buffer
          (size_of before closure.ret_type)
          (length closure.arg_types)
          closure
          before
        ≡ (ok cb.code, w')

  require_function-eq-ok :
      (f : Value) (w w' : World Native) (k : ℕ)
      → require_function f w ≡ (ok k, w')
      → (f ≡ func k) × (w ≡ w')
  unfolding require_function
  require_function-eq-ok (func j) w w' k h = (cc h, ap (λ (x : Result ℕ × World Native). x.1) h)
  require_function-eq-ok _ w w' k h = cc

  record FromTypes (fuel : ℕ) (rtn : ℕ) (args : List ℕ) (abi : Value) (k : ℕ) (w w' : World Native)
      (cb : Callback Buf) : Type 0 where
    before : World Native
    cif_prepared : IsPrepared p fuel (object rtn) (map object args) (prep_cif p abi) w before cb.cif
    closure_bound :
        c.new_closure cb.cif.buffer
          (size_of before rtn)
          (length args)
          (record { ret_type = rtn; arg_types = args; func = k })
          before
        ≡ (ok cb.code, w')

  callback_for-FromTypes :
      IsLawful p
      → (fuel : ℕ) (rtn : ℕ) (args : List ℕ) (abi : Value) (k : ℕ) (w w' : World Native)
        (cb : Callback Buf)
      → callback_for p c fuel rtn args abi k w ≡ (ok cb, w')
      → FromTypes fuel rtn args abi k w w' cb
  unfolding callback_for
  callback_for-FromTypes laws fuel rtn args abi k w w' cb h =
      let s = bind-eq-ok (cif p fuel (object rtn) (some (map object args)) abi) _ w h in
      let s1 =
        bind-eq-ok (c.new_closure s.value.buffer (size_of s.world rtn) (length args) _) _ s.world
          s.second in
      let made = ok-injective (ap (λ (x : Result (Callback Buf) × World Native). x.0) s1.second) in
      let last = ap (λ (x : Result (Callback Buf) × World Native). x.1) s1.second in
      let g =
        cif-IsPrepared p laws fuel (object rtn) (some (map object args)) abi w s.world s.value
          s.first in
      let same_cif : s.value ≡ cb.cif = ap (λ (x : Callback Buf). x.cif) made in
      let here =
        some_list-IsPrepared p fuel (object rtn) (map object args) g.1.0 (prep_cif p abi) w s.world
          s.value g.1.1 g.1.2 in
      record {
        before = s.world;
        cif_prepared =
            subst
              (λ (x : CifBuffer Buf).
                IsPrepared p fuel (object rtn) (map object args) (prep_cif p abi) w s.world x)
              same_cif here;
        closure_bound =
            ap
              (λ (x : CifBuffer Buf).
                c.new_closure x.buffer (size_of s.world rtn) (length args)
                  (record { ret_type = rtn; arg_types = args; func = k }) s.world)
              (sym same_cif)
            ∙ (s1.first ∙ λ i. (ok (made i).code, last i));
      }

  checked_callback-IsBound :
      IsLawful p
      → (fuel : ℕ) (ret_type : Value) (arg_types : List Value) (abi f : Value) (w w' : World Native)
        (cb : Callback Buf)
      → checked_callback p c fuel ret_type (some arg_types) abi f w ≡ (ok cb, w')
      → IsBound fuel ret_type arg_types abi f w w' cb
  unfolding checked_callback require_array
  checked_callback-IsBound laws fuel ret_type arg_types abi f w w' cb h =
      let s = bind-eq-ok (assert (truthy ret_type) expected_return_type) _ w h in
      let (given, e) = assert-eq-ok (truthy ret_type) expected_return_type w s.first in
      let s1 = bind-eq-ok (require_function f) _ s.world s.second in
      let (is_function, e') = require_function-eq-ok f s.world s1.world s1.value s1.first in
      let s2 = bind-eq-ok (p.coerce_type ret_type) _ s1.world s1.second in
      let s3 = bind-eq-ok (each p.coerce_type arg_types) _ s2.world s2.second in
      let t =
        callback_for-FromTypes laws fuel s2.value s3.value abi s1.value s3.world w' cb s3.second in
      record {
        given = given;
        closure = record { ret_type = s2.value; arg_types = s3.value; func = s1.value };
        is_function = is_function;
        converted = s2.world;
        typed = s3.world;
        before = t.before;
        ret_coerced = ap (p.coerce_type ret_type) (e ∙ e') ∙ s2.first;
        args_coerced = s3.first;
        prepared = t.cif_prepared;
        bound = t.closure_bound;
      }

callback-IsBound :
    (p : Platform) (c : Closures p)
    → IsLawful p
    → (fuel : ℕ) (ret_type : Value) (arg_types : List Value) (abi f : Value) (w w' : World p.Native)
      (cb : Callback p.Buf)
    → callback p c fuel ret_type (some arg_types) abi f w ≡ (ok cb, w')
    → IsBound p c fuel ret_type arg_types (shift_args abi f).0 (shift_args abi f).1 w w' cb
unfolding callback
callback-IsBound p c laws fuel ret_type arg_types abi f w w' cb h =
    checked_callback-IsBound p c laws fuel ret_type arg_types (shift_args abi f).0
      (shift_args abi f).1 w w' cb h

callback-returns :
    (p : Platform) (c : Closures p)
    → IsLawful p
    → (fuel : ℕ) (ret_type : Value) (arg_types : List Value) (abi f : Value) (w w' : World p.Native)
      (cb : Callback p.Buf)
    → IsBound p c fuel ret_type arg_types abi f w w' cb
    → checked_callback p c fuel ret_type (some arg_types) abi f w ≡ (ok cb, w')
unfolding checked_callback require_array require_function callback_for
callback-returns p c laws fuel ret_type arg_types abi f w w' cb h =
    let cl = h.closure in
    let prepared =
      (cif-iff-IsPrepared p laws fuel (object cl.ret_type) (some (map object cl.arg_types)) abi
          h.typed h.before cb.cif).1
        (refl, (map object cl.arg_types, refl, h.prepared)) in
    ap (λ (v : Value). checked_callback p c fuel ret_type (some arg_types) abi v w) h.is_function
    ∙ rw h.given (
        bind-ok (p.coerce_type ret_type) _ w h.converted h.ret_coerced
        ∙ (bind-ok (each p.coerce_type arg_types) _ h.converted h.typed h.args_coerced
            ∙ (bind-ok (cif p fuel (object cl.ret_type) (some (map object cl.arg_types)) abi) _
                  h.typed h.before prepared
                ∙ bind-ok
                    (c.new_closure cb.cif.buffer (size_of h.before cl.ret_type)
                      (length cl.arg_types) cl)
                    _ h.before w' h.bound)))

-- `Callback()` returns exactly when the return type was given, there is a function, in the place of
-- the ABI or behind it, all types can be coerced, `CIF()` returns for the coerced types, with the
-- default ABI if the function stood in its place, and the addon makes a C function for the
-- function, the types and this cif; and what it returns is that C function, with the cif.
pub callback-iff-IsBound :
    (p : Platform) (c : Closures p)
    → IsLawful p
    → (fuel : ℕ) (ret_type : Value) (arg_types : List Value) (abi f : Value) (w w' : World p.Native)
      (cb : Callback p.Buf)
    → (callback p c fuel ret_type (some arg_types) abi f w ≡ (ok cb, w'))
      ↔ IsBound p c fuel ret_type arg_types (shift_args abi f).0 (shift_args abi f).1 w w' cb
unfolding callback
callback-iff-IsBound p c laws fuel ret_type arg_types abi f w w' cb = (
  callback-IsBound p c laws fuel ret_type arg_types abi f w w' cb,
  callback-returns p c laws fuel ret_type arg_types (shift_args abi f).0 (shift_args abi f).1 w w'
      cb,
)
