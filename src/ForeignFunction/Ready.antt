-- ===== src/ForeignFunction/Ready.antt =====
-- What a `ForeignFunction()` that returned has established.
use node_ffi.Base.{
  ℕ, ◌≤◌, ◌<◌, ◌≡◌, true, List, map, arith, ltb, ltb→lt, Option, none, some, sym, ap, subst, ◌∙◌,
}
use mathlib.Core.Path.{transport}
use node_ffi.Value.{
  Ptr, Value, buffer, object, truthy, Result, ok, Message.assertion, Message.expected_return_type,
}
use node_ffi.World.{World, size_of, assert}
use node_ffi.World.Bind.{bind-eq-ok, assert-eq-ok, ok-injective}
use node_ffi.Platform.{Platform, IsLawful}
use node_ffi.Cif.{CifBuffer, cif, require_array, prep_cif}
use node_ffi.Cif.ArgTypes.{each}
use node_ffi.Cif.Prepared.{IsPrepared, cif-IsPrepared, some_list-IsPrepared}
use node_ffi.ForeignFunction.{
  Proxy, result_size_for, make_proxy, proxy_for, require_buffer, foreign_function,
}

module _ (p : Platform) where
  open p use {Buf, Native}

  -- The Buffer for a result holds a value of the return type, and a `long`.
  pub record HasRoom (w : World Native) (f : Proxy Buf) : Type 0 where
    pub some_room : 0 < f.result_size
    pub a_long : p.long_size ≤ f.result_size
    pub a_value : (n : ℕ) → size_of w f.return_type ≡ some n → n ≤ f.result_size

  result_size-fits :
      (s : Option ℕ)
      → p.long_size ≤ p.ffi_arg_size
      → (p.long_size ≤ result_size_for p s) × ((n : ℕ) → s ≡ some n → n ≤ result_size_for p s)
  result_size-fits none h = (h, λ n e. cc e)
  result_size-fits (some m) h = (ground arith, λ n e. ground arith)

  -- What `make_proxy` gives.
  pub record Made (c : CifBuffer Buf) (q : Ptr) (rtn : ℕ) (args : List ℕ) (w w' : World Native)
      (f : Proxy Buf) : Type 0 where
    pub same_cif : f.cif ≡ c
    pub same_ptr : f.func_ptr ≡ q
    pub same_rtn : f.return_type ≡ rtn
    pub same_args : f.arg_types ≡ args
    pub same_world : w ≡ w'
    pub positive : 0 < f.result_size
    pub size : f.result_size ≡ result_size_for p (size_of w rtn)

  pub make_proxy-Made :
      (c : CifBuffer Buf) (q : Ptr) (rtn : ℕ) (args : List ℕ) (w w' : World Native) (f : Proxy Buf)
      → make_proxy p c q rtn args w ≡ (ok f, w')
      → Made c q rtn args w w' f
  unfolding make_proxy
  make_proxy-Made c q rtn args w w' f h =
      let s = bind-eq-ok (assert (ltb 0 (result_size_for p (size_of w rtn))) assertion) _ w h in
      let (positive, e) =
        assert-eq-ok (ltb 0 (result_size_for p (size_of w rtn))) assertion w s.first in
      let made = ok-injective (ap (λ (x : Result (Proxy Buf) × World Native). x.0) s.second) in
      record {
        same_cif = ap (λ (x : Proxy Buf). x.cif) (sym made);
        same_ptr = ap (λ (x : Proxy Buf). x.func_ptr) (sym made);
        same_rtn = ap (λ (x : Proxy Buf). x.return_type) (sym made);
        same_args = ap (λ (x : Proxy Buf). x.arg_types) (sym made);
        same_world = e ∙ ap (λ (x : Result (Proxy Buf) × World Native). x.1) s.second;
        positive =
            subst (λ (n : ℕ). 0 < n) (ap (λ (x : Proxy Buf). x.result_size) made)
              (ltb→lt 0 _ positive);
        size = ap (λ (x : Proxy Buf). x.result_size) (sym made);
      }

  Made-HasRoom :
      (c : CifBuffer Buf) (q : Ptr) (rtn : ℕ) (args : List ℕ) (w w' : World Native) (f : Proxy Buf)
      → p.long_size ≤ p.ffi_arg_size
      → Made c q rtn args w w' f
      → HasRoom w' f
  Made-HasRoom c q rtn args w w' f h m =
      let (a_long, a_value) = result_size-fits (size_of w rtn) h in
      record {
        some_room = m.positive;
        a_long = rw m.size a_long;
        a_value =
            λ n e. rw m.size (a_value n ((λ i. size_of (m.same_world i) (sym m.same_rtn i)) ∙ e));
      }

  -- The proxy stands for the pointer that was given, and its cif was prepared for the very types
  -- by which it will convert.
  pub record IsReady (fuel : ℕ) (func_ptr : Value) (return_type : Value) (arg_types : List Value)
      (abi : Value) (w w' : World Native) (f : Proxy Buf) : Type 0 where
    pub pointer : func_ptr ≡ buffer f.func_ptr
    pub given : truthy return_type ≡ true
    pub converted : World Native
    pub typed : World Native
    pub rtn_coerced : p.coerce_type return_type w ≡ (ok f.return_type, converted)
    pub args_coerced : each p.coerce_type arg_types converted ≡ (ok f.arg_types, typed)
    pub prepared :
        IsPrepared p fuel
          (object f.return_type)
          (map object f.arg_types)
          (prep_cif p abi)
          typed
          w'
          f.cif
    pub size : f.result_size ≡ result_size_for p (size_of w' f.return_type)
    pub room : HasRoom w' f

  record FromTypes (fuel : ℕ) (q : Ptr) (rtn : ℕ) (args : List ℕ) (abi : Value)
      (w w' : World Native) (f : Proxy Buf) : Type 0 where
    same_ptr : f.func_ptr ≡ q
    same_rtn : f.return_type ≡ rtn
    same_args : f.arg_types ≡ args
    cif_prepared :
        IsPrepared p fuel
          (object f.return_type)
          (map object f.arg_types)
          (prep_cif p abi)
          w
          w'
          f.cif
    right_size : f.result_size ≡ result_size_for p (size_of w' f.return_type)
    has_room : HasRoom w' f

  proxy_for-FromTypes :
      IsLawful p
      → p.long_size ≤ p.ffi_arg_size
      → (fuel : ℕ) (q : Ptr) (rtn : ℕ) (args : List ℕ) (abi : Value) (w w' : World Native)
        (f : Proxy Buf)
      → proxy_for p fuel q rtn args abi w ≡ (ok f, w')
      → FromTypes fuel q rtn args abi w w' f
  unfolding proxy_for
  proxy_for-FromTypes laws h fuel q rtn args abi w w' f e =
      let s = bind-eq-ok (cif p fuel (object rtn) (some (map object args)) abi) _ w e in
      let m = make_proxy-Made s.value q rtn args s.world w' f s.second in
      let c =
        cif-IsPrepared p laws fuel (object rtn) (some (map object args)) abi w s.world s.value
          s.first in
      let prepared =
        some_list-IsPrepared p fuel (object rtn) (map object args) c.1.0 (prep_cif p abi) w s.world
          s.value c.1.1 c.1.2 in
      record {
        same_ptr = m.same_ptr;
        same_rtn = m.same_rtn;
        same_args = m.same_args;
        cif_prepared =
            transport
              (λ i.
                IsPrepared p fuel (object (sym m.same_rtn i)) (map object (sym m.same_args i))
                  (prep_cif p abi) w (m.same_world i) (sym m.same_cif i))
              prepared;
        right_size = m.size ∙ λ i. result_size_for p (size_of (m.same_world i) (sym m.same_rtn i));
        has_room = Made-HasRoom s.value q rtn args s.world w' f h m;
      }

  pub require_buffer-eq-ok :
      (v : Value) (w w' : World Native) (q : Ptr)
      → require_buffer p v w ≡ (ok q, w')
      → (v ≡ buffer q) × (w ≡ w')
  require_buffer-eq-ok (buffer r) w w' q h = (cc h, ap (λ (x : Result Ptr × World Native). x.1) h)
  require_buffer-eq-ok _ w w' q h = cc

pub foreign_function-IsReady :
    (p : Platform)
    → IsLawful p
    → p.long_size ≤ p.ffi_arg_size
    → (fuel : ℕ) (func_ptr return_type : Value) (arg_types : List Value) (abi : Value)
      (w w' : World p.Native) (f : Proxy p.Buf)
    → foreign_function p fuel func_ptr return_type (some arg_types) abi w ≡ (ok f, w')
    → IsReady p fuel func_ptr return_type arg_types abi w w' f
unfolding foreign_function require_array
foreign_function-IsReady p laws h fuel func_ptr return_type arg_types abi w w' f e =
    let s = bind-eq-ok (require_buffer p func_ptr) _ w e in
    let (pointer, e1) = require_buffer-eq-ok p func_ptr w s.world s.value s.first in
    let s1 = bind-eq-ok (assert (truthy return_type) expected_return_type) _ s.world s.second in
    let (given, e2) = assert-eq-ok (truthy return_type) expected_return_type s.world s1.first in
    let s2 = bind-eq-ok (p.coerce_type return_type) _ s1.world s1.second in
    let s3 = bind-eq-ok (each p.coerce_type arg_types) _ s2.world s2.second in
    let t =
      proxy_for-FromTypes p laws h fuel s.value s2.value s3.value abi s3.world w' f s3.second in
    record {
      pointer = pointer ∙ ap (λ (q : Ptr). buffer q) (sym t.same_ptr);
      given = given;
      converted = s2.world;
      typed = s3.world;
      rtn_coerced =
          ap (p.coerce_type return_type) (e1 ∙ e2)
          ∙ (s2.first ∙ λ i. (ok (sym t.same_rtn i), s2.world));
      args_coerced = s3.first ∙ λ i. (ok (sym t.same_args i), s3.world);
      prepared = t.cif_prepared;
      size = t.right_size;
      room = t.has_room;
    }
