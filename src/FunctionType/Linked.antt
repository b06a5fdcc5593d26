-- ===== src/FunctionType/Linked.antt =====
-- A function pointer that is written and read back.
use node_ffi.Base.{ℕ, ◌+◌, ◌≤◌, ◌≡◌, List, [], ◌∷◌, map, ap, ap₂, sym, subst, ◌∙◌}
use node_ffi.Value.{Ptr, Value, func, buffer, object, Result, ok}
use node_ffi.World.{World}
use node_ffi.World.Bind.{bind-eq-ok, ok-injective}
use node_ffi.Platform.{Platform, IsLawful}
use node_ffi.Cif.ArgTypes.{each}
use node_ffi.ForeignFunction.{Proxy}
use node_ffi.ForeignFunction.Ready.{foreign_function-IsReady}
use node_ffi.Callback.{Callback, Closures}
use node_ffi.FunctionType.{FunctionType, to_function, get, to_pointer, pointer_for, set}

module _ (p : Platform) (c : Closures p) where
  open p use {Buf, Native}

  -- Where the pointer came from: it was given, or it is that of a callback for the function.
  pub data CameFrom (fuel : ℕ) (t : FunctionType) (w w' : World Native) (q : Ptr)
      : Value → Type 0 where
    given : CameFrom fuel t w w' q (buffer q)
    made :
        {k : ℕ} (cb : Callback Buf)
        → to_pointer p c fuel t (func k) w ≡ (ok cb, w')
        → cb.code ≡ q
        → CameFrom fuel t w w' q (func k)

  -- The function that was read back calls the pointer, at the types of the function type.
  pub record IsLinked (fuel : ℕ) (t : FunctionType) (v : Value) (w w' : World Native)
      (f : Proxy Buf) : Type 0 where
    pub origin : CameFrom fuel t w w' f.func_ptr v
    pub same_ret : f.return_type ≡ t.ret_type
    pub same_args : f.arg_types ≡ t.arg_types

  each_coerced_same :
      IsLawful p
      → (us ts : List ℕ) (w w' : World Native) → each p.coerce_type (map object us) w ≡ (ok ts, w')
      → ts ≡ us
  unfolding each
  each_coerced_same laws [] ts w w' e =
      ok-injective (ap (λ (x : Result (List ℕ) × World Native). x.0) (sym e))
  each_coerced_same laws (u ∷ us) ts w w' e =
      let s = bind-eq-ok (p.coerce_type (object u)) _ w e in
      let s1 = bind-eq-ok (each p.coerce_type (map object us)) _ s.world s.second in
      let first =
        laws.coerce_type-same u s.value w (ap (λ (x : Result ℕ × World Native). x.0) s.first) in
      let rest = each_coerced_same laws us s1.value s.world s1.world s1.first in
      ok-injective (ap (λ (x : Result (List ℕ) × World Native). x.0) (sym s1.second))
      ∙ ap₂ (λ (x : ℕ) (y : List ℕ). x ∷ y) first rest

  pointer_for-CameFrom :
      (fuel : ℕ) (t : FunctionType) (v : Value) (w w' : World Native) (q : Ptr)
      → pointer_for p c fuel t v w ≡ (ok q, w')
      → CameFrom fuel t w w' q v
  unfolding pointer_for
  pointer_for-CameFrom fuel t (func k) w w' q h =
      let s = bind-eq-ok (to_pointer p c fuel t (func k)) _ w h in
      let end : s.world ≡ w' = ap (λ (x : Result Ptr × World Native). x.1) s.second in
      made s.value (s.first ∙ λ i. (ok s.value, end i))
        (ok-injective (ap (λ (x : Result Ptr × World Native). x.0) s.second))
  pointer_for-CameFrom fuel t (buffer r) w w' q h =
      let same : r ≡ q = cc h in
      subst (λ (x : Ptr). CameFrom fuel t w w' q (buffer x)) (sym same) given
  pointer_for-CameFrom fuel t _ w w' q h = cc h

-- Where `set()` of a function type returns, at an offset with room for a pointer, there is a pointer,
-- the one that was set or that of a callback which was made for the function that was set, such that
-- at any later time `get()` at that offset does what `toFunction()` does with the pointer: it returns
-- the same function, throws the same error, and leaves the same state.
pub get-set :
    (p : Platform) (c : Closures p)
    → IsLawful p
    → (fuel : ℕ) (t : FunctionType) (b b' : p.Buf) (offset : ℕ) (v : Value)
      (w w' later : World p.Native)
    → offset + p.pointer_size ≤ p.length b
    → set p c fuel t b offset v w ≡ (ok b', w')
    → (q : Ptr) × CameFrom p c fuel t w w' q v
      × (get p fuel t b' offset later ≡ to_function p fuel t (buffer q) later)
unfolding set get
get-set p c laws fuel t b b' offset v w w' later room h =
    let s = bind-eq-ok (pointer_for p c fuel t v) _ w h in
    let end : s.world ≡ w' = ap (λ (x : Result p.Buf × World p.Native). x.1) s.second in
    let written : p.write_pointer b s.value offset ≡ b' =
      ok-injective (ap (λ (x : Result p.Buf × World p.Native). x.0) s.second) in
    let origin = pointer_for-CameFrom p c fuel t v w s.world s.value s.first in
    let read : p.read_pointer b' offset ≡ s.value =
      ap (λ (x : p.Buf). p.read_pointer x offset) (sym written)
      ∙ laws.read-write_self b s.value offset room in
    (
      s.value,
      subst (λ (x : World p.Native). CameFrom p c fuel t w x s.value v) end origin,
      ap (λ (q : Ptr). to_function p fuel t (buffer q) later) read,
    )

-- So a function that is read back is for that pointer, and its types are those of the function type.
-- A `long` is no wider than libffi's `ffi_arg`.
pub set-get :
    (p : Platform) (c : Closures p)
    → IsLawful p
    → p.long_size ≤ p.ffi_arg_size
    → (fuel : ℕ) (t : FunctionType) (b b' : p.Buf) (offset : ℕ) (v : Value)
      (w w' later after : World p.Native) (f : Proxy p.Buf)
    → offset + p.pointer_size ≤ p.length b
    → set p c fuel t b offset v w ≡ (ok b', w')
    → get p fuel t b' offset later ≡ (ok f, after)
    → IsLinked p c fuel t v w w' f
unfolding to_function
set-get p c laws wide fuel t b b' offset v w w' later after f room h k =
    let (q, origin, same) = get-set p c laws fuel t b b' offset v w w' later room h in
    let ready =
      foreign_function-IsReady p laws wide fuel (buffer q) (object t.ret_type)
        (map object t.arg_types) t.abi later after f (sym same ∙ k) in
    let pointer : q ≡ f.func_ptr = cc ready.pointer in
    record {
      origin = subst (λ (x : Ptr). CameFrom p c fuel t w w' x v) pointer origin;
      same_ret =
          laws.coerce_type-same t.ret_type f.return_type later
            (ap (λ (x : Result ℕ × World p.Native). x.0) ready.rtn_coerced);
      same_args =
          each_coerced_same p c laws t.arg_types f.arg_types ready.converted ready.typed
            ready.args_coerced;
    }
