-- ===== src/ForeignFunction/Returns.antt =====
-- When `ForeignFunction()` returns, and with what.
use node_ffi.Base.{
  ℕ, ◌≤◌, ◌<◌, ◌≡◌, refl, ◌↔◌, true, List, map, ltb, lt→ltb, some, sym, ap, subst, ◌∙◌,
}
use node_ffi.Value.{Value, object, ok}
use node_ffi.World.{World, size_of}
use node_ffi.World.Bind.{bind-ok}
use node_ffi.Platform.{Platform, IsLawful}
use node_ffi.Cif.{cif, require_array}
use node_ffi.Cif.ArgTypes.{each}
use node_ffi.Cif.Returns.{cif-iff-IsPrepared}
use node_ffi.ForeignFunction.{Proxy, result_size_for, make_proxy, proxy_for, foreign_function}
use node_ffi.ForeignFunction.Ready.{IsReady, foreign_function-IsReady}

module _ (p : Platform) where
  open p use {Buf, Native}

  -- A proxy of the size that belongs to its return type.
  pub make_proxy-returns :
      (f : Proxy Buf) (w : World Native)
      → f.result_size ≡ result_size_for p (size_of w f.return_type)
      → 0 < f.result_size
      → make_proxy p f.cif f.func_ptr f.return_type f.arg_types w ≡ (ok f, w)
  unfolding make_proxy
  make_proxy-returns f w e h =
      let positive : ltb 0 (result_size_for p (size_of w f.return_type)) ≡ true =
        lt→ltb 0 _ (subst (λ (n : ℕ). 0 < n) e h) in
      rw positive (λ i. (ok (record f { result_size = sym e i }), w))

  foreign_function-returns :
      IsLawful p
      → (fuel : ℕ) (func_ptr return_type : Value) (arg_types : List Value) (abi : Value)
        (w w' : World Native) (f : Proxy Buf)
      → IsReady p fuel func_ptr return_type arg_types abi w w' f
      → foreign_function p fuel func_ptr return_type (some arg_types) abi w ≡ (ok f, w')
  unfolding foreign_function require_array proxy_for
  foreign_function-returns laws fuel func_ptr return_type arg_types abi w w' f h =
      let prepared =
        (cif-iff-IsPrepared p laws fuel (object f.return_type) (some (map object f.arg_types)) abi
            h.typed w' f.cif).1
          (refl, (map object f.arg_types, refl, h.prepared)) in
      ap (λ (v : Value). foreign_function p fuel v return_type (some arg_types) abi w) h.pointer
      ∙ rw h.given (
          bind-ok (p.coerce_type return_type) _ w h.converted h.rtn_coerced
          ∙ (bind-ok (each p.coerce_type arg_types) _ h.converted h.typed h.args_coerced
              ∙ (bind-ok (cif p fuel (object f.return_type) (some (map object f.arg_types)) abi) _
                    h.typed w' prepared
                  ∙ make_proxy-returns f w' h.size h.room.some_room)))

-- Where a `long` is no wider than libffi's `ffi_arg`, `ForeignFunction()` returns exactly when a
-- Buffer with the address of the function and a return type were given, all types can be coerced,
-- and `CIF()` returns for the coerced types. The proxy then stands for that address, its cif
-- was prepared for the very types by which it will convert values, and its Buffer for results holds
-- a value of the return type and a `long`.
pub foreign_function-iff-IsReady :
    (p : Platform)
    → IsLawful p
    → p.long_size ≤ p.ffi_arg_size
    → (fuel : ℕ) (func_ptr return_type : Value) (arg_types : List Value) (abi : Value)
      (w w' : World p.Native) (f : Proxy p.Buf)
    → (foreign_function p fuel func_ptr return_type (some arg_types) abi w ≡ (ok f, w'))
      ↔ IsReady p fuel func_ptr return_type arg_types abi w w' f
foreign_function-iff-IsReady p laws h fuel func_ptr return_type arg_types abi w w' f = (
  foreign_function-IsReady p laws h fuel func_ptr return_type arg_types abi w w' f,
  foreign_function-returns p laws fuel func_ptr return_type arg_types abi w w' f,
)
