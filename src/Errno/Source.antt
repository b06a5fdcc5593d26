-- ===== src/Errno/Source.antt =====
-- Where the function `errno` comes from.
use node_ffi.Base.{
  ℕ, ◌≡◌, ◌↔◌, ◌∙◌, ◌≤◌, true, false, inl, inr, Bool-cases, none, some, [], ap, subst, str_eq,
}
use node_ffi.Value.{Ptr, Value, undefined, buffer, Value.string, Result, ok}
use node_ffi.World.{World, Js}
use node_ffi.World.Bind.{bind-eq-ok, bind-ok}
use node_ffi.Platform.{Platform, IsLawful}
use node_ffi.ForeignFunction.{Proxy, foreign_function}
use node_ffi.ForeignFunction.Ready.{IsReady, foreign_function-IsReady}
use node_ffi.ForeignFunction.Returns.{foreign_function-iff-IsReady}
use node_ffi.Text.{codes}
use node_ffi.DynamicLibrary.{Linker, Symbol, or_lazy, dynamic_library, get_symbol}
use node_ffi.DynamicLibrary.Opens.{Opens, dynamic_library-iff-Opens}
use node_ffi.DynamicLibrary.Symbols.{IsFound, get_symbol-IsFound, get_symbol-iff-IsFound}
use node_ffi.Errno.{Errno, at_pointer, direct, windows_errno, other_errno, make_errno}

module _ (p : Platform) (l : Linker p) (errno_function : Ptr) (int_pointer : Value)
    (deref_pointer : Value → Js p.Native Value) (fuel : ℕ) where
  open p use {Buf, Native}

  -- The proxy behind the function, and what it was made for.
  pub data IsSource (w w' : World Native) : Errno Buf → Type 0 where
    from_symbol :
        {handle : Ptr} {v u : World Native} {s : Symbol} {f : Proxy Buf}
        → str_eq l.platform "win32" ≡ true
        → dynamic_library p l fuel (some (codes "msvcrt.dll")) none w ≡ (ok handle, v)
        → Opens p l (some (codes "msvcrt.dll")) (or_lazy p l none) w handle v
        → IsFound p l handle "_errno" v u s
        → IsReady p fuel (buffer s.address) int_pointer [] undefined u w' f
        → IsSource w w' (at_pointer f)
    from_addon :
        {f : Proxy Buf}
        → str_eq l.platform "win32" ≡ false
        → IsReady p fuel (buffer errno_function) (string "int") [] undefined w w' f
        → IsSource w w' (direct f)

  -- A proxy that was made is what a run ends with.
  ends_with :
      {e e' : Errno Buf} {w v w' : World Native}
      → IsSource w v e
      → ◌≡◌ {A = Result (Errno Buf) × World Native} (ok e, v) (ok e', w')
      → IsSource w w' e'
  ends_with {e} {e'} {w} {v} {w'} s h =
      let same : e ≡ e' = cc h in
      let end : v ≡ w' = ap (λ (x : Result (Errno Buf) × World Native). x.1) h in
      subst (λ (x : Errno Buf). IsSource w w' x) same
        (subst (λ (x : World Native). IsSource w x e) end s)

  windows_errno-IsSource :
      IsLawful p
      → p.long_size ≤ p.ffi_arg_size
      → (w w' : World Native) (e : Errno Buf) → str_eq l.platform "win32" ≡ true
      → windows_errno p l errno_function int_pointer deref_pointer fuel w ≡ (ok e, w')
      → IsSource w w' e
  unfolding windows_errno
  windows_errno-IsSource laws long w w' e here h =
      let a = bind-eq-ok (dynamic_library p l fuel (some (codes "msvcrt.dll")) none) _ w h in
      let b = bind-eq-ok (get_symbol p l a.value "_errno") _ a.world a.second in
      let c =
        bind-eq-ok
          (foreign_function p fuel (buffer b.value.address) int_pointer (some []) undefined) _
          b.world b.second in
      let opened =
        (dynamic_library-iff-Opens p l (some (codes "msvcrt.dll")) none w a.world a.value).0
          (fuel, a.first) in
      let found = get_symbol-IsFound p l a.value "_errno" a.world b.world b.value b.first in
      let ready =
        foreign_function-IsReady p laws long fuel (buffer b.value.address) int_pointer [] undefined
          b.world c.world c.value c.first in
      ends_with (from_symbol here a.first opened found ready) c.second

  other_errno-IsSource :
      IsLawful p
      → p.long_size ≤ p.ffi_arg_size
      → (w w' : World Native) (e : Errno Buf) → str_eq l.platform "win32" ≡ false
      → other_errno p l errno_function int_pointer deref_pointer fuel w ≡ (ok e, w')
      → IsSource w w' e
  unfolding other_errno
  other_errno-IsSource laws long w w' e here h =
      let c =
        bind-eq-ok
          (foreign_function p fuel (buffer errno_function) (string "int") (some []) undefined) _ w
          h in
      let ready =
        foreign_function-IsReady p laws long fuel (buffer errno_function) (string "int") []
          undefined w c.world c.value c.first in
      ends_with (from_addon here ready) c.second

  make_errno-IsSource :
      IsLawful p
      → p.long_size ≤ p.ffi_arg_size
      → (w w' : World Native) (e : Errno Buf)
      → make_errno p l errno_function int_pointer deref_pointer fuel w ≡ (ok e, w')
      → IsSource w w' e
  unfolding make_errno
  make_errno-IsSource laws long w w' e h = elim (Bool-cases (str_eq l.platform "win32")) [
    | inl here ↦ windows_errno-IsSource laws long w w' e here (rw here at h)
    | inr other ↦ other_errno-IsSource laws long w w' e other (rw other at h)
  ]

  make_errno-returns :
      IsLawful p
      → p.long_size ≤ p.ffi_arg_size
      → (w w' : World Native) (e : Errno Buf) → IsSource w w' e
      → make_errno p l errno_function int_pointer deref_pointer fuel w ≡ (ok e, w')
  unfolding make_errno windows_errno other_errno
  make_errno-returns laws long w w' e
        (from_symbol {handle} {v} {u} {s} {f} here opened o found ready) =
      rw here (
        bind-ok (dynamic_library p l fuel (some (codes "msvcrt.dll")) none) _ w v opened
        ∙ (bind-ok (get_symbol p l handle "_errno") _ v u
              ((get_symbol-iff-IsFound p l handle "_errno" v u s).1 found)
            ∙ bind-ok (foreign_function p fuel (buffer s.address) int_pointer (some []) undefined) _
                u w'
                ((foreign_function-iff-IsReady p laws long fuel (buffer s.address) int_pointer []
                    undefined u w' f).1
                  ready)))
  make_errno-returns laws long w w' e (from_addon {f} other ready) = rw other (
      bind-ok (foreign_function p fuel (buffer errno_function) (string "int") (some []) undefined) _
        w w'
        ((foreign_function-iff-IsReady p laws long fuel (buffer errno_function) (string "int") []
            undefined w w' f).1
          ready))

-- Where a `long` is no wider than libffi's `ffi_arg`, the module is loaded exactly when `errno` has a
-- proxy without arguments: on Windows for the symbol `_errno` of msvcrt.dll, which was opened and has
-- it at an address that is not NULL, and elsewhere for the addon's own function, with an `int` as
-- result.
pub make_errno-iff-IsSource :
    (p : Platform) (l : Linker p) (errno_function : Ptr) (int_pointer : Value)
    (deref_pointer : Value → Js p.Native Value) (fuel : ℕ)
    → IsLawful p
    → p.long_size ≤ p.ffi_arg_size
    → (w w' : World p.Native) (e : Errno p.Buf)
    → (make_errno p l errno_function int_pointer deref_pointer fuel w ≡ (ok e, w'))
      ↔ IsSource p l errno_function int_pointer deref_pointer fuel w w' e
make_errno-iff-IsSource p l errno_function int_pointer deref_pointer fuel laws long w w' e = (
  make_errno-IsSource p l errno_function int_pointer deref_pointer fuel laws long w w' e,
  make_errno-returns p l errno_function int_pointer deref_pointer fuel laws long w w' e,
)
