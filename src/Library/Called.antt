-- ===== src/Library/Called.antt =====
-- A function of a library object, from its description to its call.
use node_ffi.Base.{
  ℕ, ◌≤◌, ◌≡◌, Bool, true, false, inl, inr, Bool-cases, String, Option, none, some, List, [], ◌∷◌,
  ap, sym, subst, ◌∙◌, arith, str_eq, eq_iff, if◌then◌else◌,
}
use node_ffi.Value.{Ptr, Value, buffer, truthy, Result, ok}
use node_ffi.World.{World}
use node_ffi.World.Bind.{bind-eq-ok, ok-injective}
use node_ffi.Platform.{Platform, IsLawful}
use node_ffi.Text.{Text}
use node_ffi.DynamicLibrary.{Linker, Symbol}
use node_ffi.DynamicLibrary.Opens.{Opens}
use node_ffi.DynamicLibrary.Symbols.{IsFound}
use node_ffi.ForeignFunction.{Proxy, call, foreign_function}
use node_ffi.ForeignFunction.Ready.{IsReady, foreign_function-IsReady}
use node_ffi.ForeignFunction.Sync.{IsCalled, call-IsCalled}
use node_ffi.Library.{
  Info, Member, Member.sync, Members, member, abi_of, async_of, varargs_of, plain_member,
  make_member, library, library_path, ext, as_text,
}
use node_ffi.Library.Members.{AreKeys}
use node_ffi.Library.Defined.{IsDefined, AllDefined, variadic_member-calling}
use node_ffi.Library.Loaded.{library-iff-IsLoaded}

-- The description of a name.
unfoldable pub info_of : String → List (String × Info) → Option Info
info_of name [] = none
info_of name ((k, info) ∷ funcs) = if str_eq k name then some info else info_of name funcs

module _ (p : Platform) (l : Linker p) where
  open p use {Buf, Native}

  AllDefined-info_of :
      (fuel : ℕ) (handle : Ptr) (name : String) (funcs : List (String × Info)) (lib : Members Buf)
      (info : Info)
      → AllDefined p l fuel handle funcs lib
      → info_of name funcs ≡ some info
      → (m : Member Buf) × (member name lib ≡ some m) × IsDefined p l fuel handle name info m
  unfolding info_of
  AllDefined-info_of fuel handle name [] lib info a h = cc h
  AllDefined-info_of fuel handle name ((k, i) ∷ funcs) lib info a h =
      elim (Bool-cases (str_eq k name)) [
        | inl same ↦
            let here : k ≡ name = ground (arith, eq_iff k name) in
            let this : i ≡ info = cc (rw same at h) in
            subst
              (λ (j : Info).
                (m : Member Buf) × (member name lib ≡ some m) × IsDefined p l fuel handle name j m)
              this
              (subst
                (λ (n : String).
                  (m : Member Buf) × (member n lib ≡ some m) × IsDefined p l fuel handle n i m)
                here a.0)
        | inr other ↦ AllDefined-info_of fuel handle name funcs lib info a.1 (rw other at h)
      ]

  -- A member that is called at once is the proxy that `ForeignFunction()` has made.
  plain_member-sync :
      (fuel : ℕ) (q : Ptr) (info : Info) (f : Proxy Buf) (w w' : World Native)
      → plain_member p l fuel q info w ≡ (ok (sync f), w')
      → foreign_function p fuel (buffer q) info.result_type info.param_types (abi_of info.options) w
        ≡ (ok f, w')
  unfolding plain_member
  plain_member-sync fuel q info f w w' h =
      let s =
        bind-eq-ok
          (foreign_function p fuel (buffer q) info.result_type info.param_types
            (abi_of info.options))
          _ w h in
      let end : s.world ≡ w' = ap (λ (x : Result (Member Buf) × World Native). x.1) s.second in
      let made = ok-injective (ap (λ (x : Result (Member Buf) × World Native). x.0) s.second) in
      s.first ∙ λ i. (ok ((chosen (truthy (async_of info.options)) s.value made) i), end i)
    where
      chosen : (b : Bool) (g : Proxy Buf) → (if b then Member.async g else sync g) ≡ sync f → g ≡ f
      chosen true g e = cc e
      chosen false g e = cc e

  make_member-sync :
      (fuel : ℕ) (q : Ptr) (info : Info) (f : Proxy Buf) (w w' : World Native)
      → make_member p l fuel q info w ≡ (ok (sync f), w')
      → foreign_function p fuel (buffer q) info.result_type info.param_types (abi_of info.options) w
        ≡ (ok f, w')
  unfolding make_member
  make_member-sync fuel q info f w w' h = elim (Bool-cases (truthy (varargs_of info.options))) [
    | inl types ↦ cc (variadic_member-calling p l q info (sync f) w w' (rw types at h))
    | inr no_types ↦ plain_member-sync fuel q info f w w' (rw no_types at h)
  ]

  -- The library opened, the symbol of the name is there, the proxy stands for it and was prepared for the
  -- described types, and it called the function with the arguments.
  pub record IsLinkedCall (fuel : ℕ) (path : Option Text) (name : String) (info : Info)
      (types : List Value) (f : Proxy Buf) (args : List Value) (w later after : World Native)
      (v : Value) : Type 0 where
    pub handle : Ptr
    pub loaded : World Native
    pub opens : Opens p l path l.rtld_now w handle loaded
    pub before : World Native
    pub between : World Native
    pub made : World Native
    pub symbol : Symbol
    pub found : IsFound p l handle name before between symbol
    pub ready :
        IsReady p fuel
          (buffer symbol.address)
          info.result_type
          types
          (abi_of info.options)
          between
          made
          f
    pub called : IsCalled p f args later after v

-- Where `Library()` has returned an object, a function of it that was described with some argument types,
-- and that is called at once, comes from the library that was opened: its proxy stands for the symbol
-- of its name there and was prepared for the described types and ABI; and where a call of it
-- returns, at any later time, that C function was called with the arguments, stored at these types, and
-- the value was read at the return type. A `long` is no wider than libffi's `ffi_arg`.
pub library-call :
    (p : Platform) (l : Linker p)
    → IsLawful p
    → p.long_size ≤ p.ffi_arg_size
    → (fuel : ℕ) (libfile : Option Text) (funcs : List (String × Info)) (lib lib' : Members p.Buf)
      (name : String) (info : Info) (types args : List Value) (f : Proxy p.Buf)
      (w w' later after : World p.Native) (v : Value)
    → AreKeys funcs
    → library p l fuel libfile funcs lib w ≡ (ok lib', w')
    → info_of name funcs ≡ some info
    → info.param_types ≡ some types
    → member name lib' ≡ some (sync f)
    → call p f args later ≡ (ok v, after)
    → IsLinkedCall p l fuel
        (library_path (as_text (ext l.platform)) libfile)
        name
        info
        types
        f
        args
        w
        later
        after
        v
library-call p l laws long fuel libfile funcs lib lib' name info types args f w w' later after v
      keys h described typed there k =
    let loaded = (library-iff-IsLoaded p l fuel libfile funcs lib lib' w w' keys).0 h in
    let (m, held, def) =
      AllDefined-info_of p l fuel loaded.handle name funcs lib' info loaded.built.defined
        described in
    let this : m ≡ sync f = cc (held, there) in
    let made =
      make_member-sync p l fuel def.symbol.address info f def.between def.after
        (def.made ∙ λ i. (ok (this i), def.after)) in
    record {
      handle = loaded.handle;
      loaded = loaded.loaded;
      opens = loaded.opens;
      before = def.before;
      between = def.between;
      made = def.after;
      symbol = def.symbol;
      found = def.found;
      ready =
          foreign_function-IsReady p laws long fuel (buffer def.symbol.address) info.result_type
            types (abi_of info.options) def.between def.after f
            (ap
                (λ (o : Option (List Value)).
                  foreign_function p fuel (buffer def.symbol.address) info.result_type o
                    (abi_of info.options) def.between)
                (sym typed)
              ∙ made);
      called = call-IsCalled p laws f args later after v k;
    }
