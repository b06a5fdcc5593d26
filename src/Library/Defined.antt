-- ===== src/Library/Defined.antt =====
-- The definition of one function.
use node_ffi.Base.{
  ℕ, ◌≡◌, refl, ◌≢◌, Bool, true, false, inl, inr, Bool-cases, String, some, List, [], ◌∷◌, arith,
  ap, sym, ◌∙◌, ◌==◌, if◌then◌else◌,
}
use node_ffi.Value.{Ptr, buffer, truthy, Result, ok, thrown, overflow}
use node_ffi.World.{World, continue, ◌>>=◌, ◌>>◌}
use node_ffi.World.Bind.{bind-eq-ok, ok-injective}
use node_ffi.Platform.{Platform}
use node_ffi.ForeignFunction.{Proxy, foreign_function}
use node_ffi.Variadic.{variadic_foreign_function}
use node_ffi.Text.{Text}
use node_ffi.DynamicLibrary.{Linker, Symbol, get_symbol}
use node_ffi.DynamicLibrary.Symbols.{IsFound, get_symbol-IsFound}
use node_ffi.Library.{
  Info, Member, Member.sync, Member.async, Members, async_of, varargs_of, abi_of, member,
  require_function_pointer, variadic_member, plain_member, make_member, define_function,
}
use node_ffi.Library.Members.{calling, asked, later, at_once, by_types}

module _ (p : Platform) (l : Linker p) where
  open p use {Buf, Native}

  -- The member was made for the symbol, which is there, at the types and options of its description.
  pub record IsDefined (fuel : ℕ) (handle : Ptr) (name : String) (info : Info) (m : Member Buf)
      : Type 0 where
    pub before : World Native
    pub between : World Native
    pub after : World Native
    pub symbol : Symbol
    pub found : IsFound p l handle name before between symbol
    pub made : make_member p l fuel symbol.address info between ≡ (ok m, after)
    pub called : calling m ≡ asked info.options

  -- Every function that is described is defined on the object.
  abbrev pub AllDefined : ℕ → Ptr → List (String × Info) → Members Buf → Type 0
  AllDefined fuel handle [] lib = Unit
  AllDefined fuel handle ((name, info) ∷ funcs) lib =
      ((m : Member Buf) × (member name lib ≡ some m) × IsDefined fuel handle name info m)
      × AllDefined fuel handle funcs lib

  checked :
      (fuel : ℕ) (file : Text) (name : String) (info : Info) (q : Ptr) (w : World Native)
      → q ≢ 0
      → (require_function_pointer p l file name q >> make_member p l fuel q info) w
        ≡ make_member p l fuel q info w
  unfolding require_function_pointer
  checked fuel file name info q w h = let there : (q == 0) ≡ false = ground arith in rw there refl

  -- After `get()` the pointer is not NULL.
  after_get :
      (fuel : ℕ) (file : Text) (name : String) (info : Info) (r : Result Symbol) (v : World Native)
      → ((s : Symbol) → r ≡ ok s → s.address ≢ 0)
      → continue r
          (λ s.
            require_function_pointer p l file name s.address >> make_member p l fuel s.address info)
          v
        ≡ continue r (λ s. make_member p l fuel s.address info) v
  after_get fuel file name info (ok s) v h = checked fuel file name info s.address v (h s refl)
  after_get fuel file name info (thrown e) v h = refl
  after_get fuel file name info overflow v h = refl

-- The check for a NULL pointer after `get()` never fails: a function is defined as if it were not
-- there.
pub define_function-eq-unchecked :
    (p : Platform) (l : Linker p) (fuel : ℕ) (file : Text) (handle : Ptr) (name : String)
    (info : Info) (w : World p.Native)
    → define_function p l fuel file handle name info w
      ≡ (get_symbol p l handle name >>= λ s. make_member p l fuel s.address info) w
unfolding define_function
define_function-eq-unchecked p l fuel file handle name info w =
    let (r, v) = get_symbol p l handle name w in
    after_get p l fuel file name info r v
      λ s e. (get_symbol-IsFound p l handle name w v s (λ i. (e i, v))).not_null

calling_plain :
    {B : Type 0} (b : Bool) (f : Proxy B)
    → calling (if b then async f else sync f) ≡ (if b then later else at_once)
calling_plain true f = refl
calling_plain false f = refl

module _ (p : Platform) (l : Linker p) where
  open p use {Buf, Native}

  pub variadic_member-calling :
      (q : Ptr) (info : Info) (m : Member Buf) (w w' : World Native)
      → variadic_member p l q info w ≡ (ok m, w')
      → calling m ≡ by_types
  unfolding variadic_member
  variadic_member-calling q info m w w' h =
      let s =
        bind-eq-ok
          (variadic_foreign_function p (buffer q) info.result_type info.param_types
            (abi_of info.options))
          _ w h in
      ap (calling {B = Buf})
        (sym (ok-injective (ap (λ (x : Result (Member Buf) × World Native). x.0) s.second)))

  plain_member-calling :
      (fuel : ℕ) (q : Ptr) (info : Info) (m : Member Buf) (w w' : World Native)
      → plain_member p l fuel q info w ≡ (ok m, w')
      → calling m ≡ (if truthy (async_of info.options) then later else at_once)
  unfolding plain_member
  plain_member-calling fuel q info m w w' h =
      let s =
        bind-eq-ok
          (foreign_function p fuel (buffer q) info.result_type info.param_types
            (abi_of info.options))
          _ w h in
      ap (calling {B = Buf})
        (sym (ok-injective (ap (λ (x : Result (Member Buf) × World Native). x.0) s.second)))
      ∙ calling_plain (truthy (async_of info.options)) s.value

  make_member-calling :
      (fuel : ℕ) (q : Ptr) (info : Info) (m : Member Buf) (w w' : World Native)
      → make_member p l fuel q info w ≡ (ok m, w')
      → calling m ≡ asked info.options
  unfolding make_member
  make_member-calling fuel q info m w w' h = elim (Bool-cases (truthy (varargs_of info.options))) [
    | inl types ↦ rw types (variadic_member-calling q info m w w' (rw types at h))
    | inr no_types ↦ rw no_types (plain_member-calling fuel q info m w w' (rw no_types at h))
  ]

  pub define_function-IsDefined :
      (fuel : ℕ) (file : Text) (handle : Ptr) (name : String) (info : Info) (m : Member Buf)
      (w w' : World Native)
      → define_function p l fuel file handle name info w ≡ (ok m, w')
      → IsDefined p l fuel handle name info m
  define_function-IsDefined fuel file handle name info m w w' h =
      let s =
        bind-eq-ok (get_symbol p l handle name) _ w
          (sym (define_function-eq-unchecked p l fuel file handle name info w) ∙ h) in
      record {
        before = w;
        between = s.world;
        after = w';
        symbol = s.value;
        found = get_symbol-IsFound p l handle name w s.world s.value s.first;
        made = s.second;
        called = make_member-calling fuel s.value.address info m s.world w' s.second;
      }
