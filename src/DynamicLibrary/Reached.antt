-- ===== src/DynamicLibrary/Reached.antt =====
-- What the proxies of lib/dynamic_library.js stand for, and how a symbol is reached through them.
use node_ffi.Base.{ℕ, String, ◌≡◌, ◌≢◌, ◌≤◌, ◌↔◌, List, [], ◌∷◌, some, ap, ◌∙◌}
use node_ffi.Value.{Ptr, Value, undefined, buffer, Value.string, Result, ok}
use node_ffi.World.{World}
use node_ffi.World.Bind.{bind-eq-ok, ok-injective}
use node_ffi.Platform.{Platform, IsLawful}
use node_ffi.ForeignFunction.{Proxy, foreign_function}
use node_ffi.ForeignFunction.Sync.{IsCalled, call-iff-IsCalled}
use node_ffi.ForeignFunction.Ready.{IsReady, foreign_function-IsReady}
use node_ffi.DynamicLibrary.{Symbol, get_symbol}
use node_ffi.DynamicLibrary.Symbols.{get_symbol-iff-IsFound}
use node_ffi.DynamicLibrary.Proxies.{Host, Functions, static_functions, linked}

module _ (p : Platform) (h : Host p) where
  open p use {Buf, Native}

  -- A proxy for one function of libc, at the types under which the source declares it.
  abbrev pub Declared :
      ℕ → Ptr → Value → List Value → World Native → World Native → Proxy Buf → Type 0
  Declared fuel q rtn args w w' f = IsReady p fuel (buffer q) rtn args undefined w w' f

  -- The four proxies were made one after the other.
  pub record IsMade (fuel : ℕ) (w w' : World Native) (fs : Functions Buf) : Type 0 where
    pub opener : World Native
    pub closer : World Native
    pub finder : World Native
    pub dlopen : Declared fuel h.dlopen h.void_ptr (string "string" ∷ h.int ∷ []) w opener fs.dlopen
    pub dlclose : Declared fuel h.dlclose h.int (h.void_ptr ∷ []) opener closer fs.dlclose
    pub dlsym :
        Declared fuel h.dlsym h.void_ptr (h.void_ptr ∷ string "string" ∷ []) closer finder fs.dlsym
    pub dlerror : Declared fuel h.dlerror (string "string") [] finder w' fs.dlerror

  declare :
      IsLawful p
      → p.long_size ≤ p.ffi_arg_size
      → (fuel : ℕ) (q : Ptr) (rtn : Value) (args : List Value) (w w' : World Native) (f : Proxy Buf)
      → foreign_function p fuel (buffer q) rtn (some args) undefined w ≡ (ok f, w')
      → Declared fuel q rtn args w w' f
  declare laws wide fuel q rtn args w w' f e =
      foreign_function-IsReady p laws wide fuel (buffer q) rtn args undefined w w' f e

  static_functions-IsMade :
      IsLawful p
      → p.long_size ≤ p.ffi_arg_size
      → (fuel : ℕ) (w w' : World Native) (fs : Functions Buf)
      → static_functions p h fuel w ≡ (ok fs, w')
      → IsMade fuel w w' fs
  unfolding static_functions
  static_functions-IsMade laws wide fuel w w' fs e =
      let a =
        bind-eq-ok
          (foreign_function p fuel (buffer h.dlopen) h.void_ptr
            (some (string "string" ∷ h.int ∷ [])) undefined)
          _ w e in
      let b =
        bind-eq-ok
          (foreign_function p fuel (buffer h.dlclose) h.int (some (h.void_ptr ∷ [])) undefined) _
          a.world a.second in
      let c =
        bind-eq-ok
          (foreign_function p fuel (buffer h.dlsym) h.void_ptr
            (some (h.void_ptr ∷ string "string" ∷ [])) undefined)
          _ b.world b.second in
      let d =
        bind-eq-ok
          (foreign_function p fuel (buffer h.dlerror) (string "string") (some []) undefined) _
          c.world c.second in
      let same = ok-injective (ap (λ (x : Result (Functions Buf) × World Native). x.0) d.second) in
      let end : d.world ≡ w' = ap (λ (x : Result (Functions Buf) × World Native). x.1) d.second in
      record {
        opener = a.world;
        closer = b.world;
        finder = c.world;
        dlopen =
            declare laws wide fuel h.dlopen h.void_ptr (string "string" ∷ h.int ∷ []) w a.world
              fs.dlopen (a.first ∙ λ i. (ok (same i).dlopen, a.world));
        dlclose =
            declare laws wide fuel h.dlclose h.int (h.void_ptr ∷ []) a.world b.world fs.dlclose
              (b.first ∙ λ i. (ok (same i).dlclose, b.world));
        dlsym =
            declare laws wide fuel h.dlsym h.void_ptr (h.void_ptr ∷ string "string" ∷ []) b.world
              c.world fs.dlsym (c.first ∙ λ i. (ok (same i).dlsym, c.world));
        dlerror =
            declare laws wide fuel h.dlerror (string "string") [] c.world w' fs.dlerror
              (d.first ∙ λ i. (ok (same i).dlerror, end i));
      }

  -- libffi called `dlsym` with the handle and the name, and what it returned is the address.
  pub record IsReached (fs : Functions Buf) (handle : Ptr) (symbol : String) (w w' : World Native)
      (s : Symbol) : Type 0 where
    pub called : IsCalled p fs.dlsym (buffer handle ∷ string symbol ∷ []) w w' (buffer s.address)
    pub named : s.name ≡ symbol
    pub not_null : s.address ≢ 0

  get_symbol-iff-IsReached :
      IsLawful p
      → (fs : Functions Buf) (handle : Ptr) (symbol : String) (w w' : World Native) (s : Symbol)
      → (get_symbol p (linked p h fs) handle symbol w ≡ (ok s, w'))
        ↔ IsReached fs handle symbol w w' s
  get_symbol-iff-IsReached laws fs handle symbol w w' s =
      let found = get_symbol-iff-IsFound p (linked p h fs) handle symbol w w' s in
      let through =
        call-iff-IsCalled p laws fs.dlsym (buffer handle ∷ string symbol ∷ []) w w'
          (buffer s.address) in
      (
        λ e.
            let k = found.0 e in
            record { called = through.0 k.found; named = k.named; not_null = k.not_null },
        λ k.
            found.1 (record { found = through.1 k.called; named = k.named; not_null = k.not_null }),
      )

-- Where the module is loaded and a `long` is no wider than libffi's `ffi_arg`, each of its four
-- proxies stands for the function of the bindings with its name, at the types that the source
-- declares; and `get()`, which calls the one for `dlsym`, returns exactly when libffi's call of it with
-- the handle and the name of the symbol gives a pointer that is not NULL, and then that pointer under
-- that name.
pub static_functions-get_symbol :
    (p : Platform) (h : Host p)
    → IsLawful p
    → p.long_size ≤ p.ffi_arg_size
    → (fuel : ℕ) (u v : World p.Native) (fs : Functions p.Buf) (handle : Ptr) (symbol : String)
      (w w' : World p.Native) (s : Symbol)
    → static_functions p h fuel u ≡ (ok fs, v)
    → IsMade p h fuel u v fs
      × ((get_symbol p (linked p h fs) handle symbol w ≡ (ok s, w'))
          ↔ IsReached p h fs handle symbol w w' s)
static_functions-get_symbol p h laws wide fuel u v fs handle symbol w w' s e = (
  static_functions-IsMade p h laws wide fuel u v fs e,
  get_symbol-iff-IsReached p h laws fs handle symbol w w' s,
)
