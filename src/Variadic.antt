-- ===== src/Variadic.antt =====
-- lib/foreign_function_var.js: proxies for a variadic C function, cached by their types.
pub mod Ids
pub mod Key
pub mod Entry
pub mod Cache
pub mod Extra
pub mod Keyed
pub mod Asked
pub mod Again
pub mod Initial
pub mod Fuel
use node_ffi.Base.{
  ℕ, zero, suc, ◌+◌, ◌*◌, ◌/◌, ◌%◌, ◌≡◌, Bool, true, false, ◌&&◌, Option, none, some, List, [], ◌∷◌,
  ◌++◌, map, length, ltb, ◌==◌, if◌then◌else◌, String, not, str_eq,
}
use node_ffi.Value.{
  Ptr, Value, object, truthy, Message, Message.expected_return_type, Message.assertion,
  Kind.assertion_error, failure, ok,
}
use node_ffi.World.{World, Js, pure, raise, gets, assert, ◌>>=◌, ◌>>◌}
use node_ffi.Platform.{Platform}
use node_ffi.FfiType.{ffi_type}
use node_ffi.Cif.{CifBuffer, cif_var, require_array}
use node_ffi.Cif.ArgTypes.{each}
use node_ffi.ForeignFunction.{Proxy, make_proxy, require_buffer}

-- `n.toString(16)`, as the digits, the most significant first; fuel for the number of digits.
unfoldable pub to_hex : (fuel : ℕ) → ℕ → List ℕ → List ℕ
to_hex zero n acc = acc
to_hex (suc k) n acc =
    let rest = to_hex k (n / 16) ((n % 16) ∷ acc) in if ltb n 16 then n ∷ acc else rest

-- `(((1+Math.random())*0x10000)|0).toString(16)`, where `r` is the integer part of
-- `Math.random()*0x10000`. A number below 2 ^ 32 has eight digits at most.
unfoldable pub fresh_id : ℕ → List ℕ
unfolding to_hex
fresh_id r = to_hex 8 (65536 + r) []

abbrev pub set_id : {N : Type 0} → ℕ → List ℕ → World N → World N
set_id t i w = record w { ffi_id = λ q. if q == t then some i else w.ffi_id q }

-- `getId(type)`
unfoldable pub get_id : {N : Type 0} → ℕ → Js N (List ℕ)
get_id t w =
    let drawn : World _ = record w { random = λ n. w.random (n + 1) } in
    elim (w.ffi_id t) [
      | some i ↦ (ok i, w)
      | none ↦ (ok (fresh_id (w.random 0)), set_id t (fresh_id (w.random 0)) drawn)
    ]

-- The cache, by key, of one generator.
abbrev pub Cache : Type 0 → Type 0
Cache B = List (List ℕ × Proxy B)

-- Two texts are equal.
unfoldable pub same_key : List ℕ → List ℕ → Bool
same_key [] [] = true
same_key (a ∷ x) (b ∷ y) = a == b && same_key x y
same_key _ _ = false

-- `cache[key]`
unfoldable pub find_cached : {B : Type 0} → List ℕ → Cache B → Option (Proxy B)
find_cached k [] = none
find_cached k ((j, f) ∷ c) = if same_key j k then some f else find_cached k c

-- `key.join('')`
unfoldable pub join : List (List ℕ) → List ℕ
join [] = []
join (k ∷ ks) = k ++ join ks

-- `!!text`, where there may be none
abbrev pub has_text : Option String → Bool
has_text none = false
has_text (some s) = not (str_eq s "")

-- What the closure `variadic_function_generator` holds on to, and its property `returnType`, which
-- may be assigned from outside.
pub record Generator (B : Type 0) : Type 0 where
  pub func_ptr : Ptr
  pub prepared_type : Value
  pub return_type : Value
  pub fixed_types : List ℕ
  pub fixed_key : List (List ℕ)
  pub abi : Value
  pub cache : Cache B

module _ (p : Platform) where
  open p use {Buf, Native}

  -- `VariadicForeignFunction(funcPtr, returnType, fixedArgTypes, abi)`
  unfoldable pub variadic_foreign_function :
      Value → Value → Option (List Value) → Value → Js Native (Generator Buf)
  variadic_foreign_function func_ptr return_type fixed_types abi = do
    q ← require_buffer p func_ptr
    assert (truthy return_type) expected_return_type
    list ← require_array fixed_types
    types ← each p.coerce_type list
    key ← each get_id types
    pure (record {
      func_ptr = q;
      prepared_type = return_type;
      return_type = return_type;
      fixed_types = types;
      fixed_key = key;
      abi = abi;
      cache = [];
    })

  -- The loop over the arguments of the generator: their types, and their identifiers.
  unfoldable pub extra_types : (fuel : ℕ) → List Value → Js Native (List ℕ × List (List ℕ))
  extra_types fuel [] = pure ([], [])
  extra_types fuel (v ∷ vs) = do
    t ← p.coerce_type v
    q ← ffi_type p fuel (object t)
    assert (has_text (p.ffi_type_name q)) assertion
    i ← get_id t
    (types, key) ← extra_types fuel vs
    pure (t ∷ types, i ∷ key)

  -- No function is cached for the key: one is created, and cached.
  unfoldable pub create_function :
      (fuel : ℕ) → Generator Buf → List ℕ → ℕ → List ℕ → Js Native (Proxy Buf × Generator Buf)
  create_function fuel g key rtn types = do
    c ← cif_var p fuel g.prepared_type (some (map object types)) (length g.fixed_types) g.abi
    f ← make_proxy p c g.func_ptr rtn types
    pure (f, record g { cache = (key, f) ∷ g.cache })

  unfoldable pub cached_or_new :
      (fuel : ℕ)
      → Generator Buf
      → List ℕ
      → ℕ
      → List ℕ
      → Option (Proxy Buf)
      → Js Native (Proxy Buf × Generator Buf)
  cached_or_new fuel g key rtn types (some f) = pure (f, g)
  cached_or_new fuel g key rtn types none = create_function fuel g key rtn types

  -- `variadic_function_generator(...)`; the generator comes back with its cache.
  unfoldable pub variadic_function_generator :
      (fuel : ℕ) → Generator Buf → List Value → Js Native (Proxy Buf × Generator Buf)
  variadic_function_generator fuel g args = do
    (types, ids) ← extra_types fuel args
    rtn ← p.coerce_type g.return_type
    rtn_id ← get_id rtn
    assert (ltb 0 (length rtn_id)) assertion
    let key = rtn_id ++ join (g.fixed_key ++ ids)
    cached_or_new fuel g key rtn (g.fixed_types ++ types) (find_cached key g.cache)
