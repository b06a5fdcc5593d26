-- ===== src/Tests/Variadics.antt =====
-- Identifiers, keys and the generator at concrete types.
use node_ffi.Base.{
  ℕ, ◌≡◌, refl, none, some, Option, List, [], ◌∷◌, arith, ltb, inl, inr, Bool-cases, if◌then◌else◌,
}
use node_ffi.Value.{undefined, object, buffer, ok}
use node_ffi.World.{World, set_ffi_type}
use node_ffi.FfiType.{ffi_type, type_body, shortcut, complete}
use node_ffi.Cif.{
  require_array, write_arg_types, native_status, check_status_var, finish, prepare, cif_var,
}
use node_ffi.ForeignFunction.{make_proxy}
use node_ffi.Variadic.{
  Generator, to_hex, fresh_id, get_id, join, same_key, find_cached, extra_types, create_function,
  cached_or_new, variadic_foreign_function, variadic_function_generator,
}
use node_ffi.Variadic.Ids.{HasShortIds}
use node_ffi.Variadic.Key.{HasOwnIds}
use node_ffi.Variadic.Cache.{IsGiven, variadic_function_generator-IsGiven}
use node_ffi.Variadic.Extra.{Grows-same}
use node_ffi.Variadic.Again.{IsKnown, AreKnown, variadic_function_generator-again}
use node_ffi.Variadic.Asked.{IsAsked, variadic_function_generator-IsAsked}
use node_ffi.Variadic.Keyed.{IsKeyed}
use node_ffi.Variadic.Initial.{IsNew, variadic_foreign_function-IsNew}
use node_ffi.Cif.ArgTypes.{each}
use node_ffi.Tests.Toy.{ToyBuf, Process, toy, toy-IsLawful}
use node_ffi.Tests.Scene.{scene, int32_type, odd_type}
use node_ffi.Tests.Calls.{sum}

scene-HasShortIds : HasShortIds scene
scene-HasShortIds = record { given = λ t k e. cc e; drawn = λ n. omega arith }

-- The number 0x10000.
first_id : (get_id int32_type scene).0 ≡ ok (1 ∷ 0 ∷ 0 ∷ 0 ∷ 0 ∷ [])
unfolding get_id fresh_id to_hex
first_id = refl

abbrev id_of : ℕ → Option (List ℕ)
id_of t = if ltb t 16 then some (1 ∷ 0 ∷ 0 ∷ 0 ∷ t ∷ []) else none

-- The first sixteen types have their identifiers.
abbrev identified : World Process
identified = record scene { ffi_id = id_of }

id_of-given : (t : ℕ) (k : List ℕ) → id_of t ≡ some k → k ≡ 1 ∷ 0 ∷ 0 ∷ 0 ∷ t ∷ []
id_of-given t k h = elim (Bool-cases (ltb t 16)) [
  | inl small ↦ cc (rw small at h)
  | inr large ↦ absurd (ground arith)
]

identified-HasShortIds : HasShortIds identified
identified-HasShortIds = record {
  given = λ t k h. rw (id_of-given t k h) refl;
  drawn = λ n. omega arith;
}

identified-HasOwnIds : HasOwnIds identified
identified-HasOwnIds = record { distinct = λ t u k h e. cc (id_of-given t k h, id_of-given u k e) }

abbrev int32_id : List ℕ
int32_id = 1 ∷ 0 ∷ 0 ∷ 0 ∷ 1 ∷ []

-- One fixed `int32`.
abbrev pub sum_generator : Generator ToyBuf
sum_generator = record {
  func_ptr = 500;
  prepared_type = object int32_type;
  return_type = object int32_type;
  fixed_types = int32_type ∷ [];
  fixed_key = (1 ∷ 0 ∷ 0 ∷ 0 ∷ 1 ∷ []) ∷ [];
  abi = undefined;
  cache = [];
}

abbrev sum_key : List ℕ
sum_key = 1 ∷ 0 ∷ 0 ∷ 0 ∷ 1 ∷ 1 ∷ 0 ∷ 0 ∷ 0 ∷ 1 ∷ 1 ∷ 0 ∷ 0 ∷ 0 ∷ 1 ∷ []

abbrev used_generator : Generator ToyBuf
used_generator = record sum_generator { cache = (sum_key, sum) ∷ [] }

first_use :
    variadic_function_generator toy 1 sum_generator (object int32_type ∷ []) identified
    ≡ (ok (sum, used_generator), identified)
unfolding ffi_type type_body shortcut complete require_array write_arg_types native_status
    check_status_var finish prepare cif_var make_proxy get_id join same_key find_cached extra_types
    create_function cached_or_new variadic_function_generator
first_use = refl

variadic_function_generator-IsGiven_example : IsGiven toy 1 sum_generator used_generator sum
variadic_function_generator-IsGiven_example =
    variadic_function_generator-IsGiven toy toy-IsLawful 1 sum_generator used_generator
      (object int32_type ∷ []) identified identified sum tt first_use

-- Later on, the odd type has its `ffi_type` too.
abbrev later : World Process
later = set_ffi_type odd_type (some 4) identified

int32-IsKnown : IsKnown toy 1 later int32_type
unfolding ffi_type type_body shortcut complete
int32-IsKnown = record { coerced = refl; pointer = 3; found = refl; named = refl }

variadic_function_generator-again_example :
    variadic_function_generator toy 1 used_generator (object int32_type ∷ []) later
    ≡ (ok (sum, used_generator), later)
unfolding AreKnown
variadic_function_generator-again_example =
    variadic_function_generator-again toy toy-IsLawful 1 sum_generator used_generator int32_type
      (int32_type ∷ []) identified identified later sum refl identified-HasShortIds first_use
      (Grows-same identified later identified-HasShortIds refl refl) refl (int32-IsKnown, tt)

-- A second call finds the function.
used_again :
    variadic_function_generator toy 1 used_generator (object int32_type ∷ []) identified
    ≡ (ok (sum, used_generator), identified)
unfolding ffi_type type_body shortcut complete get_id join same_key find_cached extra_types
    cached_or_new variadic_function_generator
used_again = refl

used-IsKeyed : IsKeyed identified used_generator
unfolding join
used-IsKeyed = record {
  fixed = (refl, tt);
  entries = (
    record {
      ids = int32_id ∷ int32_id ∷ int32_id ∷ [];
      known = (refl, (refl, (refl, tt)));
      joined = refl;
    },
    tt,
  );
}

variadic_function_generator-IsAsked_example :
    IsAsked toy int32_type (int32_type ∷ int32_type ∷ []) identified sum used_generator
variadic_function_generator-IsAsked_example =
    variadic_function_generator-IsAsked toy toy-IsLawful 1 used_generator used_generator int32_type
      (int32_type ∷ []) identified identified sum refl identified-HasShortIds identified-HasOwnIds
      used-IsKeyed used_again

variadic_foreign_function-IsNew_example :
    IsNew toy 1
      (buffer 500)
      (object int32_type)
      (int32_type ∷ [])
      undefined
      identified
      sum_generator
unfolding require_array each get_id variadic_foreign_function
variadic_foreign_function-IsNew_example =
    variadic_foreign_function-IsNew toy toy-IsLawful 1 (buffer 500) (object int32_type)
      (int32_type ∷ []) undefined identified identified sum_generator identified-HasShortIds refl
