-- ===== src/Tests/Callbacks.antt =====
-- Callbacks at concrete functions and arguments.
use node_ffi.Base.{true, arith, ℕ, ◌+◌, ◌≡◌, refl, false, some, List, [], ◌∷◌, if◌then◌else◌, ◌==◌}
use node_ffi.Value.{
  Ptr, Value, undefined, buffer, object, number, func, Failure, failure, ok, thrown,
  Kind.plain_error, Message.text,
}
use node_ffi.World.{World, Js}
use node_ffi.FfiType.{ffi_type, type_body, shortcut, complete, or_zero}
use node_ffi.Cif.{require_array, write_arg_types, native_status, check_status, finish, prepare, cif}
use node_ffi.Cif.ArgTypes.{each}
use node_ffi.Callback.{
  Closure, Callback, Closures, threw, ignored, error, at_return, require_function, read_args, serve,
  to_outcome, closure_call, hand_over, dispatch_to_v8, callback_for, checked_callback, callback,
}
use node_ffi.Callback.Served.{with_pointers, arg_at, IsServed, closure_call-iff-IsServed}
use node_ffi.Callback.Errors.{Fails, bad_result, dispatch_to_v8-throws}
use node_ffi.Callback.Bound.{IsBound, callback-iff-IsBound}
use node_ffi.FunctionType.{
  FunctionType, function_type, to_function, get, to_pointer, pointer_for, set,
}
use node_ffi.FunctionType.Linked.{CameFrom, get-set}
use node_ffi.Tests.Toy.{ToyBuf, Process, toy_write, toy, toy-IsLawful}
use node_ffi.Tests.Scene.{process, scene, int32_type}
use node_ffi.Tests.Calls.{sum_cif}

-- Function 1 adds its arguments, 2 throws, and 3 returns nothing.
abbrev sum_of : List Value → Value
sum_of (number a ∷ number b ∷ []) = number (a + b)
sum_of _ = undefined

abbrev toy_apply : ℕ → List Value → Js Process Value
toy_apply k args w =
    if k == 1
    then (ok (sum_of args), w)
    else if k == 2
    then (thrown (failure plain_error (text "no sum")), w)
    else (ok undefined, w)

abbrev toy_set : ToyBuf → Value → ℕ → Js Process ToyBuf
toy_set b (number n) t w = (ok (toy_write b n 0), w)
toy_set b v t w = (thrown (failure plain_error (text "expected a number")), w)

abbrev pub closures : Closures toy
closures = record {
  buffer_at = λ q s. record { size = or_zero s; at = λ i. 0; memory = some q };
  set = toy_set;
  apply = toy_apply;
  thrown_value = λ e. object 0;
  new_closure = λ b s n cl w. (ok 700, w);
}

abbrev pub closure_of : ℕ → Closure
closure_of k = record { ret_type = int32_type; arg_types = int32_type ∷ int32_type ∷ []; func = k }

-- The numbers 2 and 3 in C's memory, and an array of pointers to them.
abbrev pub called : World Process
called = record scene { native = record process { cells = λ q. if q == 900 then 2 else 3 } }

abbrev pub params : ToyBuf
params = toy_write (toy_write (toy.new_buffer 16) 900 0) 904 8

abbrev pointers : List Ptr
pointers = 900 ∷ 904 ∷ []

abbrev pub retval : ToyBuf
retval = toy.new_buffer 8

closure_call-iff-IsServed_example :
    IsServed toy closures (closure_of 1) retval pointers called called (toy_write retval 5 0)
unfolding read_args serve to_outcome closure_call
closure_call-iff-IsServed_example =
    (closure_call-iff-IsServed toy closures (closure_of 1) retval params pointers called called
        (toy_write retval 5 0) refl (refl, (refl, tt))).0
      refl

abbrev no_number : Failure
no_number = failure plain_error (text "expected a number")

nothing-Fails :
    Fails toy closures (closure_of 3) retval pointers called (at_return no_number) called
unfolding each with_pointers arg_at
nothing-Fails = bad_result {args = number 2 ∷ number 3 ∷ []} {result = undefined} refl refl refl

dispatch_to_v8-throws_example :
    dispatch_to_v8 toy closures (some (closure_of 3)) retval params false called
    ≡ (ok (threw (error (at_return no_number))), called)
dispatch_to_v8-throws_example =
    dispatch_to_v8-throws toy closures (closure_of 3) retval params pointers called called
      (at_return no_number) false refl (refl, (refl, tt)) nothing-Fails

-- `throw undefined` is lost.
undefined_lost :
    dispatch_to_v8 toy
      (record closures { thrown_value = λ e. undefined })
      (some (closure_of 2))
      retval
      params
      true
      called
    ≡ (ok ignored, called)
unfolding read_args serve to_outcome closure_call hand_over dispatch_to_v8
undefined_lost = refl

abbrev sum_callback : Callback ToyBuf
sum_callback = record { code = 700; cif = sum_cif }

callback-iff-IsBound_example :
    IsBound toy closures 1
      (object int32_type)
      (object int32_type ∷ object int32_type ∷ [])
      undefined
      (func 1)
      scene
      scene
      sum_callback
unfolding ffi_type type_body shortcut complete require_array write_arg_types native_status
    check_status finish prepare cif each require_function callback_for checked_callback callback
callback-iff-IsBound_example =
    (callback-iff-IsBound toy closures toy-IsLawful 1 (object int32_type)
        (object int32_type ∷ object int32_type ∷ []) (func 1) undefined scene scene sum_callback).0
      refl

abbrev sum_type : FunctionType
sum_type = record {
  ret_type = int32_type;
  arg_types = int32_type ∷ int32_type ∷ [];
  abi = number 1;
}

sum_typed :
    function_type toy
      (object int32_type)
      (some (object int32_type ∷ object int32_type ∷ []))
      undefined
      scene
    ≡ (ok sum_type, scene)
unfolding require_array each function_type
sum_typed = refl

get-set_example :
    (q : Ptr) × CameFrom toy closures 1 sum_type scene scene q (func 1)
    × (get toy 1 sum_type (toy_write retval 700 0) 0 scene
        ≡ to_function toy 1 sum_type (buffer q) scene)
unfolding ffi_type type_body shortcut complete require_array write_arg_types native_status
    check_status finish prepare cif each require_function callback_for checked_callback callback
    to_pointer pointer_for set
get-set_example =
    get-set toy closures toy-IsLawful 1 sum_type retval (toy_write retval 700 0) 0 (func 1) scene
      scene scene (omega arith) refl
