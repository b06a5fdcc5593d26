-- ===== src/Tests/Calls.antt =====
-- Proxies and their calls at concrete arguments.
use node_ffi.Base.{◌≡◌, refl, List, [], ◌∷◌, ◌++◌, arith}
use node_ffi.Value.{
  Value, undefined, object, buffer, number, string, func, ok, thrown, Failure, failure,
  Kind.type_error, Message.text, Message.argument_count,
}
use node_ffi.World.{World, ◌>>=◌}
use node_ffi.FfiType.{ffi_type, type_body, shortcut, complete}
use node_ffi.Cif.{
  CifBuffer, require_array, write_arg_types, native_status, check_status, finish, prepare, cif,
}
use node_ffi.Cif.ArgTypes.{each}
use node_ffi.ForeignFunction.{
  Proxy, make_proxy, marshal, invoke, call, to_task, schedule, with_callback, call_async, run_task,
  with_value, after_call, proxy_for, foreign_function, at_argument,
}
use node_ffi.ForeignFunction.Sync.{IsCalled, call-iff-IsCalled}
use node_ffi.ForeignFunction.Marshal.{with_args}
use node_ffi.ForeignFunction.Blame.{call-blames, call_miscounted}
use node_ffi.ForeignFunction.Async.{IsSettled, IsQuiet, call_async-eq-call}
use node_ffi.ForeignFunction.Ready.{IsReady}
use node_ffi.ForeignFunction.Returns.{foreign_function-iff-IsReady}
use node_ffi.Tests.Toy.{ToyBuf, Process, toy_write, toy, toy-IsLawful}
use node_ffi.Tests.Scene.{scene, int32_type}

abbrev pub sum_cif : CifBuffer ToyBuf
sum_cif = record {
  buffer = toy_write (toy.new_buffer 32) 3 0;
  rtn_type_ptr = 3;
  arg_types_ptr = toy_write (toy_write (toy.new_buffer 16) 3 0) 3 8;
}

-- The sum of two `int32` at the address 500.
abbrev pub sum : Proxy ToyBuf
sum = record {
  cif = sum_cif;
  func_ptr = 500;
  return_type = int32_type;
  arg_types = int32_type ∷ int32_type ∷ [];
  result_size = 8;
}

abbrev pub numbers : List Value
numbers = number 2 ∷ number 3 ∷ []

abbrev pub summed : World Process
summed = (call toy sum numbers scene).1

call-iff-IsCalled_example : IsCalled toy sum numbers scene summed (number 5)
unfolding call marshal invoke
call-iff-IsCalled_example =
    (call-iff-IsCalled toy toy-IsLawful sum numbers scene summed (number 5)).0 refl

sum_async :
    (call_async toy sum (numbers ++ func 9 ∷ []) >>= run_task toy) scene
    ≡ (ok (with_value 9 (number 5)), summed)
unfolding call marshal invoke call_async with_callback schedule to_task run_task after_call
sum_async = refl

call_async-eq-call_example :
    IsSettled toy sum numbers 9 scene
      ((call_async toy sum (numbers ++ func 9 ∷ []) >>= run_task toy) scene)
      summed
      9
      (number 5)
      (failure type_error (text "no number"))
    × IsQuiet (call_async toy sum (numbers ++ func 9 ∷ []) scene).0
call_async-eq-call_example =
    call_async-eq-call toy sum numbers 9 scene summed 9 (number 5)
      (failure type_error (text "no number")) refl

abbrev stored : World Process
stored = (toy.alloc int32_type (number 2) scene).1

abbrev refusal : Failure
refusal = failure type_error (text "expected a number")

call-blames_example :
    call toy sum (number 2 ∷ string "three" ∷ []) scene ≡ (thrown (at_argument 1 refusal), stored)
unfolding each with_args
call-blames_example =
    call-blames toy sum (int32_type ∷ []) [] int32_type (number 2 ∷ []) [] (string "three") scene
      stored stored (1000 ∷ []) refusal refl refl refl refl refl

miscounted :
    (call toy sum (number 2 ∷ []) scene ≡ (thrown (failure type_error (argument_count 2 1)), scene))
    × (call_async toy sum (number 2 ∷ func 9 ∷ []) scene
        ≡ (thrown (failure type_error (argument_count 3 2)), scene))
miscounted = call_miscounted toy sum (number 2 ∷ []) (func 9) scene (omega arith)

foreign_function-iff-IsReady_example :
    IsReady toy 1
      (buffer 500)
      (object int32_type)
      (object int32_type ∷ object int32_type ∷ [])
      undefined
      scene
      scene
      sum
unfolding ffi_type type_body shortcut complete require_array write_arg_types native_status
    check_status finish prepare cif each make_proxy proxy_for foreign_function
foreign_function-iff-IsReady_example =
    (foreign_function-iff-IsReady toy toy-IsLawful (omega arith) 1 (buffer 500) (object int32_type)
        (object int32_type ∷ object int32_type ∷ []) undefined scene scene sum).0
      refl
