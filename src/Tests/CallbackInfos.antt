-- ===== src/Tests/CallbackInfos.antt =====
-- The memory of closures, at two closures of which one is collected.
use node_ffi.Base.{ℕ, ◌≡◌, refl, none, some, [], ◌∷◌, arith}
use node_ffi.Value.{undefined}
use node_ffi.FfiType.{ffi_type, type_body, shortcut, complete}
use node_ffi.Cif.{require_array, write_arg_types, native_status, check_status, finish, prepare, cif}
use node_ffi.Callback.{Callback, callback_for}
use node_ffi.CallbackInfo.{
  Memory, Arguments, CodeBuffer, fill_info, prepare_closure, filled_closure, callback_method,
  closure_pointer_cb, made, collected, After, fresh, later,
}
use node_ffi.CallbackInfo.Owned.{hints, IsOwned, reach-IsOwned, callback_method-closure_pointer_cb}
use node_ffi.CallbackInfo.Called.{Handed, handed, IsClosure, new_closure, callback_for-IsClosure}
use node_ffi.Tests.Toy.{ToyBuf, toy, toy_libffi, toy_holds, no_closures}
use node_ffi.Tests.Scene.{scene, int32_type}
use node_ffi.Tests.Calls.{sum_cif}
use node_ffi.Tests.Callbacks.{closures, closure_of}

abbrev arguments : Arguments ToyBuf Handed
arguments = handed toy toy_libffi toy_holds sum_cif.buffer (some 4) 2 (closure_of 1)

abbrev Memories : Type 0
Memories = Memory ℕ Handed

abbrev one : Memories
one = (callback_method toy_libffi (some arguments) no_closures).1

abbrev two : Memories
two = (callback_method toy_libffi (some arguments) one).1

abbrev first : CodeBuffer
first = record { code = 3000; hint = 2000 }

abbrev second : CodeBuffer
second = record { code = 3016; hint = 2016 }

two-After : After toy_libffi no_closures (second ∷ first ∷ []) two
unfolding prepare_closure fill_info filled_closure callback_method
two-After =
    later (later fresh (made arguments first one (λ a code e. refl) refl))
      (made arguments second two (λ a code e. ground (arith, e)) refl)

abbrev one_left : Memories
one_left = closure_pointer_cb toy_libffi first two

left-After : After toy_libffi no_closures (second ∷ []) one_left
left-After = later two-After (collected first (second ∷ []) [] refl)

reach-IsOwned_example : IsOwned (one_left.infos 2016) (hints 2016 (second ∷ []))
reach-IsOwned_example =
    reach-IsOwned toy_libffi no_closures one_left (second ∷ []) 2016 (λ k. refl) left-After

callback_method-closure_pointer_cb_example :
    ((a : ℕ) → (closure_pointer_cb toy_libffi first one).infos a ≡ none)
    × ((closure_pointer_cb toy_libffi first one).callbacks ≡ 1)
unfolding prepare_closure fill_info filled_closure callback_method
callback_method-closure_pointer_cb_example =
    callback_method-closure_pointer_cb toy_libffi arguments no_closures one first (λ a code e. refl)
      refl

abbrev sum_code : Callback ToyBuf
sum_code = record { code = 3000; cif = sum_cif }

callback_for-IsClosure_example :
    IsClosure toy toy_holds 4 2
      (closure_of 1)
      3000
      scene
      (record scene { native = record (scene.native) { closures = one } })
unfolding ffi_type type_body shortcut complete require_array write_arg_types native_status
    check_status finish prepare cif callback_for new_closure prepare_closure fill_info
    filled_closure callback_method
callback_for-IsClosure_example =
    callback_for-IsClosure toy toy_libffi toy_holds closures 1 int32_type
      (int32_type ∷ int32_type ∷ []) undefined 1 scene scene
      (record scene { native = record (scene.native) { closures = one } }) sum_cif sum_code refl
      (λ a code e. refl) (omega arith) (omega arith) refl
