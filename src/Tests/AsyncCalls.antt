-- ===== src/Tests/AsyncCalls.antt =====
-- Asynchronous calls of two functions: the one at 500 returns, any other ends with the error at 66.
use node_ffi.Base.{
  ℕ, ◌+◌, ◌*◌, ◌≤◌, ◌<◌, ◌≡◌, refl, none, some, [], ◌∷◌, arith, ◌==◌, if◌then◌else◌,
}
use node_ffi.Value.{Ptr}
use node_ffi.AsyncCalls.{
  Request, AsyncCallParams, Outside, gone, Pool, new_params, caught, ffi_call_async, async_ffi_call,
  call_back, free_call, Advance, work, tell, finish, queue, advance, initial, Reach, fresh, later,
  Run, done, more,
}
use node_ffi.AsyncCalls.Kept.{Fits, reach-Fits}
use node_ffi.AsyncCalls.Ends.{run-settles}

abbrev outside : Outside ℕ
outside = record {
  ffi_call = λ cif fn res argv n. if fn == 500 then (none, n + 1) else (some 66, n);
  ffi_ok = 0;
  apply = λ k e n. n;
}

abbrev request : Ptr → Request
request fn = record { cif = 10; fn = fn; res = 20; argv = 30; callback = 7 }

abbrev one_call : Pool ℕ
unfolding ffi_call_async
one_call = (ffi_call_async outside (some (request 500)) (initial outside 0)).1

abbrev two_calls : Pool ℕ
unfolding ffi_call_async
two_calls = (ffi_call_async outside (some (request 600)) one_call).1

-- The second is run first, and its callback is called.
abbrev ran : Pool ℕ
unfolding ffi_call_async async_ffi_call
ran = async_ffi_call outside 1 (new_params outside (request 600)) two_calls

abbrev failed : AsyncCallParams
failed = caught (some 66) (new_params outside (request 600))

abbrev told_error : Pool ℕ
unfolding ffi_call_async async_ffi_call call_back
told_error = call_back outside 1 failed ran

reach-told_error : Reach outside 0 told_error
unfolding ffi_call_async async_ffi_call call_back
reach-told_error =
    later
      (later (later (later fresh (queue (some (request 500)))) (queue (some (request 600))))
        (advance (work 1 (new_params outside (request 600)) refl refl)))
      (advance (tell 1 failed refl refl refl))

reach-Fits_example :
    Fits outside (told_error.stage 1) (told_error.params 1) (told_error.ended 1) (told_error.told 1)
unfolding ffi_call_async async_ffi_call call_back
reach-Fits_example = reach-Fits outside (λ e. cc e) 0 told_error reach-told_error 1

error_told : told_error.told 1 ≡ some 66 ∷ []
unfolding ffi_call_async async_ffi_call call_back
error_told = refl

-- The first call alone, to its end.
abbrev settled : Pool ℕ
unfolding ffi_call_async async_ffi_call call_back free_call
settled =
    let p = new_params outside (request 500) in
    free_call outside 0 (call_back outside 0 p (async_ffi_call outside 0 p one_call))

reach-one_call : Reach outside 0 one_call
unfolding ffi_call_async
reach-one_call = later fresh (queue (some (request 500)))

run-settled : Run outside one_call 3 settled
unfolding ffi_call_async async_ffi_call call_back free_call
run-settled =
    let p = new_params outside (request 500) in
    more (more (more done (work 0 p refl refl)) (tell 0 p refl refl refl)) (finish 0 refl)

settled_stuck : (u : Pool ℕ) → ¬ Advance outside settled u
unfolding ffi_call_async async_ffi_call call_back free_call
settled_stuck u (work i p a m) = ground (arith, a)
settled_stuck u (tell i p b a m) = ground (arith, a)
settled_stuck u (finish i b) = cc b

run-settles_example :
    (3 ≤ 3 * 1) × ((i : ℕ) → i < 1 → settled.stage i ≡ gone) × (settled.callbacks ≡ 0)
unfolding ffi_call_async async_ffi_call call_back free_call
run-settles_example =
    run-settles outside (λ e. cc e) 0 one_call settled 3 reach-one_call run-settled settled_stuck
