-- ===== src/AsyncCalls.antt =====
-- src/ffi.cc: `ffi_call_async`, which calls a C function on the thread pool of libuv and then a
-- callback on the event loop.
pub mod Kept
pub mod Ends
use node_ffi.Base.{
  ℕ, suc, ◌+◌, ◌-◌, ◌≡◌, Bool, Option, none, some, List, [], ◌∷◌, ◌++◌, ◌==◌, if◌then◌else◌, set_at,
}
use node_ffi.Value.{
  Ptr, null_ptr, Failure, failure, Kind.plain_error, Message.text, Result, ok, thrown,
}

-- The arguments of `ffi_call_async`, once unpacked.
pub record Request : Type 0 where
  pub cif : Ptr
  pub fn : Ptr
  pub res : Ptr
  pub argv : Ptr
  pub callback : ℕ

-- `AsyncCallParams`
pub record AsyncCallParams : Type 0 where
  pub result : ℕ
  pub err : Ptr
  pub cif : Ptr
  pub fn : Ptr
  pub res : Ptr
  pub argv : Ptr
  pub callback : ℕ

-- libffi's `ffi_call`, which gives the Objective-C error that ended it, if one did; its `FFI_OK`; and
-- what a JavaScript function does when it is called with null or with a pointer to an error.
pub record Outside (N : Type 0) : Type 0 where
  pub ffi_call : (cif fn res argv : Ptr) → N → Option Ptr × N
  pub ffi_ok : ℕ
  pub apply : ℕ → Option Ptr → N → N

-- `#define FFI_ASYNC_ERROR (ffi_status)1`
abbrev pub ffi_async_error : ℕ
ffi_async_error = 1

-- Where a call is: with the thread pool, back from it, in its callback, and past that.
pub data Stage : Type 0 where
  absent queued worked calling gone : Stage

-- `params` is the memory of the calls, which are numbered in the order in which they were queued:
-- `none` before it is allocated and after it is freed. `callbacks` is the number of `Nan::Callback`s that
-- were made and not deleted. `busy` is the call whose callback runs. `ended` and `told` record how
-- `ffi_call` ended, and what the callback was called with, the oldest first.
pub record Pool (N : Type 0) : Type 0 where
  pub calls : ℕ
  pub stage : ℕ → Stage
  pub params : ℕ → Option AsyncCallParams
  pub callbacks : ℕ
  pub busy : Option ℕ
  pub native : N
  pub ended : ℕ → Option (Option Ptr)
  pub told : ℕ → List (Option Ptr)

abbrev pub wrong_count : Failure
wrong_count = failure plain_error (text "ffi_call_async() requires 5 arguments!")

-- `catch (id ex)`
abbrev pub caught : Option Ptr → AsyncCallParams → AsyncCallParams
caught none p = p
caught (some ex) p = record p { result = ffi_async_error; err = ex }

module _ {N : Type 0} (o : Outside N) where
  -- `new AsyncCallParams()`, which sets `err` to NULL, with the assignments that follow
  abbrev pub new_params : Request → AsyncCallParams
  new_params r = record {
    result = o.ffi_ok;
    err = null_ptr;
    cif = r.cif;
    fn = r.fn;
    res = r.res;
    argv = r.argv;
    callback = r.callback;
  }

  -- `FFICallAsync`, where `none` is another number of arguments than five
  unfoldable pub ffi_call_async : Option Request → Pool N → Result Unit × Pool N
  ffi_call_async none s = (thrown wrong_count, s)
  ffi_call_async (some r) s = (
    ok tt,
    record s {
      calls = suc s.calls;
      stage = set_at s.calls queued s.stage;
      params = set_at s.calls (some (new_params r)) s.params;
      callbacks = s.callbacks + 1;
    },
  )

  -- `AsyncFFICall` for the call `i`, whose memory holds `p`
  unfoldable pub async_ffi_call : ℕ → AsyncCallParams → Pool N → Pool N
  async_ffi_call i p s =
      let (ex, n) = o.ffi_call p.cif p.fn p.res p.argv s.native in
      record s {
        stage = set_at i worked s.stage;
        params = set_at i (some (caught ex p)) s.params;
        native = n;
        ended = set_at i (some ex) s.ended;
      }

  -- `argv[0]`: null, or a pointer to the error
  abbrev pub error_argument : AsyncCallParams → Option Ptr
  error_argument p = if p.result == o.ffi_ok then none else some p.err

  -- `FinishAsyncFFICall`, to the call of the callback
  unfoldable pub call_back : ℕ → AsyncCallParams → Pool N → Pool N
  call_back i p s = record s {
    stage = set_at i calling s.stage;
    busy = some i;
    native = o.apply p.callback (error_argument p) s.native;
    told = set_at i (s.told i ++ error_argument p ∷ []) s.told;
  }

  -- and from there on: the callback and the memory are deleted
  unfoldable pub free_call : ℕ → Pool N → Pool N
  free_call i s = record s {
    stage = set_at i gone s.stage;
    params = set_at i none s.params;
    callbacks = s.callbacks - 1;
    busy = none;
  }

  -- A step by which a call that was queued goes on: the pool takes calls in any order, and the event
  -- loop those that are back, one after the other.
  pub data Advance (s : Pool N) : Pool N → Type 0 where
    work :
        (i : ℕ) (p : AsyncCallParams)
        → s.stage i ≡ queued
        → s.params i ≡ some p
        → Advance s (async_ffi_call i p s)
    tell :
        (i : ℕ) (p : AsyncCallParams)
        → s.busy ≡ none
        → s.stage i ≡ worked
        → s.params i ≡ some p
        → Advance s (call_back i p s)
    finish : (i : ℕ) → s.busy ≡ some i → Advance s (free_call i s)

  -- JavaScript, a callback's too, may queue a call at any time.
  pub data Step (s : Pool N) : Pool N → Type 0 where
    queue : (r : Option Request) → Step s (ffi_call_async r s).1
    advance : {t : Pool N} → Advance s t → Step s t

  abbrev pub initial : N → Pool N
  initial n = record {
    calls = 0;
    stage = λ i. absent;
    params = λ i. none;
    callbacks = 0;
    busy = none;
    native = n;
    ended = λ i. none;
    told = λ i. [];
  }

  pub data Reach (n : N) : Pool N → Type 0 where
    fresh : Reach n (initial n)
    later : {s t : Pool N} → Reach n s → Step s t → Reach n t

  -- A number of steps without another call.
  pub data Run (s : Pool N) : ℕ → Pool N → Type 0 where
    done : Run s 0 s
    more : {k : ℕ} {t u : Pool N} → Run s k t → Advance t u → Run s (suc k) u
