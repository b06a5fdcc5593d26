-- ===== src/CallbackInfo.antt =====
-- src/callback_info.cc: the memory of the closures that the addon makes for `Callback()`.
pub mod Effects
pub mod Owned
pub mod Called
use node_ffi.Base.{
  ℕ, ◌+◌, ◌-◌, ◌≡◌, Option, none, some, List, [], ◌∷◌, ◌++◌, ◌==◌, if◌then◌else◌, set_at,
}
use node_ffi.Value.{Ptr, Failure, failure, Kind.plain_error, Message.text, Result, ok, thrown}

-- A `callback_info`. `function` is what the pointer to the `Nan::Callback` leads to, `none` for NULL;
-- `F` are the JavaScript functions.
pub record CallbackInfo (F : Type 0) : Type 0 where
  pub code : Ptr
  pub error_function : F
  pub function : Option F
  pub argc : ℕ
  pub result_size : ℕ

-- `infos` has what stands in memory that `ffi_closure_alloc` gave and that was not freed since.
-- `callbacks` is the number of `Nan::Callback`s that were made and not deleted. `native` is the state of
-- libffi.
pub record Memory (N F : Type 0) : Type 0 where
  pub infos : Ptr → Option (CallbackInfo F)
  pub callbacks : ℕ
  pub native : N

-- libffi: `ffi_closure_alloc` gives two addresses or NULL, for data and for code;
-- `ffi_prep_closure_loc` gets the first, the cif `C` and the second, and gives a status.
pub record Libffi (N C : Type 0) : Type 0 where
  pub closure_alloc : N → Option (Ptr × Ptr) × N
  pub prep_closure_loc : Ptr → C → Ptr → N → ℕ × N
  pub closure_free : Ptr → N → N
  pub ffi_ok : ℕ

-- The arguments of `Callback`, once unpacked.
pub record Arguments (C F : Type 0) : Type 0 where
  pub cif : C
  pub result_size : ℕ
  pub argc : ℕ
  pub error_report_callback : F
  pub callback : F

abbrev pub not_enough : Failure
not_enough = failure plain_error (text "Not enough arguments.")

abbrev pub alloc_error : Failure
alloc_error = failure plain_error (text "ffi_closure_alloc() Returned Error")

-- The macro leaves the status out.
abbrev pub prep_error : Failure
prep_error = failure plain_error (text "ffi_prep_closure() Returned Error")

-- The Buffer that is returned: the code, and the `callback_info` that its finalizer gets.
pub record CodeBuffer : Type 0 where
  pub code : Ptr
  pub hint : Ptr

abbrev pub new_info : {C F : Type 0} → Ptr → Arguments C F → CallbackInfo F
new_info code args = record {
  code = code;
  error_function = args.error_report_callback;
  function = some args.callback;
  argc = args.argc;
  result_size = args.result_size;
}

-- `delete` of NULL does nothing.
abbrev pub deleted : {F : Type 0} → Option F → ℕ
deleted none = 0
deleted (some f) = 1

module _ {N C F : Type 0} (l : Libffi N C) where
  -- `ffi_closure_free(info)`
  unfoldable pub free_info : Ptr → Memory N F → Memory N F
  free_info a m = record m { infos = set_at a none m.infos; native = l.closure_free a m.native }

  -- The fields of a new `callback_info`, with two new `Nan::Callback`s.
  unfoldable pub fill_info : Ptr → Ptr → Arguments C F → Memory N F → Memory N F
  fill_info a code args m = record m {
    infos = set_at a (some (new_info code args)) m.infos;
    callbacks = m.callbacks + 2;
  }

  -- From `ffi_prep_closure_loc` on.
  unfoldable pub prepare_closure : Ptr → Ptr → C → Memory N F → Result CodeBuffer × Memory N F
  prepare_closure a code cif m =
      let (status, n) = l.prep_closure_loc a cif code m.native in
      let prepared : Memory N F = record m { native = n } in
      if status == l.ffi_ok
      then (ok (record { code = code; hint = a }), prepared)
      else (thrown prep_error, free_info a prepared)

  unfoldable pub filled_closure :
      Arguments C F → Option (Ptr × Ptr) → Memory N F → Result CodeBuffer × Memory N F
  filled_closure args none m = (thrown alloc_error, m)
  filled_closure args (some (a, code)) m = prepare_closure a code args.cif (fill_info a code args m)

  -- `CallbackInfo::Callback`, where `none` is another number of arguments than five
  unfoldable pub callback_method :
      Option (Arguments C F) → Memory N F → Result CodeBuffer × Memory N F
  callback_method none m = (thrown not_enough, m)
  callback_method (some args) m =
      let (block, n) = l.closure_alloc m.native in
      filled_closure args block (record m { native = n })

  -- `delete info->function` and `info->function = NULL`
  unfoldable pub clear_function : Ptr → Memory N F → Memory N F
  clear_function a m = elim (m.infos a) [
    | none ↦ m
    | some i ↦ record m {
      infos = set_at a (some (record i { function = none })) m.infos;
      callbacks = m.callbacks - deleted i.function;
    }
  ]

  -- `closure_pointer_cb`, the finalizer of the Buffer
  unfoldable pub closure_pointer_cb : CodeBuffer → Memory N F → Memory N F
  closure_pointer_cb b m = free_info b.hint (clear_function b.hint m)

  -- What the code does from a state with these Buffers alive: a call of `Callback`, whatever it returns,
  -- and the end of a Buffer. Memory that `ffi_closure_alloc` gives is not allocated before.
  pub data Event (buffers : List CodeBuffer) (m : Memory N F)
      : List CodeBuffer → Memory N F → Type 0 where
    made :
        (args : Arguments C F) (b : CodeBuffer) (m' : Memory N F)
        → ((a code : Ptr) → (l.closure_alloc m.native).0 ≡ some (a, code) → m.infos a ≡ none)
        → callback_method (some args) m ≡ (ok b, m')
        → Event buffers m (b ∷ buffers) m'
    failed :
        (args : Option (Arguments C F)) (e : Failure) (m' : Memory N F)
        → ((a code : Ptr) → (l.closure_alloc m.native).0 ≡ some (a, code) → m.infos a ≡ none)
        → callback_method args m ≡ (thrown e, m')
        → Event buffers m buffers m'
    collected :
        (b : CodeBuffer) (before after : List CodeBuffer)
        → buffers ≡ before ++ b ∷ after
        → Event buffers m (before ++ after) (closure_pointer_cb b m)

  -- What is reached from a process without closures.
  pub data After (start : Memory N F) : List CodeBuffer → Memory N F → Type 0 where
    fresh : After start [] start
    later :
        {bs cs : List CodeBuffer} {m m' : Memory N F}
        → After start bs m
        → Event bs m cs m'
        → After start cs m'
