-- ===== src/ForeignFunction/Async.antt =====
-- An asynchronous call, and what the event loop makes of it.
use node_ffi.Base.{
  ℕ, ◌+◌, ◌≡◌, refl, ◌↔◌, true, List, [], ◌∷◌, ◌++◌, arith, length, length-append, sym, ap, subst,
  ◌∙◌, ◌==◌,
}
use mathlib.Core.Path.{fun_ext}
use node_ffi.Value.{Ptr, Value, Failure, func, Result, ok, thrown, overflow}
use node_ffi.World.{World, Js, continue, ◌>>=◌, pure}
use node_ffi.World.Bind.{bind_assoc}
use node_ffi.Platform.{Platform}
use node_ffi.ForeignFunction.{
  Proxy, Task, Invocation, rethrow_as, at_argument, to_task, after_call, with_error, with_value,
  marshal, new_args, invoke, call, last_arg, schedule, with_callback, call_async, run_task,
}
use node_ffi.ForeignFunction.Sync.{call_of_count}

-- The run does not throw.
pub IsQuiet : {A : Type 0} → Result A → Type 0
IsQuiet (thrown e) = ⊥
IsQuiet _ = Unit

last_arg-append : (args : List Value) (v : Value) → last_arg (args ++ v ∷ []) ≡ v
last_arg-append [] v = refl
last_arg-append (a ∷ []) v = refl
last_arg-append (a ∷ b ∷ args) v = last_arg-append (b ∷ args) v

module _ (p : Platform) where
  open p use {Buf, Native}

  -- The loop does not look at the callback behind the arguments.
  marshal-append :
      (types : List ℕ) (args more : List Value) (i : ℕ) (b : Buf) (w : World Native)
      → length args ≡ length types
      → marshal p types (args ++ more) i b w ≡ marshal p types args i b w
  unfolding marshal
  marshal-append [] args more i b w e = refl
  marshal-append (t ∷ types) [] more i b w e = absurd (omega arith)
  marshal-append (t ∷ types) (a ∷ args) more i b w e =
      ap (λ (f : Ptr → Js Native Buf). ((rethrow_as (at_argument i) (p.alloc t a)) >>= f) w)
        (fun_ext λ q. fun_ext λ v. marshal-append types args more (i + 1) _ v (omega arith))

  -- What both kinds of call do up to the return of the function: the arguments are put to storage, and
  -- the function fills the Buffer for its result.
  abbrev pub fill_result : Proxy Buf → List Value → Js Native Buf
  fill_result f args = marshal p f.arg_types args 0 (new_args p f) >>= λ b.
      p.ffi_call f.cif.buffer f.func_ptr (p.new_buffer f.result_size) b

  abbrev read_result : Proxy Buf → Buf → Js Native Value
  read_result f b = p.deref b f.return_type

  -- The result was read, and the reading threw.
  pub record CannotRead (f : Proxy Buf) (args : List Value) (w w' : World Native) (e : Failure)
      : Type 0 where
    pub filled : Buf
    pub returned : World Native
    pub ran : fill_result f args w ≡ (ok filled, returned)
    pub read : read_result f filled returned ≡ (thrown e, w')

  run-to_task :
      (f : Proxy Buf) (k : ℕ) (r : Result Buf) (w : World Native)
      → let next : Buf → Js Native Buf =
          λ b. p.ffi_call f.cif.buffer f.func_ptr (p.new_buffer f.result_size) b in
        let x : Result Buf × World Native = continue r next w in
        (to_task p f k r >>= run_task p) w ≡ after_call p f k x.0 x.1
  unfolding to_task run_task after_call
  run-to_task f k (ok b) w = refl
  run-to_task f k (thrown e) w = refl
  run-to_task f k overflow w = refl

  call-filled :
      (f : Proxy Buf) (args : List Value) (w : World Native)
      → length args ≡ length f.arg_types
      → call p f args w ≡ (fill_result f args >>= read_result f) w
  unfolding invoke
  call-filled f args w e =
      call_of_count p f args w e
      ∙ sym (
          bind_assoc (marshal p f.arg_types args 0 (new_args p f))
            (λ b. p.ffi_call f.cif.buffer f.func_ptr (p.new_buffer f.result_size) b) (read_result f)
            w)

  call_async_of :
      (f : Proxy Buf) (args : List Value) (k : ℕ) (w : World Native)
      → length args ≡ length f.arg_types
      → call_async p f (args ++ func k ∷ []) w
        ≡ (let (r, w') = marshal p f.arg_types args 0 (new_args p f) w in to_task p f k r w')
  unfolding call_async with_callback schedule
  call_async_of f args k w e =
      let count : (length (args ++ func k ∷ []) == length f.arg_types + 1) ≡ true =
        ground (arith, length-append args (func k ∷ [])) in
      rw (count, last_arg-append args (func k))
        (ap (λ (x : Result Buf × World Native). to_task p f k x.0 x.1)
          (marshal-append f.arg_types args (func k ∷ []) 0 (new_args p f) w e))

  async_run :
      (f : Proxy Buf) (args : List Value) (k : ℕ) (w : World Native)
      → length args ≡ length f.arg_types
      → (call_async p f (args ++ func k ∷ []) >>= run_task p) w
        ≡ after_call p f k (fill_result f args w).0 (fill_result f args w).1
  async_run f args k w e =
      ap (λ (x : Result (Task Buf) × World Native). continue x.0 (run_task p) x.1)
        (call_async_of f args k w e)
      ∙ run-to_task f k (marshal p f.arg_types args 0 (new_args p f) w).0
          (marshal p f.arg_types args 0 (new_args p f) w).1

  abbrev tell : ℕ → Value → Js Native Invocation
  tell k v = pure (with_value k v)

  -- A run that is an outcome and a state.
  abbrev Is : {A : Type 0} → Result A × World Native → Result A → World Native → Type 0
  Is {A} x r w = x ≡ (r, w)

  tell-value :
      (k j : ℕ) (r : Result Value) (w w' : World Native) (v : Value)
      → Is (continue r (tell k) w) (ok (with_value j v)) w' ↔ ((j ≡ k) × Is (r, w) (ok v) w')
  tell-value k j (ok u) w w' v = (λ h. (cc h, cc h), λ h. let a = h.0 in let b = h.1 in cc (a, b))
  tell-value k j (thrown e) w w' v = (λ h. cc h, λ h. cc h.1)
  tell-value k j overflow w w' v = (λ h. cc h, λ h. cc h.1)

  tell-error :
      (k j : ℕ) (r : Result Value) (w w' : World Native) (e : Failure)
      → ¬ Is (continue r (tell k) w) (ok (with_error j e)) w'
  tell-error k j (ok u) w w' e = λ h. cc h
  tell-error k j (thrown x) w w' e = λ h. cc h
  tell-error k j overflow w w' e = λ h. cc h

  tell-thrown :
      (k : ℕ) (r : Result Value) (w w' : World Native) (e : Failure)
      → Is (continue r (tell k) w) (thrown e) w' ↔ Is (r, w) (thrown e) w'
  tell-thrown k (ok u) w w' e = (λ h. cc h, λ h. cc h)
  tell-thrown k (thrown x) w w' e = (λ h. cc h, λ h. cc h)
  tell-thrown k overflow w w' e = (λ h. cc h, λ h. cc h)

  after-value :
      (f : Proxy Buf) (k j : ℕ) (r : Result Buf) (w w' : World Native) (v : Value)
      → Is (after_call p f k r w) (ok (with_value j v)) w'
        ↔ ((j ≡ k) × Is (continue r (read_result f) w) (ok v) w')
  unfolding after_call
  after-value f k j (ok b) w w' v = tell-value k j (read_result f b w).0 (read_result f b w).1 w' v
  after-value f k j (thrown e) w w' v = (λ h. cc h, λ h. cc h.1)
  after-value f k j overflow w w' v = (λ h. cc h, λ h. cc h.1)

  after-error :
      (f : Proxy Buf) (k j : ℕ) (r : Result Buf) (w w' : World Native) (e : Failure)
      → Is (after_call p f k r w) (ok (with_error j e)) w' ↔ ((j ≡ k) × Is (r, w) (thrown e) w')
  unfolding after_call
  after-error f k j (ok b) w w' e =
      (λ h. absurd (tell-error k j (read_result f b w).0 (read_result f b w).1 w' e h), λ h. cc h.1)
  after-error f k j (thrown x) w w' e =
      (λ h. (cc h, cc h), λ h. let a = h.0 in let b = h.1 in cc (a, b))
  after-error f k j overflow w w' e = (λ h. cc h, λ h. cc h.1)

  after-thrown :
      (f : Proxy Buf) (args : List Value) (k : ℕ) (r : Result Buf) (w u w' : World Native)
      (e : Failure)
      → Is (fill_result f args w) r u
      → Is (after_call p f k r u) (thrown e) w' ↔ CannotRead f args w w' e
  unfolding after_call
  after-thrown f args k (ok b) w u w' e h =
      let t = tell-thrown k (read_result f b u).0 (read_result f b u).1 w' e in
      (
        λ g. record { filled = b; returned = u; ran = h; read = t.0 g },
        λ c.
            let same = sym h ∙ c.ran in
            let found : b ≡ c.filled = cc same in
            let state : u ≡ c.returned = cc same in
            t.1 ((λ i. read_result f (found i) (state i)) ∙ c.read),
      )
  after-thrown f args k (thrown x) w u w' e h =
      (λ g. cc g, λ c. let same = sym h ∙ c.ran in cc same)
  after-thrown f args k overflow w u w' e h = (λ g. cc g, λ c. let same = sym h ∙ c.ran in cc same)

  IsQuiet-to_task :
      (f : Proxy Buf) (k : ℕ) (r : Result Buf) (w : World Native) → IsQuiet (to_task p f k r w).0
  unfolding IsQuiet to_task
  IsQuiet-to_task f k (ok b) w = tt
  IsQuiet-to_task f k (thrown e) w = tt
  IsQuiet-to_task f k overflow w = tt

-- How an asynchronous call ends, after the event loop has run its task with nothing in between: a
-- callback is called with a value, a callback is called with an error, or the run throws.
pub record IsSettled (p : Platform) (f : Proxy p.Buf) (args : List Value) (k : ℕ)
    (w : World p.Native) (x : Result Invocation × World p.Native) (w' : World p.Native) (j : ℕ)
    (v : Value) (e : Failure) : Type 0 where
  pub value : (x ≡ (ok (with_value j v), w')) ↔ ((j ≡ k) × (call p f args w ≡ (ok v, w')))
  pub error :
      (x ≡ (ok (with_error j e), w')) ↔ ((j ≡ k) × (fill_result p f args w ≡ (thrown e, w')))
  pub throws : (x ≡ (thrown e, w')) ↔ CannotRead p f args w w' e

-- An asynchronous call with the right number of arguments and a callback behind them throws nothing
-- itself. Once the event loop has run its task with nothing in between, that callback and no other
-- has been called with a value exactly when the synchronous call returns the value, in the same state,
-- and with an error exactly when an argument could not be stored or the function failed with this
-- error, in the state that this left. The run throws, and calls no callback, exactly when the result
-- cannot be read.
pub call_async-eq-call :
    (p : Platform) (f : Proxy p.Buf) (args : List Value) (k : ℕ) (w w' : World p.Native) (j : ℕ)
    (v : Value) (e : Failure)
    → length args ≡ length f.arg_types
    → IsSettled p f args k w ((call_async p f (args ++ func k ∷ []) >>= run_task p) w) w' j v e
      × IsQuiet (call_async p f (args ++ func k ∷ []) w).0
call_async-eq-call p f args k w w' j v e n =
    let x = fill_result p f args w in
    let run = async_run p f args k w n in
    let value = after-value p f k j x.0 x.1 w' v in
    let error = after-error p f k j x.0 x.1 w' e in
    let throws = after-thrown p f args k x.0 w x.1 w' e refl in
    let whole = call-filled p f args w n in
    (
      record {
        value = (
          λ h. let (same, c) = value.0 (sym run ∙ h) in (same, whole ∙ c),
          λ h. run ∙ value.1 (h.0, sym whole ∙ h.1),
        );
        error = (λ h. error.0 (sym run ∙ h), λ h. run ∙ error.1 h);
        throws = (λ h. throws.0 (sym run ∙ h), λ h. run ∙ throws.1 h);
      },
      subst (λ (y : Result (Task p.Buf) × World p.Native). IsQuiet y.0)
          (sym (call_async_of p f args k w n))
          (IsQuiet-to_task p f k (marshal p f.arg_types args 0 (new_args p f) w).0
            (marshal p f.arg_types args 0 (new_args p f) w).1),
    )
