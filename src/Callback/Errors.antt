-- ===== src/Callback/Errors.antt =====
-- A call from C that fails.
use node_ffi.Base.{
  ◌≡◌, refl, Bool, true, false, none, some, List, arith, length, ap, ◌∙◌, str_eq, ◌==◌,
  if◌then◌else◌,
}
use node_ffi.Value.{
  Ptr, Value, undefined, null, boolean, number, string, buffer, func, object, Failure, failure,
  Result, ok, thrown, Kind.plain_error, Message.text,
}
use node_ffi.World.{World}
use node_ffi.World.Bind.{bind-ok, bind-thrown}
use node_ffi.Platform.{Platform}
use node_ffi.FfiType.Slots.{ReadsAs}
use node_ffi.Cif.ArgTypes.{each}
use node_ffi.ForeignFunction.Blame.{rethrow-thrown}
use node_ffi.Callback.{
  Closure, Closures, failed, Dispatched, threw, reported, ignored, error, at_return,
  error_report_callback, read_args, serve, to_outcome, closure_call, hand_over, dispatch_to_v8,
}
use node_ffi.Callback.Served.{arg_at, with_pointers, read_args-eq-each}

module _ (p : Platform) (c : Closures p) (cl : Closure) (retval : p.Buf) (qs : List Ptr)
    (w : World p.Native) where
  open p use {Buf, Native}

  -- What can fail, the error that comes of it, and the state it leaves: an argument cannot be read;
  -- the user's function throws; or what it returned cannot be written, which the message then says.
  pub data Fails : Failure → World Native → Type 0 where
    bad_argument :
        {e : Failure} {w' : World Native}
        → each (arg_at p c) (with_pointers cl.arg_types qs) w ≡ (thrown e, w')
        → Fails e w'
    bad_call :
        {args : List Value} {e : Failure} {w1 w' : World Native}
        → each (arg_at p c) (with_pointers cl.arg_types qs) w ≡ (ok args, w1)
        → c.apply cl.func args w1 ≡ (thrown e, w')
        → Fails e w'
    bad_result :
        {args : List Value} {result : Value} {e : Failure} {w1 w2 w' : World Native}
        → each (arg_at p c) (with_pointers cl.arg_types qs) w ≡ (ok args, w1)
        → c.apply cl.func args w1 ≡ (ok result, w2)
        → c.set retval result cl.ret_type w2 ≡ (thrown e, w')
        → Fails (at_return e) w'

  serve-thrown :
      (params : Buf) (e : Failure) (w' : World Native)
      → length qs ≡ length cl.arg_types
      → ReadsAs p params 0 qs
      → Fails e w'
      → serve p c cl retval params w ≡ (thrown e, w')
  unfolding serve
  serve-thrown params e w' n r (bad_argument h) =
      bind-thrown (read_args p c cl.arg_types 0 params) _ w _
        (read_args-eq-each p c cl.arg_types qs 0 params w n r ∙ h)
  serve-thrown params e w' n r (bad_call {args = args} {w1 = w1} h k) =
      bind-ok (read_args p c cl.arg_types 0 params) _ w w1
        (read_args-eq-each p c cl.arg_types qs 0 params w n r ∙ h)
      ∙ bind-thrown (c.apply cl.func args) _ w1 w' k
  serve-thrown params e w' n r
        (bad_result {args = args} {result = result} {w1 = w1} {w2 = w2} h k l) =
      bind-ok (read_args p c cl.arg_types 0 params) _ w w1
        (read_args-eq-each p c cl.arg_types qs 0 params w n r ∙ h)
      ∙ (bind-ok (c.apply cl.func args) _ w1 w2 k
          ∙ rethrow-thrown p at_return (c.set retval result cl.ret_type) w2 w' l)

  handed :
      (params : Buf) (e : Failure) (w' : World Native) (dispatched : Bool)
      → serve p c cl retval params w ≡ (thrown e, w')
      → dispatch_to_v8 p c (some cl) retval params dispatched w
        ≡ (ok (hand_over p c dispatched (failed e)), w')
  unfolding dispatch_to_v8 closure_call to_outcome
  handed params e w' dispatched h =
      bind-ok (closure_call p c cl retval params) _ w w'
        (ap (λ (x : Result Buf × World Native). to_outcome p c x.0 x.1) h)

-- What becomes of a thrown value: `undefined` is taken for no error. On the main thread any other is
-- thrown again. From another thread it is thrown on a later tick, a text as an Error of its own, but a
-- value that counts as false is lost.
abbrev pub arrives : {B : Type 0} → Value → Failure → (dispatched : Bool) → Dispatched B
arrives undefined e d = ignored
arrives v e false = threw (error e)
arrives null e true = reported none
arrives (boolean false) e true = reported none
arrives (boolean true) e true = reported (some e)
arrives (number n) e true = reported (if n == 0 then none else some e)
arrives (string s) e true =
    reported (if str_eq s "" then none else some (failure plain_error (text s)))
arrives v e true = reported (some e)

module _ (p : Platform) (c : Closures p) where
  open p use {Buf}

  hand_over-arrives :
      (v : Value) (e : Failure) (dispatched : Bool)
      → c.thrown_value e ≡ v
      → hand_over p c dispatched (failed e) ≡ arrives v e dispatched
  unfolding hand_over error_report_callback
  hand_over-arrives undefined e d h = rw h refl
  hand_over-arrives null e true h = rw h refl
  hand_over-arrives null e false h = rw h refl
  hand_over-arrives (boolean true) e true h = rw h refl
  hand_over-arrives (boolean false) e true h = rw h refl
  hand_over-arrives (boolean b) e false h = rw h refl
  hand_over-arrives (number n) e true h = rw h (ground arith)
  hand_over-arrives (number n) e false h = rw h refl
  hand_over-arrives (string s) e true h = rw h (ground arith)
  hand_over-arrives (string s) e false h = rw h refl
  hand_over-arrives (buffer q) e true h = rw h refl
  hand_over-arrives (buffer q) e false h = rw h refl
  hand_over-arrives (func k) e true h = rw h refl
  hand_over-arrives (func k) e false h = rw h refl
  hand_over-arrives (object k) e true h = rw h refl
  hand_over-arrives (object k) e false h = rw h refl

-- Where an argument cannot be read, the user's function throws, or its value cannot be written, what
-- was thrown goes where its value lets it. `undefined` is taken for no error. Any other value is, on the
-- main thread, thrown to the code that called C. From another thread an Error is thrown on a later
-- tick, and so is any value but a text, which an Error with the text replaces, and a value that
-- counts as false, which is lost. The error of a value that cannot be written has words that say so
-- before its text.
pub dispatch_to_v8-throws :
    (p : Platform) (c : Closures p) (cl : Closure) (retval params : p.Buf) (qs : List Ptr)
    (w w' : World p.Native) (e : Failure) (dispatched : Bool)
    → length qs ≡ length cl.arg_types
    → ReadsAs p params 0 qs
    → Fails p c cl retval qs w e w'
    → dispatch_to_v8 p c (some cl) retval params dispatched w
      ≡ (ok (arrives (c.thrown_value e) e dispatched), w')
dispatch_to_v8-throws p c cl retval params qs w w' e dispatched n r f =
    handed p c cl retval qs w params e w' dispatched
      (serve-thrown p c cl retval qs w params e w' n r f)
    ∙ ap
        (λ (x : Dispatched p.Buf).
          let y : Result (Dispatched p.Buf) × World p.Native = (ok x, w') in y)
        (hand_over-arrives p c (c.thrown_value e) e dispatched refl)
