-- ===== src/CallbackInfo/Called.antt =====
-- `Callback()` of lib/callback.js with the addon's `Callback`.
use node_ffi.Base.{
  ℕ, ◌+◌, ◌%◌, ◌<◌, ◌≡◌, true, ltb, lt→ltb, arith, if◌then◌else◌, refl, Option, none, some, List,
  map, length, ap, sym, ◌∙◌, set_at_self,
}
use node_ffi.Value.{Ptr, Value, object, Result, ok, thrown, overflow}
use node_ffi.World.{World, Js, size_of}
use node_ffi.Platform.{Platform}
use node_ffi.FfiType.{or_zero}
use node_ffi.Callback.{Closure, Closures, Callback, callback_for}
use node_ffi.Cif.{CifBuffer, cif}
use node_ffi.World.Bind.{bind-eq-ok, bind-ok, ok-injective}
use node_ffi.CallbackInfo.{
  CallbackInfo, Memory, Libffi, Arguments, CodeBuffer, new_info, callback_method,
}
use node_ffi.CallbackInfo.Effects.{IsFresh, callback_method-IsMade}

-- The functions that callback.js hands to the addon.
pub data Handed : Type 0 where
  error_report : Handed
  proxy : Closure → Handed

-- `Int32Value()`, as the bits of the two's complement
abbrev pub int32_bits : ℕ → ℕ
int32_bits n = n % 4294967296

-- and as a `size_t` of 64 bits, to which the sign is carried on
abbrev pub int32_as_size : ℕ → ℕ
int32_as_size n =
    if ltb (int32_bits n) 2147483648 then int32_bits n else int32_bits n + 18446744069414584320

int32_bits-small : (n : ℕ) → n < 2147483648 → int32_bits n ≡ n
int32_bits-small n h = omega (arith, h)

int32_as_size-small : (n : ℕ) → n < 2147483648 → int32_as_size n ≡ n
int32_as_size-small n h =
    let small : ltb n 2147483648 ≡ true = lt→ltb n 2147483648 h in
    rw (int32_bits-small n h) (rw small refl)

-- Where the memory of closures stands in the state of the process.
pub record Holds (N M : Type 0) : Type 0 where
  pub memory : N → Memory M Handed
  pub with_memory : Memory M Handed → N → N
  pub memory-with : (m : Memory M Handed) (n : N) → memory (with_memory m n) ≡ m

module _ (p : Platform) {M : Type 0} (l : Libffi M p.Buf) (holds : Holds p.Native M) where
  open p use {Buf, Native}

  abbrev code_of : Result CodeBuffer → Result Ptr
  code_of (ok b) = ok b.code
  code_of (thrown e) = thrown e
  code_of overflow = overflow

  -- The five arguments of `_Callback(cif, retType.size, argTypes.length, errorReportCallback, ...)` as
  -- the addon unpacks them, where no size is 0 as an integer.
  abbrev pub handed : Buf → Option ℕ → ℕ → Closure → Arguments Buf Handed
  handed cif size argc cl = record {
    cif = cif;
    result_size = int32_as_size (or_zero size);
    argc = int32_bits argc;
    error_report_callback = error_report;
    callback = proxy cl;
  }

  unfoldable pub new_closure : Buf → Option ℕ → ℕ → Closure → Js Native Ptr
  new_closure cif size argc cl w =
      let (r, m) = callback_method l (some (handed cif size argc cl)) (holds.memory w.native) in
      (code_of r, record w { native = holds.with_memory m w.native })

  code_of-eq-ok :
      (r : Result CodeBuffer) {q : Ptr}
      → code_of r ≡ ok q
      → (b : CodeBuffer) × (r ≡ ok b) × (b.code ≡ q)
  code_of-eq-ok (ok b) h = (b, refl, cc h)
  code_of-eq-ok (thrown e) h = cc h
  code_of-eq-ok overflow h = cc h

  -- A new closure, with a `callback_info` that has its code and its function.
  pub record IsHeld (cif : Buf) (size : Option ℕ) (argc : ℕ) (cl : Closure) (q : Ptr)
      (w w' : World Native) : Type 0 where
    pub hint : Ptr
    pub unused : (holds.memory w.native).infos hint ≡ none
    pub held : (holds.memory w'.native).infos hint ≡ some (new_info q (handed cif size argc cl))

  pub new_closure-IsHeld :
      (cif : Buf) (size : Option ℕ) (argc : ℕ) (cl : Closure) (q : Ptr) (w w' : World Native)
      → IsFresh l (holds.memory w.native)
      → new_closure cif size argc cl w ≡ (ok q, w')
      → IsHeld cif size argc cl q w w'
  unfolding new_closure
  new_closure-IsHeld cif size argc cl q w w' free h =
      let args = handed cif size argc cl in
      let m = holds.memory w.native in
      let (b, good, code) =
        code_of-eq-ok (callback_method l (some args) m).0
          (ap (λ (x : Result Ptr × World Native). x.0) h) in
      let m' = (callback_method l (some args) m).1 in
      let made = callback_method-IsMade l args m m' b free (λ i. (good i, m')) in
      let end : holds.memory w'.native ≡ m' =
        ap (λ (x : Result Ptr × World Native). holds.memory x.1.native) (sym h)
        ∙ holds.memory-with m' w.native in
      record {
        hint = b.hint;
        unused = made.free_before;
        held =
            ap (λ (x : Memory M Handed). x.infos b.hint) end
            ∙ (ap (λ (f : Ptr → Option (CallbackInfo Handed)). f b.hint) made.infos
                ∙ (set_at_self b.hint _ m.infos ∙ ap (λ (c : Ptr). some (new_info c args)) code));
      }

-- A new closure whose `callback_info` has the code that is returned, callback.js's function for errors in
-- the one place and the closure in the other, and the two numbers.
pub record IsClosure (p : Platform) {M : Type 0} (holds : Holds p.Native M) (result_size argc : ℕ)
    (cl : Closure) (q : Ptr) (w w' : World p.Native) : Type 0 where
  pub hint : Ptr
  pub unused : (holds.memory w.native).infos hint ≡ none
  pub info : CallbackInfo Handed
  pub held : (holds.memory w'.native).infos hint ≡ some info
  pub same_code : info.code ≡ q
  pub same_error_function : info.error_function ≡ error_report
  pub same_function : info.function ≡ some (proxy cl)
  pub same_result_size : info.result_size ≡ result_size
  pub same_argc : info.argc ≡ argc

-- The same with the addon's `Callback` behind it.
abbrev pub with_addon :
    (p : Platform) {M : Type 0} → Libffi M p.Buf → Holds p.Native M → Closures p → Closures p
with_addon p l holds c = record c { new_closure = new_closure p l holds }

-- Where `Callback()` returns for coerced types and a function, with the addon's `Callback` behind it,
-- memory of its own, which was not allocated before, holds the code that is returned, as its function
-- the closure of this function and these types, as its error function that of callback.js, the size
-- of the return type and the number of arguments; so long as `ffi_closure_alloc` gives memory that is
-- not in use, and both numbers fit in a signed integer of 32 bits.
pub callback_for-IsClosure :
    (p : Platform) {M : Type 0} (l : Libffi M p.Buf) (holds : Holds p.Native M) (c : Closures p)
    (fuel rtn : ℕ) (args : List ℕ) (abi : Value) (k : ℕ) (w before w' : World p.Native)
    (b : CifBuffer p.Buf) (cb : Callback p.Buf)
    → cif p fuel (object rtn) (some (map object args)) abi w ≡ (ok b, before)
    → IsFresh l (holds.memory before.native)
    → or_zero (size_of before rtn) < 2147483648
    → length args < 2147483648
    → callback_for p (with_addon p l holds c) fuel rtn args abi k w ≡ (ok cb, w')
    → IsClosure p holds
        (or_zero (size_of before rtn))
        (length args)
        (record { ret_type = rtn; arg_types = args; func = k })
        cb.code
        before
        w'
unfolding callback_for
callback_for-IsClosure p l holds c fuel rtn args abi k w before w' b cb made free small few h =
    let cl : Closure = record { ret_type = rtn; arg_types = args; func = k } in
    let call = new_closure p l holds b.buffer (size_of before rtn) (length args) cl in
    let rest =
      sym (bind-ok (cif p fuel (object rtn) (some (map object args)) abi) _ w before made) ∙ h in
    let s = bind-eq-ok call _ before rest in
    let code : s.value ≡ cb.code =
      ap (λ (x : Callback p.Buf). x.code)
        (ok-injective (ap (λ (x : Result (Callback p.Buf) × World p.Native). x.0) s.second)) in
    let end : s.world ≡ w' = ap (λ (x : Result (Callback p.Buf) × World p.Native). x.1) s.second in
    let made_of =
      new_closure-IsHeld p l holds b.buffer (size_of before rtn) (length args) cl cb.code before w'
        free (s.first ∙ λ i. (ok (code i), end i)) in
    record {
      hint = made_of.hint;
      unused = made_of.unused;
      info = new_info cb.code (handed p l holds b.buffer (size_of before rtn) (length args) cl);
      held = made_of.held;
      same_code = refl;
      same_error_function = refl;
      same_function = refl;
      same_result_size = int32_as_size-small (or_zero (size_of before rtn)) small;
      same_argc = int32_bits-small (length args) few;
    }
