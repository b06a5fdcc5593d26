-- ===== src/ForeignFunction/Blame.antt =====
-- The errors of a call: a wrong number of arguments, and an argument that cannot be stored.
use node_ffi.Base.{
  ℕ, ◌+◌, ◌*◌, ◌≡◌, ◌≢◌, List, [], ◌∷◌, ◌++◌, arith, length, length-append, ap, ◌∙◌, ◌==◌, false,
}
use node_ffi.Value.{
  Ptr, Value, Failure, Result, ok, thrown, failure, Kind.type_error, Message.argument_count,
}
use node_ffi.World.{World, Js}
use node_ffi.World.Bind.{bind-eq-ok, bind-ok, bind-thrown}
use node_ffi.Platform.{Platform}
use node_ffi.Cif.ArgTypes.{each}
use node_ffi.ForeignFunction.{Proxy, rethrow_as, at_argument, marshal, new_args, call, call_async}
use node_ffi.ForeignFunction.Marshal.{rethrow-ok, with_args, alloc_pair}
use node_ffi.ForeignFunction.Sync.{call_of_count, call_of_miscount}

module _ (p : Platform) where
  open p use {Buf, Native}

  pub rethrow-thrown :
      {A : Type 0} (f : Failure → Failure) (m : Js Native A) (w w' : World Native) {e : Failure}
      → m w ≡ (thrown e, w')
      → rethrow_as f m w ≡ (thrown (f e), w')
  rethrow-thrown f m w w' h =
      ap (λ (x : Result _ × World Native). rethrow_as f (λ (y : World Native). x) w) h

  -- The arguments before are stored, and the next one throws.
  marshal-blames :
      (pre post : List ℕ) (t : ℕ) (apre apost : List Value) (v : Value) (i : ℕ) (b : Buf)
      (w w1 w2 : World Native) (qs : List Ptr) (e : Failure)
      → length apre ≡ length pre
      → each (alloc_pair p) (with_args pre apre) w ≡ (ok qs, w1)
      → p.alloc t v w1 ≡ (thrown e, w2)
      → marshal p (pre ++ t ∷ post) (apre ++ v ∷ apost) i b w
        ≡ (thrown (at_argument (i + length pre) e), w2)
  unfolding marshal each with_args
  marshal-blames [] post t [] apost v i b w w1 w2 qs e n h k =
      let here : w ≡ w1 = ap (λ (x : Result (List Ptr) × World Native). x.1) h in
      let failed = rethrow-thrown (at_argument i) (p.alloc t v) w w2 (ap (p.alloc t v) here ∙ k) in
      bind-thrown (rethrow_as (at_argument i) (p.alloc t v)) _ w w2 failed
      ∙ ap (λ (j : ℕ). let x : Result Buf × World Native = (thrown (at_argument j e), w2) in x)
          (omega arith)
  marshal-blames [] post t (a ∷ apre) apost v i b w w1 w2 qs e n h k = absurd (omega arith)
  marshal-blames (c ∷ pre) post t [] apost v i b w w1 w2 qs e n h k = absurd (omega arith)
  marshal-blames (c ∷ pre) post t (a ∷ apre) apost v i b w w1 w2 qs e n h k =
      let s = bind-eq-ok (p.alloc c a) _ w h in
      let s' = bind-eq-ok (each (alloc_pair p) (with_args pre apre)) _ s.world s.second in
      let at_end : s'.world ≡ w1 = ap (λ (x : Result (List Ptr) × World Native). x.1) s'.second in
      bind-ok (rethrow_as (at_argument i) (p.alloc c a)) _ w s.world
        (rethrow-ok p (at_argument i) (p.alloc c a) w s.world s.first)
      ∙ (marshal-blames pre post t apre apost v (i + 1)
            (p.write_pointer b s.value (i * p.pointer_size)) s.world s'.world w2 s'.value e
            (omega arith) s'.first (ap (p.alloc t v) at_end ∙ k)
          ∙ ap (λ (j : ℕ). let x : Result Buf × World Native = (thrown (at_argument j e), w2) in x)
              (omega arith))

-- Where the arguments before one are stored and `ref.alloc` throws at that one, the call throws the
-- same error with its position put before the text, and neither stores a later argument nor calls
-- the function.
pub call-blames :
    (p : Platform) (f : Proxy p.Buf) (pre post : List ℕ) (t : ℕ) (apre apost : List Value)
    (v : Value) (w w1 w2 : World p.Native) (qs : List Ptr) (e : Failure)
    → f.arg_types ≡ pre ++ t ∷ post
    → length apre ≡ length pre
    → length apost ≡ length post
    → each (alloc_pair p) (with_args pre apre) w ≡ (ok qs, w1)
    → p.alloc t v w1 ≡ (thrown e, w2)
    → call p f (apre ++ v ∷ apost) w ≡ (thrown (at_argument (length pre) e), w2)
call-blames p f pre post t apre apost v w w1 w2 qs e types n m h k =
    let count : length (apre ++ v ∷ apost) ≡ length f.arg_types = omega (
      arith,
      length-append apre (v ∷ apost),
      length-append pre (t ∷ post),
      ap (length {0} {A = ℕ}) types,
    ) in
    let failed = marshal-blames p pre post t apre apost v 0 (new_args p f) w w1 w2 qs e n h k in
    let failed' =
      ap (λ (l : List ℕ). marshal p l (apre ++ v ∷ apost) 0 (new_args p f) w) types ∙ failed in
    call_of_count p f (apre ++ v ∷ apost) w count
    ∙ (bind-thrown (marshal p f.arg_types (apre ++ v ∷ apost) 0 (new_args p f)) _ w w2 failed'
        ∙ ap
            (λ (j : ℕ). let x : Result Value × World p.Native = (thrown (at_argument j e), w2) in x)
            (omega arith))

-- A call with any other number of arguments than the types throws a `TypeError` that names both
-- numbers, and does nothing else. So does an asynchronous call that has one more value behind these
-- arguments, a callback or not, and there both numbers are greater by one.
pub call_miscounted :
    (p : Platform) (f : Proxy p.Buf) (args : List Value) (v : Value) (w : World p.Native)
    → length args ≢ length f.arg_types
    → (call p f args w
        ≡ (thrown (failure type_error (argument_count (length f.arg_types) (length args))), w))
      × (call_async p f (args ++ v ∷ []) w ≡ (
        thrown (failure type_error (argument_count (length f.arg_types + 1) (length args + 1))),
        w,
      ))
unfolding call_async
call_miscounted p f args v w ne =
    let total : length (args ++ v ∷ []) ≡ length args + 1 =
      omega (arith, length-append args (v ∷ [])) in
    let other : (length args + 1 == length f.arg_types + 1) ≡ false = ground arith in
    (call_of_miscount p f args w ne, rw (total, other))
