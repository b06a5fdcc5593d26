-- ===== src/Callback/Served.antt =====
-- A call from C that ended well.
use node_ffi.Base.{ℕ, ◌+◌, ◌≡◌, ◌↔◌, refl, List, [], ◌∷◌, length, arith, ap, sym, ◌∙◌}
use mathlib.Core.Path.{fun_ext}
use node_ffi.Value.{Ptr, Value, Result, ok, thrown, overflow}
use node_ffi.World.{World, Js, pure, gets, size_of, continue, ◌>>=◌}
use node_ffi.World.Bind.{bind-eq-ok, bind-ok}
use node_ffi.Platform.{Platform}
use node_ffi.FfiType.Slots.{ReadsAs}
use node_ffi.Cif.ArgTypes.{each}
use node_ffi.ForeignFunction.Marshal.{rethrow_as-eq-ok, rethrow-ok}
use node_ffi.Callback.{
  Closure, Closures, filled, at_return, read_args, serve, to_outcome, closure_call,
}

-- Each type with the pointer to its argument.
unfoldable pub with_pointers : List ℕ → List Ptr → List (ℕ × Ptr)
with_pointers (t ∷ types) (q ∷ qs) = (t, q) ∷ with_pointers types qs
with_pointers _ _ = []

module _ (p : Platform) (c : Closures p) where
  open p use {Buf, Native}

  -- The value of a type at an address.
  unfoldable pub arg_at : ℕ × Ptr → Js Native Value
  arg_at (t, q) = do size ← gets (λ w. size_of w t); p.deref (c.buffer_at q size) t

  -- The loop takes each pointer of the array once, in order, each at its type.
  pub read_args-eq-each :
      (types : List ℕ) (qs : List Ptr) (i : ℕ) (params : Buf) (w : World Native)
      → length qs ≡ length types
      → ReadsAs p params i qs
      → read_args p c types i params w ≡ each arg_at (with_pointers types qs) w
  unfolding read_args each with_pointers arg_at
  read_args-eq-each [] [] i params w e r = refl
  read_args-eq-each (t ∷ types) (q ∷ qs) i params w e r =
      let next : Value → Js Native (List Value) =
        λ v. read_args p c types (i + 1) params >>= λ vs. pure (v ∷ vs) in
      ap (λ (a : Ptr). (p.deref (c.buffer_at a (size_of w t)) t >>= next) w) r.0
      ∙ ap
          (λ (f : Value → Js Native (List Value)).
            (p.deref (c.buffer_at q (size_of w t)) t >>= f) w)
          (fun_ext λ v. fun_ext λ u.
            ap (λ (x : Result (List Value) × World Native). continue x.0 (λ vs. pure (v ∷ vs)) x.1)
              (read_args-eq-each types qs (i + 1) params u (omega arith) r.1))
  read_args-eq-each [] (q ∷ qs) i params w e r = absurd (omega arith)
  read_args-eq-each (t ∷ types) [] i params w e r = absurd (omega arith)

  -- The arguments were read through the pointers, in order and each at its type, the user's function
  -- was applied to them, and what it returned was written to the Buffer at the return type.
  pub record IsServed (cl : Closure) (retval : Buf) (qs : List Ptr) (w w' : World Native) (b : Buf)
      : Type 0 where
    pub read : World Native
    pub applied : World Native
    pub args : List Value
    pub result : Value
    pub found : each arg_at (with_pointers cl.arg_types qs) w ≡ (ok args, read)
    pub called : c.apply cl.func args read ≡ (ok result, applied)
    pub written : c.set retval result cl.ret_type applied ≡ (ok b, w')

  filled-outcome :
      (r : Result Buf) (v w' : World Native) (b : Buf)
      → to_outcome p c r v ≡ (ok (filled b), w')
      → (let x : Result Buf × World Native = (r, v) in x) ≡ (ok b, w')
  unfolding to_outcome
  filled-outcome (ok a) v w' b h = cc
  filled-outcome (thrown e) v w' b h = cc
  filled-outcome overflow v w' b h = cc

closure_call-IsServed :
    (p : Platform) (c : Closures p) (cl : Closure) (retval params : p.Buf) (qs : List Ptr)
    (w w' : World p.Native) (b : p.Buf)
    → length qs ≡ length cl.arg_types
    → ReadsAs p params 0 qs
    → closure_call p c cl retval params w ≡ (ok (filled b), w')
    → IsServed p c cl retval qs w w' b
unfolding closure_call serve
closure_call-IsServed p c cl retval params qs w w' b n r h =
    let h' =
      filled-outcome p c (serve p c cl retval params w).0 (serve p c cl retval params w).1 w' b h in
    let s = bind-eq-ok (read_args p c cl.arg_types 0 params) _ w h' in
    let s1 = bind-eq-ok (c.apply cl.func s.value) _ s.world s.second in
    record {
      read = s.world;
      applied = s1.world;
      args = s.value;
      result = s1.value;
      found = sym (read_args-eq-each p c cl.arg_types qs 0 params w n r) ∙ s.first;
      called = s1.first;
      written = rethrow_as-eq-ok at_return (c.set retval s1.value cl.ret_type) s1.world s1.second;
    }

closure_call-returns :
    (p : Platform) (c : Closures p) (cl : Closure) (retval params : p.Buf) (qs : List Ptr)
    (w w' : World p.Native) (b : p.Buf)
    → length qs ≡ length cl.arg_types
    → ReadsAs p params 0 qs
    → IsServed p c cl retval qs w w' b
    → closure_call p c cl retval params w ≡ (ok (filled b), w')
unfolding closure_call serve to_outcome
closure_call-returns p c cl retval params qs w w' b n r h =
    let served : serve p c cl retval params w ≡ (ok b, w') =
      bind-ok (read_args p c cl.arg_types 0 params) _ w h.read
        (read_args-eq-each p c cl.arg_types qs 0 params w n r ∙ h.found)
      ∙ (bind-ok (c.apply cl.func h.args) _ h.read h.applied h.called
          ∙ rethrow-ok p at_return (c.set retval h.result cl.ret_type) h.applied w' h.written) in
    ap (λ (x : Result p.Buf × World p.Native). to_outcome p c x.0 x.1) served

-- Where the parameters are an array of pointers, one for each argument type, the closure writes a
-- result exactly when it can read the arguments through the pointers in order, each at its type,
-- the user's function returns for them, and what that returned can be written at the return type;
-- and it leaves the Buffer and the state as this writing leaves them.
pub closure_call-iff-IsServed :
    (p : Platform) (c : Closures p) (cl : Closure) (retval params : p.Buf) (qs : List Ptr)
    (w w' : World p.Native) (b : p.Buf)
    → length qs ≡ length cl.arg_types
    → ReadsAs p params 0 qs
    → (closure_call p c cl retval params w ≡ (ok (filled b), w')) ↔ IsServed p c cl retval qs w w' b
closure_call-iff-IsServed p c cl retval params qs w w' b n r = (
  closure_call-IsServed p c cl retval params qs w w' b n r,
  closure_call-returns p c cl retval params qs w w' b n r,
)
