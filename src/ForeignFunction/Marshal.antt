-- ===== src/ForeignFunction/Marshal.antt =====
-- The loop that puts the arguments of a call to storage.
use node_ffi.Base.{ℕ, suc, ◌+◌, ◌≡◌, refl, List, [], ◌∷◌, length, sym, ap, ◌∙◌}
use node_ffi.Value.{Ptr, Value, Failure, Result, ok, thrown, overflow}
use node_ffi.World.{World, Js}
use node_ffi.World.Bind.{bind-eq-ok, bind-ok}
use node_ffi.Platform.{Platform}
use node_ffi.FfiType.Store.{store}
use node_ffi.Cif.ArgTypes.{each}
use node_ffi.ForeignFunction.{rethrow_as, at_argument, first_arg, other_args, marshal}

-- Each type with its argument, which is undefined where there are too few.
unfoldable pub with_args : List ℕ → List Value → List (ℕ × Value)
with_args [] args = []
with_args (t ∷ types) args = (t, first_arg args) ∷ with_args types (other_args args)

pub length-with_args :
    (types : List ℕ) (args : List Value) → length (with_args types args) ≡ length types
unfolding with_args
length-with_args [] args = refl
length-with_args (t ∷ types) args = ap suc (length-with_args types (other_args args))

rethrown-eq-ok :
    {N A : Type 0} (f : Failure → Failure) (r : Result A) (v : World N) {a : A} {w' : World N}
    → rethrow_as f (λ (x : World N). (r, v)) v ≡ (ok a, w')
    → (let y : Result A × World N = (r, v) in y) ≡ (ok a, w')
rethrown-eq-ok f (ok b) v h = h
rethrown-eq-ok f (thrown e) v h = cc
rethrown-eq-ok f overflow v h = cc

pub rethrow_as-eq-ok :
    {N A : Type 0} (f : Failure → Failure) (m : Js N A) (w : World N) {a : A} {w' : World N}
    → rethrow_as f m w ≡ (ok a, w')
    → m w ≡ (ok a, w')
rethrow_as-eq-ok f m w h = rethrown-eq-ok f (m w).0 (m w).1 h

module _ (p : Platform) where
  open p use {Buf, Native}

  pub rethrow-ok :
      {A : Type 0} (f : Failure → Failure) (m : Js Native A) (w w' : World Native) {a : A}
      → m w ≡ (ok a, w')
      → rethrow_as f m w ≡ (ok a, w')
  rethrow-ok f m w w' h =
      ap (λ (x : Result _ × World Native). rethrow_as f (λ (y : World Native). x) w) h

  abbrev pub alloc_pair : ℕ × Value → Js Native Ptr
  alloc_pair (t, v) = p.alloc t v

  pub record Marshalled (types : List ℕ) (args : List Value) (w : World Native) (i : ℕ) (b b' : Buf)
      (w' : World Native) : Type 0 where
    pub pointers : List Ptr
    pub found : each alloc_pair (with_args types args) w ≡ (ok pointers, w')
    pub built : b' ≡ store p pointers i b
    pub count : length pointers ≡ length types

  -- A loop that ended well has stored each argument, and then the pointers one behind the other.
  pub marshal-Marshalled :
      (types : List ℕ) (args : List Value) (w : World Native) (i : ℕ) (b b' : Buf)
      (w' : World Native)
      → marshal p types args i b w ≡ (ok b', w')
      → Marshalled types args w i b b' w'
  unfolding marshal each with_args store
  marshal-Marshalled [] args w i b b' w' h =
      let same : b' ≡ b = cc h in
      record { pointers = []; found = λ k. (ok [], (h k).1); built = same; count = refl }
  marshal-Marshalled (t ∷ types) args w i b b' w' h =
      let st = bind-eq-ok (rethrow_as (at_argument i) (p.alloc t (first_arg args))) _ w h in
      let made = rethrow_as-eq-ok (at_argument i) (p.alloc t (first_arg args)) w st.first in
      let rest = marshal-Marshalled types (other_args args) st.world (i + 1) _ b' w' st.second in
      record {
        pointers = st.value ∷ rest.pointers;
        found =
            bind-ok (alloc_pair (t, first_arg args)) _ w st.world made
            ∙ bind-ok (each alloc_pair _) _ st.world w' rest.found;
        built = rest.built;
        count = ap suc rest.count;
      }

  -- The converse.
  pub marshal-found :
      (types : List ℕ) (args : List Value) (w : World Native) (i : ℕ) (b : Buf) (w' : World Native)
      (qs : List Ptr)
      → each alloc_pair (with_args types args) w ≡ (ok qs, w')
      → marshal p types args i b w ≡ (ok (store p qs i b), w')
  unfolding marshal each with_args store
  marshal-found [] args w i b w' qs h =
      let none_made : qs ≡ [] = cc h in λ k. (ok (store p (sym none_made k) i b), (h k).1)
  marshal-found (t ∷ types) args w i b w' qs h =
      let st = bind-eq-ok (alloc_pair (t, first_arg args)) _ w h in
      let st' =
        bind-eq-ok (each alloc_pair (with_args types (other_args args))) _ st.world st.second in
      let made : st.value ∷ st'.value ≡ qs = cc st'.second in
      let there : st'.world ≡ w' = ap (λ (x : Result (List Ptr) × World Native). x.1) st'.second in
      bind-ok (rethrow_as (at_argument i) (p.alloc t (first_arg args))) _ w st.world
        (rethrow-ok (at_argument i) (p.alloc t (first_arg args)) w st.world st.first)
      ∙ (marshal-found types (other_args args) st.world (i + 1) _ st'.world st'.value st'.first
          ∙ λ k. (ok (store p (made k) i b), there k))
