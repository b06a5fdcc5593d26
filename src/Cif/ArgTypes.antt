-- ===== src/Cif/ArgTypes.antt =====
-- The array of argument types holds the `ffi_type` of each argument, in order.
use node_ffi.Base.{ℕ, ◌+◌, ◌*◌, ◌≡◌, refl, List, [], ◌∷◌, length, sym, ap, ◌∙◌, suc}
use mathlib.Core.Path.{fun_ext}
use node_ffi.Value.{Ptr, Value, Result, ok}
use node_ffi.World.{World, Js, pure, ◌>>=◌}
use node_ffi.World.Bind.{bind-eq-ok, bind-ok, bind_assoc}
use node_ffi.Platform.{Platform}
use node_ffi.FfiType.Store.{store, array_of}
use node_ffi.Cif.{write_arg_types}

-- The results of calls one after the other.
unfoldable pub each : {N A B : Type 0} → (A → Js N B) → List A → Js N (List B)
each f [] = pure []
each f (a ∷ rest) = do b ← f a; bs ← each f rest; pure (b ∷ bs)

-- One result for each call.
pub length-each :
    {N A B : Type 0} (f : A → Js N B) (l : List A) (w w' : World N) (bs : List B)
    → each f l w ≡ (ok bs, w')
    → length bs ≡ length l
unfolding each
length-each f [] w w' bs h = let same : [] ≡ bs = cc h in ap (length {0}) (sym same)
length-each f (a ∷ rest) w w' bs h =
    let s = bind-eq-ok (f a) _ w h in
    let s' = bind-eq-ok (each f rest) _ s.world s.second in
    let same : s.value ∷ s'.value ≡ bs = cc s'.second in
    ap (length {0}) (sym same) ∙ ap suc (length-each f rest s.world s'.world s'.value s'.first)

module _ (p : Platform) (rec : Value → Js p.Native Ptr) where
  open p use {Buf, Native}

  -- The loop is the search for each pointer, and then the storing of all.
  pub write_arg_types-eq-each :
      (vs : List Value) (i : ℕ) (b : Buf) (w : World Native)
      → write_arg_types p rec vs i b w ≡ (each rec vs >>= λ qs. pure (store p qs i b)) w
  unfolding write_arg_types each store
  write_arg_types-eq-each [] i b w = refl
  write_arg_types-eq-each (v ∷ vs) i b w =
      ap (λ (f : Ptr → Js Native Buf). (rec v >>= f) w)
        (fun_ext λ q. fun_ext λ u.
          write_arg_types-eq-each vs (i + 1) (p.write_pointer b q (i * p.pointer_size)) u
          ∙ sym (bind_assoc (each rec vs) (λ qs. pure (q ∷ qs)) (λ qs. pure (store p qs i b)) u))
      ∙ sym (bind_assoc (rec v) _ (λ qs. pure (store p qs i b)) w)

  -- A loop over the whole array that ended well.
  pub record Written (vs : List Value) (w : World Native) (b : Buf) (w' : World Native)
      : Type 0 where
    pub pointers : List Ptr
    pub found : each rec vs w ≡ (ok pointers, w')
    pub built : b ≡ array_of p pointers

  pub write_arg_types-Written :
      (vs : List Value) (w : World Native) (b : Buf) (w' : World Native)
      → write_arg_types p rec vs 0 (p.new_buffer (length vs * p.pointer_size)) w ≡ (ok b, w')
      → Written vs w b w'
  write_arg_types-Written vs w b w' h =
      let new = p.new_buffer (length vs * p.pointer_size) in
      let s = bind-eq-ok (each rec vs) _ w (sym (write_arg_types-eq-each vs 0 new w) ∙ h) in
      let n = length-each rec vs w s.world s.value s.first in
      let same : store p s.value 0 new ≡ b = cc s.second in
      let there : s.world ≡ w' = ap (λ (x : Result Buf × World Native). x.1) s.second in
      record {
        pointers = s.value;
        found = s.first ∙ λ k. (ok s.value, there k);
        built =
            sym same
            ∙ ap (λ (k : ℕ). store p s.value 0 (p.new_buffer (k * p.pointer_size))) (sym n);
      }

  -- And the converse.
  pub write_arg_types-found :
      (vs : List Value) (w w' : World Native) (qs : List Ptr)
      → each rec vs w ≡ (ok qs, w')
      → write_arg_types p rec vs 0 (p.new_buffer (length vs * p.pointer_size)) w
        ≡ (ok (array_of p qs), w')
  write_arg_types-found vs w w' qs h =
      write_arg_types-eq-each vs 0 _ w
      ∙ (bind-ok (each rec vs) _ w w' h
          ∙ ap
              (λ (k : ℕ).
                let x : Result Buf × World Native =
                  (ok (store p qs 0 (p.new_buffer (k * p.pointer_size))), w') in
                x)
              (sym (length-each rec vs w w' qs h)))
