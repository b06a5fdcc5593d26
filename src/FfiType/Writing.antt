-- ===== src/FfiType/Writing.antt =====
-- The second loop over the fields, as a search for all pointers and then the storing of all.
use node_ffi.Base.{
  ℕ, zero, suc, ◌+◌, ◌*◌, ◌≡◌, inl, inr, String, List, [], ◌∷◌, ◌++◌, arith, length, replicate,
  length-append, length-replicate, ltb, Bool-cases, ◌∙◌, ap, sym,
}
use node_ffi.Value.{Ptr, Value, object, to_value, Result, ok}
use node_ffi.World.{
  World, Js, TypeObject, find_own, chain, elem_of, fixed_length_of, pure, continue, ◌>>=◌,
}
use node_ffi.World.Bind.{bind-eq-ok, bind_assoc, bind_cong}
use node_ffi.World.Keeps.{KeepsTypes}
use node_ffi.FfiType.{
  or_zero, count_elements, write_run, write_array, write_single, write_field, write_fields,
}
use node_ffi.FfiType.Store.{store}
use node_ffi.Platform.{Platform, IsLawful}
use node_ffi.FfiType.Places.{
  places, target, count_elements-cons, count_elements_same, field_pointers, all_pointers,
}

module _ (p : Platform) where
  open p use {Buf, Native}

  -- The Buffer and the next place, after these pointers.
  abbrev pub filled_from : Buf → ℕ → List Ptr → Js Native (Buf × ℕ)
  filled_from b i qs = pure (store p qs i b, i + length qs)

  write_run-eq-store :
      (k : ℕ) (q : Ptr) (b : Buf) (i : ℕ)
      → write_run p k q b i ≡ (store p (replicate k q) i b, i + length (replicate k q))
  unfolding write_run store
  write_run-eq-store zero q b i = λ j. (b, (let e : i ≡ i + 0 = omega arith in e) j)
  write_run-eq-store (suc k) q b i =
      write_run-eq-store k q (p.write_pointer b q (i * p.pointer_size)) (i + 1)
      ∙ ap
          (λ (n : ℕ).
            let x : Buf × ℕ =
              (store p (replicate k q) (i + 1) (p.write_pointer b q (i * p.pointer_size)), n) in
            x)
          (omega arith)

  pub store-append :
      (qs rs : List Ptr) (i : ℕ) (b : Buf)
      → store p (qs ++ rs) i b ≡ store p rs (i + length qs) (store p qs i b)
  unfolding store
  store-append [] rs i b = ap (λ (n : ℕ). store p rs n b) (omega arith)
  store-append (q ∷ qs) rs i b =
      let b' = p.write_pointer b q (i * p.pointer_size) in
      store-append qs rs (i + 1) b'
      ∙ ap (λ (n : ℕ). store p rs n (store p qs (i + 1) b')) (omega arith)

module _ (p : Platform) (rec : Value → Js p.Native Ptr) (laws : IsLawful p)
    (keeps : (v : Value) → KeepsTypes (rec v)) where
  open p use {Buf, Native}

  -- `rec` assigns no length.
  same_length :
      (f : ℕ) (v : Value) (w w' : World Native) (q : Ptr)
      → rec v w ≡ (ok q, w')
      → or_zero (fixed_length_of w' f) ≡ or_zero (fixed_length_of w f)
  same_length f v w w' q h =
      ap (λ (ts : ℕ → TypeObject). or_zero (find_own (λ k. (ts k).fixed_length) (chain ts f)))
        (ap (λ (x : Result Ptr × World Native). x.1.types) (sym h) ∙ (keeps v).at w)

  write_field-eq-pointers :
      (f : ℕ) (b : Buf) (i : ℕ) (w : World Native)
      → write_field p rec f b i w ≡ (field_pointers p rec f >>= filled_from p b i) w
  unfolding write_field write_array write_single field_pointers store
  write_field-eq-pointers f b i w = elim (Bool-cases (ltb 0 (or_zero (fixed_length_of w f)))) [
    | inl array ↦
        let len = or_zero (fixed_length_of w f) in
        rw array (
          bind_cong (rec (to_value (elem_of w f))) _
            (λ q. pure (store p (replicate len q) i b, i + length (replicate len q))) w
            (λ q w' h.
              ap
                (λ (n : ℕ).
                  let x : Result (Buf × ℕ) × World Native = (ok (write_run p n q b i), w') in x)
                (same_length f (to_value (elem_of w f)) w w' q h)
              ∙ ap (λ (y : Buf × ℕ). let x : Result (Buf × ℕ) × World Native = (ok y, w') in x)
                  (write_run-eq-store p len q b i))
          ∙ sym (
              bind_assoc (rec (to_value (elem_of w f))) (λ q. pure (replicate len q))
                (filled_from p b i) w))
    | inr single ↦
        rw single (sym (bind_assoc (rec (object f)) (λ q. pure (q ∷ [])) (filled_from p b i) w))
  ]

  -- The loop fills the Buffer with what the fields ask for.
  pub write_fields-eq-pointers :
      (fs : List (String × ℕ)) (b : Buf) (i : ℕ) (w : World Native)
      → write_fields p rec fs b i w ≡ (all_pointers p rec fs >>= filled_from p b i) w
  unfolding write_fields all_pointers store
  write_fields-eq-pointers [] b i w = λ j. (ok (b, (let e : i ≡ i + 0 = omega arith in e) j), w)
  write_fields-eq-pointers ((s, f) ∷ fs) b i w =
      ap
        (λ (x : Result (Buf × ℕ) × World Native).
          continue x.0 (λ r. write_fields p rec fs r.0 r.1) x.1)
        (write_field-eq-pointers f b i w)
      ∙ (bind_assoc (field_pointers p rec f) (filled_from p b i)
            (λ r. write_fields p rec fs r.0 r.1) w
          ∙ (bind_cong (field_pointers p rec f) _
                (λ here. all_pointers p rec fs >>= λ rest. filled_from p b i (here ++ rest)) w
                (λ here v e.
                  write_fields-eq-pointers fs (store p here i b) (i + length here) v
                  ∙ bind_cong (all_pointers p rec fs) _ _ v (λ rest u e'. λ j. (
                    ok (
                      sym (store-append p here rest i b) j,
                      (let n : i + length here + length rest ≡ i + length (here ++ rest) =
                              omega (arith, length-append here rest) in
                            n)
                          j,
                    ),
                    u,
                  )))
              ∙ (bind_cong (field_pointers p rec f) _ _ w (λ here v e. sym (
                    bind_assoc (all_pointers p rec fs) (λ rest. pure (here ++ rest))
                      (filled_from p b i) v))
                  ∙ sym (bind_assoc (field_pointers p rec f) _ (filled_from p b i) w))))

  field_pointers-count :
      (f : ℕ) (w w' : World Native) (qs : List Ptr)
      → field_pointers p rec f w ≡ (ok qs, w')
      → (length qs ≡ places w f) × (w'.types ≡ w.types)
  unfolding field_pointers
  field_pointers-count f w w' qs h =
      let s = bind-eq-ok (rec (target w f)) _ w h in
      let made : replicate (places w f) s.value ≡ qs = cc s.second in
      let there : s.world ≡ w' = ap (λ (x : Result (List Ptr) × World Native). x.1) s.second in
      (
        ap (length {0} {A = Ptr}) (sym made) ∙ length-replicate (places w f) s.value,
        ap (λ (x : World Native). x.types) (sym there)
            ∙ (ap (λ (x : Result Ptr × World Native). x.1.types) (sym s.first)
                ∙ (keeps (target w f)).at w),
      )

  -- As many pointers as the first loop has counted.
  pub all_pointers-count :
      (fs : List (String × ℕ)) (n : ℕ) (w w' : World Native) (qs : List Ptr)
      → all_pointers p rec fs w ≡ (ok qs, w')
      → count_elements w n fs ≡ n + length qs
  unfolding all_pointers count_elements
  all_pointers-count [] n w w' qs h =
      let made : [] ≡ qs = cc h in omega (arith, ap (length {0} {A = Ptr}) made)
  all_pointers-count ((s, f) ∷ fs) n w w' qs h =
      let st = bind-eq-ok (field_pointers p rec f) _ w h in
      let st' = bind-eq-ok (all_pointers p rec fs) _ st.world st.second in
      let made : st.value ++ st'.value ≡ qs = cc st'.second in
      let (here, kept) = field_pointers-count f w st.world st.value st.first in
      let rest = all_pointers-count fs (n + places w f) st.world st'.world st'.value st'.first in
      count_elements-cons w n s f fs
      ∙ (sym (count_elements_same w st.world (n + places w f) fs kept)
          ∙ omega
              (arith, rest, here, length-append st.value st'.value, ap (length {0} {A = Ptr}) made))
