-- ===== src/FfiType/Layout.antt =====
-- The `ffi_type` that is made for a "ref-struct" type.
use node_ffi.Base.{
  ℕ, suc, ◌+◌, ◌*◌, ◌≡◌, refl, String, Option, none, some, List, [], ◌∷◌, ◌++◌, arith, length,
  length-append, if◌then◌else◌, ◌≢◌, ◌==◌, ◌∙◌, ap, sym,
}
use node_ffi.Value.{Ptr, null_ptr, Value, object, Result, ok}
use node_ffi.World.{World, Js, elem_of, continue, pure, ◌>>=◌, ◌>>◌}
use node_ffi.World.Bind.{bind-eq-ok, bind_assoc, bind_cong}
use node_ffi.World.Keeps.{KeepsTypes}
use node_ffi.FfiType.{count_elements, new_struct, cache, struct_type, complete, shortcut, ffi_type}
use node_ffi.FfiType.Frame.{ffi_type-KeepsTypes}
use node_ffi.FfiType.Body.{ffi_type-object, type_body-valid}
use node_ffi.FfiType.Slots.{ReadsAs}
use node_ffi.FfiType.Store.{store, array_of, array_of-ReadsAs, length-array_of}
use node_ffi.Platform.{Platform, IsLawful, FfiStruct}
use node_ffi.World.{ffi_type_of, fields_of, indirection_of, size_of}
use node_ffi.FfiType.Places.{all_pointers}
use node_ffi.FfiType.Writing.{
  filled_from, store-append, write_fields-eq-pointers, all_pointers-count,
}

module _ (p : Platform) where
  open p use {Buf, Native}

  -- The struct at `q` stands for the fields `fs` of the type `t`: its elements are the pointers of
  -- the fields, in order, and NULL, in a Buffer of exactly that size, and `t` remembers it.
  pub record IsLaidOut (rec : Value → Js Native Ptr) (t : ℕ) (fs : List (String × ℕ))
      (w w' : World Native) (q : Ptr) : Type 0 where
    pub struct : FfiStruct Buf
    pub stored : p.load_ffi_type w'.native q ≡ some struct
    pub size : struct.size ≡ 0
    pub alignment : struct.alignment ≡ 0
    pub code : struct.type ≡ 13
    pub middle : World Native
    pub pointers : List Ptr
    pub found : all_pointers p rec fs w ≡ (ok pointers, middle)
    pub reads : ReadsAs p struct.elements 0 (pointers ++ null_ptr ∷ [])
    pub exact : p.length struct.elements ≡ p.pointer_size * (length pointers + 1)
    pub remembered : w'.ffi_type t ≡ some (some q)

  -- The pointers of all fields, and then the struct of these and NULL, in a Buffer of their size.
  unfoldable pub laid_out : (Value → Js Native Ptr) → ℕ → List (String × ℕ) → Js Native Ptr
  laid_out rec t fs = do
    qs ← all_pointers p rec fs
    q ← new_struct p (array_of p (qs ++ null_ptr ∷ []))
    cache p t (some q)
    pure q

  module _ (rec : Value → Js Native Ptr) (laws : IsLawful p)
      (keeps : (v : Value) → KeepsTypes (rec v)) where
    -- What is written behind the pointers of all fields, where the room was counted before.
    elements-eq-array_of :
        (fs : List (String × ℕ)) (w w' : World Native) (qs : List Ptr)
        → all_pointers p rec fs w ≡ (ok qs, w')
        → (let new = p.new_buffer (p.pointer_size * (count_elements w 0 fs + 1)) in
            p.write_pointer (store p qs 0 new) null_ptr ((0 + length qs) * p.pointer_size))
          ≡ array_of p (qs ++ null_ptr ∷ [])
    unfolding store
    elements-eq-array_of fs w w' qs h =
        let new = p.new_buffer (p.pointer_size * (count_elements w 0 fs + 1)) in
        let size : p.pointer_size * (count_elements w 0 fs + 1)
            ≡ length (qs ++ null_ptr ∷ []) * p.pointer_size =
          rw (all_pointers-count p rec laws keeps fs 0 w w' qs h, length-append qs (null_ptr ∷ []))
            (omega arith) in
        sym (store-append p qs (null_ptr ∷ []) 0 new)
        ∙ ap (λ (n : ℕ). store p (qs ++ null_ptr ∷ []) 0 (p.new_buffer n)) size

    struct_type-eq-laid_out :
        (t : ℕ) (fs : List (String × ℕ)) (w : World Native)
        → struct_type p rec t fs w ≡ laid_out rec t fs w
    unfolding struct_type laid_out
    struct_type-eq-laid_out t fs w =
        let new = p.new_buffer (p.pointer_size * (count_elements w 0 fs + 1)) in
        let rest : Buf → Js Native Ptr =
          λ b. new_struct p b >>= λ q. cache p t (some q) >> pure q in
        let last : Buf × ℕ → Js Native Ptr =
          λ r. rest (p.write_pointer r.0 null_ptr (r.1 * p.pointer_size)) in
        ap (λ (x : Result (Buf × ℕ) × World Native). continue x.0 last x.1)
          (write_fields-eq-pointers p rec laws keeps fs new 0 w)
        ∙ (bind_assoc (all_pointers p rec fs) (filled_from p new 0) last w
            ∙ bind_cong (all_pointers p rec fs) _ (λ qs. rest (array_of p (qs ++ null_ptr ∷ []))) w
                (λ qs v h. ap (λ (b : Buf). rest b v) (elements-eq-array_of fs w v qs h)))

  remembered_at :
      (t : ℕ) (c : ℕ → Option (Option Ptr)) (q q' : Ptr)
      → q ≡ q'
      → (if t == t then some (some q) else c t) ≡ some (some q')
  remembered_at t c q q' e = ground arith

  laid_out-IsLaidOut :
      (rec : Value → Js Native Ptr)
      → IsLawful p
      → (t : ℕ) (fs : List (String × ℕ)) (w w' : World Native) (q : Ptr)
      → laid_out rec t fs w ≡ (ok q, w')
      → IsLaidOut rec t fs w w' q
  unfolding laid_out new_struct cache
  laid_out-IsLaidOut rec laws t fs w w' q h =
      let st = bind-eq-ok (all_pointers p rec fs) _ w h in
      let all = st.value ++ null_ptr ∷ [] in
      let made : FfiStruct Buf = record {
        size = 0;
        alignment = 0;
        type = 13;
        elements = array_of p all;
      } in
      let place : (p.new_ffi_type made st.world.native).0 ≡ q = cc st.second in
      let state : (p.new_ffi_type made st.world.native).1 ≡ w'.native =
        ap (λ (x : Result Ptr × World Native). x.1.native) st.second in
      record {
        struct = made;
        stored = rw (← place, ← state) (laws.load-new_ffi_type made st.world.native);
        size = refl;
        alignment = refl;
        code = refl;
        middle = st.world;
        pointers = st.value;
        found = st.first;
        reads = array_of-ReadsAs p laws all;
        exact =
            length-array_of p laws all ∙ rw (length-append st.value (null_ptr ∷ [])) (omega arith);
        remembered =
            ap (λ (x : Result Ptr × World Native). x.1.ffi_type t) (sym st.second)
            ∙ remembered_at t st.world.ffi_type _ _ place;
      }

-- For a "ref-struct" type that has no `ffi_type` yet, the two loops of `Type()`, which first count the
-- elements and then write them, come to this on every outcome: the pointers of the fields
-- are found in order, an array's as often as it is long; then they and NULL are put in a Buffer of
-- exactly their size, a struct is made of it, and the type remembers the struct.
pub ffi_type-eq-laid_out :
    (p : Platform)
    → IsLawful p
    → (n t : ℕ) (fs : List (String × ℕ)) (w : World p.Native) → size_of w t ≢ none
    → indirection_of w t ≡ some 1
    → ffi_type_of w t ≡ none
    → elem_of w t ≡ none
    → fields_of w t ≡ some fs
    → ffi_type p (suc n) (object t) w ≡ laid_out p (ffi_type p n) t fs w
unfolding complete shortcut
ffi_type-eq-laid_out p laws n t fs w hs hi hf he hfs =
    let open_type : shortcut p w t ≡ none = rw hi (rw hf (rw he refl)) in
    ffi_type-object p laws n t w hs (ground arith)
    ∙ (type_body-valid p (ffi_type p n) t w (rw hi refl)
        ∙ (ap (λ (o : Option (List (String × ℕ))). complete p (ffi_type p n) t (shortcut p w t) o w)
              hfs
            ∙ (ap (λ (r : Option Ptr). complete p (ffi_type p n) t r (some fs) w) open_type
                ∙ struct_type-eq-laid_out p (ffi_type p n) laws (ffi_type-KeepsTypes p laws n) t fs
                    w)))

-- Where `Type()` returns for a "ref-struct" type that has no `ffi_type` yet, the pointer leads to a
-- struct of kind 13 whose elements are the pointers of the fields in order, an array's as often as
-- it is long, then NULL, in a Buffer of exactly that size; and the type remembers the pointer.
pub ffi_type-IsLaidOut :
    (p : Platform)
    → IsLawful p
    → (n t : ℕ) (fs : List (String × ℕ)) (w w' : World p.Native) (q : Ptr) → size_of w t ≢ none
    → indirection_of w t ≡ some 1
    → ffi_type_of w t ≡ none
    → elem_of w t ≡ none
    → fields_of w t ≡ some fs
    → ffi_type p (suc n) (object t) w ≡ (ok q, w')
    → IsLaidOut p (ffi_type p n) t fs w w' q
ffi_type-IsLaidOut p laws n t fs w w' q hs hi hf he hfs h =
    laid_out-IsLaidOut p (ffi_type p n) laws t fs w w' q
      (sym (ffi_type-eq-laid_out p laws n t fs w hs hi hf he hfs) ∙ h)
