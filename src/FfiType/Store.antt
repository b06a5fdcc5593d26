-- ===== src/FfiType/Store.antt =====
-- Pointers written to a Buffer one behind the other.
use node_ffi.Base.{
  ℕ, suc, ◌+◌, ◌*◌, ◌≤◌, ◌≡◌, refl, List, [], ◌∷◌, ◌++◌, arith, length, length-append, ◌∙◌, sym,
}
use mathlib.Core.List.{append-nil, append_assoc}
use node_ffi.Value.{Ptr}
use node_ffi.FfiType.Slots.{ReadsAs, ReadsAs-push}
use node_ffi.Platform.{Platform, IsLawful}

module _ (p : Platform) where
  open p use {Buf}

  -- From place `i` on.
  unfoldable pub store : List Ptr → ℕ → Buf → Buf
  store [] i b = b
  store (q ∷ qs) i b = store qs (i + 1) (p.write_pointer b q (i * p.pointer_size))

  -- A new Buffer of just their size.
  abbrev pub array_of : List Ptr → Buf
  array_of qs = store qs 0 (p.new_buffer (length qs * p.pointer_size))

  module _ (laws : IsLawful p) where
    pub length-store : (qs : List Ptr) (i : ℕ) (b : Buf) → p.length (store qs i b) ≡ p.length b
    unfolding store
    length-store [] i b = refl
    length-store (q ∷ qs) i b = length-store qs (i + 1) _ ∙ laws.length-write_pointer b q _

    first_fits : (n k l : ℕ) → (n + suc k) * p.pointer_size ≤ l → (n + 1) * p.pointer_size ≤ l
    first_fits n k l h = grind arith

    rest_fits : (i k l : ℕ) → (i + suc k) * p.pointer_size ≤ l → (i + 1 + k) * p.pointer_size ≤ l
    rest_fits i k l h = omega arith

    -- Where there is room, they are read back, behind those that were there.
    pub store-ReadsAs :
        (qs rest : List Ptr) (i : ℕ) (b : Buf)
        → i ≡ length qs
        → (i + length rest) * p.pointer_size ≤ p.length b
        → ReadsAs p b 0 qs
        → ReadsAs p (store rest i b) 0 (qs ++ rest)
    unfolding store
    store-ReadsAs qs [] i b e room r = rw (append-nil qs) r
    store-ReadsAs qs (q ∷ rest) i b e room r =
        let b' = p.write_pointer b q (i * p.pointer_size) in
        let same : p.length b' ≡ p.length b = laws.length-write_pointer b q _ in
        let pushed : ReadsAs p b' 0 (qs ++ q ∷ []) =
          rw e (ReadsAs-push p laws b qs q (rw (← e) (first_fits i (length rest) _ room)) r) in
        rw (sym (append_assoc qs (q ∷ []) rest)) (
          store-ReadsAs (qs ++ q ∷ []) rest (i + 1) b' (omega (arith, length-append qs (q ∷ [])))
            (rw same (rest_fits i (length rest) _ room)) pushed)

    pub array_of-ReadsAs : (qs : List Ptr) → ReadsAs p (array_of qs) 0 qs
    array_of-ReadsAs qs =
        let fresh : p.length (p.new_buffer (length qs * p.pointer_size))
            ≡ length qs * p.pointer_size =
          laws.length-new_buffer _ in
        store-ReadsAs [] qs 0 (p.new_buffer (length qs * p.pointer_size)) refl
          (omega (arith, fresh)) tt

    pub length-array_of : (qs : List Ptr) → p.length (array_of qs) ≡ length qs * p.pointer_size
    length-array_of qs = length-store qs 0 _ ∙ laws.length-new_buffer _
