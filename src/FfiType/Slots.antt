-- ===== src/FfiType/Slots.antt =====
-- A Buffer read as an array of pointers.
use node_ffi.Base.{ℕ, ◌+◌, ◌*◌, ◌≤◌, ◌<◌, ◌≡◌, inr, List, [], ◌∷◌, ◌++◌, arith, length, ◌∙◌, ap}
use node_ffi.Value.{Ptr}
use node_ffi.Platform.{Platform, IsLawful}

module _ (p : Platform) where
  open p use {Buf}

  -- From place `i` on, the pointers are those of the list.
  abbrev pub ReadsAs : Buf → ℕ → List Ptr → Type 0
  ReadsAs b i [] = Unit
  ReadsAs b i (q ∷ qs) = (p.read_pointer b (i * p.pointer_size) ≡ q) × ReadsAs b (i + 1) qs

  -- The pointer at a place.
  abbrev slot : Buf → ℕ → Ptr
  slot b i = p.read_pointer b (i * p.pointer_size)

  pub ReadsAs-append :
      (b : Buf) (i : ℕ) (qs : List Ptr) (q : Ptr)
      → ReadsAs b i qs
      → p.read_pointer b ((i + length qs) * p.pointer_size) ≡ q
      → ReadsAs b i (qs ++ q ∷ [])
  ReadsAs-append b i [] q h e = (ap (slot b) (omega arith) ∙ e, tt)
  ReadsAs-append b i (x ∷ qs) q h e =
      (h.0, ReadsAs-append b (i + 1) qs q h.1 (ap (slot b) (omega arith) ∙ e))

  module _ (laws : IsLawful p) where
    apart : (i j : ℕ) → i < j → i * p.pointer_size + p.pointer_size ≤ j * p.pointer_size
    apart i j h = grind arith

    ReadsAs-write :
        (b : Buf) (i j : ℕ) (qs : List Ptr) (q : Ptr)
        → i + length qs ≤ j
        → ReadsAs b i qs
        → ReadsAs (p.write_pointer b q (j * p.pointer_size)) i qs
    ReadsAs-write b i j [] q h r = tt
    ReadsAs-write b i j (x ∷ qs) q h r = (
      laws.read-write_apart b q _ _ (inr (apart i j (omega arith))) ∙ r.0,
      ReadsAs-write b (i + 1) j qs q (omega arith) r.1,
    )

    -- A pointer written behind the others is one more of them.
    pub ReadsAs-push :
        (b : Buf) (qs : List Ptr) (q : Ptr)
        → (length qs + 1) * p.pointer_size ≤ p.length b
        → ReadsAs b 0 qs
        → ReadsAs (p.write_pointer b q (length qs * p.pointer_size)) 0 (qs ++ q ∷ [])
    ReadsAs-push b qs q room r =
        ReadsAs-append _ 0 qs q (ReadsAs-write b 0 (length qs) qs q (omega arith) r) (
          ap (slot _) (omega arith)
          ∙ laws.read-write_self b q (length qs * p.pointer_size) (omega arith))
