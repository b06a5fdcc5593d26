-- ===== src/FunctionType/Prototype.antt =====
-- Function types as types of arguments and results.
use node_ffi.Base.{ℕ, suc, ◌≡◌, ◌≢◌, refl, none, some, List, ◌∷◌, arith, ap, sym, ◌∙◌, Option}
use node_ffi.Value.{Ptr, object, ok}
use node_ffi.World.{World, TypeObject, size_of, indirection_of, find_own}
use node_ffi.Platform.{Platform, IsLawful}
use node_ffi.FfiType.{ffi_type}
use node_ffi.FfiType.Body.{ffi_type-object, type_body-known}
use node_ffi.FunctionType.{set_prototype}

-- A property that an object does not have and its prototype has.
inherited :
    {A : Type 0} (own : ℕ → Option A) (t proto : ℕ) (protos os : List ℕ) {a : A}
    → os ≡ proto ∷ protos
    → own t ≡ none
    → own proto ≡ some a
    → find_own own (t ∷ os) ≡ some a
inherited {A} own t proto protos os {a} e no_own there =
    let from : (os : List ℕ) → Option A → Option A =
      λ os o. elim o as (λ x. Option A) [ some b ↦ some b | none ↦ find_own own os ] in
    ap (from os) no_own ∙ ap (find_own own) e ∙ ap (from protos) there

-- Once the module is loaded, `Type()` of an object that has no size, indirection and `ffi_type` of its
-- own and whose prototype is `Function.prototype`, as a function type is, returns the entry for
-- pointers in `bindings.FFI_TYPES`, and does nothing else: function types are passed as pointers.
pub set_prototype-ffi_type :
    (p : Platform)
    → IsLawful p
    → (proto t n : ℕ) (protos : List ℕ) (q : Ptr) (w : World p.Native) → t ≢ proto
    → (w.types t).protos ≡ proto ∷ protos
    → (w.types t).size ≡ none
    → (w.types t).indirection ≡ none
    → w.ffi_type t ≡ none
    → p.ffi_types "pointer" ≡ some q
    → let w' = (set_prototype p proto w).1 in ffi_type p (suc n) (object t) w' ≡ (ok q, w')
unfolding set_prototype
set_prototype-ffi_type p laws proto t n protos q w other chain no_size no_indirection no_type
      pointer =
    let w' = (set_prototype p proto w).1 in
    let same : w'.types t ≡ w.types t = ground arith in
    let protos_same : (w'.types t).protos ≡ proto ∷ protos =
      ap (λ (x : TypeObject). x.protos) same ∙ chain in
    let one : indirection_of w' t ≡ some 1 =
      inherited (λ o. (w'.types o).indirection) t proto protos (w'.types t).protos protos_same
        (ap (λ (x : TypeObject). x.indirection) same ∙ no_indirection) (ground arith) in
    let sized : size_of w' t ≡ some p.pointer_size =
      inherited (λ o. (w'.types o).size) t proto protos (w'.types t).protos protos_same
        (ap (λ (x : TypeObject). x.size) same ∙ no_size) (ground arith) in
    let known : find_own w'.ffi_type (t ∷ (w'.types t).protos) ≡ some (some q) =
      inherited w'.ffi_type t proto protos (w'.types t).protos protos_same (ground (arith, no_type))
        (ground (arith, pointer)) in
    ffi_type-object p laws n t w' (λ e. let no = sym sized ∙ e in cc no)
      (λ e. let no = sym one ∙ e in cc no)
    ∙ type_body-known p (ffi_type p n) t q w' one (rw known refl)
