-- ===== src/Library/Extension.antt =====
-- The extension of a library's name.
use node_ffi.Base.{◌≡◌, refl, true, inl, inr, Bool-cases, [], ◌∷◌, ◌++◌, arith}
use node_ffi.Text.{Text, is_prefix, contains}
use node_ffi.Library.{with_ext}

is_prefix_refl : (t : Text) → is_prefix t t ≡ true
unfolding is_prefix
is_prefix_refl [] = refl
is_prefix_refl (c ∷ t) = ground (arith, is_prefix_refl t)

contains_self : (t : Text) → contains t t ≡ true
unfolding contains
contains_self [] = is_prefix_refl []
contains_self (c ∷ t) = rw (is_prefix_refl (c ∷ t)) refl

contains-append : (t s : Text) → contains t (s ++ t) ≡ true
unfolding contains
contains-append t [] = contains_self t
contains-append t (c ∷ s) = ground (arith, contains-append t s)

-- A name has the extension afterwards, at its end if it had it nowhere, and a second time changes
-- nothing.
pub with_ext_lem :
    (e file : Text)
    → (contains e (with_ext e file) ≡ true) × (with_ext e (with_ext e file) ≡ with_ext e file)
unfolding with_ext
with_ext_lem e file = elim (Bool-cases (contains e file)) [
  | inl there ↦ rw there (there, rw there refl)
  | inr missing ↦ rw missing (contains-append e file, rw (contains-append e file) refl)
]
