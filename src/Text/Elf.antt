-- ===== src/Text/Elf.antt =====
-- What the pattern for an error of the dynamic linker finds.
use node_ffi.Base.{
  ℕ, ◌≡◌, refl, ◌⊎◌, inl, inr, Bool, true, false, not, ◌&&◌, Option, none, some, or_else, [], ◌∷◌,
  ◌++◌, arith, ap, sym, subst, ◌∙◌, ◌==◌,
}
use mathlib.Core.List.{append_assoc}
use node_ffi.Text.{
  Text, is_word, is_name, strip, run_of, skip, dot_so, elf_tail, elf_head, elf_path,
}

-- Every character is of a class.
abbrev pub All : (ℕ → Bool) → Text → Type 0
All p [] = Unit
All p (c ∷ s) = (p c ≡ true) × All p s

-- The message behind the file's name.
abbrev pub message : Text → Text
message rest = b':' ∷ b' ' ∷ rest

run_of-All : (ys rest : Text) → All is_name ys → run_of is_name (ys ++ message rest) ≡ ys
unfolding run_of
run_of-All [] rest h = refl
run_of-All (c ∷ ys) rest h = rw h.0 (ap (λ (s : Text). c ∷ s) (run_of-All ys rest h.1))

skip-All : (ys rest : Text) → All is_name ys → skip is_name (ys ++ message rest) ≡ message rest
unfolding skip
skip-All [] rest h = refl
skip-All (c ∷ ys) rest h = rw h.0 (skip-All ys rest h.1)

-- Where the pattern ends behind `ys`, it has matched them all.
elf_tail-here :
    (before ys rest : Text)
    → All is_name ys
    → elf_tail before (dot_so ++ ys ++ message rest) ≡ some (before ++ (dot_so ++ ys))
unfolding elf_tail strip
elf_tail-here before ys rest h = rw (skip-All ys rest h, run_of-All ys rest h) refl

-- Nothing, or the whole text.
abbrev IsNoneOr : Option Text → Text → Type 0
IsNoneOr o s = (o ≡ none) ⊎ (o ≡ some s)

strip_cases :
    (a b c : ℕ) (s : Text)
    → (strip dot_so (a ∷ b ∷ c ∷ s) ≡ none) ⊎ ((a ≡ b'.') × (b ≡ b's') × (c ≡ b'o'))
unfolding strip
strip_cases a b c s = ground arith

elf_tail-within :
    (before zs rest : Text)
    → All is_name zs
    → IsNoneOr (elf_tail before (zs ++ message rest)) (before ++ zs)
unfolding elf_tail
elf_tail-within before [] rest h = inl (unfold strip in refl)
elf_tail-within before (a ∷ []) rest h = unfold strip in ground arith
elf_tail-within before (a ∷ b ∷ []) rest h = unfold strip in ground arith
elf_tail-within before (a ∷ b ∷ c ∷ ys) rest h = elim (strip_cases a b c (ys ++ message rest)) [
  | inl e ↦ inl (rw (e, elf_tail) refl)
  | inr (ea, eb, ec) ↦
      let same : a ∷ b ∷ c ∷ ys ≡ dot_so ++ ys = λ i. ea i ∷ eb i ∷ ec i ∷ ys in
      subst (λ (z : Text). IsNoneOr (elf_tail before (z ++ message rest)) (before ++ z)) (sym same)
        (inr (elf_tail-here before ys rest h.1.1.1))
]

or_else-IsNoneOr :
    (o o' : Option Text) (s : Text) → IsNoneOr o s → IsNoneOr o' s → IsNoneOr (or_else o o') s
or_else-IsNoneOr none o' s h k = k
or_else-IsNoneOr (some t) o' s h k = h

and_left : (a b : Bool) → a && b ≡ true → a ≡ true
and_left true b h = refl
and_left false b h = h

elf_head-within :
    (before zs rest : Text)
    → All is_name zs
    → IsNoneOr (elf_head before (zs ++ message rest)) (before ++ zs)
unfolding elf_head elf_tail strip
elf_head-within before [] rest h = inl refl
elf_head-within before (c ∷ zs) rest h =
    let regroup : (before ++ c ∷ []) ++ zs ≡ before ++ c ∷ zs = append_assoc before (c ∷ []) zs in
    let deeper = elf_head-within (before ++ c ∷ []) zs rest h.1 in
    let here = elf_tail-within (before ++ c ∷ []) zs rest h.1 in
    let word : is_word c ≡ true = and_left (is_word c) (not (c == b':')) h.0 in
    rw word (
      subst
        (λ (t : Text).
          IsNoneOr
            (or_else (elf_head (before ++ c ∷ []) (zs ++ message rest))
              (elf_tail (before ++ c ∷ []) (zs ++ message rest)))
            t)
        regroup (or_else-IsNoneOr _ _ _ deeper here))

or_else-some : (o o' : Option Text) (s : Text) → IsNoneOr o s → o' ≡ some s → or_else o o' ≡ some s
or_else-some none o' s (inl h) k = k
or_else-some none o' s (inr h) k = k
or_else-some (some t) o' s (inl h) k = cc h
or_else-some (some t) o' s (inr h) k = h

-- The head of the pattern takes all of `pre`, and the tail the rest of the name.
elf_head-path :
    (before pre ys rest : Text) (c : ℕ)
    → All is_word (c ∷ pre)
    → All is_name ys
    → elf_head before (c ∷ (pre ++ (dot_so ++ (ys ++ message rest))))
      ≡ some (before ++ (c ∷ (pre ++ (dot_so ++ ys))))
unfolding elf_head
elf_head-path before [] ys rest c h k =
    let b = before ++ c ∷ [] in
    let found : or_else (elf_head b (dot_so ++ ys ++ message rest))
          (elf_tail b (dot_so ++ ys ++ message rest))
        ≡ some (b ++ (dot_so ++ ys)) =
      or_else-some _ _ _ (elf_head-within b (dot_so ++ ys) rest (refl, (refl, (refl, k))))
        (elf_tail-here b ys rest k) in
    rw h.0 (found ∙ ap (λ (t : Text). some t) (append_assoc before (c ∷ []) (dot_so ++ ys)))
elf_head-path before (d ∷ pre) ys rest c h k =
    let deeper = elf_head-path (before ++ c ∷ []) pre ys rest d h.1 k in
    rw h.0 (
      rw deeper
        (ap (λ (t : Text). some t) (append_assoc before (c ∷ []) (d ∷ (pre ++ (dot_so ++ ys))))))

-- An error that begins with the name of a shared object and a colon gives that name: `.so` behind at
-- least one character, then a suffix such as a version, with no space, tab or parenthesis in it and no
-- colon from `.so` on.
pub elf_path-message :
    (c : ℕ) (pre suffix rest : Text)
    → All is_word (c ∷ pre)
    → All is_name suffix
    → elf_path (c ∷ (pre ++ (dot_so ++ (suffix ++ message rest))))
      ≡ some (c ∷ (pre ++ (dot_so ++ suffix)))
unfolding elf_path
elf_path-message c pre suffix rest h k = elf_head-path [] pre suffix rest c h k
