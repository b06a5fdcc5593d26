-- ===== src/Text.antt =====
-- Texts that the code looks into, as lists of codes, and its two regular expressions.
pub mod Elf
use Prim.Native.Char.{code}
use Prim.Native.String
use node_ffi.Base.{
  ℕ, String, Bool, true, false, not, ◌&&◌, ◌||◌, Option, none, some, or_else, List, [], ◌∷◌, ◌++◌,
  ◌==◌, if◌then◌else◌,
}

abbrev pub Text : Type 0
Text = List ℕ

abbrev pub codes : String → Text
codes String.[] = []
codes (String.◌∷◌ c s) = code c ∷ codes s

-- `[^ \t()]`
abbrev pub is_word : ℕ → Bool
is_word c = not (c == b' ') && not (c == b'\t') && not (c == b'(') && not (c == b')')

-- `[^ \t:()]`
abbrev pub is_name : ℕ → Bool
is_name c = is_word c && not (c == b':')

-- What is left of a text behind a prefix.
unfoldable pub strip : Text → Text → Option Text
strip [] s = some s
strip (c ∷ cs) [] = none
strip (c ∷ cs) (d ∷ s) = if c == d then strip cs s else none

-- The longest run of characters in a class.
unfoldable pub run_of : (ℕ → Bool) → Text → Text
run_of p [] = []
run_of p (c ∷ s) = if p c then c ∷ run_of p s else []

unfoldable pub skip : (ℕ → Bool) → Text → Text
skip p [] = []
skip p (c ∷ s) = if p c then skip p s else c ∷ s

abbrev pub starts_with : ℕ → Text → Bool
starts_with c [] = false
starts_with c (d ∷ s) = c == d

abbrev pub dot_so : Text
dot_so = b'.' ∷ b's' ∷ b'o' ∷ []

-- `\.so([^ \t:()])*):`, behind what was matched before.
unfoldable pub elf_tail : Text → Text → Option Text
elf_tail before s = elim (strip dot_so s) [
  | none ↦ none
  | some rest ↦
      if starts_with b':' (skip is_name rest)
      then some (before ++ (dot_so ++ run_of is_name rest))
      else none
]

-- `([^ \t()])+`, which takes as many characters as it can and then gives back.
unfoldable pub elf_head : Text → Text → Option Text
elf_head before [] = none
elf_head before (c ∷ s) =
    let longer = or_else (elf_head (before ++ c ∷ []) s) (elf_tail (before ++ c ∷ []) s) in
    if is_word c then longer else none

-- `err.match(/^(([^ \t()])+\.so([^ \t:()])*):([ \t])*/)`, its first group
unfoldable pub elf_path : Text → Option Text
elf_path s = elf_head [] s

-- `[^ )]`
abbrev pub is_file : ℕ → Bool
is_file c = not (c == b' ') && not (c == b')')

abbrev pub is_space : ℕ → Bool
is_space c = c == b' '

abbrev pub non_empty : Text → Option Text
non_empty [] = none
non_empty (c ∷ s) = some (c ∷ s)

-- `\( *(([^ )])+)`
unfoldable pub group_list : Text → Option Text
group_list [] = none
group_list (c ∷ s) = if c == b'(' then non_empty (run_of is_file (skip is_space s)) else none

-- `GROUP *\( *(([^ )])+)` at one place
unfoldable pub group_at : Text → Option Text
group_at s = elim (strip (codes "GROUP") s) [
  | none ↦ none
  | some rest ↦ group_list (skip is_space rest)
]

-- `content.match(/GROUP *\( *(([^ )])+)/)`, its first group
unfoldable pub group_file : Text → Option Text
group_file [] = none
group_file (c ∷ s) = or_else (group_at (c ∷ s)) (group_file s)

-- `s.indexOf(t) !== -1`
unfoldable pub is_prefix : Text → Text → Bool
is_prefix [] s = true
is_prefix (c ∷ t) [] = false
is_prefix (c ∷ t) (d ∷ s) = c == d && is_prefix t s

unfoldable pub contains : Text → Text → Bool
contains t [] = is_prefix t []
contains t (d ∷ s) = is_prefix t (d ∷ s) || contains t s
