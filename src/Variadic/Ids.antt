-- ===== src/Variadic/Ids.antt =====
-- The identifiers of types: `getId()`.
use node_ffi.Base.{
  ℕ, suc, ◌+◌, ◌/◌, ◌%◌, ◌<◌, ◌≤◌, ◌≡◌, ◌≢◌, refl, inl, inr, none, some, List, [], ◌∷◌, length,
  arith, ◌==◌, if◌then◌else◌, ap, sym, ◌∙◌, Option-cases, Bool-cases,
}
use node_ffi.Value.{ok}
use node_ffi.World.{World}
use node_ffi.Variadic.{to_hex, fresh_id, get_id, set_id}

-- The text has five characters.
abbrev pub IsShort : List ℕ → Type 0
IsShort k = length k ≡ 5

length-to_hex :
    (fuel n : ℕ) (acc : List ℕ) (k : ℕ)
    → length acc ≡ k
    → n < 16
    → length (to_hex (suc fuel) n acc) ≡ k + 1
unfolding to_hex
length-to_hex fuel n acc k h l = ground arith

to_hex_step :
    (fuel n : ℕ) (acc : List ℕ)
    → 16 ≤ n
    → to_hex (suc fuel) n acc ≡ to_hex fuel (n / 16) ((n % 16) ∷ acc)
unfolding to_hex
to_hex_step fuel n acc h = ground arith

fresh_id-IsShort : (r : ℕ) → r < 65536 → IsShort (fresh_id r)
unfolding fresh_id
fresh_id-IsShort r h = let n = 65536 + r in to_hex_5 n (omega arith) (omega arith)
  where
    to_hex_5 : (n : ℕ) → 65536 ≤ n → n < 131072 → IsShort (to_hex 8 n [])
    to_hex_5 n lo hi =
        let a = n / 16 in
        let b = a / 16 in
        let c = b / 16 in
        let d = c / 16 in
        rw
          (
            to_hex_step 7 n [] (omega arith),
            to_hex_step 6 a _ (omega arith),
            to_hex_step 5 b _ (omega arith),
            to_hex_step 4 c _ (omega arith),
          )
          (length-to_hex 3 d _ 4 refl (omega arith))

-- Every identifier that a type has, and every one that will be drawn, has five characters.
pub record HasShortIds {N : Type 0} (w : World N) : Type 0 where
  pub given : (t : ℕ) (k : List ℕ) → w.ffi_id t ≡ some k → IsShort k
  pub drawn : (n : ℕ) → w.random n < 65536

-- What `getId()` gives: the own identifier of the type, which is set now; nothing else changes but
-- the random numbers, and a second call gives the same one and changes nothing.
pub record IsIdentified {N : Type 0} (t : ℕ) (w w' : World N) (k : List ℕ) : Type 0 where
  pub short : IsShort k
  pub held : w'.ffi_id t ≡ some k
  pub kept : (u : ℕ) (j : List ℕ) → w.ffi_id u ≡ some j → w'.ffi_id u ≡ some j
  pub others : (u : ℕ) → u ≢ t → w'.ffi_id u ≡ w.ffi_id u
  pub again : get_id t w' ≡ (ok k, w')
  pub remain : HasShortIds w'
  pub rest : w' ≡ record w { ffi_id = w'.ffi_id; random = w'.random }

get_id-held :
    {N : Type 0} (t : ℕ) (w : World N) (k : List ℕ) → w.ffi_id t ≡ some k → get_id t w ≡ (ok k, w)
unfolding get_id
get_id-held t w k h = rw (h, get_id) refl

set_id-given :
    {N : Type 0} (t : ℕ) (k : List ℕ) (w : World N)
    → HasShortIds w
    → IsShort k
    → (u : ℕ) (j : List ℕ) → (if u == t then some k else w.ffi_id u) ≡ some j
    → IsShort j
set_id-given t k w h s u j e = elim (Bool-cases (u == t)) [
  | inl same ↦ let here : k ≡ j = cc (rw same at e) in ap (length {0} {A = ℕ}) (sym here) ∙ s
  | inr other ↦ h.given u j (rw other at e)
]

get_id-held_IsIdentified :
    {N : Type 0} (t : ℕ) (w : World N) (k : List ℕ)
    → HasShortIds w
    → w.ffi_id t ≡ some k
    → IsIdentified t w w k
get_id-held_IsIdentified t w k h e = record {
  short = h.given t k e;
  held = e;
  kept = λ u j x. x;
  others = λ u ne. refl;
  again = get_id-held t w k e;
  remain = h;
  rest = refl;
}

get_id-new_IsIdentified :
    {N : Type 0} (t : ℕ) (w : World N)
    → HasShortIds w
    → w.ffi_id t ≡ none
    → IsIdentified t w
        (set_id t (fresh_id (w.random 0)) (record w { random = λ n. w.random (n + 1) }))
        (fresh_id (w.random 0))
get_id-new_IsIdentified t w h e =
    let k = fresh_id (w.random 0) in
    let drawn : World _ = record w { random = λ n. w.random (n + 1) } in
    let s : IsShort k = fresh_id-IsShort (w.random 0) (h.drawn 0) in
    let w' = set_id t k drawn in
    let held : w'.ffi_id t ≡ some k = ground arith in
    record {
      short = s;
      held = held;
      kept = λ u j x. ground arith;
      others = λ u ne. ground arith;
      again = get_id-held t w' k held;
      remain = record { given = set_id-given t k w h s; drawn = λ n. h.drawn (n + 1) };
      rest = refl;
    }

-- Where all identifiers have five characters and the random numbers are below 0x10000, `getId()`
-- gives the type an identifier of five characters that the type then holds; one that it held
-- before is kept, other types' identifiers are unchanged, nothing else changes but the random
-- numbers left, a second call gives the same and changes nothing, and the two conditions hold again.
pub get_id-IsIdentified :
    {N : Type 0} (t : ℕ) (w : World N)
    → HasShortIds w
    → (k : List ℕ) × ((get_id t w).0 ≡ ok k) × IsIdentified t w (get_id t w).1 k
unfolding get_id
get_id-IsIdentified t w h = elim (Option-cases (w.ffi_id t)) [
  | inl new ↦ (
    fresh_id (w.random 0),
    rw (new, get_id) refl,
    rw (new, get_id) (get_id-new_IsIdentified t w h new),
  )
  | inr old ↦ (
    old.0,
    rw (old.1, get_id) refl,
    rw (old.1, get_id) (get_id-held_IsIdentified t w old.0 h old.1),
  )
]
