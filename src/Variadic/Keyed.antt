-- ===== src/Variadic/Keyed.antt =====
-- Caches whose functions stand under the keys of their types.
use node_ffi.Base.{
  ℕ, ◌≡◌, true, inl, inr, Bool-cases, some, List, [], ◌∷◌, ap, ap₂, sym, subst, ◌∙◌,
}
use node_ffi.World.{World}
use node_ffi.ForeignFunction.{Proxy}
use node_ffi.Variadic.{Cache, Generator, same_key, find_cached, join}
use node_ffi.Variadic.Ids.{HasShortIds}
use node_ffi.Variadic.Key.{HasIds, HasOwnIds, same_key-same_types}
use node_ffi.Variadic.Extra.{Grows, HasIds-Grows}

-- The key of a list of types, the return type first.
pub record IsKey {N : Type 0} (w : World N) (ts : List ℕ) (k : List ℕ) : Type 0 where
  pub ids : List (List ℕ)
  pub known : HasIds w ts ids
  pub joined : k ≡ join ids

abbrev pub AllKeyed : {N B : Type 0} → World N → Cache B → Type 0
AllKeyed w [] = Unit
AllKeyed w ((k, f) ∷ c) = IsKey w (f.return_type ∷ f.arg_types) k × AllKeyed w c

-- The fixed types have the identifiers of the fixed key, and each function is cached under the key
-- of its types.
pub record IsKeyed {N B : Type 0} (w : World N) (g : Generator B) : Type 0 where
  pub fixed : HasIds w g.fixed_types g.fixed_key
  pub entries : AllKeyed w g.cache

pub IsKey-Grows :
    {N : Type 0} (w w' : World N) (ts : List ℕ) (k : List ℕ)
    → Grows w w'
    → IsKey w ts k
    → IsKey w' ts k
IsKey-Grows w w' ts k g h = record {
  ids = h.ids;
  known = HasIds-Grows w w' ts h.ids g h.known;
  joined = h.joined;
}

module _ {N B : Type 0} where
  pub AllKeyed-Grows : (w w' : World N) (c : Cache B) → Grows w w' → AllKeyed w c → AllKeyed w' c
  AllKeyed-Grows w w' [] g h = tt
  AllKeyed-Grows w w' ((k, f) ∷ c) g h =
      (IsKey-Grows w w' (f.return_type ∷ f.arg_types) k g h.0, AllKeyed-Grows w w' c g h.1)

  pub IsKeyed-Grows : (w w' : World N) (g : Generator B) → Grows w w' → IsKeyed w g → IsKeyed w' g
  IsKeyed-Grows w w' g grown h = record {
    fixed = HasIds-Grows w w' g.fixed_types g.fixed_key grown h.fixed;
    entries = AllKeyed-Grows w w' g.cache grown h.entries;
  }

  -- A function that is found under the key of some types has these types.
  pub found-same :
      (w : World N) (c : Cache B) (ts : List ℕ) (k : List ℕ) (f : Proxy B)
      → HasShortIds w
      → HasOwnIds w
      → AllKeyed w c
      → IsKey w ts k
      → find_cached k c ≡ some f
      → f.return_type ∷ f.arg_types ≡ ts
  unfolding find_cached
  found-same w [] ts k f short own a h e = cc e
  found-same w ((j, x) ∷ c) ts k f short own a h e = elim (Bool-cases (same_key j k)) [
    | inl same ↦
        let here : x ≡ f = cc (rw same at e) in
        let keys : same_key (join a.0.ids) (join h.ids) ≡ true =
          ap₂ same_key (sym a.0.joined) (sym h.joined) ∙ same in
        ap (λ (y : Proxy B). y.return_type ∷ y.arg_types) (sym here)
        ∙ same_key-same_types w (x.return_type ∷ x.arg_types) ts a.0.ids h.ids short own a.0.known
            h.known keys
    | inr other ↦ found-same w c ts k f short own a.1 h (rw other at e)
  ]

  -- A new function is cached under the key of its types.
  pub cache-IsKeyed :
      (w w' : World N) (g : Generator B) (ts : List ℕ) (key : List ℕ) (f : Proxy B)
      → Grows w w'
      → IsKeyed w g
      → IsKey w ts key
      → f.return_type ∷ f.arg_types ≡ ts
      → IsKeyed w' (record g { cache = (key, f) ∷ g.cache })
  cache-IsKeyed w w' g ts key f grown keyed k types = record {
    fixed = HasIds-Grows w w' g.fixed_types g.fixed_key grown keyed.fixed;
    entries = (
      subst (λ (x : List ℕ). IsKey w' x key) (sym types) (IsKey-Grows w w' ts key grown k),
      AllKeyed-Grows w w' g.cache grown keyed.entries,
    );
  }
