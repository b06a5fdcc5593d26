-- ===== src/Variadic/Extra.antt =====
-- The further arguments of a generator: their types, and the identifiers that they get.
use node_ffi.Base.{
  ℕ, ◌<◌, ◌≡◌, refl, Option, some, List, [], ◌∷◌, ◌++◌, map, ap, ap₂, sym, subst, ◌∙◌, arith,
}
use node_ffi.Value.{Ptr, object, Result, ok, Message.assertion}
use node_ffi.World.{World, Js, assert}
use node_ffi.World.Bind.{bind-eq-ok, assert-eq-ok, ok-injective}
use node_ffi.World.Keeps.{KeepsTypes}
use node_ffi.Platform.{Platform, IsLawful}
use node_ffi.FfiType.{ffi_type}
use node_ffi.FfiType.Frame.{ffi_type-KeepsTypes}
use node_ffi.Variadic.{has_text, get_id, extra_types}
use node_ffi.Variadic.Ids.{HasShortIds, get_id-IsIdentified}
use node_ffi.Variadic.Key.{HasIds}

-- Identifiers are only added, and stay short.
pub record Grows {N : Type 0} (w w' : World N) : Type 0 where
  pub kept : (u : ℕ) (j : List ℕ) → w.ffi_id u ≡ some j → w'.ffi_id u ≡ some j
  pub short : HasShortIds w'

module _ {N : Type 0} where
  pub Grows-then : (u v w : World N) → Grows u v → Grows v w → Grows u w
  Grows-then u v w g h = record { kept = λ t j e. h.kept t j (g.kept t j e); short = h.short }

  pub Grows-same :
      (w w' : World N) → HasShortIds w → w'.ffi_id ≡ w.ffi_id → w'.random ≡ w.random → Grows w w'
  Grows-same w w' h e f = record {
    kept = λ t j x. ap (λ (i : ℕ → Option (List ℕ)). i t) e ∙ x;
    short = record {
      given = λ t k x. h.given t k (sym (ap (λ (i : ℕ → Option (List ℕ)). i t) e) ∙ x);
      drawn = λ n. subst (λ (r : ℕ → ℕ). r n < 65536) (sym f) (h.drawn n);
    };
  }

  -- A run that keeps the types, with its end.
  pub KeepsTypes-Grows :
      {A : Type 0} (m : Js N A) (w w' : World N) (r : Result A)
      → KeepsTypes m
      → HasShortIds w
      → m w ≡ (r, w')
      → Grows w w'
  KeepsTypes-Grows {A} m w w' r keeps h e =
      let end : (m w).1 ≡ w' = ap (λ (x : Result A × World N). x.1) e in
      subst (λ (x : World N). Grows w x) end (Grows-same w (m w).1 h (keeps.ids w) (keeps.draws w))

  pub get_id-held_after :
      (t : ℕ) (w w' : World N) (k : List ℕ)
      → HasShortIds w
      → get_id t w ≡ (ok k, w')
      → Grows w w' × (w'.ffi_id t ≡ some k)
  get_id-held_after t w w' k h e =
      let (j, found, id) = get_id-IsIdentified t w h in
      let end : (get_id t w).1 ≡ w' = ap (λ (x : Result (List ℕ) × World N). x.1) e in
      let same : j ≡ k = ok-injective (sym found ∙ ap (λ (x : Result (List ℕ) × World N). x.0) e) in
      (
        subst (λ (x : World N). Grows w x) end (record { kept = id.kept; short = id.remain }),
        ap (λ (x : World N). x.ffi_id t) (sym end) ∙ (id.held ∙ ap (λ (x : List ℕ). some x) same),
      )

  pub HasIds-Grows :
      (w w' : World N) (ts : List ℕ) (ks : List (List ℕ))
      → Grows w w'
      → HasIds w ts ks
      → HasIds w' ts ks
  HasIds-Grows w w' [] [] g h = tt
  HasIds-Grows w w' (t ∷ ts) (k ∷ ks) g h = (g.kept t k h.0, HasIds-Grows w w' ts ks g h.1)
  HasIds-Grows w w' _ _ g h = ground arith

  pub HasIds-append :
      (w : World N) (ts us : List ℕ) (ks js : List (List ℕ))
      → HasIds w ts ks
      → HasIds w us js
      → HasIds w (ts ++ us) (ks ++ js)
  HasIds-append w [] us [] js h i = i
  HasIds-append w (t ∷ ts) us (k ∷ ks) js h i = (h.0, HasIds-append w ts us ks js h.1 i)
  HasIds-append w _ us _ js h i = ground arith

module _ (p : Platform) (laws : IsLawful p) where
  open p use {Buf, Native}

  pub coerced_object :
      (t u : ℕ) (w w' : World Native)
      → HasShortIds w
      → p.coerce_type (object t) w ≡ (ok u, w')
      → (u ≡ t) × Grows w w'
  coerced_object t u w w' h e = (
    laws.coerce_type-same t u w (ap (λ (x : Result ℕ × World Native). x.0) e),
    KeepsTypes-Grows (p.coerce_type (object t)) w w' (ok u)
        (record {
          at = laws.types-coerce_type (object t);
          ids = laws.ids-coerce_type (object t);
          draws = laws.random-coerce_type (object t);
        })
        h e,
  )

  -- The types of further arguments, and what they are known by.
  pub record AreExtra (us types : List ℕ) (ids : List (List ℕ)) (w w' : World Native) : Type 0 where
    pub same : types ≡ us
    pub known : HasIds w' us ids
    pub grown : Grows w w'

  -- One turn of the loop: the type is the object itself, and it has its identifier.
  record IsTurned (u t : ℕ) (k : List ℕ) (w w' : World Native) : Type 0 where
    same_type : t ≡ u
    held : w'.ffi_id u ≡ some k
    grown_by : Grows w w'

  turn-IsTurned :
      (fuel u t : ℕ) (k : List ℕ) (q : Ptr) (x : Unit {0}) (w w1 w2 w3 w4 : World Native)
      → HasShortIds w
      → p.coerce_type (object u) w ≡ (ok t, w1)
      → ffi_type p fuel (object t) w1 ≡ (ok q, w2)
      → assert (has_text (p.ffi_type_name q)) assertion w2 ≡ (ok x, w3)
      → get_id t w3 ≡ (ok k, w4)
      → IsTurned u t k w w4
  turn-IsTurned fuel u t k q x w w1 w2 w3 w4 h c f a g =
      let (same, g1) = coerced_object u t w w1 h c in
      let g2 =
        KeepsTypes-Grows (ffi_type p fuel (object t)) w1 w2 (ok q)
          (ffi_type-KeepsTypes p laws fuel (object t)) g1.short f in
      let (named, e) = assert-eq-ok (has_text (p.ffi_type_name q)) assertion w2 a in
      let g3 = subst (λ (y : World Native). Grows w1 y) e g2 in
      let (g4, held) = get_id-held_after t w3 w4 k g3.short g in
      record {
        same_type = same;
        held = ap (λ (y : ℕ). w4.ffi_id y) (sym same) ∙ held;
        grown_by = Grows-then w w1 w4 g1 (Grows-then w1 w3 w4 g3 g4);
      }

  AreExtra-cons :
      (u t : ℕ) (us ts types : List ℕ) (k : List ℕ) (ks ids : List (List ℕ))
      (w v v' w' : World Native)
      → IsTurned u t k w v
      → AreExtra us ts ks v v'
      → (let x : List ℕ × List (List ℕ) = (t ∷ ts, k ∷ ks) in x) ≡ (types, ids)
      → v' ≡ w'
      → AreExtra (u ∷ us) types ids w w'
  AreExtra-cons u t us ts types k ks ids w v v' w' turned rest pair end =
      let same_ids : k ∷ ks ≡ ids = ap (λ (x : List ℕ × List (List ℕ)). x.1) pair in
      let known : HasIds v' (u ∷ us) (k ∷ ks) = (rest.grown.kept u k turned.held, rest.known) in
      record {
        same =
            ap (λ (x : List ℕ × List (List ℕ)). x.0) (sym pair)
            ∙ ap₂ (λ (x : ℕ) (y : List ℕ). x ∷ y) turned.same_type rest.same;
        known =
            subst (λ (x : List (List ℕ)). HasIds w' (u ∷ us) x) same_ids
              (subst (λ (x : World Native). HasIds x (u ∷ us) (k ∷ ks)) end known);
        grown =
            subst (λ (x : World Native). Grows w x) end
              (Grows-then w v v' turned.grown_by rest.grown);
      }

  pub extra_types-AreExtra :
      (fuel : ℕ) (us types : List ℕ) (ids : List (List ℕ)) (w w' : World Native)
      → HasShortIds w
      → extra_types p fuel (map object us) w ≡ (ok (types, ids), w')
      → AreExtra us types ids w w'
  unfolding extra_types
  extra_types-AreExtra fuel [] types ids w w' h e =
      let pair =
        ok-injective (ap (λ (x : Result (List ℕ × List (List ℕ)) × World Native). x.0) e) in
      let end : w ≡ w' = ap (λ (x : Result (List ℕ × List (List ℕ)) × World Native). x.1) e in
      record {
        same = ap (λ (x : List ℕ × List (List ℕ)). x.0) (sym pair);
        known =
            subst (λ (x : List (List ℕ)). HasIds w' [] x)
              (ap (λ (x : List ℕ × List (List ℕ)). x.1) pair) tt;
        grown = subst (λ (x : World Native). Grows w x) end (Grows-same w w h refl refl);
      }
  extra_types-AreExtra fuel (u ∷ us) types ids w w' h e =
      let s = bind-eq-ok (p.coerce_type (object u)) _ w e in
      let s1 = bind-eq-ok (ffi_type p fuel (object s.value)) _ s.world s.second in
      let s2 =
        bind-eq-ok (assert (has_text (p.ffi_type_name s1.value)) assertion) _ s1.world s1.second in
      let s3 = bind-eq-ok (get_id s.value) _ s2.world s2.second in
      let s4 = bind-eq-ok (extra_types p fuel (map object us)) _ s3.world s3.second in
      let turned =
        turn-IsTurned fuel u s.value s3.value s1.value s2.value w s.world s1.world s2.world s3.world
          h s.first s1.first s2.first s3.first in
      let rest =
        extra_types-AreExtra fuel us s4.value.0 s4.value.1 s3.world s4.world turned.grown_by.short
          s4.first in
      let pair =
        ok-injective (ap (λ (x : Result (List ℕ × List (List ℕ)) × World Native). x.0) s4.second) in
      let end : s4.world ≡ w' =
        ap (λ (x : Result (List ℕ × List (List ℕ)) × World Native). x.1) s4.second in
      AreExtra-cons u s.value us s4.value.0 types s3.value s4.value.1 ids w s3.world s4.world w'
        turned rest pair end
