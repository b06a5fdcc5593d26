-- ===== src/Variadic/Asked.antt =====
-- The types of the function that a generator returns, cached or new.
use node_ffi.Base.{
  ℕ, ◌≡◌, refl, Option, none, some, List, ◌∷◌, ◌++◌, map, length, ltb, ap, ap₂, sym, subst, ◌∙◌,
}
use node_ffi.Value.{Value, object, Result, ok, Message.assertion}
use node_ffi.World.{World, assert}
use node_ffi.World.Bind.{bind-eq-ok, assert-eq-ok, ok-injective}
use node_ffi.Platform.{Platform, IsLawful}
use node_ffi.ForeignFunction.{Proxy, make_proxy}
use node_ffi.ForeignFunction.Ready.{make_proxy-Made}
use node_ffi.Cif.{cif_var}
use node_ffi.Cif.Frame.{cif_var-KeepsTypes}
use node_ffi.Variadic.{
  Generator, find_cached, join, get_id, extra_types, create_function, cached_or_new,
  variadic_function_generator,
}
use node_ffi.Variadic.Ids.{HasShortIds}
use node_ffi.Variadic.Key.{HasOwnIds}
use node_ffi.Variadic.Extra.{
  Grows, Grows-then, KeepsTypes-Grows, get_id-held_after, HasIds-Grows, HasIds-append,
  coerced_object, AreExtra, extra_types-AreExtra,
}
use node_ffi.Variadic.Keyed.{IsKey, IsKeyed, IsKeyed-Grows, found-same, cache-IsKeyed}

module _ (p : Platform) where
  open p use {Buf, Native}

  -- The function has the types that were asked for, and the generator is well keyed again.
  pub record IsAsked (rt : ℕ) (types : List ℕ) (w' : World Native) (f : Proxy Buf)
      (g' : Generator Buf) : Type 0 where
    pub types_asked : f.return_type ∷ f.arg_types ≡ rt ∷ types
    pub keyed : IsKeyed w' g'
    pub short : HasShortIds w'

module _ (p : Platform) (laws : IsLawful p) where
  open p use {Buf, Native}

  cached-IsAsked :
      (g g' : Generator Buf) (key : List ℕ) (rt : ℕ) (types : List ℕ) (e f : Proxy Buf)
      (w w' : World Native)
      → find_cached key g.cache ≡ some e
      → HasShortIds w
      → HasOwnIds w'
      → IsKeyed w g
      → IsKey w (rt ∷ types) key
      → (let x : Result (Proxy Buf × Generator Buf) × World Native = (ok (e, g), w) in x)
        ≡ (ok (f, g'), w')
      → IsAsked p rt types w' f g'
  cached-IsAsked g g' key rt types e f w w' hit short own keyed k h =
      let pair =
        ok-injective (ap (λ (x : Result (Proxy Buf × Generator Buf) × World Native). x.0) h) in
      let same_f : e ≡ f = ap (λ (x : Proxy Buf × Generator Buf). x.0) pair in
      let same_g : g ≡ g' = ap (λ (x : Proxy Buf × Generator Buf). x.1) pair in
      let end : w ≡ w' = ap (λ (x : Result (Proxy Buf × Generator Buf) × World Native). x.1) h in
      let own_here : HasOwnIds w = subst (λ (x : World Native). HasOwnIds x) (sym end) own in
      record {
        types_asked =
            ap (λ (x : Proxy Buf). x.return_type ∷ x.arg_types) (sym same_f)
            ∙ found-same w g.cache (rt ∷ types) key e short own_here keyed.entries k hit;
        keyed =
            subst (λ (x : World Native). IsKeyed x g') end
              (subst (λ (x : Generator Buf). IsKeyed w x) same_g keyed);
        short = subst (λ (x : World Native). HasShortIds x) end short;
      }

  created-IsAsked :
      (fuel : ℕ) (g g' : Generator Buf) (key : List ℕ) (rt : ℕ) (types : List ℕ) (f : Proxy Buf)
      (w w' : World Native)
      → HasShortIds w
      → IsKeyed w g
      → IsKey w (rt ∷ types) key
      → create_function p fuel g key rt types w ≡ (ok (f, g'), w')
      → IsAsked p rt types w' f g'
  unfolding create_function
  created-IsAsked fuel g g' key rt types f w w' short keyed k h =
      let s =
        bind-eq-ok
          (cif_var p fuel g.prepared_type (some (map object types)) (length g.fixed_types) g.abi) _
          w h in
      let s1 = bind-eq-ok (make_proxy p s.value g.func_ptr rt types) _ s.world s.second in
      let m = make_proxy-Made p s.value g.func_ptr rt types s.world s1.world s1.value s1.first in
      let pair =
        ok-injective
          (ap (λ (x : Result (Proxy Buf × Generator Buf) × World Native). x.0) s1.second) in
      let end : s1.world ≡ w' =
        ap (λ (x : Result (Proxy Buf × Generator Buf) × World Native). x.1) s1.second in
      let new : Generator Buf = record g { cache = (key, s1.value) ∷ g.cache } in
      let same_f : s1.value ≡ f = ap (λ (x : Proxy Buf × Generator Buf). x.0) pair in
      let same_g : new ≡ g' = ap (λ (x : Proxy Buf × Generator Buf). x.1) pair in
      let grown0 : Grows w s.world =
        KeepsTypes-Grows
          (cif_var p fuel g.prepared_type (some (map object types)) (length g.fixed_types) g.abi) w
          s.world (ok s.value) (cif_var-KeepsTypes p laws fuel _ _ _ _) short s.first in
      let grown : Grows w w' =
        subst (λ (x : World Native). Grows w x) (m.same_world ∙ end) grown0 in
      let has_types : s1.value.return_type ∷ s1.value.arg_types ≡ rt ∷ types =
        ap₂ (λ (x : ℕ) (y : List ℕ). x ∷ y) m.same_rtn m.same_args in
      let keyed_new = cache-IsKeyed w w' g (rt ∷ types) key s1.value grown keyed k has_types in
      record {
        types_asked = ap (λ (x : Proxy Buf). x.return_type ∷ x.arg_types) (sym same_f) ∙ has_types;
        keyed = subst (λ (x : Generator Buf). IsKeyed w' x) same_g keyed_new;
        short = grown.short;
      }

  cached_or_new-IsAsked :
      (fuel : ℕ) (g g' : Generator Buf) (key : List ℕ) (rt : ℕ) (types : List ℕ)
      (found : Option (Proxy Buf)) (f : Proxy Buf) (w w' : World Native)
      → find_cached key g.cache ≡ found
      → HasShortIds w
      → HasOwnIds w'
      → IsKeyed w g
      → IsKey w (rt ∷ types) key
      → cached_or_new p fuel g key rt types found w ≡ (ok (f, g'), w')
      → IsAsked p rt types w' f g'
  unfolding cached_or_new
  cached_or_new-IsAsked fuel g g' key rt types (some e) f w w' hit short own keyed k h =
      cached-IsAsked g g' key rt types e f w w' hit short own keyed k h
  cached_or_new-IsAsked fuel g g' key rt types none f w w' miss short own keyed k h =
      created-IsAsked fuel g g' key rt types f w w' short keyed k h

  lookup-IsAsked :
      (fuel : ℕ) (g g' : Generator Buf) (rt rtn : ℕ) (us types : List ℕ) (ids : List (List ℕ))
      (k : List ℕ) (x : Unit {0}) (w w1 w2 w3 w4 w' : World Native) (f : Proxy Buf)
      → g.return_type ≡ object rt
      → HasOwnIds w'
      → IsKeyed w g
      → AreExtra p laws us types ids w w1
      → p.coerce_type g.return_type w1 ≡ (ok rtn, w2)
      → get_id rtn w2 ≡ (ok k, w3)
      → assert (ltb 0 (length k)) assertion w3 ≡ (ok x, w4)
      → (let key = k ++ join (g.fixed_key ++ ids) in
          cached_or_new p fuel g key rtn (g.fixed_types ++ types) (find_cached key g.cache) w4)
        ≡ (ok (f, g'), w')
      → IsAsked p rt (g.fixed_types ++ us) w' f g'
  unfolding join
  lookup-IsAsked fuel g g' rt rtn us types ids k x w w1 w2 w3 w4 w' f e own keyed extra c gi a h =
      let key = k ++ join (g.fixed_key ++ ids) in
      let (same_rt, g2) =
        coerced_object p laws rt rtn w1 w2 extra.grown.short
          (ap (λ (v : Value). p.coerce_type v w1) (sym e) ∙ c) in
      let (g3, held) = get_id-held_after rtn w2 w3 k g2.short gi in
      let later = Grows-then w1 w2 w3 g2 g3 in
      let keyed3 = IsKeyed-Grows w w3 g (Grows-then w w1 w3 extra.grown later) keyed in
      let (long, end) = assert-eq-ok (ltb 0 (length k)) assertion w3 a in
      let held_rt : w3.ffi_id rt ≡ some k = ap (λ (y : ℕ). w3.ffi_id y) (sym same_rt) ∙ held in
      let key3 : IsKey w3 (rt ∷ g.fixed_types ++ us) key = record {
        ids = k ∷ g.fixed_key ++ ids;
        known = (
          held_rt,
          HasIds-append w3 g.fixed_types us g.fixed_key ids keyed3.fixed
              (HasIds-Grows w1 w3 us ids later extra.known),
        );
        joined = refl;
      } in
      let run =
        ap₂
          (λ (y : ℕ) (ts : List ℕ).
            cached_or_new p fuel g key y (g.fixed_types ++ ts) (find_cached key g.cache) w3)
          (sym same_rt) (sym extra.same)
        ∙ (ap (cached_or_new p fuel g key rtn (g.fixed_types ++ types) (find_cached key g.cache))
              end
            ∙ h) in
      cached_or_new-IsAsked fuel g g' key rt (g.fixed_types ++ us) (find_cached key g.cache) f w3 w'
        refl g3.short own keyed3 key3 run

-- Where a generator is well keyed, its `returnType` is a type object, it is called with type objects,
-- and in the end no two types share an identifier, the function that it returns has that return type
-- and the fixed types followed by those given, whether it was cached or not. The generator is well
-- keyed again. Before and after, all identifiers have five characters, the random numbers being
-- below 0x10000.
pub variadic_function_generator-IsAsked :
    (p : Platform) (laws : IsLawful p)
    → (fuel : ℕ) (g g' : Generator p.Buf) (rt : ℕ) (us : List ℕ) (w w' : World p.Native)
      (f : Proxy p.Buf)
    → g.return_type ≡ object rt
    → HasShortIds w
    → HasOwnIds w'
    → IsKeyed w g
    → variadic_function_generator p fuel g (map object us) w ≡ (ok (f, g'), w')
    → IsAsked p rt (g.fixed_types ++ us) w' f g'
unfolding variadic_function_generator
variadic_function_generator-IsAsked p laws fuel g g' rt us w w' f e short own keyed h =
    let s1 = bind-eq-ok (extra_types p fuel (map object us)) _ w h in
    let s2 = bind-eq-ok (p.coerce_type g.return_type) _ s1.world s1.second in
    let s3 = bind-eq-ok (get_id s2.value) _ s2.world s2.second in
    let s4 = bind-eq-ok (assert (ltb 0 (length s3.value)) assertion) _ s3.world s3.second in
    let extra =
      extra_types-AreExtra p laws fuel us s1.value.0 s1.value.1 w s1.world short s1.first in
    lookup-IsAsked p laws fuel g g' rt s2.value us s1.value.0 s1.value.1 s3.value s4.value w
      s1.world s2.world s3.world s4.world w' f e own keyed extra s2.first s3.first s4.first
      s4.second
