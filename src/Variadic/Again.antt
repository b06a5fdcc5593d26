-- ===== src/Variadic/Again.antt =====
-- A generator that is called again for types that it was called for before.
use node_ffi.Base.{
  ℕ, ◌≡◌, refl, true, Option, none, some, List, [], ◌∷◌, ◌++◌, map, length, ltb, ap, sym, subst,
  ◌∙◌, arith,
}
use node_ffi.Value.{Ptr, Value, object, ok, Message.assertion}
use node_ffi.World.{World, assert}
use node_ffi.World.Bind.{bind-eq-ok, bind-ok, assert-eq-ok}
use node_ffi.World.Keeps.{KeepsTypes, KeepsTypes-bind, keeps_rules}
use node_ffi.Platform.{Platform, IsLawful}
use node_ffi.FfiType.{ffi_type}
use node_ffi.Cif.{CifBuffer, cif_var}
use node_ffi.Cif.Frame.{cif_var-KeepsTypes}
use node_ffi.ForeignFunction.{Proxy, make_proxy}
use node_ffi.Variadic.{
  Generator, has_text, find_cached, join, get_id, extra_types, create_function, cached_or_new,
  variadic_function_generator,
}
use node_ffi.Variadic.Ids.{HasShortIds}
use node_ffi.Variadic.Key.{HasIds}
use node_ffi.Variadic.Entry.{IsCached, cached_or_new-IsCached}
use node_ffi.Variadic.Extra.{
  Grows, Grows-then, KeepsTypes-Grows, get_id-held_after, HasIds-Grows, coerced_object,
  extra_types-AreExtra,
}

get_id-held :
    {N : Type 0} (t : ℕ) (w : World N) (k : List ℕ) → w.ffi_id t ≡ some k → get_id t w ≡ (ok k, w)
unfolding get_id
get_id-held t w k h = ground arith

module _ (p : Platform) where
  open p use {Buf, Native}

  -- A type object that `Type()` knows: it gives a pointer with a name, and changes nothing.
  pub record IsKnown (fuel : ℕ) (w : World Native) (u : ℕ) : Type 0 where
    pub coerced : p.coerce_type (object u) w ≡ (ok u, w)
    pub pointer : Ptr
    pub found : ffi_type p fuel (object u) w ≡ (ok pointer, w)
    pub named : has_text (p.ffi_type_name pointer) ≡ true

  unfoldable pub AreKnown : ℕ → World Native → List ℕ → Type 0
  AreKnown fuel w [] = Unit
  AreKnown fuel w (u ∷ us) = IsKnown fuel w u × AreKnown fuel w us

  extra_types-known :
      (fuel : ℕ) (us : List ℕ) (ids : List (List ℕ)) (w : World Native)
      → AreKnown fuel w us
      → HasIds w us ids
      → extra_types p fuel (map object us) w ≡ (ok (us, ids), w)
  unfolding AreKnown extra_types
  extra_types-known fuel [] [] w a h = refl
  extra_types-known fuel (u ∷ us) (k ∷ ks) w a h =
      bind-ok (p.coerce_type (object u)) _ w w a.0.coerced
      ∙ (bind-ok (ffi_type p fuel (object u)) _ w w a.0.found
          ∙ rw a.0.named (
              bind-ok (get_id u) _ w w (get_id-held u w k h.0)
              ∙ bind-ok (extra_types p fuel (map object us)) _ w w
                  (extra_types-known fuel us ks w a.1 h.1)))
  extra_types-known fuel _ _ w a h = ground arith

  -- A run whose types are known, and whose function is cached.
  pub generator-hit :
      (fuel : ℕ) (g : Generator Buf) (rt : ℕ) (us : List ℕ) (rid : List ℕ) (ids : List (List ℕ))
      (w : World Native) (f : Proxy Buf)
      → g.return_type ≡ object rt
      → p.coerce_type (object rt) w ≡ (ok rt, w)
      → AreKnown fuel w us
      → HasIds w us ids
      → w.ffi_id rt ≡ some rid
      → ltb 0 (length rid) ≡ true
      → find_cached (rid ++ join (g.fixed_key ++ ids)) g.cache ≡ some f
      → variadic_function_generator p fuel g (map object us) w ≡ (ok (f, g), w)
  unfolding variadic_function_generator cached_or_new
  generator-hit fuel g rt us rid ids w f e c a h held long hit =
      bind-ok (extra_types p fuel (map object us)) _ w w (extra_types-known fuel us ids w a h)
      ∙ (bind-ok (p.coerce_type g.return_type) _ w w (ap (λ (v : Value). p.coerce_type v w) e ∙ c)
          ∙ (bind-ok (get_id rt) _ w w (get_id-held rt w rid held) ∙ rw (long, hit) refl))

module _ (p : Platform) (laws : IsLawful p) where
  open p use {Buf, Native}

  make_proxy-KeepsTypes :
      (c : CifBuffer Buf) (q : Ptr) (rtn : ℕ) (types : List ℕ)
      → KeepsTypes (make_proxy p c q rtn types)
  unfolding make_proxy
  make_proxy-KeepsTypes c q rtn types = search keeps_rules depth 9

  cached_or_new-KeepsTypes :
      (fuel : ℕ) (g : Generator Buf) (key : List ℕ) (rtn : ℕ) (types : List ℕ)
      (found : Option (Proxy Buf))
      → KeepsTypes (cached_or_new p fuel g key rtn types found)
  unfolding cached_or_new create_function
  cached_or_new-KeepsTypes fuel g key rtn types (some f) = search keeps_rules
  cached_or_new-KeepsTypes fuel g key rtn types none =
      KeepsTypes-bind
        (cif_var p fuel g.prepared_type (some (map object types)) (length g.fixed_types) g.abi) _
        (cif_var-KeepsTypes p laws fuel _ _ _ _)
        λ c.
          KeepsTypes-bind (make_proxy p c g.func_ptr rtn types) _
            (make_proxy-KeepsTypes c g.func_ptr rtn types) λ f. search keeps_rules

  -- What a run leaves for the next one: the identifiers of its key, and the function under it.
  record Leaves (rt : ℕ) (us : List ℕ) (g g' : Generator Buf) (f : Proxy Buf) (w' : World Native)
      : Type 0 where
    rid : List ℕ
    ids : List (List ℕ)
    known : HasIds w' us ids
    held : w'.ffi_id rt ≡ some rid
    long : ltb 0 (length rid) ≡ true
    cached : IsCached p (rid ++ join (g.fixed_key ++ ids)) g g' f

  generator-Leaves :
      (fuel : ℕ) (g g' : Generator Buf) (rt : ℕ) (us : List ℕ) (w w' : World Native) (f : Proxy Buf)
      → g.return_type ≡ object rt
      → HasShortIds w
      → variadic_function_generator p fuel g (map object us) w ≡ (ok (f, g'), w')
      → Leaves rt us g g' f w'
  unfolding variadic_function_generator
  generator-Leaves fuel g g' rt us w w' f e short h =
      let s1 = bind-eq-ok (extra_types p fuel (map object us)) _ w h in
      let s2 = bind-eq-ok (p.coerce_type g.return_type) _ s1.world s1.second in
      let s3 = bind-eq-ok (get_id s2.value) _ s2.world s2.second in
      let s4 = bind-eq-ok (assert (ltb 0 (length s3.value)) assertion) _ s3.world s3.second in
      let extra =
        extra_types-AreExtra p laws fuel us s1.value.0 s1.value.1 w s1.world short s1.first in
      let (same_rt, g2) =
        coerced_object p laws rt s2.value s1.world s2.world extra.grown.short
          (ap (λ (v : Value). p.coerce_type v s1.world) (sym e) ∙ s2.first) in
      let (g3, held) = get_id-held_after s2.value s2.world s3.world s3.value g2.short s3.first in
      let (long, end) = assert-eq-ok (ltb 0 (length s3.value)) assertion s3.world s4.first in
      let key = s3.value ++ join (g.fixed_key ++ s1.value.1) in
      let g4 : Grows s4.world w' =
        KeepsTypes-Grows
          (cached_or_new p fuel g key s2.value (g.fixed_types ++ s1.value.0)
            (find_cached key g.cache))
          s4.world w' (ok (f, g'))
          (cached_or_new-KeepsTypes fuel g key s2.value (g.fixed_types ++ s1.value.0) _)
          (subst (λ (x : World Native). HasShortIds x) end g3.short) s4.second in
      let g5 : Grows s3.world w' = subst (λ (x : World Native). Grows x w') (sym end) g4 in
      record {
        rid = s3.value;
        ids = s1.value.1;
        known =
            HasIds-Grows s1.world w' us s1.value.1
              (Grows-then s1.world s2.world w' g2 (Grows-then s2.world s3.world w' g3 g5))
              extra.known;
        held = g5.kept rt s3.value (ap (λ (y : ℕ). s3.world.ffi_id y) (sym same_rt) ∙ held);
        long = long;
        cached =
            cached_or_new-IsCached p fuel g g' key s2.value (g.fixed_types ++ s1.value.0)
              (find_cached key g.cache) s4.world w' f refl s4.second;
      }

-- Where a generator has returned a function for some type objects, and its `returnType` is one too,
-- it returns the same function for them in every later state, and changes neither its cache nor the
-- state; a later state keeps the identifiers, and `Type()` has a pointer with a name
-- for each of these types there without changing anything. At the first call all identifiers have five
-- characters.
pub variadic_function_generator-again :
    (p : Platform)
    → IsLawful p
    → (fuel : ℕ) (g g' : Generator p.Buf) (rt : ℕ) (us : List ℕ) (w w' later : World p.Native)
      (f : Proxy p.Buf)
    → g.return_type ≡ object rt
    → HasShortIds w
    → variadic_function_generator p fuel g (map object us) w ≡ (ok (f, g'), w')
    → Grows w' later
    → p.coerce_type (object rt) later ≡ (ok rt, later)
    → AreKnown p fuel later us
    → variadic_function_generator p fuel g' (map object us) later ≡ (ok (f, g'), later)
variadic_function_generator-again p laws fuel g g' rt us w w' later f e short h grown c a =
    let left = generator-Leaves p laws fuel g g' rt us w w' f e short h in
    let same = left.cached.only_cache in
    generator-hit p fuel g' rt us left.rid left.ids later f
      (ap (λ (x : Generator p.Buf). x.return_type) same ∙ e) c a
      (HasIds-Grows w' later us left.ids grown left.known) (grown.kept rt left.rid left.held)
      left.long
      (ap
          (λ (x : Generator p.Buf).
            find_cached (left.rid ++ join (x.fixed_key ++ left.ids)) g'.cache)
          same
        ∙ left.cached.cached)
