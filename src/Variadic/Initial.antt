-- ===== src/Variadic/Initial.antt =====
-- A new generator.
use node_ffi.Base.{ℕ, ◌≡◌, refl, true, List, [], ◌∷◌, map, some, ap, ap₂, sym, subst, ◌∙◌}
use node_ffi.Value.{Value, buffer, object, truthy, Result, ok, Message.expected_return_type}
use node_ffi.World.{World, assert}
use node_ffi.World.Bind.{bind-eq-ok, assert-eq-ok, ok-injective}
use node_ffi.Platform.{Platform, IsLawful}
use node_ffi.Cif.{require_array}
use node_ffi.Cif.ArgTypes.{each}
use node_ffi.ForeignFunction.{require_buffer}
use node_ffi.ForeignFunction.Ready.{require_buffer-eq-ok}
use node_ffi.Variadic.{Generator, get_id, variadic_foreign_function}
use node_ffi.Variadic.Ids.{HasShortIds}
use node_ffi.Variadic.Key.{HasIds}
use node_ffi.Variadic.Extra.{Grows, Grows-same, Grows-then, get_id-held_after, coerced_object}
use node_ffi.Variadic.Cache.{IsSound}
use node_ffi.Variadic.Keyed.{IsKeyed}

-- A run that ended with a value, at that value and that state.
pure-eq-ok :
    {N A : Type 0} (a b : A) (w w' : World N)
    → (let x : Result A × World N = (ok a, w) in x) ≡ (ok b, w')
    → (a ≡ b) × (w ≡ w')
pure-eq-ok {N} {A} a b w w' h =
    (ok-injective (ap (λ (x : Result A × World N). x.0) h), ap (λ (x : Result A × World N). x.1) h)

each-get_id-HasIds :
    {N : Type 0} (ts : List ℕ) (ks : List (List ℕ)) (w w' : World N)
    → HasShortIds w
    → each get_id ts w ≡ (ok ks, w')
    → Grows w w' × HasIds w' ts ks
unfolding each
each-get_id-HasIds {N} [] ks w w' h e =
    let (same, end) = pure-eq-ok [] ks w w' e in
    (
      subst (λ (x : World N). Grows w x) end (Grows-same w w h refl refl),
      subst (λ (x : List (List ℕ)). HasIds w' [] x) same tt,
    )
each-get_id-HasIds {N} (t ∷ ts) ks w w' h e =
    let s = bind-eq-ok (get_id t) _ w e in
    let s1 = bind-eq-ok (each get_id ts) _ s.world s.second in
    let (grown, held) = get_id-held_after t w s.world s.value h s.first in
    let (grown', known) = each-get_id-HasIds ts s1.value s.world s1.world grown.short s1.first in
    let (same, end) = pure-eq-ok (s.value ∷ s1.value) ks s1.world w' s1.second in
    let all : HasIds s1.world (t ∷ ts) (s.value ∷ s1.value) = (grown'.kept t s.value held, known) in
    (
      subst (λ (x : World N). Grows w x) end (Grows-then w s.world s1.world grown grown'),
      subst (λ (x : List (List ℕ)). HasIds w' (t ∷ ts) x) same
          (subst (λ (x : World N). HasIds x (t ∷ ts) (s.value ∷ s1.value)) end all),
    )

module _ (p : Platform) (laws : IsLawful p) where
  open p use {Buf, Native}

  each_coerced :
      (us ts : List ℕ) (w w' : World Native)
      → HasShortIds w
      → each p.coerce_type (map object us) w ≡ (ok ts, w')
      → (ts ≡ us) × Grows w w'
  unfolding each
  each_coerced [] ts w w' h e =
      let (same, end) = pure-eq-ok [] ts w w' e in
      (sym same, subst (λ (x : World Native). Grows w x) end (Grows-same w w h refl refl))
  each_coerced (u ∷ us) ts w w' h e =
      let s = bind-eq-ok (p.coerce_type (object u)) _ w e in
      let s1 = bind-eq-ok (each p.coerce_type (map object us)) _ s.world s.second in
      let (same, grown) = coerced_object p laws u s.value w s.world h s.first in
      let (rest, grown') = each_coerced us s1.value s.world s1.world grown.short s1.first in
      let (made, end) = pure-eq-ok (s.value ∷ s1.value) ts s1.world w' s1.second in
      (
        sym made ∙ ap₂ (λ (x : ℕ) (y : List ℕ). x ∷ y) same rest,
        subst (λ (x : World Native). Grows w x) end (Grows-then w s.world s1.world grown grown'),
      )

-- A generator for a pointer, a return type, fixed types and an ABI, with what its calls rely on.
pub record IsNew (p : Platform) (fuel : ℕ) (func_ptr rtype : Value) (us : List ℕ) (abi : Value)
    (w' : World p.Native) (g : Generator p.Buf) : Type 0 where
  pub pointer : func_ptr ≡ buffer g.func_ptr
  pub given : truthy rtype ≡ true
  pub prepared_by : g.prepared_type ≡ rtype
  pub returns : g.return_type ≡ rtype
  pub fixed : g.fixed_types ≡ us
  pub same_abi : g.abi ≡ abi
  pub keyed : IsKeyed w' g
  pub sound : IsSound p fuel g
  pub short : HasShortIds w'

-- Where `VariadicForeignFunction()` returns for fixed types that are type objects, the generator is
-- for the pointer and for the types and the ABI that were given, it is well keyed, and all functions
-- in its cache were made for it. Before and after, all identifiers have five characters, the random
-- numbers being below 0x10000.
pub variadic_foreign_function-IsNew :
    (p : Platform)
    → IsLawful p
    → (fuel : ℕ) (func_ptr rtype : Value) (us : List ℕ) (abi : Value) (w w' : World p.Native)
      (g : Generator p.Buf)
    → HasShortIds w
    → variadic_foreign_function p func_ptr rtype (some (map object us)) abi w ≡ (ok g, w')
    → IsNew p fuel func_ptr rtype us abi w' g
unfolding variadic_foreign_function require_array
variadic_foreign_function-IsNew p laws fuel func_ptr rtype us abi w w' g h e =
    let s = bind-eq-ok (require_buffer p func_ptr) _ w e in
    let (pointer, e1) = require_buffer-eq-ok p func_ptr w s.world s.value s.first in
    let s1 = bind-eq-ok (assert (truthy rtype) expected_return_type) _ s.world s.second in
    let (given, e2) = assert-eq-ok (truthy rtype) expected_return_type s.world s1.first in
    let s2 = bind-eq-ok (each p.coerce_type (map object us)) _ s1.world s1.second in
    let s3 = bind-eq-ok (each get_id s2.value) _ s2.world s2.second in
    let h1 : HasShortIds s1.world = subst (λ (x : World p.Native). HasShortIds x) (e1 ∙ e2) h in
    let (same, grown) = each_coerced p laws us s2.value s1.world s2.world h1 s2.first in
    let (grown', known) =
      each-get_id-HasIds s2.value s3.value s2.world s3.world grown.short s3.first in
    let (made, end) = pure-eq-ok _ g s3.world w' s3.second in
    let at_end : HasIds w' s2.value s3.value =
      subst (λ (x : World p.Native). HasIds x s2.value s3.value) end known in
    subst (λ (x : Generator p.Buf). IsNew p fuel func_ptr rtype us abi w' x) made
      (record {
        pointer = pointer;
        given = given;
        prepared_by = refl;
        returns = refl;
        fixed = same;
        same_abi = refl;
        keyed = record { fixed = at_end; entries = tt };
        sound = tt;
        short = subst (λ (x : World p.Native). HasShortIds x) end grown'.short;
      })
