-- ===== src/Variadic/Cache.antt =====
-- The functions that a generator has cached, and those it gives.
use node_ffi.Base.{
  ℕ, ◌≤◌, ◌<◌, ◌≡◌, refl, inl, inr, Bool-cases, List, [], ◌∷◌, ◌++◌, map, length, ltb, Option, none,
  some, sym, ap, subst, ◌∙◌,
}
use mathlib.Core.Path.{transport}
use node_ffi.Value.{Ptr, Value, object, Result, ok, Message.assertion}
use node_ffi.World.{World, assert}
use node_ffi.World.Bind.{bind-eq-ok, ok-injective}
use node_ffi.Platform.{Platform, IsLawful}
use node_ffi.Cif.{CifBuffer, cif_var, prep_cif_var}
use node_ffi.Cif.Prepared.{IsPrepared, cif_var-IsPrepared, some_list-IsPrepared}
use node_ffi.ForeignFunction.{Proxy, make_proxy}
use node_ffi.ForeignFunction.Ready.{make_proxy-Made}
use node_ffi.Variadic.{
  Cache, Generator, same_key, find_cached, join, get_id, extra_types, create_function,
  cached_or_new, variadic_function_generator,
}
use node_ffi.Variadic.Entry.{IsCached, cached_or_new-IsCached}

module _ (p : Platform) where
  open p use {Buf, Native}

  -- A function for the pointer, with the fixed types first, whose cif was prepared for all its
  -- types and that number of fixed ones. Its return type need not be the one of the cif.
  pub record IsMade (fuel : ℕ) (q : Ptr) (rtype : Value) (fixed : List ℕ) (abi : Value)
      (f : Proxy Buf) : Type 0 where
    pub pointer : f.func_ptr ≡ q
    pub some_fixed : 1 ≤ length fixed
    pub extra : List ℕ
    pub types : f.arg_types ≡ fixed ++ extra
    pub before : World Native
    pub after : World Native
    pub prepared :
        IsPrepared p fuel rtype
          (map object f.arg_types)
          (prep_cif_var p abi (length fixed))
          before
          after
          f.cif
    pub room : 0 < f.result_size

  abbrev pub AllMade : ℕ → Ptr → Value → List ℕ → Value → Cache Buf → Type 0
  AllMade fuel q rtype fixed abi [] = Unit
  AllMade fuel q rtype fixed abi ((k, f) ∷ c) =
      IsMade fuel q rtype fixed abi f × AllMade fuel q rtype fixed abi c

  -- Every function in the cache was made for this generator.
  abbrev pub IsSound : ℕ → Generator Buf → Type 0
  IsSound fuel g = AllMade fuel g.func_ptr g.prepared_type g.fixed_types g.abi g.cache

  find_cached-IsMade :
      (fuel : ℕ) (q : Ptr) (rtype : Value) (fixed : List ℕ) (abi : Value) (k : List ℕ)
      (c : Cache Buf) (f : Proxy Buf)
      → AllMade fuel q rtype fixed abi c
      → find_cached k c ≡ some f
      → IsMade fuel q rtype fixed abi f
  unfolding find_cached
  find_cached-IsMade fuel q rtype fixed abi k [] f a h = cc h
  find_cached-IsMade fuel q rtype fixed abi k ((j, e) ∷ c) f a h =
      elim (Bool-cases (same_key j k)) [
        | inl same ↦
            let here : e ≡ f = cc (rw same at h) in
            subst (λ (x : Proxy Buf). IsMade fuel q rtype fixed abi x) here a.0
        | inr other ↦ find_cached-IsMade fuel q rtype fixed abi k c f a.1 (rw other at h)
      ]

  -- What a call of the generator comes to: the function, which is now cached, and the same
  -- generator but for its cache.
  pub record IsGiven (fuel : ℕ) (g g' : Generator Buf) (f : Proxy Buf) : Type 0 where
    pub made : IsMade fuel g.func_ptr g.prepared_type g.fixed_types g.abi f
    pub sound : IsSound fuel g'
    pub key : List ℕ
    pub entry : IsCached p key g g' f

  create_function-IsMade :
      IsLawful p
      → (fuel : ℕ) (g : Generator Buf) (rtn : ℕ) (extra : List ℕ) (w w1 w' : World Native)
        (c : CifBuffer Buf) (f : Proxy Buf)
      → cif_var p fuel g.prepared_type
          (some (map object (g.fixed_types ++ extra)))
          (length g.fixed_types)
          g.abi
          w
        ≡ (ok c, w1)
      → make_proxy p c g.func_ptr rtn (g.fixed_types ++ extra) w1 ≡ (ok f, w')
      → IsMade fuel g.func_ptr g.prepared_type g.fixed_types g.abi f
  create_function-IsMade laws fuel g rtn extra w w1 w' c f h k =
      let types = g.fixed_types ++ extra in
      let m = make_proxy-Made p c g.func_ptr rtn types w1 w' f k in
      let prepared_cif =
        cif_var-IsPrepared p laws fuel g.prepared_type (some (map object types))
          (length g.fixed_types) g.abi w w1 c h in
      let (given, some_fixed, listed) = prepared_cif in
      let here =
        some_list-IsPrepared p fuel g.prepared_type (map object types) listed.0 _ w w1 c listed.1
          listed.2 in
      record {
        pointer = m.same_ptr;
        some_fixed = some_fixed;
        extra = extra;
        types = m.same_args;
        before = w;
        after = w1;
        prepared =
            transport
              (λ i.
                IsPrepared p fuel g.prepared_type (map object (sym m.same_args i))
                  (prep_cif_var p g.abi (length g.fixed_types)) w w1 (sym m.same_cif i))
              here;
        room = m.positive;
      }

  cached_or_new-IsGiven :
      IsLawful p
      → (fuel : ℕ) (g g' : Generator Buf) (key : List ℕ) (rtn : ℕ) (extra : List ℕ)
        (found : Option (Proxy Buf)) (w w' : World Native) (f : Proxy Buf)
      → find_cached key g.cache ≡ found
      → IsSound fuel g
      → cached_or_new p fuel g key rtn (g.fixed_types ++ extra) found w ≡ (ok (f, g'), w')
      → IsGiven fuel g g' f
  unfolding cached_or_new create_function
  cached_or_new-IsGiven laws fuel g g' key rtn extra (some e) w w' f hit s h =
      let pair =
        ok-injective (ap (λ (x : Result (Proxy Buf × Generator Buf) × World Native). x.0) h) in
      let same_f : e ≡ f = ap (λ (x : Proxy Buf × Generator Buf). x.0) pair in
      record {
        made =
            find_cached-IsMade fuel _ _ _ _ key g.cache f s
              (hit ∙ ap (λ (x : Proxy Buf). some x) same_f);
        sound =
            subst (λ (x : Generator Buf). IsSound fuel x)
              (ap (λ (x : Proxy Buf × Generator Buf). x.1) pair) s;
        key = key;
        entry =
            cached_or_new-IsCached p fuel g g' key rtn (g.fixed_types ++ extra) (some e) w w' f hit
              h;
      }
  cached_or_new-IsGiven laws fuel g g' key rtn extra none w w' f miss s h =
      let types = g.fixed_types ++ extra in
      let s1 =
        bind-eq-ok
          (cif_var p fuel g.prepared_type (some (map object types)) (length g.fixed_types) g.abi) _
          w h in
      let s2 = bind-eq-ok (make_proxy p s1.value g.func_ptr rtn types) _ s1.world s1.second in
      let pair =
        ok-injective
          (ap (λ (x : Result (Proxy Buf × Generator Buf) × World Native). x.0) s2.second) in
      let m =
        create_function-IsMade laws fuel g rtn extra w s1.world s2.world s1.value s2.value s1.first
          s2.first in
      record {
        made =
            subst (λ (x : Proxy Buf). IsMade fuel g.func_ptr g.prepared_type g.fixed_types g.abi x)
              (ap (λ (x : Proxy Buf × Generator Buf). x.0) pair) m;
        sound =
            subst (λ (x : Generator Buf). IsSound fuel x)
              (ap (λ (x : Proxy Buf × Generator Buf). x.1) pair) (m, s);
        key = key;
        entry = cached_or_new-IsCached p fuel g g' key rtn types none w w' f miss h;
      }

-- Where a generator whose cached functions were all made for it returns, so was the function it
-- returns: it stands for the pointer, its types are the fixed ones and then others, and libffi
-- prepared its cif for these types and the number of fixed ones. The function is cached, nothing
-- but the cache has changed, and all functions in it were made for the generator again.
pub variadic_function_generator-IsGiven :
    (p : Platform)
    → IsLawful p
    → (fuel : ℕ) (g g' : Generator p.Buf) (args : List Value) (w w' : World p.Native)
      (f : Proxy p.Buf)
    → IsSound p fuel g
    → variadic_function_generator p fuel g args w ≡ (ok (f, g'), w')
    → IsGiven p fuel g g' f
unfolding variadic_function_generator
variadic_function_generator-IsGiven p laws fuel g g' args w w' f s h =
    let s1 = bind-eq-ok (extra_types p fuel args) _ w h in
    let s2 = bind-eq-ok (p.coerce_type g.return_type) _ s1.world s1.second in
    let s3 = bind-eq-ok (get_id s2.value) _ s2.world s2.second in
    let s4 = bind-eq-ok (assert (ltb 0 (length s3.value)) assertion) _ s3.world s3.second in
    let key = s3.value ++ join (g.fixed_key ++ s1.value.1) in
    cached_or_new-IsGiven p laws fuel g g' key s2.value s1.value.0 (find_cached key g.cache)
      s4.world w' f refl s s4.second
