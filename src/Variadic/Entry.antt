-- ===== src/Variadic/Entry.antt =====
-- The entry of the cache that a call of the generator leaves.
use node_ffi.Base.{
  ℕ, ◌≡◌, refl, true, List, [], ◌∷◌, map, length, Option, none, some, sym, ap, ◌∙◌, arith,
}
use node_ffi.Value.{object, Result, ok}
use node_ffi.World.{World}
use node_ffi.World.Bind.{bind-eq-ok, ok-injective}
use node_ffi.Platform.{Platform}
use node_ffi.Cif.{cif_var}
use node_ffi.ForeignFunction.{Proxy, make_proxy}
use node_ffi.Variadic.{Generator, same_key, find_cached, create_function, cached_or_new}

same_key_refl : (k : List ℕ) → same_key k k ≡ true
unfolding same_key
same_key_refl [] = refl
same_key_refl (a ∷ k) = ground (arith, same_key_refl k)

module _ (p : Platform) where
  open p use {Buf, Native}

  -- The function is cached under the key, and the generator is the same but for its cache.
  pub record IsCached (key : List ℕ) (g g' : Generator Buf) (f : Proxy Buf) : Type 0 where
    pub cached : find_cached key g'.cache ≡ some f
    pub only_cache : g' ≡ record g { cache = g'.cache }

  found-IsCached :
      (key : List ℕ) (g g' new : Generator Buf) (f e : Proxy Buf) (w w' : World Native)
      → new ≡ record g { cache = new.cache }
      → find_cached key new.cache ≡ some e
      → (let x : Result (Proxy Buf × Generator Buf) × World Native = (ok (e, new), w) in x)
        ≡ (ok (f, g'), w')
      → IsCached key g g' f
  found-IsCached key g g' new f e w w' same hit h =
      let pair =
        ok-injective (ap (λ (x : Result (Proxy Buf × Generator Buf) × World Native). x.0) h) in
      let same_g : new ≡ g' = ap (λ (x : Proxy Buf × Generator Buf). x.1) pair in
      record {
        cached =
            ap (λ (x : Generator Buf). find_cached key x.cache) (sym same_g)
            ∙ (hit ∙ ap (λ (x : Proxy Buf × Generator Buf). some x.0) pair);
        only_cache =
            sym same_g ∙ (same ∙ ap (λ (x : Generator Buf). record g { cache = x.cache }) same_g);
      }

  pub cached_or_new-IsCached :
      (fuel : ℕ) (g g' : Generator Buf) (key : List ℕ) (rtn : ℕ) (types : List ℕ)
      (found : Option (Proxy Buf)) (w w' : World Native) (f : Proxy Buf)
      → find_cached key g.cache ≡ found
      → cached_or_new p fuel g key rtn types found w ≡ (ok (f, g'), w')
      → IsCached key g g' f
  unfolding cached_or_new create_function find_cached
  cached_or_new-IsCached fuel g g' key rtn types (some e) w w' f hit h =
      found-IsCached key g g' g f e w w' refl hit h
  cached_or_new-IsCached fuel g g' key rtn types none w w' f miss h =
      let s1 =
        bind-eq-ok
          (cif_var p fuel g.prepared_type (some (map object types)) (length g.fixed_types) g.abi) _
          w h in
      let s2 = bind-eq-ok (make_proxy p s1.value g.func_ptr rtn types) _ s1.world s1.second in
      found-IsCached key g g' (record g { cache = (key, s2.value) ∷ g.cache }) f s2.value s2.world
        w' refl (rw (same_key_refl key)) s2.second
