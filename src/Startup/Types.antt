-- ===== src/Startup/Types.antt =====
-- What `Type()` returns for the built-in types, once the package is loaded.
use node_ffi.Base.{ℕ, ◌≡◌, ◌⊎◌, inl, inr, Bool-cases, String, Option, none, List, arith, ◌==◌}
use node_ffi.Value.{ok}
use node_ffi.World.{World}
use node_ffi.World.Bind.{bind-eq-ok}
use node_ffi.Platform.{Platform}
use node_ffi.Startup.{BufferNames, set_builtins, assign, c_string, set_long, set_ffi_types}

set_long_bounds :
    (p : Platform) (types : String → Option ℕ) (w w' : World p.Native) {u : Unit}
    → set_long p types w ≡ (ok u, w')
    → (p.long_size ≡ 4) ⊎ (p.long_size ≡ 8)
unfolding set_long
set_long_bounds p types w w' h = elim (Bool-cases (p.long_size == 4)) [
  | inl four ↦ inl (ground (arith, four))
  | inr more ↦ elim (Bool-cases (p.long_size == 8)) [
    | inl eight ↦ inr (ground (arith, eight))
    | inr other ↦ let no = rw (more, other) at h in cc no
  ]
]

-- The start-up code returns only where a `long` has 4 or 8 bytes.
pub set_ffi_types_bounds :
    (p : Platform) (types : String → Option ℕ) (keys : List String) (names : BufferNames)
    (w w' : World p.Native)
    → set_ffi_types p types keys w ≡ (ok names, w')
    → (p.long_size ≡ 4) ⊎ (p.long_size ≡ 8)
unfolding set_ffi_types
set_ffi_types_bounds p types keys names w w' h =
    let pointer = p.ffi_types "pointer" in
    let a = bind-eq-ok (set_builtins p types keys (λ j. none)) _ w h in
    let b = bind-eq-ok (assign p types (types "size_t") pointer) _ a.world a.second in
    let c = bind-eq-ok (assign p types (c_string p types) pointer) _ b.world b.second in
    let d = bind-eq-ok (assign p types (types "Object") pointer) _ c.world c.second in
    let e = bind-eq-ok (set_long p types) _ d.world d.second in
    set_long_bounds p types d.world e.world e.first
