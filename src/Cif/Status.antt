-- ===== src/Cif/Status.antt =====
-- The guards of `CIF()` and `CIF_var()` that let a run go on.
use node_ffi.Base.{
  ℕ, ◌≡◌, List, arith, Option, none, some, sym, ap, ◌∙◌, Bool-cases, inl, inr, ◌==◌,
}
use node_ffi.Value.{Value, Result, ok}
use node_ffi.World.{World, Js}
use node_ffi.World.Bind.{ok-injective}
use node_ffi.Platform.{Platform}
use node_ffi.Cif.{require_array, native_status, check_status, check_status_var}

pub require_array-eq-ok :
    {N : Type 0} (o : Option (List Value)) (w : World N) {l : List Value} {w' : World N}
    → require_array o w ≡ (ok l, w')
    → (o ≡ some l) × (w ≡ w')
unfolding require_array
require_array-eq-ok none w h = cc
require_array-eq-ok {N} (some l) w h = (cc h, ap (λ (x : Result (List Value) × World N). x.1) h)

module _ (p : Platform) where
  open p use {Buf, Native}

  pub native_status-eq-ok :
      (g : Native → ℕ × Buf × Native) (w : World Native) {v : ℕ × Buf} {w' : World Native}
      → native_status p g w ≡ (ok v, w')
      → (g w.native ≡ (v.0, v.1, w'.native)) × (w' ≡ record w { native = w'.native })
  unfolding native_status
  native_status-eq-ok g w h =
      let e = ok-injective (ap (λ (x : Result (ℕ × Buf) × World Native). x.0) h) in
      let n = ap (λ (x : Result (ℕ × Buf) × World Native). x.1.native) h in
      (
        λ i. ((e i).0, (e i).1, n i),
        sym (ap (λ (x : Result (ℕ × Buf) × World Native). x.1) h)
            ∙ ap (λ (k : Native). record w { native = k }) n,
      )

  -- A check that lets only `FFI_OK` pass, and changes nothing.
  unfoldable pub Passes : (ℕ → Js Native (Unit {0})) → Type 0
  Passes check =
      (s : ℕ) (w w' : World Native) (x : Unit {0})
      → check s w ≡ (ok x, w')
      → (s ≡ p.ffi_ok) × (w ≡ w')

  pub check_status-Passes : Passes (check_status p)
  unfolding check_status Passes
  check_status-Passes s w w' x h = elim (Bool-cases (s == p.ffi_ok)) [
    | inl e ↦ (
      ground arith,
      ap (λ (y : Result (Unit {0}) × World Native). y.1) (rw (check_status, e) at h),
    )
    | inr e ↦ absurd (ground arith)
  ]

  pub check_status_var-Passes : Passes (check_status_var p)
  unfolding check_status_var Passes
  check_status_var-Passes s w w' x h = elim (Bool-cases (s == p.ffi_ok)) [
    | inl e ↦ (
      ground arith,
      ap (λ (y : Result (Unit {0}) × World Native). y.1) (rw (check_status_var, e) at h),
    )
    | inr e ↦ absurd (ground arith)
  ]
