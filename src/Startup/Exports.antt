-- ===== src/Startup/Exports.antt =====
-- The names that are passed on from the bindings.
use node_ffi.Base.{
  ◌≡◌, refl, Bool, neither, both, true, false, not, ◌&&◌, inl, inr, Bool-cases, subst, ◌∙◌, Option,
  none, some, String, or_else, List, [], ◌∷◌, arith, str_eq, eq_iff, if◌then◌else◌,
}
use node_ffi.World.{listed}
use node_ffi.Startup.{
  export_names, export_property, export_all, Modules, module_exports, assign_all, export_modules,
}
use node_ffi.World.{Properties, define_property}

export_property_lem :
    {D : Type 0} (bindings : Properties D) (prop : String) (exports : Properties D) (k : String)
    → export_property bindings prop exports k
      ≡ (if str_eq prop k then or_else (bindings k) (exports k) else exports k)
unfolding export_property define_property
export_property_lem bindings prop exports k = ground (arith, eq_iff prop k)

-- What is exported under a name is, if it is one of the listed names, the property of the bindings
-- where they have it; under any other name, and where they have not, it is as before.
pub export_all_lem :
    {D : Type 0} (bindings : Properties D) (names : List String) (exports : Properties D)
    (k : String)
    → export_all bindings names exports k
      ≡ (if listed k names then or_else (bindings k) (exports k) else exports k)
unfolding export_all listed
export_all_lem bindings [] exports k = refl
export_all_lem bindings (prop ∷ names) exports k = ground (
  arith,
  export_all_lem bindings names (export_property bindings prop exports) k,
  export_property_lem bindings prop exports k,
)

abbrev disjoint : List String → List String → Bool
disjoint [] ys = true
disjoint (x ∷ xs) ys = not (listed x ys) && disjoint xs ys

not-true : (a : Bool) → not a ≡ true → a ≡ false
not-true true h = cc h
not-true false h = refl

disjoint-listed :
    (k : String) (xs ys : List String)
    → disjoint xs ys ≡ true
    → listed k xs ≡ true
    → listed k ys ≡ false
unfolding listed
disjoint-listed k [] ys d h = cc h
disjoint-listed k (x ∷ xs) ys d h = elim (Bool-cases (str_eq x k)) [
  | inl same ↦
      let here : x ≡ k = ground (arith, eq_iff x k) in
      subst (λ (y : String). listed y ys ≡ false) here
        (not-true (listed x ys) (both (not (listed x ys)) (disjoint xs ys) d).0)
  | inr other ↦
      disjoint-listed k xs ys (both (not (listed x ys)) (disjoint xs ys) d).1 (rw other at h)
]

module _ {D : Type 0} where
  names_of : List (String × D) → List String
  names_of [] = []
  names_of ((j, d) ∷ rest) = j ∷ names_of rest

  -- A name that is not assigned to keeps its value.
  assign_all-kept :
      (l : List (String × D)) (exports : Properties D) (k : String)
      → listed k (names_of l) ≡ false
      → assign_all l exports k ≡ exports k
  unfolding assign_all define_property listed names_of
  assign_all-kept [] exports k h = refl
  assign_all-kept ((j, d) ∷ rest) exports k h = elim (Bool-cases (str_eq j k)) [
    | inl same ↦ cc (rw same at h)
    | inr other ↦
        assign_all-kept rest (define_property j d exports) k (rw other at h) ∙ rw other refl
  ]

-- What the package exports: the constants of the bindings, `LIB_EXT`, which is the property `EXT` of
-- the module `Library`, and `FFI_TYPE`, which is that property of the module `ffiType`.
pub record IsPackage {D : Type 0} (property : Option D → String → D) (m : Modules D)
    (bindings exports : Properties D) : Type 0 where
  pub constants : (k : String) → listed k export_names ≡ true → exports k ≡ bindings k
  pub lib_ext : exports "LIB_EXT" ≡ some (property (some m.library) "EXT")
  pub ffi_type : exports "FFI_TYPE" ≡ some (property (some m.type) "FFI_TYPE")

module _ {D : Type 0} (property : Option D → String → D) (m : Modules D) where
  -- No module has the name of a constant.
  export_modules-constant :
      (exports : Properties D) (k : String)
      → listed k export_names ≡ true
      → export_modules property m exports k ≡ exports k
  unfolding export_modules define_property listed names_of
  export_modules-constant exports k h =
      let apart =
        disjoint-listed k export_names ("FFI_TYPE" ∷ "LIB_EXT" ∷ names_of (module_exports m)) refl
          h in
      let (no_type, rest) = neither (str_eq "FFI_TYPE" k) _ apart in
      let (no_ext, none_left) = neither (str_eq "LIB_EXT" k) _ rest in
      rw (no_type, no_ext) (assign_all-kept (module_exports m) exports k none_left)

  or_else-none : (o : Option D) → or_else o none ≡ o
  or_else-none none = refl
  or_else-none (some d) = refl

  pub export_modules-IsPackage :
      (bindings : Properties D)
      → IsPackage property m bindings
          (export_modules property m (export_all bindings export_names (λ k. none)))
  unfolding export_modules assign_all define_property
  export_modules-IsPackage bindings = record {
    constants = λ k h.
        let exports = export_all bindings export_names (λ j. none) in
        export_modules-constant exports k h
        ∙ (export_all_lem bindings export_names (λ j. none) k ∙ rw h (or_else-none (bindings k)));
    lib_ext = refl;
    ffi_type = refl;
  }
