-- ===== src/Tests/Fuel.antt =====
-- Runs that end, at concrete types and at fuel above their ranks.
use node_ffi.Base.{
  ℕ, ◌<◌, ◌≡◌, ◌≢◌, some, List, [], ◌∷◌, arith, ◌==◌, if◌then◌else◌, String, inl, inr, Bool-cases,
  ap, sym, ◌∙◌, subst,
}
use node_ffi.Value.{undefined, object, buffer, overflow}
use node_ffi.World.{fields_of}
use node_ffi.FfiType.{ffi_type}
use node_ffi.FfiType.Fuel.{HasRank, AllBelow, ffi_type-Ends}
use node_ffi.ForeignFunction.{foreign_function}
use node_ffi.ForeignFunction.Fuel.{foreign_function-Ends}
use node_ffi.Variadic.{variadic_function_generator}
use node_ffi.Variadic.Fuel.{variadic_function_generator-Ends}
use node_ffi.Tests.Toy.{toy, toy-IsLawful}
use node_ffi.Tests.Scene.{scene, int32_type, point_fields, point_type}
use node_ffi.Tests.Variadics.{sum_generator}

-- Fields ask for the type `int32` only, which has no fields.
depth : ℕ → ℕ
depth t = if t == point_type then 1 else 0

fields-scene :
    (t : ℕ) (fs : List (String × ℕ))
    → fields_of scene t ≡ some fs
    → (t ≡ point_type) × (fs ≡ point_fields)
fields-scene t fs h = elim (Bool-cases (t == point_type)) [
  | inl e ↦
      let here : t ≡ point_type = ground arith in
      (here, cc (ap (λ (u : ℕ). fields_of scene u) (sym here) ∙ h))
  | inr e ↦ absurd (ground arith)
]

scene-HasRank : HasRank scene.types depth
unfolding depth
scene-HasRank = record {
  descends = λ t fs one h.
      let found = fields-scene t fs h in
      let here : AllBelow scene.types depth (depth point_type) point_fields =
        (omega arith, (omega arith, tt)) in
      let there =
        subst (λ (u : ℕ). AllBelow scene.types depth (depth u) point_fields) (sym found.0) here in
      subst (λ (l : List (String × ℕ)). AllBelow scene.types depth (depth t) l) (sym found.1) there;
}

ffi_type-Ends_example : (ffi_type toy 2 (object point_type) scene).0 ≢ overflow
unfolding depth
ffi_type-Ends_example =
    ffi_type-Ends toy toy-IsLawful depth scene scene-HasRank 2 point_type (omega arith)

depth-bound : (t : ℕ) → depth t < 2
unfolding depth
depth-bound t = ground arith

foreign_function_ends :
    (foreign_function toy 2
      (buffer 500)
      (object int32_type)
      (some (object point_type ∷ []))
      undefined
      scene).0
    ≢ overflow
foreign_function_ends =
    foreign_function-Ends toy toy-IsLawful depth scene scene-HasRank 2 depth-bound (buffer 500)
      (object int32_type) (some (object point_type ∷ [])) undefined

generator_ends :
    (variadic_function_generator toy 2 sum_generator (object point_type ∷ []) scene).0 ≢ overflow
generator_ends =
    variadic_function_generator-Ends toy toy-IsLawful depth scene scene-HasRank 2 depth-bound
      sum_generator (object point_type ∷ [])
