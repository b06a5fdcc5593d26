-- ===== src/Tests/Types.antt =====
-- `Type()` at concrete types.
use node_ffi.Base.{◌≡◌, refl, [], ◌∷◌, arith, eq_iff}
use node_ffi.Value.{object, ok, thrown, failure, Kind.assertion_error, Message.no_ffi_type}
use node_ffi.World.{World}
use node_ffi.FfiType.{
  ffi_type, type_body, shortcut, complete, struct_type, write_fields, write_field, write_array,
  write_single, write_run, count_elements, new_struct, cache,
}
use node_ffi.FfiType.Layout.{IsLaidOut, laid_out, ffi_type-eq-laid_out, ffi_type-IsLaidOut}
use node_ffi.FfiType.Again.{ffi_type-again}
use node_ffi.FfiType.Named.{
  IsNamed, first_listed, AllUndefined, ffi_type-first_listed, ffi_type-pollutes,
}
use node_ffi.Tests.Toy.{Process, toy, toy-IsLawful}
use node_ffi.Tests.Scene.{scene, point_fields, point_type, foreign_type, odd_type}

point_made : (ffi_type toy 3 (object point_type) scene).0 ≡ ok 1000
unfolding ffi_type type_body shortcut complete struct_type write_fields write_field write_array
    write_single write_run count_elements new_struct cache
point_made = refl

-- The state after the struct was made.
abbrev pub made : World Process
made = (ffi_type toy 3 (object point_type) scene).1

ffi_type-eq-laid_out_example :
    ffi_type toy 3 (object point_type) scene
    ≡ laid_out toy (ffi_type toy 2) point_type point_fields scene
ffi_type-eq-laid_out_example =
    ffi_type-eq-laid_out toy toy-IsLawful 2 point_type point_fields scene (λ e. cc e) refl refl refl
      refl

ffi_type-IsLaidOut_example : IsLaidOut toy (ffi_type toy 2) point_type point_fields scene made 1000
unfolding ffi_type type_body shortcut complete struct_type write_fields write_field write_array
    write_single write_run count_elements new_struct cache
ffi_type-IsLaidOut_example =
    ffi_type-IsLaidOut toy toy-IsLawful 2 point_type point_fields scene made 1000 (λ e. cc e) refl
      refl refl refl refl

foreign-IsNamed : IsNamed toy scene foreign_type "int32"
foreign-IsNamed = record {
  sized = λ e. cc e;
  direct = refl;
  unset = refl;
  plain = refl;
  whole = refl;
  named = refl;
  filled = λ e. ground (arith, eq_iff "int32" "");
  other = λ e. ground (arith, eq_iff "int32" "CString");
}

foreign_listed : (ffi_type toy 1 (object foreign_type) scene).0 ≡ ok 3
unfolding first_listed
foreign_listed = ffi_type-first_listed toy toy-IsLawful 0 foreign_type "int32" scene foreign-IsNamed

odd-IsNamed : IsNamed toy scene odd_type "odd"
odd-IsNamed = record {
  sized = λ e. cc e;
  direct = refl;
  unset = refl;
  plain = refl;
  whole = refl;
  named = refl;
  filled = λ e. ground (arith, eq_iff "odd" "");
  other = λ e. ground (arith, eq_iff "odd" "CString");
}

-- `Object.prototype.ffi_type` is an own property afterwards.
ffi_type-pollutes_example :
    ((ffi_type toy 1 (object odd_type) scene).0
      ≡ thrown (failure assertion_error (no_ffi_type odd_type)))
    × AllUndefined toy (ffi_type toy 1 (object odd_type) scene).1 (odd_type ∷ 0 ∷ [])
unfolding first_listed
ffi_type-pollutes_example =
    ffi_type-pollutes toy toy-IsLawful 0 odd_type "odd" scene odd-IsNamed refl

ffi_type-again_example :
    ((ffi_type toy 3 (object point_type) made).0 ≡ ok 1000)
    × ((ffi_type toy 3 (object point_type) made).1.native ≡ made.native)
unfolding ffi_type type_body shortcut complete struct_type write_fields write_field write_array
    write_single write_run count_elements new_struct cache
ffi_type-again_example =
    ffi_type-again toy toy-IsLawful 2 point_type scene made 1000 (λ e. cc e) (λ e. cc e) refl
