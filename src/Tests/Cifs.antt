-- ===== src/Tests/Cifs.antt =====
-- `CIF()` and `CIF_var()` at concrete types.
use node_ffi.Base.{◌≤◌, ◌≡◌, refl, true, some, List, [], ◌∷◌, arith}
use node_ffi.Value.{Value, undefined, object, number, truthy, thrown, Failure}
use node_ffi.World.{World}
use node_ffi.FfiType.{
  ffi_type, type_body, shortcut, complete, struct_type, write_fields, write_field, write_array,
  write_single, write_run, count_elements, new_struct, cache,
}
use node_ffi.Cif.{
  CifBuffer, require_array, write_arg_types, native_status, check_status, check_status_var, finish,
  prepare, prep_cif, prep_cif_var, cif, cif_var,
}
use node_ffi.Cif.Prepared.{IsPrepared}
use node_ffi.Cif.Returns.{cif-iff-IsPrepared, cif_var-iff-IsPrepared}
use node_ffi.Cif.Errors.{Rejected, cif-throws, cif_var-throws}
use node_ffi.Tests.Toy.{ToyBuf, Process, toy_write, toy, toy-IsLawful}
use node_ffi.Tests.Scene.{scene, int32_type, point_type}

abbrev pub two_types : List Value
two_types = object int32_type ∷ object point_type ∷ []

abbrev pub two_pointers : ToyBuf
two_pointers = toy_write (toy_write (toy.new_buffer 16) 3 0) 1000 8

-- The cif of an `int32` function of an `int32` and a point.
abbrev pub two_cif : CifBuffer ToyBuf
two_cif = record {
  buffer = toy_write (toy.new_buffer 32) 3 0;
  rtn_type_ptr = 3;
  arg_types_ptr = two_pointers;
}

abbrev prepared_world : World Process
prepared_world = (cif toy 3 (object int32_type) (some two_types) undefined scene).1

cif-iff-IsPrepared_example :
    (truthy (object int32_type) ≡ true)
    × ((list : List Value) × (some two_types ≡ some list)
        × IsPrepared toy 3
            (object int32_type)
            list
            (prep_cif toy undefined)
            scene
            prepared_world
            two_cif)
unfolding ffi_type type_body shortcut complete struct_type write_fields write_field write_array
    write_single write_run count_elements new_struct cache require_array write_arg_types
    native_status check_status finish prepare cif
cif-iff-IsPrepared_example =
    (cif-iff-IsPrepared toy toy-IsLawful 3 (object int32_type) (some two_types) undefined scene
        prepared_world two_cif).0
      refl

abbrev prepared_var_world : World Process
prepared_var_world = (cif_var toy 3 (object int32_type) (some two_types) 1 (number 0) scene).1

cif_var-iff-IsPrepared_example :
    (truthy (object int32_type) ≡ true)
    × (1 ≤ 1)
    × ((list : List Value) × (some two_types ≡ some list)
        × IsPrepared toy 3
            (object int32_type)
            list
            (prep_cif_var toy (number 0) 1)
            scene
            prepared_var_world
            two_cif)
unfolding ffi_type type_body shortcut complete struct_type write_fields write_field write_array
    write_single write_run count_elements new_struct cache require_array write_arg_types
    native_status check_status_var finish prepare cif_var
cif_var-iff-IsPrepared_example =
    (cif_var-iff-IsPrepared toy toy-IsLawful 3 (object int32_type) (some two_types) 1 (number 0)
        scene prepared_var_world two_cif).0
      refl

-- The ABI 7 is none of the platform's.
bad_abi-Rejected :
    Rejected toy (prep_cif toy (number 7)) 3 (object int32_type) two_types 2 scene prepared_world
unfolding ffi_type type_body shortcut complete struct_type write_fields write_field write_array
    write_single write_run count_elements new_struct cache require_array write_arg_types
    native_status check_status finish prepare cif
bad_abi-Rejected = record {
  bad = omega arith;
  coerced = scene;
  before = prepared_world;
  rtn = 3;
  args = two_pointers;
  filled = two_cif.buffer;
  native = prepared_world.native;
  rtn_found = refl;
  args_found = refl;
  called = refl;
  ends = refl;
}

cif-throws_example :
    (e : Failure) × (cif toy 3 (object int32_type) (some two_types) (number 7) scene
      ≡ (thrown e, prepared_world))
    × (e.code ≡ some "FFI_BAD_ABI")
    × (e.errno ≡ some 2)
cif-throws_example =
    cif-throws toy 3 (object int32_type) two_types (number 7) 2 scene prepared_world refl
      bad_abi-Rejected

bad_abi-Rejected_var :
    Rejected toy
      (prep_cif_var toy (number 7) 1)
      3
      (object int32_type)
      two_types
      2
      scene
      prepared_world
unfolding ffi_type type_body shortcut complete struct_type write_fields write_field write_array
    write_single write_run count_elements new_struct cache require_array write_arg_types
    native_status check_status finish prepare cif
bad_abi-Rejected_var = record {
  bad = omega arith;
  coerced = scene;
  before = prepared_world;
  rtn = 3;
  args = two_pointers;
  filled = two_cif.buffer;
  native = prepared_world.native;
  rtn_found = refl;
  args_found = refl;
  called = refl;
  ends = refl;
}

bad_abi_refused :
    (e : Failure) × (cif_var toy 3 (object int32_type) (some two_types) 1 (number 7) scene
      ≡ (thrown e, prepared_world))
    × (e.code ≡ some "FFI_BAD_ABI")
    × (e.errno ≡ some 2)
bad_abi_refused =
    cif_var-throws toy 3 (object int32_type) two_types 1 (number 7) 2 scene prepared_world refl
      (omega arith) bad_abi-Rejected_var
