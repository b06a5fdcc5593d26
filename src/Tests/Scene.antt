-- ===== src/Tests/Scene.antt =====
-- Type objects for the tests, and a state in which they live.
use node_ffi.Base.{ℕ, ◌*◌, ◌%◌, String, Option, none, some, List, [], ◌∷◌, ◌==◌, if◌then◌else◌}
use node_ffi.World.{TypeObject, World}
use node_ffi.Tests.Toy.{Process, no_closures}

-- `Object.prototype` is 0.
abbrev pub plain_type : Option String → ℕ → TypeObject
plain_type s n = record {
  protos = 0 ∷ [];
  name = s;
  size = some n;
  indirection = some 1;
  elem = none;
  fixed_length = none;
  fields = none;
}

abbrev pub root_object : TypeObject
root_object = record {
  protos = [];
  name = none;
  size = none;
  indirection = none;
  elem = none;
  fixed_length = none;
  fields = none;
}

-- An `int32` with its `ffi_type`, an array of two of it, and a struct of the two.
abbrev pub int32_type : ℕ
int32_type = 1

abbrev pub array_type : ℕ
array_type = 2

abbrev pub point_type : ℕ
point_type = 3

-- An `int32` of another copy of ref, and a type whose name is not listed.
abbrev pub foreign_type : ℕ
foreign_type = 4

abbrev pub odd_type : ℕ
odd_type = 5

abbrev pub point_fields : List (String × ℕ)
point_fields = ("x", int32_type) ∷ ("ys", array_type) ∷ []

abbrev pub scene_types : ℕ → TypeObject
scene_types t =
    if t == int32_type
    then plain_type (some "int32") 4
    else if t == array_type
    then record (plain_type none 8) { elem = some int32_type; fixed_length = some 2 }
    else if t == point_type
    then record (plain_type none 12) { fields = some point_fields }
    else if t == foreign_type
    then plain_type (some "int32") 4
    else if t == odd_type
    then plain_type (some "odd") 4
    else root_object

abbrev pub process : Process
process = record { next = 1000; structs = λ q. none; cells = λ q. 0; closures = no_closures }

abbrev pub scene : World Process
scene = record {
  types = scene_types;
  ffi_type = λ t. if t == int32_type then some (some 3) else none;
  ffi_id = λ t. none;
  random = λ n. (n * 7) % 65536;
  native = process;
}
