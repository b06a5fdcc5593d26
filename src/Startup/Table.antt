-- ===== src/Startup/Table.antt =====
-- Which `ffi_type` each of ref's types gets.
use node_ffi.Base.{
  ℕ, ◌≡◌, Bool, not, ◌&&◌, ◌||◌, String, Option, none, some, or_else, List, arith, ◌∙◌, str_eq,
  ◌==◌, if◌then◌else◌,
}
use node_ffi.Value.{Ptr, ok}
use node_ffi.World.{World}
use node_ffi.Platform.{Platform}
use node_ffi.Startup.{BufferNames, set_ffi_types}
use node_ffi.World.{listed}
use node_ffi.Startup.Effects.{c_name, all-Leaves}

entry_lem :
    (a b c d e f : Bool) (l u q r : Option Ptr) (old : Option (Option Ptr))
    → (if a
        then some l
        else if b
        then some u
        else if c
        then some q
        else if d
        then some q
        else if e
        then some q
        else if f
        then some r
        else old)
      ≡ or_else
          (if a
            then some l
            else if b
            then some u
            else if c || (d || e)
            then some q
            else if f
            then some r
            else none)
          old
entry_lem a b c d e f l u q r old = ground arith

module _ (p : Platform) (types : String → Option ℕ) where
  open p use {Native}

  -- The entry of `bindings.FFI_TYPES` that the type of a name is to have, where it gets one.
  unfoldable pub entry : List String → String → Option (Option Ptr)
  entry keys k =
      if str_eq "long" k
      then some (p.ffi_types (if p.long_size == 4 then "int32" else "int64"))
      else if str_eq "ulong" k
      then some (p.ffi_types (if p.long_size == 4 then "uint32" else "uint64"))
      else if str_eq "Object" k || (str_eq (c_name p types) k || str_eq "size_t" k)
      then some (p.ffi_types "pointer")
      else if listed k keys && not (str_eq "pointer" k)
      then some (p.ffi_types k)
      else none

-- Where the start-up code returns, a type of ref that has its object to itself has the entry of
-- `bindings.FFI_TYPES` that the table gives for its name: the one for its size for `long` and
-- `ulong`, the one for pointers for `Object`, `size_t` and C strings, and the one of its name for any
-- other key but `pointer`. The `ffi_type` of other types is as before, and no other property changes.
pub set_ffi_types-eq-entry :
    (p : Platform) (types : String → Option ℕ) (k : String) (t : ℕ) (keys : List String)
    (names : BufferNames) (w w' : World p.Native)
    → types k ≡ some t
    → ((j : String) → types j ≡ some t → j ≡ k)
    → set_ffi_types p types keys w ≡ (ok names, w')
    → (w'.ffi_type t ≡ or_else (entry p types keys k) (w.ffi_type t)) × (w'.types ≡ w.types)
unfolding entry
set_ffi_types-eq-entry p types k t keys names w w' here own h =
    let a = all-Leaves p types k t here own keys names w w' h in
    (
      a.ffi_type
          ∙ entry_lem (str_eq "long" k) (str_eq "ulong" k) (str_eq "Object" k)
              (str_eq (c_name p types) k) (str_eq "size_t" k)
              (listed k keys && not (str_eq "pointer" k))
              (p.ffi_types (if p.long_size == 4 then "int32" else "int64"))
              (p.ffi_types (if p.long_size == 4 then "uint32" else "uint64"))
              (p.ffi_types "pointer") (p.ffi_types k) (w.ffi_type t),
      a.types_same,
    )
