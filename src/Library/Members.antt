-- ===== src/Library/Members.antt =====
-- The members of a library object, and their names.
use node_ffi.Base.{
  ◌≡◌, Bool, false, ◌||◌, String, Option, some, List, [], ◌∷◌, arith, str_eq, eq_iff, if◌then◌else◌,
}
use node_ffi.Value.{truthy}
use node_ffi.Library.{
  Info, Options, Member, Member.sync, Member.async, Member.variadic, Members, async_of, varargs_of,
  set_member, member,
}

-- How a member is called.
pub data Calling : Type 0 where
  at_once later by_types : Calling

abbrev pub calling : {B : Type 0} → Member B → Calling
calling (sync f) = at_once
calling (async f) = later
calling (variadic g) = by_types

-- What the options of a function ask for.
abbrev pub asked : Option Options → Calling
asked o = if truthy (varargs_of o) then by_types else if truthy (async_of o) then later else at_once

pub member-set_self :
    {B : Type 0} (k : String) (m : Member B) (lib : Members B)
    → member k (set_member k m lib) ≡ some m
unfolding member set_member
member-set_self k m [] = ground (arith, eq_iff k k)
member-set_self k m ((j, x) ∷ lib) = ground (arith, eq_iff k k, eq_iff j k, member-set_self k m lib)

pub member-set_other :
    {B : Type 0} (k j : String) (m : Member B) (lib : Members B)
    → str_eq k j ≡ false
    → member j (set_member k m lib) ≡ member j lib
unfolding member set_member
member-set_other k j m [] h = ground arith
member-set_other k j m ((i, x) ∷ lib) h =
    ground (arith, eq_iff k j, eq_iff i k, eq_iff i j, member-set_other k j m lib)

-- A function of the name is described.
unfoldable pub described : String → List (String × Info) → Bool
described k [] = false
described k ((j, i) ∷ funcs) = str_eq j k || described k funcs

-- The names are those of an object: no two are the same.
abbrev pub AreKeys : List (String × Info) → Type 0
AreKeys [] = Unit
AreKeys ((k, i) ∷ funcs) = (described k funcs ≡ false) × AreKeys funcs
