-- ===== src/World.antt =====
-- The mutable state, and the monad of the code that runs in it. Type objects are numbered.
pub mod Keeps
pub mod Bind
pub mod Ends
use node_ffi.Base.{
  ℕ, String, ◌≡◌, refl, Bool, true, false, ◌||◌, Option, none, some, List, [], ◌∷◌, str_eq, ◌==◌,
  if◌then◌else◌,
}
use node_ffi.Value.{Ptr, Kind, Message, Failure, failure, Result, ok, thrown, overflow}

-- The properties that a "ref" type has of its own and that no code here assigns. `protos` is its
-- chain of prototypes, nearest first. `elem` is the property `type` of a "ref-array" type,
-- `fields` lists the names of a "ref-struct" type in the order of `Object.keys`, each with the
-- `type` of its field.
pub record TypeObject : Type 0 where
  pub protos : List ℕ
  pub name : Option String
  pub size : Option ℕ
  pub indirection : Option ℕ
  pub elem : Option ℕ
  pub fixed_length : Option ℕ
  pub fields : Option (List (String × ℕ))

-- `ffi_type` and `ffi_id` are the own properties of the type objects that the code assigns:
-- `none` is no own property, `some none` an own property that is undefined. `random n` is what
-- the n-th next `Math.random()` will give, as the integer part of its product with 0x10000.
-- `native` is the state of the process outside the JavaScript heap.
pub record World (N : Type 0) : Type 0 where
  pub types : ℕ → TypeObject
  pub ffi_type : ℕ → Option (Option Ptr)
  pub ffi_id : ℕ → Option (List ℕ)
  pub random : ℕ → ℕ
  pub native : N

abbrev pub Js : Type 0 → Type 0 → Type 0
Js N A = World N → Result A × World N

module _ {N A : Type 0} where
  abbrev pub pure : A → Js N A
  pure a w = (ok a, w)

  abbrev pub raise : Failure → Js N A
  raise e w = (thrown e, w)

  abbrev pub gets : (World N → A) → Js N A
  gets f w = (ok (f w), w)

  abbrev pub exhausted : Js N A
  exhausted w = (overflow, w)

-- `assert(test, message)`
abbrev pub assert : {N : Type 0} → Bool → Message → Js N (Unit {0})
assert true m w = (ok tt, w)
assert false m w = (thrown (failure Kind.assertion_error m), w)

module _ {N A B : Type 0} where
  abbrev pub continue : Result A → (A → Js N B) → Js N B
  continue (ok a) f w = f a w
  continue (thrown e) f w = (thrown e, w)
  continue overflow f w = (overflow, w)

  infixl 5 ◌>>=◌ ◌>>◌
  abbrev pub ◌>>=◌ : Js N A → (A → Js N B) → Js N B
  ◌>>=◌ m f w = let (r, w') = m w in continue r f w'

  abbrev pub ◌>>◌ : Js N A → Js N B → Js N B
  m >> k = m >>= λ _. k

-- A property of an object, found along the prototypes.
abbrev pub find_own : {A : Type 0} → (ℕ → Option A) → List ℕ → Option A
find_own own [] = none
find_own own (o ∷ os) = elim (own o) [ some a ↦ some a | none ↦ find_own own os ]

abbrev pub chain : (ℕ → TypeObject) → ℕ → List ℕ
chain ts t = t ∷ (ts t).protos

module _ {N : Type 0} (w : World N) where
  -- `type.name`, and so on
  abbrev pub name_of : ℕ → Option String
  name_of t = find_own (λ o. (w.types o).name) (chain w.types t)

  abbrev pub size_of : ℕ → Option ℕ
  size_of t = find_own (λ o. (w.types o).size) (chain w.types t)

  abbrev pub indirection_of : ℕ → Option ℕ
  indirection_of t = find_own (λ o. (w.types o).indirection) (chain w.types t)

  abbrev pub elem_of : ℕ → Option ℕ
  elem_of t = find_own (λ o. (w.types o).elem) (chain w.types t)

  abbrev pub fixed_length_of : ℕ → Option ℕ
  fixed_length_of t = find_own (λ o. (w.types o).fixed_length) (chain w.types t)

  abbrev pub fields_of : ℕ → Option (List (String × ℕ))
  fields_of t = find_own (λ o. (w.types o).fields) (chain w.types t)

  abbrev joined : Option (Option Ptr) → Option Ptr
  joined none = none
  joined (some p) = p

  -- `type.ffi_type`
  abbrev pub ffi_type_of : ℕ → Option Ptr
  ffi_type_of t = joined (find_own w.ffi_type (chain w.types t))

-- `o.ffi_type = p`
abbrev pub set_ffi_type : {N : Type 0} → ℕ → Option Ptr → World N → World N
set_ffi_type o p w = record w { ffi_type = λ q. if q == o then some p else w.ffi_type q }

-- A name is in a list.
unfoldable pub listed : String → List String → Bool
listed k [] = false
listed k (name ∷ names) = str_eq name k || listed k names

-- The properties of an object, each with its descriptor.
abbrev pub Properties : Type 0 → Type 0
Properties D = String → Option D

-- `Object.defineProperty(o, prop, desc)`
unfoldable pub define_property : {D : Type 0} → String → D → Properties D → Properties D
define_property prop desc o k = if str_eq prop k then some desc else o k
