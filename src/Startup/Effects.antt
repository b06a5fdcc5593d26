-- ===== src/Startup/Effects.antt =====
-- What each step of the start-up code does to one of ref's types.
use node_ffi.Base.{
  ℕ, ◌≡◌, refl, ◌≢◌, Bool, true, false, inl, inr, Bool-cases, not, ◌&&◌, ◌||◌, String, Option, none,
  some, or_else, List, [], ◌∷◌, arith, ap, sym, ◌∙◌, str_eq, eq_iff, ◌==◌, if◌then◌else◌,
}
use node_ffi.Value.{Ptr, Result, ok}
use node_ffi.World.{World, set_ffi_type}
use node_ffi.World.Bind.{bind-eq-ok}
use node_ffi.Platform.{Platform}
use node_ffi.Startup.{
  BufferNames, assign, set_builtin, set_builtins, c_string, set_long, set_ffi_types,
}
use node_ffi.World.{listed}

-- An assignment to the type of the one name, as seen by the type of the other.
abbrev pub put : String → String → Option Ptr → Option (Option Ptr) → Option (Option Ptr)
put name k q old = if str_eq name k then some q else old

abbrev c_name_of : Option ℕ → String
c_name_of none = "Utf8String"
c_name_of (some t) = "CString"

same_test : (name k : String) → name ≡ k → str_eq name "pointer" ≡ str_eq "pointer" k
same_test name k h = ground (arith, eq_iff name "pointer", eq_iff "pointer" k, h)

key_lem :
    (a b c e : Bool) (v u : Option Ptr) (old : Option (Option Ptr))
    → (b ≡ true → a ≡ e)
    → (b ≡ true → v ≡ u)
    → (if c && not e then some u else (if a then old else if b then some v else old))
      ≡ (if (b || c) && not e then some u else old)
key_lem a true c e v u old h k = rw (h refl) (rw (k refl) (ground arith))
key_lem a false c e v u old h k = ground arith

module _ (p : Platform) (types : String → Option ℕ) where
  open p use {Native}

  -- The name of the type for C strings.
  abbrev pub c_name : String
  c_name = c_name_of (types "CString")

  module _ (k : String) (t : ℕ) (here : types k ≡ some t)
      (own : (j : String) → types j ≡ some t → j ≡ k) where
    -- What a run has done to the type.
    pub record Leaves (w w' : World Native) (f : Option (Option Ptr) → Option (Option Ptr))
        : Type 0 where
      pub ffi_type : w'.ffi_type t ≡ f (w.ffi_type t)
      pub types_same : w'.types ≡ w.types

    names_same :
        (name : String) (v : ℕ)
        → types name ≡ some v
        → (b : Bool) → str_eq name k ≡ b
        → (t == v) ≡ b
    names_same name v e true h =
        let same : name ≡ k = (eq_iff name k).0 h in
        let there : some t ≡ some v = sym here ∙ ap types (sym same) ∙ e in ground arith
    names_same name v e false h =
        let other : v ≢ t =
          λ q. let no = (eq_iff name k).1 (own name (e ∙ ap (λ (x : ℕ). some x) q)) in cc (no, h) in
        ground arith

    assign-Leaves :
        (name : String) (o : Option ℕ) (q : Option Ptr) (w w' : World Native) {u : Unit}
        → types name ≡ o
        → assign p types o q w ≡ (ok u, w')
        → Leaves w w' (put name k q)
    unfolding assign
    assign-Leaves name none q w w' e h = cc h
    assign-Leaves name (some v) q w w' e h =
        let same : w' ≡ set_ffi_type v q w = ap (λ (x : Result Unit × World Native). x.1) (sym h) in
        record {
          ffi_type =
              ap (λ (x : World Native). x.ffi_type t) same
              ∙ rw (names_same name v e (str_eq name k) refl) refl;
          types_same = ap (λ (x : World Native). x.types) same;
        }

    -- The loop over the keys.
    abbrev pub after_keys : List String → Option (Option Ptr) → Option (Option Ptr)
    after_keys keys old =
        if listed k keys && not (str_eq "pointer" k) then some (p.ffi_types k) else old

    Leaves-then :
        {w v w' : World Native} {f g : Option (Option Ptr) → Option (Option Ptr)}
        → Leaves w v f
        → Leaves v w' g
        → Leaves w w' (λ old. g (f old))
    Leaves-then {g} a b = record {
      ffi_type = b.ffi_type ∙ ap g a.ffi_type;
      types_same = b.types_same ∙ a.types_same;
    }

    -- The result of a run that leaves the state alone.
    ends_at :
        {A : Type 0} {a b : A} {w w' : World Native}
        → ◌≡◌ {A = Result A × World Native} (ok a, w) (ok b, w')
        → Leaves w w' (λ old. old)
    ends_at {A} h =
        let same = ap (λ (x : Result A × World Native). x.1) (sym h) in
        record {
          ffi_type = ap (λ (x : World Native). x.ffi_type t) same;
          types_same = ap (λ (x : World Native). x.types) same;
        }

    builtin-Leaves :
        (name : String) (names names' : BufferNames) (w w' : World Native)
        → set_builtin p types name names w ≡ (ok names', w')
        → Leaves w w'
            (λ old. if str_eq name "pointer" then old else put name k (p.ffi_types name) old)
    unfolding set_builtin
    builtin-Leaves name names names' w w' h = elim (Bool-cases (str_eq name "pointer")) [
      | inl pointer ↦ rw pointer (ends_at (rw pointer at h))
      | inr other ↦
          let s = bind-eq-ok (assign p types (types name) (p.ffi_types name)) _ w (rw other at h) in
          let a = assign-Leaves name (types name) (p.ffi_types name) w s.world refl s.first in
          rw other (Leaves-then a (ends_at s.second))
    ]

    after_key :
        (name : String) (keys : List String) (old : Option (Option Ptr))
        → after_keys keys (if str_eq name "pointer" then old else put name k (p.ffi_types name) old)
          ≡ after_keys (name ∷ keys) old
    unfolding listed
    after_key name keys old =
        key_lem (str_eq name "pointer") (str_eq name k) (listed k keys) (str_eq "pointer" k)
          (p.ffi_types name) (p.ffi_types k) old (λ h. same_test name k ((eq_iff name k).0 h))
          (λ h. ap p.ffi_types ((eq_iff name k).0 h))

    builtins-Leaves :
        (keys : List String) (names names' : BufferNames) (w w' : World Native)
        → set_builtins p types keys names w ≡ (ok names', w')
        → Leaves w w' (after_keys keys)
    unfolding set_builtins listed
    builtins-Leaves [] names names' w w' h = ends_at h
    builtins-Leaves (name ∷ keys) names names' w w' h =
        let s = bind-eq-ok (set_builtin p types name names) _ w h in
        let first = builtin-Leaves name names s.value w s.world s.first in
        let rest = builtins-Leaves keys s.value names' s.world w' s.second in
        let both = Leaves-then first rest in
        record {
          ffi_type = both.ffi_type ∙ after_key name keys (w.ffi_type t);
          types_same = both.types_same;
        }

    long-Leaves :
        (w w' : World Native) {u : Unit}
        → set_long p types w ≡ (ok u, w')
        → Leaves w w' λ old.
          put "long" k
            (p.ffi_types (if p.long_size == 4 then "int32" else "int64"))
            (put "ulong" k (p.ffi_types (if p.long_size == 4 then "uint32" else "uint64")) old)
    unfolding set_long
    long-Leaves w w' h = elim (Bool-cases (p.long_size == 4)) [
      | inl four ↦
          let s =
            bind-eq-ok (assign p types (types "ulong") (p.ffi_types "uint32")) _ w (rw four at h) in
          rw four (
            Leaves-then
              (assign-Leaves "ulong" (types "ulong") (p.ffi_types "uint32") w s.world refl s.first)
              (assign-Leaves "long" (types "long") (p.ffi_types "int32") s.world w' refl s.second))
      | inr more ↦ elim (Bool-cases (p.long_size == 8)) [
        | inl eight ↦
            let s =
              bind-eq-ok (assign p types (types "ulong") (p.ffi_types "uint64")) _ w
                (rw (more, eight) at h) in
            rw more (
              Leaves-then
                (assign-Leaves "ulong" (types "ulong") (p.ffi_types "uint64") w s.world refl
                  s.first)
                (assign-Leaves "long" (types "long") (p.ffi_types "int64") s.world w' refl
                  s.second))
        | inr other ↦ let no = rw (more, other) at h in cc no
      ]
    ]

    c_name-eq :
        (o : Option ℕ) → types "CString" ≡ o → types (c_name_of o) ≡ or_else o (types "Utf8String")
    c_name-eq none e = refl
    c_name-eq (some c) e = e

    pub all-Leaves :
        (keys : List String) (names : BufferNames) (w w' : World Native)
        → set_ffi_types p types keys w ≡ (ok names, w')
        → Leaves w w' λ old.
          put "long" k (p.ffi_types (if p.long_size == 4 then "int32" else "int64")) (
            put "ulong" k (p.ffi_types (if p.long_size == 4 then "uint32" else "uint64")) (
              put "Object" k (p.ffi_types "pointer") (
                put c_name k
                  (p.ffi_types "pointer")
                  (put "size_t" k (p.ffi_types "pointer") (after_keys keys old)))))
    unfolding set_ffi_types
    all-Leaves keys names w w' h =
        let pointer = p.ffi_types "pointer" in
        let a = bind-eq-ok (set_builtins p types keys (λ j. none)) _ w h in
        let b = bind-eq-ok (assign p types (types "size_t") pointer) _ a.world a.second in
        let c = bind-eq-ok (assign p types (c_string p types) pointer) _ b.world b.second in
        let d = bind-eq-ok (assign p types (types "Object") pointer) _ c.world c.second in
        let e = bind-eq-ok (set_long p types) _ d.world d.second in
        let of_string = c_name-eq (types "CString") refl in
        Leaves-then (builtins-Leaves keys (λ j. none) a.value w a.world a.first) (
          Leaves-then (assign-Leaves "size_t" (types "size_t") pointer a.world b.world refl b.first)
            (Leaves-then
              (assign-Leaves c_name (c_string p types) pointer b.world c.world of_string c.first)
              (Leaves-then
                (assign-Leaves "Object" (types "Object") pointer c.world d.world refl d.first)
                (Leaves-then (long-Leaves d.world e.world e.first) (ends_at e.second)))))
