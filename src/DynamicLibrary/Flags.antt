-- ===== src/DynamicLibrary/Flags.antt =====
-- The flags of `dlopen`.
use node_ffi.Base.{
  ◌≡◌, refl, false, ◌&&◌, String, or_else, List, [], ◌∷◌, arith, str_eq, eq_iff, if◌then◌else◌,
  subst, inl, inr, Bool-cases,
}
use node_ffi.World.{Properties, define_property, listed}
use node_ffi.DynamicLibrary.{is_flag, copy_flag, copy_flags}

copy_flag_self :
    {D : Type 0} (bindings flags : Properties D) (name : String)
    → copy_flag bindings name flags name
      ≡ (if is_flag name then or_else (bindings name) (flags name) else flags name)
unfolding copy_flag define_property
copy_flag_self bindings flags name = ground (arith, eq_iff name name)

copy_flag_other :
    {D : Type 0} (bindings flags : Properties D) (name k : String)
    → str_eq name k ≡ false
    → copy_flag bindings name flags k ≡ flags k
unfolding copy_flag define_property
copy_flag_other bindings flags name k h = ground arith

copy_flag_lem :
    {D : Type 0} (bindings flags : Properties D) (name k : String)
    → copy_flag bindings name flags k
      ≡ (if str_eq name k && is_flag k then or_else (bindings k) (flags k) else flags k)
copy_flag_lem bindings flags name k = elim (Bool-cases (str_eq name k)) [
  | inl same ↦ rw same (
      subst
        (λ (j : String).
          copy_flag bindings name flags j
          ≡ (if is_flag j then or_else (bindings j) (flags j) else flags j))
        ((eq_iff name k).0 same) (copy_flag_self bindings flags name))
  | inr other ↦ rw other (copy_flag_other bindings flags name k other)
]

-- `FLAGS` gets the properties of the bindings whose names begin with `RTLD_`, and no others.
pub copy_flags_lem :
    {D : Type 0} (bindings : Properties D) (keys : List String) (flags : Properties D) (k : String)
    → copy_flags bindings keys flags k
      ≡ (if listed k keys && is_flag k then or_else (bindings k) (flags k) else flags k)
unfolding copy_flags listed
copy_flags_lem bindings [] flags k = refl
copy_flags_lem bindings (name ∷ keys) flags k = ground (
  arith,
  copy_flags_lem bindings keys (copy_flag bindings name flags) k,
  copy_flag_lem bindings flags name k,
)
