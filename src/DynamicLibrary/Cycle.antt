-- ===== src/DynamicLibrary/Cycle.antt =====
-- A linker script that leads back to itself.
use node_ffi.Base.{ℕ, zero, suc, ◌≡◌, refl, some, ap, ◌∙◌}
use node_ffi.Value.{Ptr, Result, overflow}
use node_ffi.World.{World}
use node_ffi.Platform.{Platform}
use node_ffi.Text.{Text}
use node_ffi.DynamicLibrary.{Linker, dynamic_library}
use node_ffi.DynamicLibrary.Opens.{IsScript, dynamic_library-script}

-- In all states of a kind the file is a script whose first file is itself, and the states that come of
-- reading it are of that kind.
pub record IsCycle (p : Platform) (l : Linker p) (file : Text) (m : ℕ)
    (Kind : World p.Native → Type 0) : Type 0 where
  pub after : World p.Native → World p.Native
  pub script : (w : World p.Native) → Kind w → IsScript p l (some file) m w file (after w)
  pub again : (w : World p.Native) → Kind w → Kind (after w)

-- A linker script whose first file is itself is followed without end: whatever the fuel, the
-- constructor neither returns nor throws before the stack overflows.
pub dynamic_library-overflows :
    (p : Platform) (l : Linker p) (file : Text) (m : ℕ) (Kind : World p.Native → Type 0)
    → IsCycle p l file m Kind
    → (n : ℕ) (w : World p.Native) → Kind w
    → (dynamic_library p l n (some file) (some m) w).0 ≡ overflow
unfolding dynamic_library
dynamic_library-overflows p l file m Kind c zero w k = refl
dynamic_library-overflows p l file m Kind c (suc n) w k =
    ap (λ (x : Result Ptr × World p.Native). x.0)
      (dynamic_library-script p l n (some file) (some m) m file w (c.after w) refl (c.script w k))
    ∙ dynamic_library-overflows p l file m Kind c n (c.after w) (c.again w k)
