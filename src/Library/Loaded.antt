-- ===== src/Library/Loaded.antt =====
-- A library object whose functions are all defined.
use mathlib.Core.Path.{fun_ext}
use node_ffi.Base.{
  neither, ℕ, ◌≡◌, refl, ◌↔◌, false, String, Option, some, List, [], ◌∷◌, ap, sym, ◌∙◌, str_eq,
}
use node_ffi.Value.{Ptr, Result, ok}
use node_ffi.World.{World, Js, pure, ◌>>=◌}
use node_ffi.World.Bind.{bind-eq-ok, bind-ok, bind_assoc, ok-injective}
use node_ffi.Platform.{Platform}
use node_ffi.Cif.ArgTypes.{each}
use node_ffi.Text.{Text}
use node_ffi.DynamicLibrary.{Linker, dynamic_library}
use node_ffi.DynamicLibrary.Opens.{Opens, dynamic_library-iff-Opens}
use node_ffi.Library.{
  Info, Member, Members, set_member, member, define_function, define_functions, as_text, shown_path,
  ext, library_path, library,
}
use node_ffi.Library.Members.{described, AreKeys, member-set_self, member-set_other}
use node_ffi.Library.Defined.{AllDefined, define_function-IsDefined}

-- What a run over the descriptions has made of the object: a member for each of them, and the others
-- as they were.
pub record IsBuilt (p : Platform) (l : Linker p) (fuel : ℕ) (handle : Ptr)
    (funcs : List (String × Info)) (lib lib' : Members p.Buf) : Type 0 where
  pub defined : AllDefined p l fuel handle funcs lib'
  pub kept : (j : String) → described j funcs ≡ false → member j lib' ≡ member j lib

-- Where the loop over the descriptions returns, each function that is described is on the object: it
-- was made for the symbol of its name, which is not NULL, at the described types, and is called in the
-- way that its options ask for. Other members are as before.
pub define_functions-IsBuilt :
    (p : Platform) (l : Linker p) (fuel : ℕ) (file : Text) (handle : Ptr)
    (funcs : List (String × Info)) (lib lib' : Members p.Buf) (w w' : World p.Native)
    → AreKeys funcs
    → define_functions p l fuel file handle funcs lib w ≡ (ok lib', w')
    → IsBuilt p l fuel handle funcs lib lib'
unfolding define_functions described
define_functions-IsBuilt p l fuel file handle [] lib lib' w w' keys h =
    let same : lib ≡ lib' =
      ok-injective (ap (λ (x : Result (Members p.Buf) × World p.Native). x.0) h) in
    record { defined = tt; kept = λ j d. ap (member {B = p.Buf} j) (sym same) }
define_functions-IsBuilt p l fuel file handle ((name, info) ∷ funcs) lib lib' w w' keys h =
    let s = bind-eq-ok (define_function p l fuel file handle name info) _ w h in
    let rest =
      define_functions-IsBuilt p l fuel file handle funcs (set_member name s.value lib) lib' s.world
        w' keys.1 s.second in
    record {
      defined = (
        (
          s.value,
          rest.kept name keys.0 ∙ member-set_self name s.value lib,
          define_function-IsDefined p l fuel file handle name info s.value w s.world s.first,
        ),
        rest.defined,
      );
      kept = λ j d.
          let (other, none_left) = neither (str_eq name j) (described j funcs) d in
          rest.kept j none_left ∙ member-set_other name j s.value lib other;
    }

-- One after the other, each at the name of its description.
unfoldable pub set_members :
    {B : Type 0} → List (String × Info) → List (Member B) → Members B → Members B
set_members ((name, info) ∷ funcs) (m ∷ ms) lib = set_members funcs ms (set_member name m lib)
set_members _ _ lib = lib

module _ (p : Platform) (l : Linker p) (fuel : ℕ) (file : Text) (handle : Ptr) where
  open p use {Buf, Native}

  -- The member for a description.
  abbrev pub member_of : String × Info → Js Native (Member Buf)
  member_of (name, info) = define_function p l fuel file handle name info

  -- The loop makes the members one after the other, and looks at none of the object's.
  define_functions-eq-each :
      (funcs : List (String × Info)) (lib : Members Buf) (w : World Native)
      → define_functions p l fuel file handle funcs lib w
        ≡ (each member_of funcs >>= λ ms. pure (set_members funcs ms lib)) w
  unfolding define_functions each set_members
  define_functions-eq-each [] lib w = refl
  define_functions-eq-each ((name, info) ∷ funcs) lib w =
      ap (λ (f : Member Buf → Js Native (Members Buf)). (member_of (name, info) >>= f) w)
        (fun_ext λ m. fun_ext λ v.
          define_functions-eq-each funcs (set_member name m lib) v
          ∙ sym (
              bind_assoc (each member_of funcs) (λ ms. pure (m ∷ ms))
                (λ ms. pure (set_members ((name, info) ∷ funcs) ms lib)) v))
      ∙ sym (
          bind_assoc (member_of (name, info)) _
            (λ ms. pure (set_members ((name, info) ∷ funcs) ms lib)) w)

-- What a `Library()` that returned has established: the library opened, under its name with the
-- extension of the platform, each function could be made, in order, and the functions are on the
-- object.
pub record IsLoaded (p : Platform) (l : Linker p) (fuel : ℕ) (libfile : Option Text)
    (funcs : List (String × Info)) (lib lib' : Members p.Buf) (w w' : World p.Native) : Type 0 where
  pub handle : Ptr
  pub loaded : World p.Native
  pub opened :
      dynamic_library p l fuel (library_path (as_text (ext l.platform)) libfile) (some l.rtld_now) w
      ≡ (ok handle, loaded)
  pub opens : Opens p l (library_path (as_text (ext l.platform)) libfile) l.rtld_now w handle loaded
  pub members : List (Member p.Buf)
  pub made :
      each (member_of p l fuel (shown_path (as_text (ext l.platform)) libfile) handle) funcs loaded
      ≡ (ok members, w')
  pub put : lib' ≡ set_members funcs members lib
  pub built : IsBuilt p l fuel handle funcs lib lib'

library-IsLoaded :
    (p : Platform) (l : Linker p) (fuel : ℕ) (libfile : Option Text) (funcs : List (String × Info))
    (lib lib' : Members p.Buf) (w w' : World p.Native)
    → AreKeys funcs
    → library p l fuel libfile funcs lib w ≡ (ok lib', w')
    → IsLoaded p l fuel libfile funcs lib lib' w w'
unfolding library
library-IsLoaded p l fuel libfile funcs lib lib' w w' keys h =
    let e = as_text (ext l.platform) in
    let path = library_path e libfile in
    let file = shown_path e libfile in
    let s = bind-eq-ok (dynamic_library p l fuel path (some l.rtld_now)) _ w h in
    let s' =
      bind-eq-ok (each (member_of p l fuel file s.value) funcs) _ s.world
        (sym (define_functions-eq-each p l fuel file s.value funcs lib s.world) ∙ s.second) in
    record {
      handle = s.value;
      loaded = s.world;
      opened = s.first;
      opens =
          (dynamic_library-iff-Opens p l path (some l.rtld_now) w s.world s.value).0
            (fuel, s.first);
      members = s'.value;
      made = s'.first ∙ λ i.
          (ok s'.value, ap (λ (x : Result (Members p.Buf) × World p.Native). x.1) s'.second i);
      put =
          ok-injective (ap (λ (x : Result (Members p.Buf) × World p.Native). x.0) (sym s'.second));
      built =
          define_functions-IsBuilt p l fuel file s.value funcs lib lib' s.world w' keys s.second;
    }

library-returns :
    (p : Platform) (l : Linker p) (fuel : ℕ) (libfile : Option Text) (funcs : List (String × Info))
    (lib lib' : Members p.Buf) (w w' : World p.Native)
    → IsLoaded p l fuel libfile funcs lib lib' w w'
    → library p l fuel libfile funcs lib w ≡ (ok lib', w')
unfolding library
library-returns p l fuel libfile funcs lib lib' w w' h =
    let e = as_text (ext l.platform) in
    let file = shown_path e libfile in
    bind-ok (dynamic_library p l fuel (library_path e libfile) (some l.rtld_now)) _ w h.loaded
      h.opened
    ∙ (define_functions-eq-each p l fuel file h.handle funcs lib h.loaded
        ∙ (bind-ok (each (member_of p l fuel file h.handle) funcs) _ h.loaded w' h.made ∙ λ i.
            (ok (sym h.put i), w')))

-- `Library()` returns exactly when the file with the platform's extension opens, at once or by way of
-- linker scripts, or the process itself if no name was given, and the function of each description
-- can be made, one after the other. Each function that is described is then on the object,
-- made for the symbol of its name in that library and called in the way that its options ask for;
-- and other members of an object that was given are as before.
pub library-iff-IsLoaded :
    (p : Platform) (l : Linker p) (fuel : ℕ) (libfile : Option Text) (funcs : List (String × Info))
    (lib lib' : Members p.Buf) (w w' : World p.Native)
    → AreKeys funcs
    → (library p l fuel libfile funcs lib w ≡ (ok lib', w'))
      ↔ IsLoaded p l fuel libfile funcs lib lib' w w'
library-iff-IsLoaded p l fuel libfile funcs lib lib' w w' keys = (
  library-IsLoaded p l fuel libfile funcs lib lib' w w' keys,
  library-returns p l fuel libfile funcs lib lib' w w',
)
