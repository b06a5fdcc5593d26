-- ===== src/DynamicLibrary/Followed.antt =====
-- The steps of the constructor of a library that read a linker script.
use node_ffi.Base.{◌≡◌, refl, Option, none, some, ap, ◌∙◌}
use node_ffi.Value.{Ptr, Value, buffer, Failure, Result, ok}
use node_ffi.World.{World, Js, ◌>>=◌}
use node_ffi.World.Bind.{bind-eq-ok}
use node_ffi.Platform.{Platform}
use node_ffi.Text.{Text, elf_path, group_file}
use node_ffi.DynamicLibrary.{
  Linker, require_pointer, last_error, follow, read_script, match_error, check_handle,
}

module _ (p : Platform) (l : Linker p) where
  open p use {Native}

  pub require_pointer-eq-ok :
      (v : Value) (e : Failure) (w w' : World Native) (q : Ptr)
      → require_pointer p l v e w ≡ (ok q, w')
      → (v ≡ buffer q) × (w ≡ w')
  unfolding require_pointer
  require_pointer-eq-ok (buffer r) e w w' q h =
      (cc h, ap (λ (x : Result Ptr × World Native). x.1) h)
  require_pointer-eq-ok _ e w w' q h = cc

  -- One step down, where the handle is NULL.
  pub record IsFollowed (rec : Text → Js Native Ptr) (w : World Native) (h : Ptr)
      (w' : World Native) : Type 0 where
    pub told : World Native
    pub read_at : World Native
    pub err : Text
    pub file : Text
    pub content : Text
    pub next : Text
    pub error : l.dlerror w ≡ (ok (some err), told)
    pub names : elf_path err ≡ some file
    pub read : l.read_file file told ≡ (ok content, read_at)
    pub group : group_file content ≡ some next
    pub further : rec next read_at ≡ (ok h, w')

  follow-eq-ok :
      (rec : Text → Js Native Ptr) (err : Text) (o : Option Text) (w w' : World Native) (h : Ptr)
      → follow p l rec err o w ≡ (ok h, w')
      → (next : Text) × (o ≡ some next) × (rec next w ≡ (ok h, w'))
  unfolding follow
  follow-eq-ok rec err none w w' h e = cc
  follow-eq-ok rec err (some next) w w' h e = (next, refl, e)

  read_script-eq-ok :
      (rec : Text → Js Native Ptr) (err : Text) (o : Option Text) (w w' : World Native) (h : Ptr)
      → read_script p l rec err o w ≡ (ok h, w')
      → (file : Text) × (o ≡ some file)
        × ((l.read_file file >>= λ c. follow p l rec err (group_file c)) w ≡ (ok h, w'))
  unfolding read_script
  read_script-eq-ok rec err none w w' h e = cc
  read_script-eq-ok rec err (some file) w w' h e = (file, refl, e)

  match_error-eq-ok :
      (rec : Text → Js Native Ptr) (o : Option Text) (w w' : World Native) (h : Ptr)
      → match_error p l rec o w ≡ (ok h, w')
      → (err : Text) × (o ≡ some err) × (read_script p l rec err (elf_path err) w ≡ (ok h, w'))
  unfolding match_error
  match_error-eq-ok rec none w w' h e = cc
  match_error-eq-ok rec (some err) w w' h e = (err, refl, e)

  pub null-IsFollowed :
      (rec : Text → Js Native Ptr) (w w' : World Native) (h : Ptr)
      → check_handle p l rec 0 w ≡ (ok h, w')
      → IsFollowed rec w h w'
  unfolding check_handle last_error
  null-IsFollowed rec w w' h e =
      let s = bind-eq-ok l.dlerror (match_error p l rec) w e in
      let m = match_error-eq-ok rec s.value s.world w' h s.second in
      let r = read_script-eq-ok rec m.0 (elf_path m.0) s.world w' h m.2 in
      let s1 = bind-eq-ok (l.read_file r.0) _ s.world r.2 in
      let f = follow-eq-ok rec m.0 (group_file s1.value) s1.world w' h s1.second in
      record {
        told = s.world;
        read_at = s1.world;
        err = m.0;
        file = r.0;
        content = s1.value;
        next = f.0;
        error =
            s.first
            ∙ ap
                (λ (o : Option Text).
                  let x : Result (Option Text) × World Native = (ok o, s.world) in x)
                m.1;
        names = r.1;
        read = s1.first;
        group = f.1;
        further = f.2;
      }
