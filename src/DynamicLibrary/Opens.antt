-- ===== src/DynamicLibrary/Opens.antt =====
-- How a library is opened: at once, or by way of linker scripts.
use node_ffi.Base.{ℕ, zero, suc, ◌≡◌, refl, ◌≢◌, ◌↔◌, Option, some, ap, ◌∙◌, arith}
use node_ffi.Value.{Ptr, buffer, failure, Result, ok, Kind.assertion_error}
use node_ffi.World.{World, Js}
use node_ffi.World.Bind.{bind-eq-ok, bind-ok, ok-injective}
use node_ffi.Platform.{Platform}
use node_ffi.Text.{Text, elf_path, group_file}
use node_ffi.DynamicLibrary.{
  no_handle, Linker, require_pointer, last_error, follow, read_script, match_error, check_handle,
  or_lazy, dynamic_library,
}
use node_ffi.DynamicLibrary.Followed.{require_pointer-eq-ok, null-IsFollowed}

module _ (p : Platform) (l : Linker p) where
  open p use {Native}

  -- `dlopen` gives NULL, `dlerror` names a file, and the first file of its `GROUP` is `next`.
  pub record IsScript (path : Option Text) (m : ℕ) (w : World Native) (next : Text)
      (w' : World Native) : Type 0 where
    pub failed : World Native
    pub told : World Native
    pub err : Text
    pub file : Text
    pub content : Text
    pub null_handle : l.dlopen path m w ≡ (ok (buffer 0), failed)
    pub error : l.dlerror failed ≡ (ok (some err), told)
    pub names : elf_path err ≡ some file
    pub read : l.read_file file told ≡ (ok content, w')
    pub group : group_file content ≡ some next

  -- The library opens: `dlopen` gives a handle, or there is a script whose first file opens.
  pub data Opens : Option Text → ℕ → World Native → Ptr → World Native → Type 0 where
    direct :
        {path : Option Text} {m : ℕ} {w w' : World Native} {h : Ptr}
        → l.dlopen path m w ≡ (ok (buffer h), w')
        → h ≢ 0
        → Opens path m w h w'
    by_script :
        {path : Option Text} {m : ℕ} {w w1 w' : World Native} {h : Ptr} (next : Text)
        → IsScript path m w next w1
        → Opens (some next) m w1 h w'
        → Opens path m w h w'

  checked-Opens :
      (rec : Text → Js Native Ptr) (path : Option Text) (m : ℕ) (q h : Ptr) (w w1 w' : World Native)
      → ((next : Text) (v : World Native) → rec next v ≡ (ok h, w') → Opens (some next) m v h w')
      → l.dlopen path m w ≡ (ok (buffer q), w1)
      → check_handle p l rec q w1 ≡ (ok h, w')
      → Opens path m w h w'
  unfolding check_handle
  checked-Opens rec path m zero h w w1 w' down o e =
      let f = null-IsFollowed p l rec w1 w' h e in
      by_script f.next
        (record {
          failed = w1;
          told = f.told;
          err = f.err;
          file = f.file;
          content = f.content;
          null_handle = o;
          error = f.error;
          names = f.names;
          read = f.read;
          group = f.group;
        })
        (down f.next f.read_at f.further)
  checked-Opens rec path m (suc q) h w w1 w' down o e =
      let same : suc q ≡ h = ok-injective (ap (λ (x : Result Ptr × World Native). x.0) e) in
      let end : w1 ≡ w' = ap (λ (x : Result Ptr × World Native). x.1) e in
      direct (o ∙ λ i. (ok (buffer (same i)), end i)) (omega arith)

  dynamic_library_sound :
      (n : ℕ) (path : Option Text) (mode : Option ℕ) (w w' : World Native) (h : Ptr)
      → dynamic_library p l n path mode w ≡ (ok h, w')
      → Opens path (or_lazy p l mode) w h w'
  unfolding dynamic_library
  dynamic_library_sound zero path mode w w' h e = cc
  dynamic_library_sound (suc n) path mode w w' h e =
      let s = bind-eq-ok (l.dlopen path (or_lazy p l mode)) _ w e in
      let s1 =
        bind-eq-ok (require_pointer p l s.value (failure assertion_error no_handle)) _ s.world
          s.second in
      let (is_pointer, same) =
        require_pointer-eq-ok p l s.value _ s.world s1.world s1.value s1.first in
      checked-Opens _ path (or_lazy p l mode) s1.value h w s1.world w'
        (λ next v. dynamic_library_sound n (some next) (some (or_lazy p l mode)) v w' h)
        (s.first ∙ λ i. (ok (is_pointer i), same i)) s1.second

  -- A step of the constructor, forwards.
  opened :
      (n : ℕ) (path : Option Text) (mode : Option ℕ) (m : ℕ) (q : Ptr) (w w1 : World Native)
      → or_lazy p l mode ≡ m
      → l.dlopen path m w ≡ (ok (buffer q), w1)
      → dynamic_library p l (suc n) path mode w
        ≡ check_handle p l (λ file. dynamic_library p l n (some file) (some m)) q w1
  unfolding dynamic_library require_pointer
  opened n path mode m q w w1 e o = rw e (bind-ok (l.dlopen path m) _ w w1 o)

  pub scripted :
      (rec : Text → Js Native Ptr) (path : Option Text) (m : ℕ) (next : Text) (w w1 : World Native)
      (s : IsScript path m w next w1)
      → check_handle p l rec 0 s.failed ≡ rec next w1
  unfolding check_handle last_error match_error read_script follow
  scripted rec path m next w w1 s =
      bind-ok l.dlerror (match_error p l rec) s.failed s.told s.error
      ∙ (ap (λ (o : Option Text). read_script p l rec s.err o s.told) s.names
          ∙ (bind-ok (l.read_file s.file) _ s.told w1 s.read
              ∙ ap (λ (o : Option Text). follow p l rec s.err o w1) s.group))

  -- A script passes the call on to its first file.
  pub dynamic_library-script :
      (n : ℕ) (path : Option Text) (mode : Option ℕ) (m : ℕ) (next : Text) (w w1 : World Native)
      → or_lazy p l mode ≡ m
      → IsScript path m w next w1
      → dynamic_library p l (suc n) path mode w ≡ dynamic_library p l n (some next) (some m) w1
  dynamic_library-script n path mode m next w w1 e s =
      opened n path mode m 0 w s.failed e s.null_handle
      ∙ scripted (λ file. dynamic_library p l n (some file) (some m)) path m next w w1 s

  handled :
      (rec : Text → Js Native Ptr) (q : Ptr) (w : World Native)
      → q ≢ 0
      → check_handle p l rec q w ≡ (ok q, w)
  unfolding check_handle
  handled rec zero w h = absurd (h refl)
  handled rec (suc q) w h = refl

  dynamic_library_complete :
      {path : Option Text} {m : ℕ} {w w' : World Native} {h : Ptr}
      → Opens path m w h w'
      → (mode : Option ℕ) → or_lazy p l mode ≡ m
      → (n : ℕ) × (dynamic_library p l n path mode w ≡ (ok h, w'))
  dynamic_library_complete {path} {m} {w} {w'} {h} (direct o ne) mode e =
      (1, opened 0 path mode m h w w' e o ∙ handled _ h w' ne)
  dynamic_library_complete {path} {m} {w} {w'} {h} (by_script {w1 = w1} next s rest) mode e =
      let (n, run) = dynamic_library_complete rest (some m) refl in
      (suc n, dynamic_library-script n path mode m next w w1 e s ∙ run)

-- The constructor returns a handle, for some depth of the recursion, exactly when the library opens:
-- `dlopen` gives a handle that is not NULL, or it gives NULL, the error names a file, and the first
-- file of the `GROUP` in that file opens in the same mode, with the states passed along.
pub dynamic_library-iff-Opens :
    (p : Platform) (l : Linker p) (path : Option Text) (mode : Option ℕ) (w w' : World p.Native)
    (h : Ptr)
    → ((n : ℕ) × (dynamic_library p l n path mode w ≡ (ok h, w')))
      ↔ Opens p l path (or_lazy p l mode) w h w'
dynamic_library-iff-Opens p l path mode w w' h = (
  λ r. dynamic_library_sound p l r.0 path mode w w' h r.1,
  λ o. dynamic_library_complete p l o mode refl,
)
