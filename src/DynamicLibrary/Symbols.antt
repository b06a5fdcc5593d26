-- ===== src/DynamicLibrary/Symbols.antt =====
-- The symbols of a library.
use node_ffi.Base.{zero, suc, ◌≡◌, refl, ◌↔◌, ◌≢◌, String, Option, ap, sym, ◌∙◌, arith}
use node_ffi.Value.{
  Ptr, buffer, failure, Result, ok, thrown, Kind.assertion_error, Kind.plain_error,
  Message.assertion, Message.symbol_retrieval,
}
use node_ffi.World.{World}
use node_ffi.World.Bind.{bind-eq-ok, bind-ok, ok-injective}
use node_ffi.Platform.{Platform}
use node_ffi.Text.{Text}
use node_ffi.DynamicLibrary.{Linker, Symbol, require_pointer, last_error, check_symbol, get_symbol}
use node_ffi.DynamicLibrary.Followed.{require_pointer-eq-ok}

module _ (p : Platform) (l : Linker p) where
  open p use {Native}

  check_symbol-eq-ok :
      (symbol : String) (q : Ptr) (w w' : World Native) (s : Symbol)
      → check_symbol p l symbol q w ≡ (ok s, w')
      → (s.address ≡ q) × (s.name ≡ symbol) × (s.address ≢ 0) × (w ≡ w')
  unfolding check_symbol last_error
  check_symbol-eq-ok symbol zero w w' s h = let r = bind-eq-ok l.dlerror _ w h in cc r.second
  check_symbol-eq-ok symbol (suc q) w w' s h =
      let made = ok-injective (ap (λ (x : Result Symbol × World Native). x.0) h) in
      let here : s.address ≡ suc q = ap (λ (x : Symbol). x.address) (sym made) in
      (
        here,
        ap (λ (x : Symbol). x.name) (sym made),
        omega arith,
        ap (λ (x : Result Symbol × World Native). x.1) h,
      )

  check_symbol-returns :
      (symbol : String) (q : Ptr) (s : Symbol) (w : World Native)
      → q ≡ s.address
      → q ≢ 0
      → s.name ≡ symbol
      → check_symbol p l symbol q w ≡ (ok s, w)
  unfolding check_symbol
  check_symbol-returns symbol zero s w e h n = absurd (h refl)
  check_symbol-returns symbol (suc q) s w e h n =
      λ i. (ok (record { address = e i; name = sym n i }), w)

  -- A symbol that was found, under its name.
  pub record IsFound (handle : Ptr) (symbol : String) (w w' : World Native) (s : Symbol)
      : Type 0 where
    pub found : l.dlsym handle symbol w ≡ (ok (buffer s.address), w')
    pub named : s.name ≡ symbol
    pub not_null : s.address ≢ 0

pub get_symbol-IsFound :
    (p : Platform) (l : Linker p) (handle : Ptr) (symbol : String) (w w' : World p.Native)
    (s : Symbol)
    → get_symbol p l handle symbol w ≡ (ok s, w')
    → IsFound p l handle symbol w w' s
unfolding get_symbol
get_symbol-IsFound p l handle symbol w w' s h =
    let a = bind-eq-ok (l.dlsym handle symbol) _ w h in
    let b =
      bind-eq-ok (require_pointer p l a.value (failure assertion_error assertion)) _ a.world
        a.second in
    let (is_pointer, same) = require_pointer-eq-ok p l a.value _ a.world b.world b.value b.first in
    let (address, named, not_null, end) =
      check_symbol-eq-ok p l symbol b.value b.world w' s b.second in
    record {
      found = a.first ∙ λ i.
          (ok ((is_pointer ∙ ap (λ (q : Ptr). buffer q) (sym address)) i), (same ∙ end) i);
      named = named;
      not_null = not_null;
    }

get_symbol-returns :
    (p : Platform) (l : Linker p) (handle : Ptr) (symbol : String) (w w' : World p.Native)
    (s : Symbol)
    → IsFound p l handle symbol w w' s
    → get_symbol p l handle symbol w ≡ (ok s, w')
unfolding get_symbol require_pointer
get_symbol-returns p l handle symbol w w' s h =
    bind-ok (l.dlsym handle symbol) _ w w' h.found
    ∙ check_symbol-returns p l symbol s.address s w' refl h.not_null h.named

-- `get()` returns exactly when `dlsym` gives a pointer that is not NULL; and it returns that pointer,
-- under the name of the symbol, with nothing done after `dlsym` but to name it.
pub get_symbol-iff-IsFound :
    (p : Platform) (l : Linker p) (handle : Ptr) (symbol : String) (w w' : World p.Native)
    (s : Symbol)
    → (get_symbol p l handle symbol w ≡ (ok s, w')) ↔ IsFound p l handle symbol w w' s
get_symbol-iff-IsFound p l handle symbol w w' s =
    (get_symbol-IsFound p l handle symbol w w' s, get_symbol-returns p l handle symbol w w' s)

-- Where `dlsym` gives NULL, `get()` throws an error with what `dlerror` then says.
pub get_symbol-throws :
    (p : Platform) (l : Linker p) (handle : Ptr) (symbol : String) (w w1 w2 : World p.Native)
    (err : Option Text)
    → l.dlsym handle symbol w ≡ (ok (buffer 0), w1)
    → l.dlerror w1 ≡ (ok err, w2)
    → get_symbol p l handle symbol w ≡ (thrown (failure plain_error (symbol_retrieval err)), w2)
unfolding get_symbol require_pointer check_symbol last_error
get_symbol-throws p l handle symbol w w1 w2 err h k =
    bind-ok (l.dlsym handle symbol) _ w w1 h ∙ bind-ok l.dlerror _ w1 w2 k
