-- ===== src/ForeignFunction/Sync.antt =====
-- A synchronous call: what libffi is given, and which errors a caller sees.
use node_ffi.Base.{
  ◌↔◌, ℕ, ◌*◌, ◌≡◌, ◌≢◌, true, false, inl, inr, List, arith, length, sym, ap, subst, ◌∙◌,
  Bool-cases, ◌==◌,
}
use node_ffi.Value.{Ptr, Value, ok, thrown, failure, Kind.type_error, Message.argument_count}
use node_ffi.World.{World, ◌>>=◌}
use node_ffi.World.Bind.{bind-eq-ok, bind-ok}
use node_ffi.Platform.{Platform, IsLawful}
use node_ffi.FfiType.Slots.{ReadsAs}
use node_ffi.FfiType.Store.{store, array_of, array_of-ReadsAs, length-array_of}
use node_ffi.Cif.ArgTypes.{each, length-each}
use node_ffi.ForeignFunction.{Proxy, marshal, new_args, invoke, call}
use node_ffi.ForeignFunction.Marshal.{
  with_args, length-with_args, alloc_pair, marshal-Marshalled, marshal-found,
}

module _ (p : Platform) where
  open p use {Buf, Native}

  -- A call that returned: every argument was put to storage in order, libffi called the function
  -- with pointers to these and with a Buffer for the result, and what it left there was read.
  pub record IsCalled (f : Proxy Buf) (args : List Value) (w w' : World Native) (v : Value)
      : Type 0 where
    pub enough : length args ≡ length f.arg_types
    pub stored : World Native
    pub returned : World Native
    pub pointers : List Ptr
    pub arg_list : Buf
    pub filled : Buf
    pub found : each (alloc_pair p) (with_args f.arg_types args) w ≡ (ok pointers, stored)
    pub built : arg_list ≡ array_of p pointers
    pub reads : ReadsAs p arg_list 0 pointers
    pub exact : p.length arg_list ≡ length args * p.pointer_size
    pub called :
        p.ffi_call f.cif.buffer f.func_ptr (p.new_buffer f.result_size) arg_list stored
        ≡ (ok filled, returned)
    pub read : p.deref filled f.return_type returned ≡ (ok v, w')

  pub call_of_count :
      (f : Proxy Buf) (args : List Value) (w : World Native)
      → length args ≡ length f.arg_types
      → call p f args w
        ≡ (marshal p f.arg_types args 0 (new_args p f) >>= λ a.
              invoke p f (p.new_buffer f.result_size) a)
            w
  unfolding call
  call_of_count f args w e =
      let same : (length args == length f.arg_types) ≡ true = ground arith in rw same

  pub call_of_miscount :
      (f : Proxy Buf) (args : List Value) (w : World Native)
      → length args ≢ length f.arg_types
      → call p f args w
        ≡ (thrown (failure type_error (argument_count (length f.arg_types) (length args))), w)
  unfolding call
  call_of_miscount f args w ne =
      let other : (length args == length f.arg_types) ≡ false = ground arith in rw other

  call_run :
      IsLawful p
      → (f : Proxy Buf) (args : List Value) (w w' : World Native) (v : Value)
      → length args ≡ length f.arg_types
      → (marshal p f.arg_types args 0 (new_args p f) >>= λ a.
            invoke p f (p.new_buffer f.result_size) a)
          w
        ≡ (ok v, w')
      → IsCalled f args w w' v
  unfolding invoke
  call_run laws f args w w' v e h =
      let s = bind-eq-ok (marshal p f.arg_types args 0 (new_args p f)) _ w h in
      let s' =
        bind-eq-ok (p.ffi_call f.cif.buffer f.func_ptr (p.new_buffer f.result_size) s.value) _
          s.world s.second in
      let m = marshal-Marshalled p f.arg_types args w 0 (new_args p f) s.value s.world s.first in
      let built : s.value ≡ array_of p m.pointers =
        m.built
        ∙ ap (λ (k : ℕ). store p m.pointers 0 (p.new_buffer (k * p.pointer_size))) (sym m.count) in
      record {
        enough = e;
        stored = s.world;
        returned = s'.world;
        pointers = m.pointers;
        arg_list = s.value;
        filled = s'.value;
        found = m.found;
        built = built;
        reads =
            subst (λ (b : Buf). ReadsAs p b 0 m.pointers) (sym built)
              (array_of-ReadsAs p laws m.pointers);
        exact =
            ap p.length built
            ∙ (length-array_of p laws m.pointers
                ∙ ap (λ (n : ℕ). n * p.pointer_size) (m.count ∙ sym e));
        called = s'.first;
        read = s'.second;
      }

  call-returns :
      (f : Proxy Buf) (args : List Value) (w w' : World Native) (v : Value)
      → IsCalled f args w w' v
      → call p f args w ≡ (ok v, w')
  unfolding invoke
  call-returns f args w w' v h =
      let n : length f.arg_types ≡ length h.pointers =
        sym (length-with_args f.arg_types args)
        ∙ sym (
            length-each (alloc_pair p) (with_args f.arg_types args) w h.stored h.pointers
              h.found) in
      let made : marshal p f.arg_types args 0 (new_args p f) w ≡ (ok h.arg_list, h.stored) =
        marshal-found p f.arg_types args w 0 (new_args p f) h.stored h.pointers h.found ∙ λ k. (
          ok (
              (ap (λ (j : ℕ). store p h.pointers 0 (p.new_buffer (j * p.pointer_size))) n
                  ∙ sym h.built)
                k),
          h.stored,
        ) in
      call_of_count f args w h.enough
      ∙ (bind-ok (marshal p f.arg_types args 0 (new_args p f)) _ w h.stored made
          ∙ (bind-ok (p.ffi_call f.cif.buffer f.func_ptr (p.new_buffer f.result_size) h.arg_list) _
                h.stored h.returned h.called
              ∙ h.read))

pub call-IsCalled :
    (p : Platform)
    → IsLawful p
    → (f : Proxy p.Buf) (args : List Value) (w w' : World p.Native) (v : Value)
    → call p f args w ≡ (ok v, w')
    → IsCalled p f args w w' v
call-IsCalled p laws f args w w' v h = elim (Bool-cases (length args == length f.arg_types)) [
  | inl same ↦
      let e : length args ≡ length f.arg_types = ground arith in
      call_run p laws f args w w' v e (sym (call_of_count p f args w e) ∙ h)
  | inr other ↦
      let ne : length args ≢ length f.arg_types = ground arith in
      cc (call_of_miscount p f args w ne)
]

-- A call of a proxy returns exactly when the number of arguments is right, each argument can be
-- stored at its type, one after the other, the function returns, and what it left can be read at the
-- return type. The function is then called with the pointers of the arguments, in order, in a
-- Buffer of exactly their size, and with a Buffer of the proxy's result size, and what is read from
-- there is the value of the call.
pub call-iff-IsCalled :
    (p : Platform)
    → IsLawful p
    → (f : Proxy p.Buf) (args : List Value) (w w' : World p.Native) (v : Value)
    → (call p f args w ≡ (ok v, w')) ↔ IsCalled p f args w w' v
call-iff-IsCalled p laws f args w w' v =
    (call-IsCalled p laws f args w w' v, call-returns p f args w w' v)
