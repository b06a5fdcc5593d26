-- ===== src/CallbackInfo/Effects.antt =====
-- What a call of the addon's `Callback`, and the end of its Buffer, change in memory.
use node_ffi.Base.{
  ◌+◌, ◌-◌, ◌≡◌, refl, ◌⊎◌, inl, inr, Bool-cases, Option, none, some, arith, ◌==◌, ap, sym, ◌∙◌,
  set_at, if◌then◌else◌,
}
use node_ffi.Value.{Ptr, Failure, Result, ok, thrown}
use node_ffi.World.Bind.{ok-injective}
use node_ffi.CallbackInfo.{
  CallbackInfo, Memory, Libffi, Arguments, CodeBuffer, new_info, free_info, fill_info,
  prepare_closure, filled_closure, callback_method, clear_function, closure_pointer_cb,
}

module _ {N C F : Type 0} (l : Libffi N C) where
  -- A new `callback_info` stands at the hint of the Buffer, two `Nan::Callback`s more
  -- are there, and the rest of memory is as it was.
  pub record IsMade (args : Arguments C F) (m m' : Memory N F) (b : CodeBuffer) : Type 0 where
    pub infos : m'.infos ≡ set_at b.hint (some (new_info b.code args)) m.infos
    pub callbacks : m'.callbacks ≡ m.callbacks + 2
    pub free_before : m.infos b.hint ≡ none

  -- Memory that `ffi_closure_alloc` gives is not allocated before.
  abbrev pub IsFresh : Memory N F → Type 0
  IsFresh m = (a code : Ptr) → (l.closure_alloc m.native).0 ≡ some (a, code) → m.infos a ≡ none

  prepare_closure-IsMade :
      (args : Arguments C F) (a code : Ptr) (m m' : Memory N F) (b : CodeBuffer)
      → m.infos a ≡ none
      → prepare_closure l a code args.cif (fill_info l a code args m) ≡ (ok b, m')
      → IsMade args m m' b
  unfolding prepare_closure fill_info
  prepare_closure-IsMade args a code m m' b free h =
      let filled = fill_info l a code args m in
      let (status, n) = l.prep_closure_loc a args.cif code filled.native in
      elim (Bool-cases (status == l.ffi_ok)) [
        | inl good ↦
            let done = rw good at h in
            let buffer = ok-injective (ap (λ (x : Result CodeBuffer × Memory N F). x.0) done) in
            let end : record filled { native = n } ≡ m' =
              ap (λ (x : Result CodeBuffer × Memory N F). x.1) done in
            record {
              infos =
                  ap (λ (x : Memory N F). x.infos) (sym end)
                  ∙ ap (λ (x : CodeBuffer). set_at x.hint (some (new_info x.code args)) m.infos)
                      buffer;
              callbacks = ap (λ (x : Memory N F). x.callbacks) (sym end);
              free_before = ap (λ (x : CodeBuffer). m.infos x.hint) (sym buffer) ∙ free;
            }
        | inr bad ↦ cc (rw bad at h)
      ]

  -- Memory holds what it held before, and at most two `Nan::Callback`s more are there.
  pub record IsFailed (m m' : Memory N F) : Type 0 where
    pub infos : (a : Ptr) → m'.infos a ≡ m.infos a
    pub callbacks : (m'.callbacks ≡ m.callbacks) ⊎ (m'.callbacks ≡ m.callbacks + 2)

  set_back :
      (a b : Ptr) (x : CallbackInfo F) (f : Ptr → Option (CallbackInfo F))
      → f a ≡ none
      → set_at a none (set_at a (some x) f) b ≡ f b
  set_back a b x f h = ground arith

  prepare_closure-IsFailed :
      (args : Arguments C F) (a code : Ptr) (m m' : Memory N F) (e : Failure)
      → m.infos a ≡ none
      → prepare_closure l a code args.cif (fill_info l a code args m) ≡ (thrown e, m')
      → IsFailed m m'
  unfolding prepare_closure fill_info free_info
  prepare_closure-IsFailed args a code m m' e free h =
      let filled = fill_info l a code args m in
      let (status, n) = l.prep_closure_loc a args.cif code filled.native in
      elim (Bool-cases (status == l.ffi_ok)) [
        | inl good ↦ cc (rw good at h)
        | inr bad ↦
            let end = ap (λ (x : Result CodeBuffer × Memory N F). x.1) (rw bad at h) in
            record {
              infos =
                  λ b. ap (λ (x : Memory N F). x.infos b) (sym end) ∙ set_back a b _ m.infos free;
              callbacks = inr (ap (λ (x : Memory N F). x.callbacks) (sym end));
            }
      ]

  filled_closure-IsMade :
      (args : Arguments C F) (block : Option (Ptr × Ptr)) (m m' : Memory N F) (b : CodeBuffer)
      → ((a code : Ptr) → block ≡ some (a, code) → m.infos a ≡ none)
      → filled_closure l args block m ≡ (ok b, m')
      → IsMade args m m' b
  unfolding filled_closure
  filled_closure-IsMade args none m m' b free h = cc h
  filled_closure-IsMade args (some (a, code)) m m' b free h =
      prepare_closure-IsMade args a code m m' b (free a code refl) h

  filled_closure-IsFailed :
      (args : Arguments C F) (block : Option (Ptr × Ptr)) (m m' : Memory N F) (e : Failure)
      → ((a code : Ptr) → block ≡ some (a, code) → m.infos a ≡ none)
      → filled_closure l args block m ≡ (thrown e, m')
      → IsFailed m m'
  unfolding filled_closure
  filled_closure-IsFailed args none m m' e free h =
      let end = ap (λ (x : Result CodeBuffer × Memory N F). x.1) h in
      record {
        infos = λ a. ap (λ (x : Memory N F). x.infos a) (sym end);
        callbacks = inl (ap (λ (x : Memory N F). x.callbacks) (sym end));
      }
  filled_closure-IsFailed args (some (a, code)) m m' e free h =
      prepare_closure-IsFailed args a code m m' e (free a code refl) h

  pub callback_method-IsMade :
      (args : Arguments C F) (m m' : Memory N F) (b : CodeBuffer)
      → IsFresh m
      → callback_method l (some args) m ≡ (ok b, m')
      → IsMade args m m' b
  unfolding callback_method
  callback_method-IsMade args m m' b free h =
      let (block, n) = l.closure_alloc m.native in
      let made = filled_closure-IsMade args block (record m { native = n }) m' b free h in
      record { infos = made.infos; callbacks = made.callbacks; free_before = made.free_before }

  pub callback_method-IsFailed :
      (args : Option (Arguments C F)) (m m' : Memory N F) (e : Failure)
      → IsFresh m
      → callback_method l args m ≡ (thrown e, m')
      → IsFailed m m'
  unfolding callback_method
  callback_method-IsFailed none m m' e free h =
      let end = ap (λ (x : Result CodeBuffer × Memory N F). x.1) h in
      record {
        infos = λ a. ap (λ (x : Memory N F). x.infos a) (sym end);
        callbacks = inl (ap (λ (x : Memory N F). x.callbacks) (sym end));
      }
  callback_method-IsFailed (some args) m m' e free h =
      let (block, n) = l.closure_alloc m.native in
      let failed = filled_closure-IsFailed args block (record m { native = n }) m' e free h in
      record { infos = failed.infos; callbacks = failed.callbacks }

  -- The finalizer takes away the `callback_info` of its Buffer and leaves the others.
  pub infos-closure_pointer_cb :
      (b : CodeBuffer) (m : Memory N F) (a : Ptr)
      → (closure_pointer_cb l b m).infos a ≡ (if b.hint == a then none else m.infos a)
  unfolding closure_pointer_cb free_info clear_function
  infos-closure_pointer_cb b m a = ground arith

  -- It deletes the `Nan::Callback` of the function.
  pub callbacks-closure_pointer_cb :
      (b : CodeBuffer) (m : Memory N F) (i : CallbackInfo F) (f : F)
      → m.infos b.hint ≡ some i
      → i.function ≡ some f
      → (closure_pointer_cb l b m).callbacks ≡ m.callbacks - 1
  unfolding closure_pointer_cb free_info clear_function
  callbacks-closure_pointer_cb b m i f h e = ground arith
