-- ===== src/CallbackInfo/Owned.antt =====
-- Which memory is allocated, and what stands there.
use node_ffi.Base.{
  ℕ, ◌+◌, ◌≡◌, refl, ◌≢◌, Option, none, some, List, [], ◌∷◌, ◌++◌, arith, ◌==◌, ap, sym, subst, ◌∙◌,
  set_at, if◌then◌else◌,
}
use node_ffi.Value.{Ptr, ok}
use node_ffi.CallbackInfo.{
  CallbackInfo, Memory, Libffi, Arguments, CodeBuffer, new_info, callback_method,
  closure_pointer_cb, Event, made, failed, collected, After, fresh, later,
}
use node_ffi.CallbackInfo.Effects.{
  IsFresh, callback_method-IsMade, callback_method-IsFailed, infos-closure_pointer_cb,
  callbacks-closure_pointer_cb,
}

-- How often an address is the hint of a Buffer.
abbrev pub hints : ℕ → List CodeBuffer → ℕ
hints a [] = 0
hints a (b ∷ bs) = (if b.hint == a then 1 else 0) + hints a bs

hints-append : (a : ℕ) (bs cs : List CodeBuffer) → hints a (bs ++ cs) ≡ hints a bs + hints a cs
hints-append a [] cs = omega arith
hints-append a (b ∷ bs) cs = omega (arith, hints-append a bs cs)

-- What is allocated belongs to just one Buffer and has its function; nothing else belongs to one.
abbrev pub IsOwned : {F : Type 0} → Option (CallbackInfo F) → ℕ → Type 0
IsOwned none n = n ≡ 0
IsOwned (some i) n = (n ≡ 1) × (i.function ≢ none)

module _ {N C F : Type 0} (l : Libffi N C) where
  after_made :
      (a h n : ℕ) (i : CallbackInfo F) (f : F) (infos : Ptr → Option (CallbackInfo F))
      → i.function ≡ some f
      → infos h ≡ none
      → IsOwned (infos a) n
      → IsOwned (set_at h (some i) infos a) ((if h == a then 1 else 0) + n)
  after_made a h n i f infos e free o = ground arith

  after_collected :
      (a h n k : ℕ) (o : Option (CallbackInfo F))
      → n ≡ (if h == a then 1 else 0) + k
      → IsOwned o n
      → IsOwned (if h == a then none else o) k
  after_collected a h n k o e w = ground arith

  Event-IsOwned :
      {bs cs : List CodeBuffer} {m m' : Memory N F}
      → Event l bs m cs m'
      → ((a : ℕ) → IsOwned (m.infos a) (hints a bs))
      → (a : ℕ) → IsOwned (m'.infos a) (hints a cs)
  Event-IsOwned {bs} {m = m} (made args b m' free h) o a =
      let i = callback_method-IsMade l args m m' b free h in
      subst (λ (x : Ptr → Option (CallbackInfo F)). IsOwned (x a) (hints a (b ∷ bs))) (sym i.infos)
        (after_made a b.hint (hints a bs) (new_info b.code args) args.callback m.infos refl
          i.free_before (o a))
  Event-IsOwned {bs} {m = m} (failed args e m' free h) o a =
      let i = callback_method-IsFailed l args m m' e free h in
      subst (λ (x : Option (CallbackInfo F)). IsOwned x (hints a bs)) (sym (i.infos a)) (o a)
  Event-IsOwned {bs} {m = m} (collected b before after e) o a =
      let taken : hints a bs ≡ (if b.hint == a then 1 else 0) + hints a (before ++ after) =
        omega
          (arith, ap (hints a) e, hints-append a before (b ∷ after), hints-append a before after) in
      subst (λ (x : Option (CallbackInfo F)). IsOwned x (hints a (before ++ after)))
        (sym (infos-closure_pointer_cb l b m a))
        (after_collected a b.hint (hints a bs) (hints a (before ++ after)) (m.infos a) taken (o a))

-- From a process without closures on, whatever closures are made and collected: what is allocated
-- for closures belongs to exactly one Buffer that has not been collected, no such Buffer
-- lacks its memory, and the function of what is allocated is never NULL.
pub reach-IsOwned :
    {N C F : Type 0} (l : Libffi N C) (start m : Memory N F) (bs : List CodeBuffer) (a : ℕ)
    → ((k : ℕ) → start.infos k ≡ none)
    → After l start bs m
    → IsOwned (m.infos a) (hints a bs)
reach-IsOwned l start m bs a empty fresh = rw (empty a) refl
reach-IsOwned l start m bs a empty (later {bs = cs} {m = m1} r step) =
    Event-IsOwned l step (λ k. reach-IsOwned l start m1 cs k empty r) a

-- A closure that is made, and whose Buffer is collected right after it, leaves memory as it was but
-- for one `Nan::Callback`, that of the error function, which nothing deletes.
pub callback_method-closure_pointer_cb :
    {N C F : Type 0} (l : Libffi N C) (args : Arguments C F) (m m' : Memory N F) (b : CodeBuffer)
    → IsFresh l m
    → callback_method l (some args) m ≡ (ok b, m')
    → ((a : ℕ) → (closure_pointer_cb l b m').infos a ≡ m.infos a)
      × ((closure_pointer_cb l b m').callbacks ≡ m.callbacks + 1)
callback_method-closure_pointer_cb l args m m' b free h =
    let i = callback_method-IsMade l args m m' b free h in
    let at_hint : m'.infos b.hint ≡ some (new_info b.code args) = rw i.infos (ground arith) in
    (
      λ a. infos-closure_pointer_cb l b m' a ∙ rw i.infos (ground (arith, i.free_before)),
      callbacks-closure_pointer_cb l b m' (new_info b.code args) args.callback at_hint refl
          ∙ omega (arith, i.callbacks),
    )
