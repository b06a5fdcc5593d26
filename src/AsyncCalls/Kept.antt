-- ===== src/AsyncCalls/Kept.antt =====
-- What the memory and the callback of an asynchronous call are at each stage.
use node_ffi.Base.{
  ℕ, ◌≤◌, ◌<◌, ◌≡◌, refl, ◌≢◌, Bool-cases, inl, inr, Option, none, some, List, [], ◌∷◌, ◌++◌, arith,
  ◌==◌, ap, sym, subst, ◌∙◌,
}
use node_ffi.Value.{Ptr}
use node_ffi.AsyncCalls.{
  Request, AsyncCallParams, Outside, ffi_async_error, Stage, absent, queued, worked, calling, gone,
  Pool, caught, new_params, ffi_call_async, async_ffi_call, error_argument, call_back, free_call,
  Advance, queue, advance, work, tell, finish, Reach, fresh, later,
}

module _ {N : Type 0} (o : Outside N) where
  -- The stage of a call, its memory, how the function ended, and what the callback was told.
  pub data Fits
      : Stage → Option AsyncCallParams → Option (Option Ptr) → List (Option Ptr) → Type 0 where
    not_yet : Fits absent none none []
    in_queue : (p : AsyncCallParams) → p.result ≡ o.ffi_ok → Fits queued (some p) none []
    is_back :
        (p : AsyncCallParams) {e : Option Ptr}
        → e ≡ error_argument o p
        → Fits worked (some p) (some e) []
    is_told : (p : AsyncCallParams) (e : Option Ptr) → Fits calling (some p) (some e) (e ∷ [])
    is_freed : (e : Option Ptr) → Fits gone none (some e) (e ∷ [])

  absent-queued :
      {st : Stage} {m : Option AsyncCallParams} {e : Option (Option Ptr)} {t : List (Option Ptr)}
      (p : AsyncCallParams)
      → p.result ≡ o.ffi_ok
      → Fits st m e t
      → st ≡ absent
      → Fits queued (some p) e t
  absent-queued p r not_yet h = in_queue p r
  absent-queued p r (in_queue _ _) h = cc h
  absent-queued p r (is_back _ _) h = cc h
  absent-queued p r (is_told _ _) h = cc h
  absent-queued p r (is_freed _) h = cc h

  -- An error is told by its status, which is not that of success.
  error_argument-caught :
      o.ffi_ok ≢ ffi_async_error
      → (p : AsyncCallParams) (ex : Option Ptr) → p.result ≡ o.ffi_ok
      → ex ≡ error_argument o (caught ex p)
  error_argument-caught other p none r = ground (arith, r)
  error_argument-caught other p (some ex) r = ground (arith, other)

  queued-worked :
      o.ffi_ok ≢ ffi_async_error
      → {st : Stage} {m : Option AsyncCallParams} {e : Option (Option Ptr)} {t : List (Option Ptr)}
        (p : AsyncCallParams) (ex : Option Ptr)
      → Fits st m e t
      → st ≡ queued
      → m ≡ some p
      → Fits worked (some (caught ex p)) (some ex) t
  queued-worked other p ex (in_queue q r) h k =
      let same : q ≡ p = cc k in
      is_back (caught ex p)
        (error_argument-caught other p ex (ap (λ (x : AsyncCallParams). x.result) (sym same) ∙ r))
  queued-worked other p ex not_yet h k = cc h
  queued-worked other p ex (is_back _ _) h k = cc h
  queued-worked other p ex (is_told _ _) h k = cc h
  queued-worked other p ex (is_freed _) h k = cc h

  worked-calling :
      {st : Stage} {m : Option AsyncCallParams} {e : Option (Option Ptr)} {t : List (Option Ptr)}
      (p : AsyncCallParams)
      → Fits st m e t
      → st ≡ worked
      → m ≡ some p
      → Fits calling m e (t ++ error_argument o p ∷ [])
  worked-calling p (is_back q {e} r) h k =
      let same : q ≡ p = cc k in
      subst (λ (x : Option Ptr). Fits calling (some q) (some e) (x ∷ []))
        (r ∙ ap (λ (x : AsyncCallParams). error_argument o x) same) (is_told q e)
  worked-calling p not_yet h k = cc h
  worked-calling p (in_queue _ _) h k = cc h
  worked-calling p (is_told _ _) h k = cc h
  worked-calling p (is_freed _) h k = cc h

  calling-gone :
      {st : Stage} {m : Option AsyncCallParams} {e : Option (Option Ptr)} {t : List (Option Ptr)}
      → Fits st m e t
      → st ≡ calling
      → Fits gone none e t
  calling-gone (is_told p e) h = is_freed e
  calling-gone not_yet h = cc h
  calling-gone (in_queue _ _) h = cc h
  calling-gone (is_back _ _) h = cc h
  calling-gone (is_freed _) h = cc h

  -- What holds of all calls, and which of them is in its callback.
  pub record IsKept (s : Pool N) : Type 0 where
    pub fits : (k : ℕ) → Fits (s.stage k) (s.params k) (s.ended k) (s.told k)
    pub beyond : (k : ℕ) → s.calls ≤ k → s.stage k ≡ absent
    pub in_callback : (k : ℕ) → s.busy ≡ some k → s.stage k ≡ calling
    pub busy : (k : ℕ) → s.stage k ≡ calling → s.busy ≡ some k
    pub within : (k : ℕ) → k < s.calls → s.stage k ≢ absent

  queue-IsKept : (r : Option Request) (s : Pool N) → IsKept s → IsKept (ffi_call_async o r s).1
  unfolding ffi_call_async
  queue-IsKept none s h = h
  queue-IsKept (some r) s h = record {
    fits = λ k. elim (Bool-cases (s.calls == k)) [
      | inl e ↦
          rw e (absent-queued (new_params o r) refl (h.fits k) (h.beyond k (ground (arith, e))))
      | inr e ↦ rw e (h.fits k)
    ];
    beyond = λ k l. ground (arith, h.beyond k);
    in_callback = λ k b. ground (arith, h.in_callback k b, h.beyond k);
    busy = λ k c. h.busy k (ground (arith, c));
    within = λ k l e. ground (arith, h.within k, e);
  }

  work-IsKept :
      o.ffi_ok ≢ ffi_async_error
      → (i : ℕ) (p : AsyncCallParams) (s : Pool N) → s.stage i ≡ queued
      → s.params i ≡ some p
      → IsKept s
      → IsKept (async_ffi_call o i p s)
  unfolding async_ffi_call
  work-IsKept other i p s a m h = record {
    fits = λ k. elim (Bool-cases (i == k)) [
      | inl e ↦
          let same : k ≡ i = ground (arith, e) in
          rw e (
            queued-worked other p (o.ffi_call p.cif p.fn p.res p.argv s.native).0 (h.fits k)
              (ap s.stage same ∙ a) (ap s.params same ∙ m))
      | inr e ↦ rw e (h.fits k)
    ];
    beyond = λ k l. ground (arith, h.beyond k l, a);
    in_callback = λ k b. ground (arith, h.in_callback k b, a);
    busy = λ k c. h.busy k (ground (arith, c));
    within = λ k l e. ground (arith, h.within k l, e);
  }

  begin-IsKept :
      (i : ℕ) (p : AsyncCallParams) (s : Pool N)
      → s.busy ≡ none
      → s.stage i ≡ worked
      → s.params i ≡ some p
      → IsKept s
      → IsKept (call_back o i p s)
  unfolding call_back
  begin-IsKept i p s idle a m h = record {
    fits = λ k. elim (Bool-cases (i == k)) [
      | inl e ↦
          let same : i ≡ k = ground (arith, e) in
          rw e (
            subst
              (λ (j : ℕ).
                Fits calling (s.params j) (s.ended j) (s.told i ++ error_argument o p ∷ []))
              same (worked-calling p (h.fits i) a m))
      | inr e ↦ rw e (h.fits k)
    ];
    beyond = λ k l. ground (arith, h.beyond k l, a);
    in_callback = λ k b. ground (arith, b);
    busy = λ k c. ground (arith, c, h.busy k, idle);
    within = λ k l e. ground (arith, h.within k l, e);
  }

  finish-IsKept : (i : ℕ) (s : Pool N) → s.busy ≡ some i → IsKept s → IsKept (free_call o i s)
  unfolding free_call
  finish-IsKept i s b h = record {
    fits = λ k. elim (Bool-cases (i == k)) [
      | inl e ↦
          let same : k ≡ i = ground (arith, e) in
          rw e (calling-gone (h.fits k) (ap s.stage same ∙ h.in_callback i b))
      | inr e ↦ rw e (h.fits k)
    ];
    beyond = λ k l. ground (arith, h.beyond k l, h.in_callback i b);
    in_callback = λ k c. cc c;
    busy = λ k c. ground (arith, c, h.busy k, b);
    within = λ k l e. ground (arith, h.within k l, e);
  }

  Advance-IsKept : o.ffi_ok ≢ ffi_async_error → {s t : Pool N} → Advance o s t → IsKept s → IsKept t
  Advance-IsKept other {s} (work i p a m) h = work-IsKept other i p s a m h
  Advance-IsKept other {s} (tell i p b a m) h = begin-IsKept i p s b a m h
  Advance-IsKept other {s} (finish i b) h = finish-IsKept i s b h

  pub reach-IsKept : o.ffi_ok ≢ ffi_async_error → {n : N} {s : Pool N} → Reach o n s → IsKept s
  reach-IsKept other fresh = record {
    fits = λ k. not_yet;
    beyond = λ k l. refl;
    in_callback = λ k b. cc b;
    busy = λ k c. cc c;
    within = λ k l e. omega (arith, l);
  }
  reach-IsKept other (later {s = s} r (queue q)) = queue-IsKept q s (reach-IsKept other r)
  reach-IsKept other (later r (advance a)) = Advance-IsKept other a (reach-IsKept other r)

-- Whatever the order in which calls are queued, run and finished: the memory of a call is allocated
-- from when it is queued until its callback has returned; the callback is called once, after the
-- function, with null where it returned and with its error where one ended it; and nothing of a
-- call that is over is allocated. `FFI_OK` is not the status that the addon gives an error.
pub reach-Fits :
    {N : Type 0} (o : Outside N)
    → o.ffi_ok ≢ ffi_async_error
    → (n : N) (s : Pool N) → Reach o n s
    → (i : ℕ) → Fits o (s.stage i) (s.params i) (s.ended i) (s.told i)
reach-Fits o other n s r = (reach-IsKept o other r).fits
