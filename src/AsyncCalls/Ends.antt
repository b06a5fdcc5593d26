-- ===== src/AsyncCalls/Ends.antt =====
-- The end of asynchronous calls: how many steps are left, and what there is when none is.
use node_ffi.Base.{
  ℕ, zero, suc, ◌+◌, ◌*◌, ◌≤◌, ◌<◌, ◌≡◌, refl, ◌≢◌, inl, inr, Option, none, some, Option-cases,
  List, arith, total, total-set_at, total-beyond, ap, sym, ◌∙◌,
}
use native.Mathlib.Decide.{dec_lt}
use node_ffi.Value.{Ptr}
use node_ffi.AsyncCalls.{
  Request, AsyncCallParams, Outside, ffi_async_error, Stage, absent, queued, worked, calling, gone,
  Pool, ffi_call_async, async_ffi_call, call_back, free_call, Advance, work, tell, finish, advance,
  queue, Reach, fresh, later, Run, done, more,
}
use node_ffi.AsyncCalls.Kept.{
  Fits, not_yet, in_queue, is_back, is_told, is_freed, IsKept, reach-IsKept,
}

-- The steps that a call has before it.
abbrev pub left : Stage → ℕ
left queued = 3
left worked = 2
left calling = 1
left _ = 0

-- Whether a `Nan::Callback` of the call is there.
abbrev pub alive : Stage → ℕ
alive queued = 1
alive worked = 1
alive calling = 1
alive _ = 0

module _ {N : Type 0} (o : Outside N) where
  abbrev pub steps_left : Pool N → ℕ
  steps_left s = total left s.calls s.stage

  begun :
      (s : Pool N) (i : ℕ) {st : Stage} → IsKept o s → s.stage i ≡ st → st ≢ absent → i < s.calls
  begun s i h e ne = elim (dec_lt i s.calls) [
    | yes l ↦ l
    | no l ↦ absurd (ne (sym e ∙ h.beyond i (omega arith)))
  ]

  Advance-steps_left :
      {s t : Pool N} → IsKept o s → Advance o s t → steps_left s ≡ suc (steps_left t)
  unfolding async_ffi_call call_back free_call
  Advance-steps_left {s} h (work i p a m) =
      let l = begun s i h a (λ e. cc e) in
      omega (arith, total-set_at left s.calls i worked s.stage l, ap left a)
  Advance-steps_left {s} h (tell i p b a m) =
      let l = begun s i h a (λ e. cc e) in
      omega (arith, total-set_at left s.calls i calling s.stage l, ap left a)
  Advance-steps_left {s} h (finish i b) =
      let a = h.in_callback i b in
      let l = begun s i h a (λ e. cc e) in
      omega (arith, total-set_at left s.calls i gone s.stage l, ap left a)

  calls-Advance : {s t : Pool N} → Advance o s t → t.calls ≡ s.calls
  unfolding async_ffi_call call_back free_call
  calls-Advance (work i p a m) = refl
  calls-Advance (tell i p b a m) = refl
  calls-Advance (finish i b) = refl

  Advance-callbacks :
      {s t : Pool N}
      → IsKept o s
      → Advance o s t
      → s.callbacks ≡ total alive s.calls s.stage
      → t.callbacks ≡ total alive t.calls t.stage
  unfolding async_ffi_call call_back free_call
  Advance-callbacks {s} h (work i p a m) c =
      let l = begun s i h a (λ e. cc e) in
      omega (arith, c, total-set_at alive s.calls i worked s.stage l, ap alive a)
  Advance-callbacks {s} h (tell i p b a m) c =
      let l = begun s i h a (λ e. cc e) in
      omega (arith, c, total-set_at alive s.calls i calling s.stage l, ap alive a)
  Advance-callbacks {s} h (finish i b) c =
      let a = h.in_callback i b in
      let l = begun s i h a (λ e. cc e) in
      omega (arith, c, total-set_at alive s.calls i gone s.stage l, ap alive a)

  queue-callbacks :
      (r : Option Request) (s : Pool N)
      → s.callbacks ≡ total alive s.calls s.stage
      → let t = (ffi_call_async o r s).1 in t.callbacks ≡ total alive t.calls t.stage
  unfolding ffi_call_async
  queue-callbacks none s c = c
  queue-callbacks (some r) s c =
      ground (arith, c, total-beyond alive s.calls s.calls queued s.stage (omega arith))

  pub reach-callbacks :
      o.ffi_ok ≢ ffi_async_error
      → {n : N} {s : Pool N} → Reach o n s
      → s.callbacks ≡ total alive s.calls s.stage
  reach-callbacks other fresh = refl
  reach-callbacks other (later {s = s} r (queue q)) = queue-callbacks q s (reach-callbacks other r)
  reach-callbacks other (later r (advance a)) =
      Advance-callbacks (reach-IsKept o other r) a (reach-callbacks other r)

  -- Where nothing goes on, a call is over.
  idle-gone :
      (s : Pool N) (i : ℕ) {st : Stage} {m : Option AsyncCallParams} {e : Option (Option Ptr)}
      {t : List (Option Ptr)}
      → IsKept o s
      → ((u : Pool N) → ¬ Advance o s u)
      → i < s.calls
      → Fits o st m e t
      → s.stage i ≡ st
      → s.params i ≡ m
      → s.stage i ≡ gone
  idle-gone s i h stuck l not_yet a k = absurd (h.within i l a)
  idle-gone s i h stuck l (in_queue p r) a k = absurd (stuck _ (work i p a k))
  idle-gone s i h stuck l (is_back p r) a k = elim (Option-cases s.busy) [
    | inl e ↦ absurd (stuck _ (tell i p e a k))
    | inr (j, e) ↦ absurd (stuck _ (finish j e))
  ]
  idle-gone s i h stuck l (is_told p e) a k = absurd (stuck _ (finish i (h.busy i a)))
  idle-gone s i h stuck l (is_freed e) a k = a

  none_alive : (n : ℕ) (f : ℕ → Stage) → ((i : ℕ) → i < n → f i ≡ gone) → total alive n f ≡ 0
  none_alive zero f h = refl
  none_alive (suc n) f h =
      omega (arith, none_alive n f (λ i l. h i (omega (arith, l))), ap alive (h n (omega arith)))

  Run-Reach : {n : N} {s t : Pool N} {k : ℕ} → Reach o n s → Run o s k t → Reach o n t
  Run-Reach r done = r
  Run-Reach r (more q a) = later (Run-Reach r q) (advance a)

  Run-steps_left :
      o.ffi_ok ≢ ffi_async_error
      → {n : N} {s t : Pool N} {k : ℕ} → Reach o n s
      → Run o s k t
      → k + steps_left t ≡ steps_left s
  Run-steps_left other r done = omega arith
  Run-steps_left other r (more q a) =
      let h = reach-IsKept o other (Run-Reach r q) in
      omega (arith, Run-steps_left other r q, Advance-steps_left h a)

  total_le : (n : ℕ) (f : ℕ → Stage) → total left n f ≤ 3 * n
  total_le zero f = omega arith
  total_le (suc n) f = ground (arith, total_le n f)

-- From any state that is reached, the calls that were queued go on for no more than three steps
-- each; and where they cannot go on, each of them is over, and no callback is left undeleted.
-- `FFI_OK` is not the status that the addon gives an error.
pub run-settles :
    {N : Type 0} (o : Outside N)
    → o.ffi_ok ≢ ffi_async_error
    → (n : N) (s t : Pool N) (k : ℕ) → Reach o n s
    → Run o s k t
    → ((u : Pool N) → ¬ Advance o t u)
    → (k ≤ 3 * s.calls) × ((i : ℕ) → i < t.calls → t.stage i ≡ gone) × (t.callbacks ≡ 0)
run-settles o other n s t k r q stuck =
    let end = Run-Reach o r q in
    let h = reach-IsKept o other end in
    let over = λ (i : ℕ) (l : i < t.calls). idle-gone o t i h stuck l (h.fits i) refl refl in
    (
      omega (arith, Run-steps_left o other r q, total_le o s.calls s.stage),
      over,
      reach-callbacks o other end ∙ none_alive o t.calls t.stage over,
    )
