-- ===== src/Tests/Threads.antt =====
-- Two calls on other threads, at a point where the first has been answered.
use node_ffi.Base.{
  some, suc, ℕ, ◌+◌, ◌≤◌, ◌≡◌, ◌≢◌, ◌⊎◌, inl, inr, refl, true, List, [], ◌∷◌, ◌++◌, arith, count,
}
use node_ffi.Threads.{
  Phase, absent, waiting, gone, Watcher, checking, State, begin, initial, CallerMove, WatcherMove,
  leave, lock_queue, push, unlock_queue, send, wait, resume, finish, start, enter, pop,
  dispatch_one, lock_one, signal, unlock_one, Advance, by_caller, by_watcher, call, advance, stray,
  stop, stopped, Reach, fresh, later,
}
use node_ffi.Threads.Counts.{at}
use node_ffi.Threads.Order.{IsOrdered, reach-IsOrdered}
use node_ffi.Threads.Alive.{lives, reach-IsServed, reach-IsAlive}
use node_ffi.Threads.Measure.{work, Run, none_yet, more, Run-Reach, run-IsBounded}
use node_ffi.Threads.Progress.{reach-goes_on}
use node_ffi.Threads.Returns.{HasEnded, reach-returns, run-ends_all}
use node_ffi.Value.{ok}
use node_ffi.World.{World}
use node_ffi.Callback.{
  returned, read_args, serve, to_outcome, closure_call, hand_over, dispatch_to_v8,
}
use node_ffi.Threads.Dispatch.{ThreadedCall, dispatch}
use node_ffi.Threads.Answers.{IsAnswered, reach-IsAnswered}
use node_ffi.Tests.Toy.{ToyBuf, Process, toy_write, toy}
use node_ffi.Tests.Callbacks.{closures, closure_of, called, params, retval}

-- The functions note who called.
abbrev note : ℕ → List ℕ → List ℕ
note i js = js ++ i ∷ []

module _ {S : Type 0} (d : ℕ → S → S) where
  infixl 5 ◌▸◌
  abbrev ◌▸◌ : {s t u : State S} {n : ℕ} → Run d s n t → Advance d t u → Run d s (suc n) u
  run ▸ mv = more run mv

  -- Call 0 has pushed, and call 1 has begun.
  abbrev pushing : (js : S) → (s : State S) × Reach d js s
  pushing js =
      let begun = later (later fresh call) call in
      let locked = later begun (advance (by_caller 0 (lock_queue refl))) in
      (_, later (later locked (advance (by_caller 0 push))) (advance (by_caller 0 unlock_queue)))

  -- The steps up to the point where call 0 goes on.
  abbrev answering : (js : S) → (n : ℕ) × (s : State S) × Run d (pushing js).0 n s
  answering js = (
    _,
    _,
    none_yet
        ▸ by_caller 0 send
        ▸ by_watcher (start refl)
        ▸ by_caller 1 (lock_queue refl)
        ▸ by_caller 1 push
        ▸ by_caller 1 unlock_queue
        ▸ by_watcher (enter refl)
        ▸ by_watcher (pop refl)
        ▸ by_watcher dispatch_one
        ▸ by_caller 1 send
        ▸ by_caller 0 wait
        ▸ by_watcher (lock_one refl)
        ▸ by_watcher signal
        ▸ by_watcher unlock_one
        ▸ by_caller 0 (resume refl)
        ▸ by_caller 1 wait,
  )

  answering-Reach : (js : S) → Reach d js (answering js).1
  answering-Reach js = Run-Reach d js (pushing js).1 (answering js).2

  -- One call, from its begin to its end.
  abbrev ending : (js : S) → (n : ℕ) × (s : State S) × Run d (begin (initial js)) n s
  ending js = (
    _,
    _,
    none_yet
        ▸ by_caller 0 (lock_queue refl)
        ▸ by_caller 0 push
        ▸ by_caller 0 unlock_queue
        ▸ by_caller 0 send
        ▸ by_caller 0 wait
        ▸ by_watcher (start refl)
        ▸ by_watcher (enter refl)
        ▸ by_watcher (pop refl)
        ▸ by_watcher dispatch_one
        ▸ by_watcher (lock_one refl)
        ▸ by_watcher signal
        ▸ by_watcher unlock_one
        ▸ by_watcher (leave refl)
        ▸ by_caller 0 (resume refl)
        ▸ by_caller 0 finish,
  )

  -- Call 0 has been answered and resumes; call 1 begins and waits; the end of call 0 lets go of the
  -- event loop, which stops and leaves call 1 in the queue.
  abbrev resumed_one : (js : S) → (n : ℕ) × (s : State S) × Run d (begin (initial js)) n s
  resumed_one js = (
    _,
    _,
    none_yet
        ▸ by_caller 0 (lock_queue refl)
        ▸ by_caller 0 push
        ▸ by_caller 0 unlock_queue
        ▸ by_caller 0 send
        ▸ by_caller 0 wait
        ▸ by_watcher (start refl)
        ▸ by_watcher (enter refl)
        ▸ by_watcher (pop refl)
        ▸ by_watcher dispatch_one
        ▸ by_watcher (lock_one refl)
        ▸ by_watcher signal
        ▸ by_watcher unlock_one
        ▸ by_watcher (leave refl)
        ▸ by_caller 0 (resume refl),
  )

  abbrev deserted : (js : S) → (n : ℕ) × (s : State S) × Run d (begin (resumed_one js).1) n s
  deserted js = (
    _,
    _,
    none_yet
        ▸ by_caller 1 (lock_queue refl)
        ▸ by_caller 1 push
        ▸ by_caller 1 unlock_queue
        ▸ by_caller 1 send
        ▸ by_caller 1 wait
        ▸ by_caller 0 finish
        ▸ by_watcher (stop refl),
  )

abbrev answered : State (List ℕ)
answered = (answering note []).1

answered-Reach : Reach note [] answered
answered-Reach = answering-Reach note []

answered_in_order :
    (answered.entered ≡ 0 ∷ 1 ∷ []) × (answered.js ≡ 0 ∷ []) × IsOrdered note [] answered checking
answered_in_order = (refl, refl, reach-IsOrdered note [] answered answered-Reach)

reach-IsServed_example :
    (count 0 answered.dispatched ≡ 1) × (count 0 answered.queue ≡ 0) × (at answered.watcher 0 ≡ 0)
reach-IsServed_example = reach-IsServed note [] answered 0 answered-Reach refl refl

reach-IsAlive_example :
    (lives (answered.phase 1) ≡ true) × (count 1 answered.queue + at answered.watcher 1 ≡ 1)
reach-IsAlive_example = reach-IsAlive note [] answered 1 answered-Reach refl (omega arith)

-- Call 0 is about to push.
abbrev locked_one : (s : State (List ℕ)) × Reach note [] s
locked_one = (_, later (later (later fresh call) call) (advance (by_caller 0 (lock_queue refl))))

abbrev pushed_one : State (List ℕ)
pushed_one = (pushing note []).0

run-IsBounded_example : 15 + work answered answered.watcher ≤ work pushed_one pushed_one.watcher
run-IsBounded_example =
    run-IsBounded note [] pushed_one answered 15 (pushing note []).1 (answering note []).2

one_goes_on : (t : State (List ℕ)) × Advance note answered t
one_goes_on =
    reach-goes_on note [] answered 1 answered-Reach refl (λ k. cc k) (omega arith) λ h. cc h

abbrev alone : State (List ℕ)
alone = begin (initial [])

-- The first steps of the call.
abbrev locked_alone : (s : State (List ℕ)) × Run note alone 1 s
locked_alone = (_, more none_yet (by_caller 0 (lock_queue refl)))

reach-returns_example :
    (m : ℕ) × (u : State (List ℕ)) × Run note locked_alone.0 m u × (u.phase 0 ≡ gone)
reach-returns_example =
    reach-returns note [] (initial []) locked_alone.0 1 fresh refl (λ k. cc k)
      (λ j l. absurd (omega (arith, l))) locked_alone.1

abbrev ended : (n : ℕ) × (s : State (List ℕ)) × Run note alone n s
ended = ending note []

-- Then the event loop, which nothing holds any more, stops.
abbrev over : (s : State (List ℕ)) × Run note alone 16 s
over = (_, more ended.2 (by_watcher (stop refl)))

no_caller :
    {i : ℕ} {s t : State (List ℕ)} {p : Phase} → CallerMove i s p t → (p ≢ gone) × (p ≢ absent)
no_caller push = (λ e. cc e, λ e. cc e)
no_caller mv = (λ e. cc e, λ e. cc e)

no_watcher : {s t : State (List ℕ)} {m : Watcher} → WatcherMove note s m t → m ≢ stopped
no_watcher (pop h) = λ k. cc k
no_watcher mv = λ k. cc k

ended_phase : (i : ℕ) → (over.0.phase i ≡ gone) ⊎ (over.0.phase i ≡ absent)
ended_phase i = ground arith

ended_stuck : (u : State (List ℕ)) → Advance note over.0 u → ⊥
ended_stuck u (by_caller i mv) = elim (ended_phase i) [
  | inl e ↦ (no_caller mv).0 e
  | inr e ↦ (no_caller mv).1 e
]
ended_stuck u (by_watcher mv) = no_watcher mv refl

run-ends_all_example :
    (over.0.phase 0 ≡ gone) ⊎ ((over.0.watcher ≡ stopped) × HasEnded note [] alone over.0)
run-ends_all_example =
    run-ends_all note [] (initial []) over.0 16 0 fresh refl (λ k. cc k) over.1 ended_stuck
      (omega arith)

-- The event loop stops and leaves call 1 in the queue.
abbrev left_alone : State (List ℕ)
left_alone = (deserted note []).1

left_alone-Reach : Reach note [] left_alone
left_alone-Reach =
    Run-Reach note [] (later (Run-Reach note [] (later fresh call) (resumed_one note []).2) call)
      (deserted note []).2

left_alone-queue :
    (left_alone.watcher ≡ stopped) × (left_alone.phase 1 ≡ waiting) × (left_alone.queue ≡ 1 ∷ [])
left_alone-queue = (refl, refl, refl)

-- Both calls are of the function that adds its arguments.
abbrev adding : ℕ → ThreadedCall ToyBuf
adding i = record { closure = some (closure_of 1); retval = retval; params = params }

abbrev added : State (World Process)
added = (answering (dispatch toy closures adding) called).1

reach-IsAnswered_example : IsAnswered toy closures adding 0 (0 ∷ []) called added.js
reach-IsAnswered_example =
    reach-IsAnswered toy closures adding called added 0
      (answering-Reach (dispatch toy closures adding) called) refl refl

-- The answer is the Buffer with the sum.
added_answer :
    (dispatch_to_v8 toy closures (some (closure_of 1)) retval params true called).0
    ≡ ok (returned (toy_write retval 5 0))
unfolding read_args serve to_outcome closure_call hand_over dispatch_to_v8
added_answer = refl

-- A wakeup without a signal: the call goes on, and its invocation is deleted while it is in the queue.
abbrev waiting_one : (s : State (List ℕ)) × Reach note [] s
waiting_one =
    let locked = later (later fresh call) (advance (by_caller 0 (lock_queue refl))) in
    let unlocked =
      later (later locked (advance (by_caller 0 push))) (advance (by_caller 0 unlock_queue)) in
    (_, later (later unlocked (advance (by_caller 0 send))) (advance (by_caller 0 wait)))

abbrev stray_one : (s : State (List ℕ)) × Reach note [] s
stray_one =
    let strayed = later waiting_one.1 (stray 0 refl) in
    (_, later (later strayed (advance (by_caller 0 (resume refl)))) (advance (by_caller 0 finish)))

stray-queue : (stray_one.0.phase 0 ≡ gone) × (stray_one.0.queue ≡ 0 ∷ [])
stray-queue = (refl, refl)
