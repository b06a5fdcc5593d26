-- ===== src/Threads/Answers.antt =====
-- The answers that calls on other threads get.
use node_ffi.Base.{
  ℕ, ◌≡◌, refl, ◌≢◌, true, Option, none, some, List, [], ◌∷◌, ◌++◌, arith, ap, ◌∙◌, count,
}
use native.Mathlib.Decide.{ℕ_discrete}
use node_ffi.Value.{Result, ok}
use node_ffi.World.{World}
use node_ffi.World.Bind.{bind-eq-ok, ok-injective}
use node_ffi.Platform.{Platform}
use node_ffi.Callback.{
  Closure, Closures, Outcome, filled, failed, Reason, Dispatched, threw, hand_over, closure_call,
  dispatch_to_v8,
}
use node_ffi.Threads.{State, Reach}
use node_ffi.Threads.Dispatch.{ThreadedCall, dispatch}
use node_ffi.Threads.Order.{dispatch_all, dispatch_all-append, reach-IsOrdered}
use node_ffi.Threads.Alive.{resumed, reach-IsServed}

-- A number that is in a list once, with what is before and behind it.
record Once (i : ℕ) (is : List ℕ) : Type 0 where
  before : List ℕ
  behind : List ℕ
  whole : is ≡ before ++ i ∷ behind
  not_before : count i before ≡ 0
  not_behind : count i behind ≡ 0

split-Once : (i : ℕ) (is : List ℕ) → count i is ≡ 1 → Once i is
split-Once i [] h = absurd (omega (arith, h))
split-Once i (k ∷ is) h = elim (ℕ_discrete k i) [
  | yes same ↦ record {
    before = [];
    behind = is;
    whole = ap (λ (x : ℕ). x ∷ is) same;
    not_before = refl;
    not_behind = ground (arith, h);
  }
  | no other ↦
      let o = split-Once i is (ground (arith, h)) in
      record {
        before = k ∷ o.before;
        behind = o.behind;
        whole = ap (λ (xs : List ℕ). k ∷ xs) o.whole;
        not_before = ground (arith, o.not_before);
        not_behind = o.not_behind;
      }
]

module _ (p : Platform) (c : Closures p) where
  open p use {Buf, Native}

  handed-not_thrown : (o : Outcome Buf) (x : Reason) → hand_over p c true o ≢ threw x
  unfolding hand_over
  handed-not_thrown (filled b) x = λ h. cc h
  handed-not_thrown (failed e) x = ground arith

  dispatched-not_thrown :
      (cl : Option Closure) (retval params : Buf) (x : Reason) (w w' : World Native)
      → dispatch_to_v8 p c cl retval params true w ≢ (ok (threw x), w')
  unfolding dispatch_to_v8
  dispatched-not_thrown none retval params x w w' = λ h. cc h
  dispatched-not_thrown (some cl) retval params x w w' = λ h.
      let s = bind-eq-ok (closure_call p c cl retval params) _ w h in
      handed-not_thrown s.value x
        (ok-injective (ap (λ (y : Result (Dispatched Buf) × World Native). y.0) s.second))

  module _ (calls : ℕ → ThreadedCall Buf) where
    -- `DispatchToV8` was run for the call once: on the state that the calls before it left, and the
    -- calls behind it went on from the state that it left; and it threw nothing.
    pub record IsAnswered (i : ℕ) (is : List ℕ) (start w : World Native) : Type 0 where
      pub before : List ℕ
      pub behind : List ℕ
      pub after : World Native
      pub answer : Result (Dispatched Buf)
      pub whole : is ≡ before ++ i ∷ behind
      pub not_before : count i before ≡ 0
      pub not_behind : count i behind ≡ 0
      pub ran :
          dispatch_to_v8 p c
            (calls i).closure
            (calls i).retval
            (calls i).params
            true
            (dispatch_all (dispatch p c calls) start before)
          ≡ (answer, after)
      pub went_on : w ≡ dispatch_all (dispatch p c calls) after behind
      pub not_thrown : (x : Reason) → answer ≢ ok (threw x)

    Once-IsAnswered :
        (i : ℕ) (is : List ℕ) (start w : World Native)
        → w ≡ dispatch_all (dispatch p c calls) start is
        → Once i is
        → IsAnswered i is start w
    unfolding dispatch
    Once-IsAnswered i is start w e o =
        let inv = calls i in
        let v = dispatch_all (dispatch p c calls) start o.before in
        let run = dispatch_to_v8 p c inv.closure inv.retval inv.params true v in
        record {
          before = o.before;
          behind = o.behind;
          after = run.1;
          answer = run.0;
          whole = o.whole;
          not_before = o.not_before;
          not_behind = o.not_behind;
          ran = refl;
          went_on =
              e
              ∙ (ap (dispatch_all (dispatch p c calls) start) o.whole
                  ∙ dispatch_all-append (dispatch p c calls) start o.before (i ∷ o.behind));
          not_thrown = λ x h.
              dispatched-not_thrown inv.closure inv.retval inv.params x v run.1 (λ j. (h j, run.1));
        }

-- Where no wakeup without a signal has come: for a call on another thread that is past its wait,
-- `DispatchToV8` was run exactly once, for its function and its Buffers; it ran on the state of
-- JavaScript that the calls dispatched before it left, in their order, those dispatched after it
-- went on from the state that it left; and it threw nothing to the code that called from C.
pub reach-IsAnswered :
    (p : Platform) (c : Closures p) (calls : ℕ → ThreadedCall p.Buf) (start : World p.Native)
    (s : State (World p.Native)) (i : ℕ)
    → Reach (dispatch p c calls) start s
    → s.strays ≡ 0
    → resumed (s.phase i) ≡ true
    → IsAnswered p c calls i s.dispatched start s.js
reach-IsAnswered p c calls start s i r quiet h =
    let once = (reach-IsServed (dispatch p c calls) start s i r quiet h).0 in
    Once-IsAnswered p c calls i s.dispatched start s.js
      (reach-IsOrdered (dispatch p c calls) start s r).done (split-Once i s.dispatched once)
