-- ===== src/Threads/Returns.antt =====
-- Every call on another thread returns.
use node_ffi.Base.{ℕ, zero, suc, ◌<◌, ◌≡◌, refl, ◌≢◌, ◌⊎◌, inl, inr, true, arith, ap, sym, ◌∙◌}
use native.Mathlib.Decide.{dec_lt}
use node_ffi.Threads.{
  Phase, returned, gone, stopped, State, begin, Watcher, CallerMove, push, finish, WatcherMove, pop,
  stop, signal, Advance, by_caller, by_watcher, call, Reach, later,
}
use node_ffi.Threads.Order.{Reach-Inv, Caller-strays, Watcher-strays}
use node_ffi.Threads.Measure.{work, Caller-begun, Advance-work, Run, none_yet, more, Run-Reach}
use node_ffi.Threads.Progress.{reach-goes_on}

gone-cases : (p : Phase) → (p ≡ gone) ⊎ (p ≢ gone)
gone-cases gone = inl refl
gone-cases p = inr λ h. cc h

stopped-cases : (m : Watcher) → (m ≡ stopped) ⊎ (m ≢ stopped)
stopped-cases stopped = inl refl
stopped-cases m = inr λ h. cc h

module _ {S : Type 0} (d : ℕ → S → S) (js : S) where
  Caller-calls :
      {i : ℕ} {s : State S} {p : Phase} {t : State S} → CallerMove i s p t → t.calls ≡ s.calls
  Caller-calls push = refl
  Caller-calls mv = refl

  Watcher-calls :
      {s : State S} {m : Watcher} {t : State S} → WatcherMove d s m t → t.calls ≡ s.calls
  Watcher-calls (pop h) = refl
  Watcher-calls mv = refl

  Advance-calls : {s t : State S} → Advance d s t → t.calls ≡ s.calls
  Advance-calls (by_caller i mv) = Caller-calls mv
  Advance-calls (by_watcher mv) = Watcher-calls mv

  Run-calls : {s t : State S} {n : ℕ} → Run d s n t → t.calls ≡ s.calls
  Run-calls none_yet = refl
  Run-calls (more run mv) = Advance-calls mv ∙ Run-calls run

  Advance-strays : {s t : State S} → Advance d s t → t.strays ≡ s.strays
  Advance-strays (by_caller i mv) = Caller-strays d js mv
  Advance-strays (by_watcher mv) = Watcher-strays d js mv

  Run-strays : {s t : State S} {n : ℕ} → Run d s n t → t.strays ≡ s.strays
  Run-strays none_yet = refl
  Run-strays (more run mv) = Advance-strays mv ∙ Run-strays run

  -- A call that has ended stays so.
  Caller-gone :
      {i : ℕ} {s : State S} {p : Phase} {t : State S}
      → CallerMove i s p t
      → s.phase i ≡ p
      → (j : ℕ) → s.phase j ≡ gone
      → t.phase j ≡ gone
  Caller-gone push e j h = ground (arith, e, h)
  Caller-gone mv e j h = ground (arith, e, h)

  Advance-gone : {s t : State S} → Advance d s t → (j : ℕ) → s.phase j ≡ gone → t.phase j ≡ gone
  Advance-gone (by_caller i mv) j h = Caller-gone mv refl j h
  Advance-gone (by_watcher (signal {i})) j h = ground (arith, h)
  Advance-gone (by_watcher (pop e)) j h = h
  Advance-gone (by_watcher mv) j h = h

  Run-gone : {s t : State S} {n : ℕ} → Run d s n t → (j : ℕ) → s.phase j ≡ gone → t.phase j ≡ gone
  Run-gone none_yet j h = h
  Run-gone (more run mv) j h = Advance-gone mv j (Run-gone run j h)

  -- A call that had begun and not ended, and has ended since.
  pub record HasEnded (s t : State S) : Type 0 where
    pub which : ℕ
    pub begun : which < s.calls
    pub before : s.phase which ≢ gone
    pub after : t.phase which ≡ gone

  -- The event loop is held open and goes on.
  abbrev IsOpen : State S → Type 0
  IsOpen t = (t.held ≡ true) × (t.watcher ≢ stopped)

  Caller-IsOpen :
      {i : ℕ} {s : State S} {p : Phase} {t : State S}
      → CallerMove i s p t
      → IsOpen s
      → IsOpen t ⊎ ((p ≡ returned) × (t.phase i ≡ gone))
  Caller-IsOpen finish o = inr (refl, ground arith)
  Caller-IsOpen push o = inl o
  Caller-IsOpen mv o = inl o

  Watcher-IsOpen :
      {s : State S} {m : Watcher} {t : State S} → WatcherMove d s m t → s.held ≡ true → IsOpen t
  Watcher-IsOpen (stop e) h = absurd (cc (e, h))
  Watcher-IsOpen (pop e) h = (h, λ k. cc k)
  Watcher-IsOpen mv h = (h, λ k. cc k)

  -- While none of the calls has ended, the event loop stays open.
  module _ (s : State S) (r : Reach d js s) (open_at_first : IsOpen s) where
    Advance-IsOpen :
        {t u : State S} {n : ℕ} → Run d s n t → Advance d t u → IsOpen t → IsOpen u ⊎ HasEnded s u
    Advance-IsOpen {t} {u} run (by_caller i mv) o = elim (Caller-IsOpen mv o) [
      | inl k ↦ inl k
      | inr (e, g) ↦ inr (record {
        which = i;
        begun = omega (
          arith,
          Run-calls run,
          Caller-begun d js i t mv refl (Reach-Inv d js (Run-Reach d js r run)).counting,
        );
        before = λ k. let still = Run-gone run i k in cc (still, e);
        after = g;
      })
    ]
    Advance-IsOpen run (by_watcher mv) o = inl (Watcher-IsOpen mv o.0)

    Run-IsOpen : {t : State S} {n : ℕ} → Run d s n t → IsOpen t ⊎ HasEnded s t
    Run-IsOpen none_yet = inl open_at_first
    Run-IsOpen (more run mv) = elim (Run-IsOpen run) [
      | inl o ↦ Advance-IsOpen run mv o
      | inr e ↦ inr (record {
        which = e.which;
        begun = e.begun;
        before = e.before;
        after = Advance-gone mv e.which e.after;
      })
    ]

  -- A call that begins when all others have ended.
  module _ (s : State S) (r : Reach d js s) (quiet : s.strays ≡ 0) (runs : s.watcher ≢ stopped)
      (over : (j : ℕ) → j < s.calls → s.phase j ≡ gone) where
    abbrev start_of : State S
    start_of = begin s

    alone-IsOpen : {t : State S} {n : ℕ} → Run d start_of n t → IsOpen t ⊎ (t.phase s.calls ≡ gone)
    alone-IsOpen {t} run = elim (Run-IsOpen start_of (later r call) (refl, runs) run) [
      | inl o ↦ inl o
      | inr e ↦ elim (dec_lt e.which s.calls) [
        | yes l ↦ absurd (e.before (ground (arith, over e.which l)))
        | no l ↦
            let same : e.which ≡ s.calls = omega (arith, e.begun) in
            inr (ap t.phase (sym same) ∙ e.after)
      ]
    ]

    from_here :
        (k m n : ℕ) (t u : State S)
        → Run d start_of n t
        → Run d t m u
        → work u u.watcher < k
        → (l : ℕ) × (v : State S) × Run d t l v × (v.phase s.calls ≡ gone)
    from_here zero m n t u run run' h = absurd (omega arith)
    from_here (suc k) m n t u run run' h =
        let whole = together run run' in
        elim (alone-IsOpen whole.1) [
          | inr g ↦ (m, u, run', g)
          | inl o ↦ elim (gone-cases (u.phase s.calls)) [
            | inl done ↦ (m, u, run', done)
            | inr on ↦
                let reached = Run-Reach d js (later r call) whole.1 in
                let begun : s.calls < u.calls = omega (arith, Run-calls whole.1) in
                let (v, mv) =
                  reach-goes_on d js u s.calls reached (Run-strays whole.1 ∙ quiet) o.1 begun on in
                let less = Advance-work d js u v (Reach-Inv d js reached) mv in
                from_here k (suc m) n t v run (more run' mv) (omega arith)
          ]
        ]
      where
        together : {s t u : State S} {n m : ℕ} → Run d s n t → Run d t m u → (l : ℕ) × Run d s l u
        together {n = n} a none_yet = (n, a)
        together a (more b mv) = let (l, c) = together a b in (suc l, more c mv)

-- A call on another thread that begins when every earlier call has ended and the event loop has not
-- stopped holds the loop open: whatever steps are taken after it, so long as no other call begins and no
-- wakeup comes without a signal, it has ended or can be brought to its end.
pub reach-returns :
    {S : Type 0} (d : ℕ → S → S) (js : S) (s t : State S) (n : ℕ)
    → Reach d js s
    → s.strays ≡ 0
    → s.watcher ≢ stopped
    → ((j : ℕ) → j < s.calls → s.phase j ≡ gone)
    → Run d (begin s) n t
    → (m : ℕ) × (u : State S) × Run d t m u × (u.phase s.calls ≡ gone)
reach-returns d js s t n r quiet runs over run =
    from_here d js s r quiet runs over (suc (work t t.watcher)) 0 n t t run none_yet (omega arith)

-- After a call on another thread has begun while the event loop has not stopped, and no wakeup came
-- without a signal: where the threads have run until none can take a step but to begin another
-- call, each call that had begun has ended, unless the event loop has stopped; and it stops only after
-- one of these calls has ended, as each lets go of the loop for all of them.
pub run-ends_all :
    {S : Type 0} (d : ℕ → S → S) (js : S) (s t : State S) (n i : ℕ)
    → Reach d js s
    → s.strays ≡ 0
    → s.watcher ≢ stopped
    → Run d (begin s) n t
    → ((u : State S) → Advance d t u → ⊥)
    → i < suc s.calls
    → (t.phase i ≡ gone) ⊎ ((t.watcher ≡ stopped) × HasEnded d js (begin s) t)
run-ends_all d js s t n i r quiet runs run stuck b = elim (gone-cases (t.phase i)) [
  | inl done ↦ inl done
  | inr on ↦
      let start = later r call in
      let begun : i < t.calls = omega (arith, Run-calls d js run) in
      let goes = λ (k : t.watcher ≢ stopped).
        reach-goes_on d js t i (Run-Reach d js start run) (Run-strays d js run ∙ quiet) k begun
          on in
      elim (stopped-cases t.watcher) [
        | inr k ↦ absurd (stuck (goes k).0 (goes k).1)
        | inl e ↦ elim (Run-IsOpen d js (begin s) start (refl, runs) run) [
          | inl o ↦ absurd (o.1 e)
          | inr ended ↦ inr (e, ended)
        ]
      ]
]
