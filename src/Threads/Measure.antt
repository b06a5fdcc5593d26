-- ===== src/Threads/Measure.antt =====
-- How many steps the calls that have begun can take.
use node_ffi.Base.{
  ℕ, zero, suc, ◌+◌, ◌*◌, ◌≤◌, ◌<◌, ◌≡◌, refl, [], ◌∷◌, arith, length, length-append, total,
  total-set_at, total-set_at_le,
}
use native.Mathlib.Decide.{dec_lt}
use node_ffi.Threads.{
  Phase, created, locked, pushed, unlocked, sent, waiting, woken, returned, gone, Watcher, asleep,
  stopped, entering, checking, dispatching, finishing, signalling, unlocking, State, wake,
  CallerMove, push, WatcherMove, signal, Advance, by_caller, by_watcher, Reach, later, advance,
}
use node_ffi.Threads.Invariant.{demand}
use node_ffi.Threads.Order.{IsCounted, Inv, Reach-Inv}

-- The steps ahead of a call, with those of the main thread that it will cause.
abbrev pub ahead : Phase → ℕ
ahead created = 16
ahead locked = 15
ahead pushed = 9
ahead unlocked = 8
ahead sent = 4
ahead waiting = 3
ahead woken = 2
ahead returned = 1
ahead _ = 0

abbrev next : Phase → Phase
next created = locked
next locked = pushed
next pushed = unlocked
next unlocked = sent
next sent = waiting
next woken = returned
next _ = gone

wake-le : (p : Phase) → ahead (wake p) ≤ ahead p
wake-le p = ground arith

abbrev pub to_do : Watcher → ℕ
to_do stopped = 0
to_do asleep = 1
to_do checking = 2
to_do entering = 3
to_do (unlocking i) = 3
to_do (signalling i) = 4
to_do (finishing i) = 5
to_do (dispatching i) = 6

module _ {S : Type 0} where
  abbrev pub work : State S → Watcher → ℕ
  work s m = total ahead s.calls s.phase + 5 * length s.queue + 3 * s.pending + to_do m

  module _ (d : ℕ → S → S) (js : S) where
    pub Caller-begun :
        (i : ℕ) (s : State S) {p : Phase} {t : State S}
        → CallerMove i s p t
        → s.phase i ≡ p
        → IsCounted d js s
        → i < s.calls
    Caller-begun i s push e c = elim (dec_lt i s.calls) [
      | yes h ↦ h
      | no h ↦ ground (arith, c.not_yet i)
    ]
    Caller-begun i s mv e c = elim (dec_lt i s.calls) [
      | yes h ↦ h
      | no h ↦ ground (arith, c.not_yet i)
    ]

    Caller-work :
        (i : ℕ) (s : State S) {p : Phase} {t : State S}
        → CallerMove i s p t
        → s.phase i ≡ p
        → i < s.calls
        → s.pending ≤ 1
        → work t t.watcher < work s s.watcher
    Caller-work i s push e h f =
        ground
          (arith, e, total-set_at ahead s.calls i pushed s.phase h, length-append s.queue (i ∷ []))
    Caller-work i s {p} mv e h f =
        ground (arith, e, total-set_at ahead s.calls i (next p) s.phase h)

    Watcher-work :
        (s : State S) {m : Watcher} {t : State S}
        → WatcherMove d s m t
        → work t t.watcher < work s m
    Watcher-work s (signal {i}) =
        let less =
          total-set_at_le ahead s.calls i (wake (s.phase i)) s.phase (wake-le (s.phase i)) in
        omega (arith, less)
    Watcher-work s mv = ground (arith, demand mv)

    pub Advance-work :
        (s t : State S) → Inv d js s → Advance d s t → work t t.watcher < work s s.watcher
    Advance-work s t inv (by_caller i mv) =
        Caller-work i s mv refl (Caller-begun i s mv refl inv.counting) inv.flag
    Advance-work s t inv (by_watcher mv) = Watcher-work s mv

  -- So many steps of calls that have begun, of either side.
  pub data Run (d : ℕ → S → S) (s : State S) : ℕ → State S → Type 0 where
    none_yet : Run d s 0 s
    more : {n : ℕ} {t u : State S} → Run d s n t → Advance d t u → Run d s (suc n) u

  pub Run-Reach :
      (d : ℕ → S → S) (js : S) {s t : State S} {n : ℕ} → Reach d js s → Run d s n t → Reach d js t
  Run-Reach d js r none_yet = r
  Run-Reach d js r (more run mv) = later (Run-Reach d js r run) (advance mv)

-- Where no further call begins, the threads can take only a bounded number of steps, in whatever
-- order: 16 at most for each call, by its phase, 5 for each call in the queue, 3 if `g_async` was
-- sent, and up to 6 for where the main thread is. The bound falls with each step.
pub run-IsBounded :
    {S : Type 0} (d : ℕ → S → S) (js : S) (s t : State S) (n : ℕ)
    → Reach d js s
    → Run d s n t
    → n + work t t.watcher ≤ work s s.watcher
run-IsBounded d js s t zero r none_yet = omega arith
run-IsBounded d js s t (suc n) r (more {t = u} run mv) =
    let before = run-IsBounded d js s u n r run in
    let step = Advance-work d js u t (Reach-Inv d js (Run-Reach d js r run)) mv in omega arith
