-- ===== src/Threads/Progress.antt =====
-- No deadlock: a call that has begun comes to its end.
use node_ffi.Base.{
  ℕ, ◌<◌, ◌≡◌, refl, ◌≢◌, Bool, true, false, Option, none, some, List, [], ◌∷◌, arith, sym, subst,
}
use native.Mathlib.Decide.{ℕ_discrete}
use node_ffi.Threads.{
  Phase, absent, created, locked, pushed, unlocked, sent, waiting, woken, returned, gone, Watcher,
  asleep, stopped, entering, checking, dispatching, finishing, signalling, unlocking, Party,
  main_thread, caller, State, CallerMove, lock_queue, push, unlock_queue, send, wait, resume,
  finish, WatcherMove, start, enter, leave, pop, dispatch_one, lock_one, signal, unlock_one,
  Advance, by_caller, by_watcher, Reach,
}
use node_ffi.Threads.Invariant.{IsFine}
use node_ffi.Threads.Counts.{watches}
use node_ffi.Threads.Order.{Inv, Reach-Inv}

-- The next step of a call in this phase waits for nothing.
abbrev goes_on : Phase → Bool
goes_on locked = true
goes_on pushed = true
goes_on unlocked = true
goes_on sent = true
goes_on returned = true
goes_on _ = false

module _ {S : Type 0} (d : ℕ → S → S) (js : S) (s : State S) (inv : Inv d js s)
    (quiet : s.strays ≡ 0) where
  -- Some thread can take a step.
  abbrev Can : Type 0
  Can = (t : State S) × Advance d s t

  from_caller : (i : ℕ) (p : Phase) {t : State S} → s.phase i ≡ p → CallerMove i s p t → Can
  from_caller i p {t} e mv = (t, by_caller i (subst (λ q. CallerMove i s q t) (sym e) mv))

  from_watcher : (m : Watcher) {t : State S} → s.watcher ≡ m → WatcherMove d s m t → Can
  from_watcher m {t} e mv = (t, by_watcher (subst (λ n. WatcherMove d s n t) (sym e) mv))

  goes_on-Can : (i : ℕ) (p : Phase) → s.phase i ≡ p → goes_on p ≡ true → Can
  goes_on-Can i locked e h = from_caller i locked e push
  goes_on-Can i pushed e h = from_caller i pushed e unlock_queue
  goes_on-Can i unlocked e h = from_caller i unlocked e send
  goes_on-Can i sent e h = from_caller i sent e wait
  goes_on-Can i returned e h = from_caller i returned e finish
  goes_on-Can i p e h = cc h

  Inv-IsFine : (m : Watcher) → s.watcher ≡ m → (i : ℕ) → IsFine s m (s.phase i) i
  Inv-IsFine m e i = subst (λ n. IsFine s n (s.phase i) i) e (inv.fine quiet i)

  -- Where the main thread does not hold the mutex of the queue, the mutex is free or its holder goes on.
  queue_free :
      (m : Watcher)
      → s.watcher ≡ m
      → watches m ≡ 0
      → (q : Option Party) → s.queue_mutex ≡ q
      → (s.queue_mutex ≡ none → Can)
      → Can
  queue_free m e out none h f = f h
  queue_free m e out (some main_thread) h f =
      let g = Inv-IsFine m e 0 in let no : ◌≡◌ {A = ℕ} 0 1 = ground (arith, g.watched) in cc no
  queue_free m e out (some (caller i)) h f =
      let g = Inv-IsFine m e i in goes_on-Can i (s.phase i) refl (ground (arith, g.guarded))

  checking-Can : s.watcher ≡ checking → (q : List ℕ) → s.queue ≡ q → Can
  checking-Can e [] h = from_watcher checking e (leave h)
  checking-Can e (i ∷ is) h = from_watcher checking e (pop h)

  -- The main thread waits for the mutex of an invocation, whose call goes on.
  finishing-Can : (i : ℕ) → s.watcher ≡ finishing i → Can
  finishing-Can i e = elim (ℕ_discrete (s.mutex i) 0) [
    | yes free ↦ from_watcher (finishing i) e (lock_one free)
    | no taken ↦
        let f = Inv-IsFine (finishing i) e i in
        goes_on-Can i (s.phase i) refl
          (ground (arith, f.mutexed, f.placed, f.guarded, f.watched, f.wakened))
  ]

  -- The event loop is not in `WatcherCallback`, and `g_async` was not sent.
  idle-Can :
      s.watcher ≡ asleep
      → s.pending ≢ 1
      → (i : ℕ) → i < s.calls
      → (p : Phase) → s.phase i ≡ p
      → p ≢ gone
      → Can
  idle-Can e h i b absent k on = absurd (inv.counting.already i b k)
  idle-Can e h i b created k on =
      queue_free asleep e refl s.queue_mutex refl λ free. from_caller i created k (lock_queue free)
  idle-Can e h i b waiting k on =
      let f = Inv-IsFine asleep e i in
      let no : ◌≡◌ {A = ℕ} 0 1 = ground (arith, f.placed, f.sending, inv.flag) in cc no
  idle-Can e h i b woken k on =
      let f = Inv-IsFine asleep e i in from_caller i woken k (resume (ground (arith, f.mutexed)))
  idle-Can e h i b gone k on = absurd (on refl)
  idle-Can e h i b p k on = goes_on-Can i p k refl

  any-Can :
      (m : Watcher) → s.watcher ≡ m → m ≢ stopped → (i : ℕ) → i < s.calls → s.phase i ≢ gone → Can
  any-Can stopped e run i b on = absurd (run refl)
  any-Can asleep e run i b on = elim (ℕ_discrete s.pending 1) [
    | yes h ↦ from_watcher asleep e (start h)
    | no h ↦ idle-Can e h i b (s.phase i) refl on
  ]
  any-Can entering e run i b on =
      queue_free entering e refl s.queue_mutex refl λ free. from_watcher entering e (enter free)
  any-Can checking e run i b on = checking-Can e s.queue refl
  any-Can (dispatching k) e run i b on = from_watcher (dispatching k) e dispatch_one
  any-Can (finishing k) e run i b on = finishing-Can k e
  any-Can (signalling k) e run i b on = from_watcher (signalling k) e signal
  any-Can (unlocking k) e run i b on = from_watcher (unlocking k) e unlock_one

-- No deadlock, and no signal is lost: while a call on another thread has begun and not ended, the
-- event loop has not stopped, and no call was woken without a signal, some step other than the begin
-- of a call is possible.
pub reach-goes_on :
    {S : Type 0} (d : ℕ → S → S) (js : S) (s : State S) (i : ℕ)
    → Reach d js s
    → s.strays ≡ 0
    → s.watcher ≢ stopped
    → i < s.calls
    → s.phase i ≢ gone
    → (t : State S) × Advance d s t
reach-goes_on d js s i r quiet runs b on =
    any-Can d js s (Reach-Inv d js r) quiet s.watcher refl runs i b on
