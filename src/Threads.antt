-- ===== src/Threads.antt =====
-- src/callback_info.cc and src/threaded_callback_invokation.cc: a C function of `Callback()` that is
-- called on another thread waits until the event loop has run it.
pub mod Counts
pub mod Invariant
pub mod Order
pub mod Exclusive
pub mod Alive
pub mod Measure
pub mod Progress
pub mod Returns
pub mod Dispatch
pub mod Answers
use node_ffi.Base.{ℕ, suc, ◌≡◌, Bool, true, false, Option, none, some, List, [], ◌∷◌, ◌++◌, set_at}

-- Where a call of `Invoke` on another thread stands. The calls are numbered in the order in which
-- they begin; `absent` is a call that has not begun.
pub data Phase : Type 0 where
  absent created locked pushed unlocked sent waiting woken returned gone : Phase

-- Where the main thread stands in `WatcherCallback`, which the event loop calls when it is `asleep`;
-- `stopped` is that the event loop has come to its end.
pub data Watcher : Type 0 where
  asleep entering checking stopped : Watcher
  dispatching finishing signalling unlocking : ℕ → Watcher

pub data Party : Type 0 where
  main_thread : Party
  caller : ℕ → Party

-- `queue` is `g_queue`, the front first, `queue_mutex` the holder of `g_queue_mutex`, and `pending`
-- that `g_async` was sent and its callback has not begun. `mutex i` is 1 where the `m_mutex` of the
-- invocation of call `i` is locked. `held` is that `g_async` keeps the event loop open. `js` is
-- what the functions change. `entered` and `dispatched` record the pushes and the dispatches, the
-- oldest first, and `strays` is the number of wakeups that no signal caused.
pub record State (S : Type 0) : Type 0 where
  pub calls : ℕ
  pub phase : ℕ → Phase
  pub mutex : ℕ → ℕ
  pub queue : List ℕ
  pub queue_mutex : Option Party
  pub pending : ℕ
  pub watcher : Watcher
  pub held : Bool
  pub js : S
  pub entered : List ℕ
  pub dispatched : List ℕ
  pub strays : ℕ

-- `uv_cond_signal(&m_cond)`, which wakes the caller if it waits
abbrev pub wake : Phase → Phase
wake waiting = woken
wake p = p

module _ {S : Type 0} where
  -- `uv_ref`, and the constructor of `ThreadedCallbackInvokation`, which locks its mutex
  abbrev pub begin : State S → State S
  begin s = record s {
    calls = suc s.calls;
    phase = set_at s.calls created s.phase;
    mutex = set_at s.calls 1 s.mutex;
    held = true;
  }

  -- `Invoke`, from the constructor on, for the call `i` in a phase: each step is one call of libuv
  -- with what stands before it.
  pub data CallerMove (i : ℕ) (s : State S) : Phase → State S → Type 0 where
    -- `uv_mutex_lock(&g_queue_mutex)`
    lock_queue :
        s.queue_mutex ≡ none
        → CallerMove i s created
            (record s { phase = set_at i locked s.phase; queue_mutex = some (caller i) })
    -- `g_queue.push(inv)`
    push : CallerMove i s locked (record s {
      phase = set_at i pushed s.phase;
      queue = s.queue ++ i ∷ [];
      entered = s.entered ++ i ∷ [];
    })
    -- `uv_mutex_unlock(&g_queue_mutex)`
    unlock_queue :
        CallerMove i s pushed (record s { phase = set_at i unlocked s.phase; queue_mutex = none })
    -- `uv_async_send(&g_async)`
    send : CallerMove i s unlocked (record s { phase = set_at i sent s.phase; pending = 1 })
    -- `uv_cond_wait(&m_cond, &m_mutex)`, which unlocks the mutex and, once woken, locks it again
    wait :
        CallerMove i s sent
          (record s { phase = set_at i waiting s.phase; mutex = set_at i 0 s.mutex })
    resume :
        s.mutex i ≡ 0
        → CallerMove i s woken
            (record s { phase = set_at i returned s.phase; mutex = set_at i 1 s.mutex })
    -- `uv_unref` and `delete inv`, whose destructor unlocks the mutex
    finish :
        CallerMove i s returned
          (record s { phase = set_at i gone s.phase; mutex = set_at i 0 s.mutex; held = false })

  -- `WatcherCallback` in a phase. `dispatch i` is `DispatchToV8` for the function, the result and the
  -- parameters of call `i`, as called from another thread.
  pub data WatcherMove (dispatch : ℕ → S → S) (s : State S) : Watcher → State S → Type 0 where
    -- The event loop finds that `g_async` was sent, and calls `WatcherCallback`.
    start :
        s.pending ≡ 1 → WatcherMove dispatch s asleep (record s { pending = 0; watcher = entering })
    -- Where `g_async` does not keep the event loop open, it may end, also with a message on its way.
    stop : s.held ≡ false → WatcherMove dispatch s asleep (record s { watcher = stopped })
    enter :
        s.queue_mutex ≡ none
        → WatcherMove dispatch s entering
            (record s { queue_mutex = some main_thread; watcher = checking })
    -- `while (!g_queue.empty())`
    leave :
        s.queue ≡ []
        → WatcherMove dispatch s checking (record s { queue_mutex = none; watcher = asleep })
    pop :
        {i : ℕ} {is : List ℕ}
        → s.queue ≡ i ∷ is
        → WatcherMove dispatch s checking (record s { queue = is; watcher = dispatching i })
    dispatch_one :
        {i : ℕ}
        → WatcherMove dispatch s (dispatching i) (record s {
          js = dispatch i s.js;
          dispatched = s.dispatched ++ i ∷ [];
          watcher = finishing i;
        })
    -- `SignalDoneExecuting`
    lock_one :
        {i : ℕ}
        → s.mutex i ≡ 0
        → WatcherMove dispatch s
            (finishing i)
            (record s { mutex = set_at i 1 s.mutex; watcher = signalling i })
    signal :
        {i : ℕ}
        → WatcherMove dispatch s
            (signalling i)
            (record s { phase = set_at i (wake (s.phase i)) s.phase; watcher = unlocking i })
    unlock_one :
        {i : ℕ}
        → WatcherMove dispatch s
            (unlocking i)
            (record s { mutex = set_at i 0 s.mutex; watcher = checking })

  -- A step by which the calls that have begun go on, of either side.
  pub data Advance (dispatch : ℕ → S → S) (s : State S) : State S → Type 0 where
    by_caller : (i : ℕ) {t : State S} → CallerMove i s (s.phase i) t → Advance dispatch s t
    by_watcher : {t : State S} → WatcherMove dispatch s s.watcher t → Advance dispatch s t

  -- `uv_cond_wait` may also return without a signal, as libuv documents.
  pub data Step (dispatch : ℕ → S → S) (s : State S) : State S → Type 0 where
    call : Step dispatch s (begin s)
    stray :
        (i : ℕ)
        → s.phase i ≡ waiting
        → Step dispatch s (record s { phase = set_at i woken s.phase; strays = suc s.strays })
    advance : {t : State S} → Advance dispatch s t → Step dispatch s t

  abbrev pub initial : S → State S
  initial js = record {
    calls = 0;
    phase = λ i. absent;
    mutex = λ i. 0;
    queue = [];
    queue_mutex = none;
    pending = 0;
    watcher = asleep;
    held = false;
    js = js;
    entered = [];
    dispatched = [];
    strays = 0;
  }

  pub data Reach (dispatch : ℕ → S → S) (js : S) : State S → Type 0 where
    fresh : Reach dispatch js (initial js)
    later : {s t : State S} → Reach dispatch js s → Step dispatch s t → Reach dispatch js t
