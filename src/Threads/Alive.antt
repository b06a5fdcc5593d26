-- ===== src/Threads/Alive.antt =====
-- What a call may rely on, and what the main thread may.
use node_ffi.Base.{ℕ, ◌+◌, ◌<◌, ◌≡◌, Bool, true, false, arith, count}
use node_ffi.Threads.{Phase, pushed, unlocked, sent, waiting, woken, returned, gone, State, Reach}
use node_ffi.Threads.Counts.{at}
use node_ffi.Threads.Order.{Reach-Inv}

-- The call has pushed its invocation, and is not past its wait.
abbrev pub lives : Phase → Bool
lives pushed = true
lives unlocked = true
lives sent = true
lives waiting = true
lives woken = true
lives _ = false

-- The call is past its wait.
abbrev pub resumed : Phase → Bool
resumed returned = true
resumed gone = true
resumed _ = false

-- Where no wakeup without a signal has come: a call on another thread that is past its wait was
-- dispatched, exactly once, it is not in the queue, and the main thread does not touch its invocation
-- any more.
pub reach-IsServed :
    {S : Type 0} (d : ℕ → S → S) (js : S) (s : State S) (i : ℕ)
    → Reach d js s
    → s.strays ≡ 0
    → resumed (s.phase i) ≡ true
    → (count i s.dispatched ≡ 1) × (count i s.queue ≡ 0) × (at s.watcher i ≡ 0)
reach-IsServed d js s i r quiet h =
    let f = (Reach-Inv d js r).fine quiet i in
    (
      ground (arith, f.counted, f.placed, f.mutexed, f.wakened),
      ground (arith, f.placed, f.wakened),
      ground (arith, f.placed, f.wakened),
    )

-- Where no wakeup without a signal has come: an invocation that is in the queue or that the
-- main thread works on has been made and not been deleted, and it is in one of these places only.
pub reach-IsAlive :
    {S : Type 0} (d : ℕ → S → S) (js : S) (s : State S) (i : ℕ)
    → Reach d js s
    → s.strays ≡ 0
    → 0 < count i s.queue + at s.watcher i
    → (lives (s.phase i) ≡ true) × (count i s.queue + at s.watcher i ≡ 1)
reach-IsAlive d js s i r quiet h =
    let f = (Reach-Inv d js r).fine quiet i in
    (ground (arith, f.placed, f.wakened), ground (arith, f.placed, f.wakened))
