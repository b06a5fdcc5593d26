-- ===== src/Threads/Exclusive.antt =====
-- Who may touch the queue.
use node_ffi.Base.{ℕ, ◌≡◌}
use node_ffi.Threads.{Phase, Watcher, State}
use node_ffi.Threads.Counts.{inside, watches, by_main, held_by}

module _ {S : Type 0} (d : ℕ → S → S) where
  -- `g_queue_mutex` is held by the call, or by the main thread, just where each is inside.
  record IsLocked (s : State S) (m : Watcher) (p : Phase) (j : ℕ) : Type 0 where
    guarded : held_by s.queue_mutex j ≡ inside p
    watched : by_main s.queue_mutex ≡ watches m
