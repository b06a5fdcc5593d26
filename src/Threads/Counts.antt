-- ===== src/Threads/Counts.antt =====
-- Where a call is, in numbers.
use node_ffi.Base.{ℕ, Option, some, ◌==◌, if◌then◌else◌}
use node_ffi.Threads.{
  Phase, created, locked, pushed, unlocked, sent, waiting, woken, returned, gone, Watcher, asleep,
  stopped, entering, dispatching, finishing, signalling, unlocking, Party, main_thread, caller,
}

-- The call was pushed and not woken yet.
abbrev pub in_hand : Phase → ℕ
in_hand pushed = 1
in_hand unlocked = 1
in_hand sent = 1
in_hand waiting = 1
in_hand _ = 0

-- Its thread holds its mutex.
abbrev pub holds : Phase → ℕ
holds created = 1
holds locked = 1
holds pushed = 1
holds unlocked = 1
holds sent = 1
holds returned = 1
holds _ = 0

-- Its thread holds the mutex of the queue.
abbrev pub inside : Phase → ℕ
inside locked = 1
inside pushed = 1
inside _ = 0

abbrev pub to_send : Phase → ℕ
to_send pushed = 1
to_send unlocked = 1
to_send _ = 0

abbrev pub is_woken : Phase → ℕ
is_woken woken = 1
is_woken _ = 0

-- It was woken, or is past that.
abbrev pub served : Phase → ℕ
served woken = 1
served returned = 1
served gone = 1
served _ = 0

abbrev pub one_if : ℕ → ℕ → ℕ
one_if i j = if i == j then 1 else 0

-- The main thread has taken the call from the queue and works on it.
abbrev pub at : Watcher → ℕ → ℕ
at (dispatching i) j = one_if i j
at (finishing i) j = one_if i j
at (signalling i) j = one_if i j
at (unlocking i) j = one_if i j
at _ j = 0

-- It has dispatched the call, holds its mutex, has woken it.
abbrev pub past : Watcher → ℕ → ℕ
past (finishing i) j = one_if i j
past (signalling i) j = one_if i j
past (unlocking i) j = one_if i j
past _ j = 0

abbrev pub locks : Watcher → ℕ → ℕ
locks (signalling i) j = one_if i j
locks (unlocking i) j = one_if i j
locks _ j = 0

abbrev pub told : Watcher → ℕ → ℕ
told (unlocking i) j = one_if i j
told _ j = 0

abbrev pub up : Watcher → ℕ
up asleep = 0
up stopped = 0
up _ = 1

-- The main thread holds the mutex of the queue.
abbrev pub watches : Watcher → ℕ
watches asleep = 0
watches stopped = 0
watches entering = 0
watches _ = 1

abbrev pub by_main : Option Party → ℕ
by_main (some main_thread) = 1
by_main _ = 0

abbrev pub held_by : Option Party → ℕ → ℕ
held_by (some (caller i)) j = one_if i j
held_by _ j = 0
