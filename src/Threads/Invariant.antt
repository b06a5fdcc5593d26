-- ===== src/Threads/Invariant.antt =====
-- What holds of one call, whichever steps both sides take: numbers that count where it is.
use node_ffi.Base.{ℕ, ◌+◌, ◌≤◌, ◌≡◌, ◌≢◌, none, [], ◌∷◌, arith, count, count-append}
use node_ffi.Threads.{
  Phase, Watcher, State, CallerMove, lock_queue, push, resume, WatcherMove, start, enter, leave,
  pop, dispatch_one, lock_one,
}
use node_ffi.Threads.Counts.{
  in_hand, holds, inside, to_send, is_woken, served, at, past, locks, told, up, watches, by_main,
  held_by,
}

module _ {S : Type 0} where
  -- The facts about call `j`, where the main thread is at `m` and the call in phase `p`.
  pub record IsFine (s : State S) (m : Watcher) (p : Phase) (j : ℕ) : Type 0 where
    pub placed : count j s.queue + at m j ≡ in_hand p + told m j
    pub counted : count j s.dispatched + told m j ≡ past m j + served p
    pub mutexed : s.mutex j ≡ holds p + locks m j
    pub single : s.mutex j ≤ 1
    pub wakened : told m j ≤ is_woken p
    pub guarded : held_by s.queue_mutex j ≡ inside p
    pub watched : by_main s.queue_mutex ≡ watches m
    pub sending : count j s.queue ≤ to_send p + s.pending + up m

  -- What a step of a call waits for.
  abbrev pub Guard : {i : ℕ} {s : State S} {p : Phase} {t : State S} → CallerMove i s p t → Type 0
  Guard {i} {s} (lock_queue _) = s.queue_mutex ≡ none
  Guard {i} {s} (resume _) = s.mutex i ≡ 0
  Guard _ = Unit

  pub guard : {i : ℕ} {s : State S} {p : Phase} {t : State S} (mv : CallerMove i s p t) → Guard mv
  guard (lock_queue free) = free
  guard (resume free) = free
  guard _ = tt

  pub Caller-own :
      (i : ℕ) (s : State S) {p : Phase} {t : State S}
      → CallerMove i s p t
      → IsFine s s.watcher p i
      → IsFine t t.watcher (t.phase i) i
  Caller-own i s push f = record {
    placed = ground (arith, f.placed, count-append i s.queue (i ∷ []));
    counted = ground (arith, f.counted);
    mutexed = ground (arith, f.mutexed);
    single = ground (arith, f.single);
    wakened = ground (arith, f.wakened);
    guarded = ground (arith, f.guarded);
    watched = ground (arith, f.watched);
    sending = ground (arith, f.sending, f.placed, f.wakened, count-append i s.queue (i ∷ []));
  }
  Caller-own i s mv f = record {
    placed = ground (arith, f.placed);
    counted = ground (arith, f.counted);
    mutexed = ground (arith, guard mv, f.mutexed, f.single);
    single = ground (arith, guard mv, f.single);
    wakened = ground (arith, guard mv, f.wakened, f.mutexed);
    guarded = ground (arith, f.guarded);
    watched = ground (arith, guard mv, f.watched, f.guarded);
    sending = ground (arith, f.sending, f.placed);
  }

  pub Caller-other :
      (i : ℕ) (s : State S) {p : Phase} {t : State S}
      → CallerMove i s p t
      → IsFine s s.watcher p i
      → (j : ℕ) → i ≢ j
      → IsFine s s.watcher (s.phase j) j
      → IsFine t t.watcher (t.phase j) j
  Caller-other i s push f j other g = record {
    placed = ground (arith, g.placed, count-append j s.queue (i ∷ []));
    counted = ground (arith, g.counted);
    mutexed = ground (arith, g.mutexed);
    single = ground (arith, g.single);
    wakened = ground (arith, g.wakened);
    guarded = ground (arith, g.guarded);
    watched = ground (arith, g.watched);
    sending = ground (arith, g.sending, count-append j s.queue (i ∷ []));
  }
  Caller-other i s mv f j other g = record {
    placed = ground (arith, g.placed);
    counted = ground (arith, g.counted);
    mutexed = ground (arith, g.mutexed);
    single = ground (arith, g.single);
    wakened = ground (arith, g.wakened);
    guarded = ground (arith, guard mv, g.guarded, f.guarded);
    watched = ground (arith, guard mv, g.watched, f.guarded);
    sending = ground (arith, g.sending, g.placed, g.wakened);
  }

  -- What a step of the main thread waits for, or finds.
  abbrev pub Demand :
      {d : ℕ → S → S} {s : State S} {m : Watcher} {t : State S} → WatcherMove d s m t → Type 0
  Demand {s = s} (start _) = s.pending ≡ 1
  Demand {s = s} (enter _) = s.queue_mutex ≡ none
  Demand {s = s} (leave _) = s.queue ≡ []
  Demand {s = s} (pop {i} {is} _) = s.queue ≡ i ∷ is
  Demand {s = s} (lock_one {i} _) = s.mutex i ≡ 0
  Demand _ = Unit

  pub demand :
      {d : ℕ → S → S} {s : State S} {m : Watcher} {t : State S} (mv : WatcherMove d s m t)
      → Demand mv
  demand (start h) = h
  demand (enter h) = h
  demand (leave h) = h
  demand (pop h) = h
  demand (lock_one h) = h
  demand _ = tt

  pub Watcher-IsFine :
      (d : ℕ → S → S) (s : State S) {m : Watcher} {t : State S}
      → WatcherMove d s m t
      → (j : ℕ) → IsFine s m (s.phase j) j
      → IsFine t t.watcher (t.phase j) j
  Watcher-IsFine d s (dispatch_one {i}) j g = record {
    placed = ground (arith, g.placed);
    counted = ground (arith, g.counted, count-append j s.dispatched (i ∷ []));
    mutexed = ground (arith, g.mutexed);
    single = ground (arith, g.single);
    wakened = ground (arith, g.wakened);
    guarded = ground (arith, g.guarded);
    watched = ground (arith, g.watched);
    sending = ground (arith, g.sending);
  }
  Watcher-IsFine d s mv j g = record {
    placed = ground (arith, demand mv, g.placed, g.mutexed, g.single, g.wakened);
    counted = ground (arith, demand mv, g.counted, g.placed, g.mutexed, g.single);
    mutexed = ground (arith, demand mv, g.mutexed);
    single = ground (arith, demand mv, g.single);
    wakened = ground (arith, demand mv, g.wakened, g.mutexed, g.placed, g.single);
    guarded = ground (arith, demand mv, g.guarded);
    watched = ground (arith, demand mv, g.watched);
    sending = ground (arith, demand mv, g.sending);
  }
