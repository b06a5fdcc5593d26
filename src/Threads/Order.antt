-- ===== src/Threads/Order.antt =====
-- The order of the calls, and what holds in every state that is reached.
use node_ffi.Base.{
  ℕ, ◌≤◌, ◌<◌, ◌≡◌, refl, ◌≢◌, List, [], ◌∷◌, ◌++◌, arith, ap, sym, subst, ◌∙◌, set_at,
}
use mathlib.Core.List.{append_assoc}
use native.Mathlib.Decide.{ℕ_discrete}
use node_ffi.Threads.{
  Phase, absent, created, Watcher, dispatching, State, begin, CallerMove, push, WatcherMove, pop,
  dispatch_one, signal, Advance, by_caller, by_watcher, Step, call, stray, advance, initial, Reach,
  fresh, later,
}
use node_ffi.Threads.Invariant.{IsFine, Caller-own, Caller-other, Watcher-IsFine}

-- The functions of calls run one after another.
abbrev pub dispatch_all : {S : Type 0} → (ℕ → S → S) → S → List ℕ → S
dispatch_all d js [] = js
dispatch_all d js (i ∷ is) = dispatch_all d (d i js) is

pub dispatch_all-append :
    {S : Type 0} (d : ℕ → S → S) (js : S) (is ks : List ℕ)
    → dispatch_all d js (is ++ ks) ≡ dispatch_all d (dispatch_all d js is) ks
dispatch_all-append d js [] ks = refl
dispatch_all-append d js (i ∷ is) ks = dispatch_all-append d (d i js) is ks

-- The call that was taken from the queue and is not dispatched yet.
abbrev pub in_turn : Watcher → List ℕ
in_turn (dispatching i) = i ∷ []
in_turn _ = []

module _ {S : Type 0} (d : ℕ → S → S) (js : S) where
  -- Calls are dispatched in the order in which they were pushed, and what the functions changed is what
  -- they change one after another in that order.
  pub record IsOrdered (s : State S) (m : Watcher) : Type 0 where
    pub queued : s.entered ≡ s.dispatched ++ (in_turn m ++ s.queue)
    pub done : s.js ≡ dispatch_all d js s.dispatched

  pub Caller-strays :
      {i : ℕ} {s : State S} {p : Phase} {t : State S} → CallerMove i s p t → t.strays ≡ s.strays
  Caller-strays push = refl
  Caller-strays mv = refl

  pub Watcher-strays :
      {s : State S} {m : Watcher} {t : State S} → WatcherMove d s m t → t.strays ≡ s.strays
  Watcher-strays (pop h) = refl
  Watcher-strays mv = refl

  -- Which calls have begun is known of the number of calls.
  pub record IsCounted (s : State S) : Type 0 where
    pub not_yet : (j : ℕ) → s.calls ≤ j → s.phase j ≡ absent
    pub already : (j : ℕ) → j < s.calls → s.phase j ≢ absent

  pub record Inv (s : State S) : Type 0 where
    pub fine : s.strays ≡ 0 → (j : ℕ) → IsFine s s.watcher (s.phase j) j
    pub counting : IsCounted s
    pub flag : s.pending ≤ 1
    pub ordered : IsOrdered s s.watcher

  Caller-IsOrdered :
      (i : ℕ) (s : State S) {p : Phase} {t : State S}
      → CallerMove i s p t
      → IsOrdered s s.watcher
      → IsOrdered t t.watcher
  Caller-IsOrdered i s push o = record {
    queued =
        ap (λ es. es ++ i ∷ []) o.queued
        ∙ append_assoc s.dispatched (in_turn s.watcher ++ s.queue) (i ∷ [])
        ∙ ap (λ es. s.dispatched ++ es) (append_assoc (in_turn s.watcher) s.queue (i ∷ []));
    done = o.done;
  }
  Caller-IsOrdered i s mv o = record { queued = o.queued; done = o.done }

  Watcher-IsOrdered :
      (s : State S) {m : Watcher} {t : State S}
      → WatcherMove d s m t
      → IsOrdered s m
      → IsOrdered t t.watcher
  Watcher-IsOrdered s (pop h) o = record {
    queued = o.queued ∙ ap (λ es. s.dispatched ++ es) h;
    done = o.done;
  }
  Watcher-IsOrdered s (dispatch_one {i}) o = record {
    queued = o.queued ∙ sym (append_assoc s.dispatched (i ∷ []) s.queue);
    done = ap (d i) o.done ∙ sym (dispatch_all-append d js s.dispatched (i ∷ []));
  }
  Watcher-IsOrdered s mv o = record { queued = o.queued; done = o.done }

  begin-IsFine :
      (s : State S) (j : ℕ)
      → IsFine s s.watcher (s.phase j) j
      → s.phase s.calls ≡ absent
      → IsFine (begin s) s.watcher (set_at s.calls created s.phase j) j
  begin-IsFine s j f h = record {
    placed = ground (arith, f.placed, f.wakened);
    counted = ground (arith, f.counted);
    mutexed = ground (arith, f.mutexed, f.placed, f.wakened);
    single = ground (arith, f.single);
    wakened = ground (arith, f.wakened);
    guarded = ground (arith, f.guarded);
    watched = ground (arith, f.watched);
    sending = ground (arith, f.sending);
  }

  Caller-IsCounted :
      (i : ℕ) (s : State S) {p : Phase} {t : State S}
      → CallerMove i s p t
      → s.phase i ≡ p
      → IsCounted s
      → IsCounted t
  Caller-IsCounted i s push e c = record {
    not_yet = λ j h. ground (arith, c.not_yet j h);
    already = λ j h. ground (arith, c.already j h);
  }
  Caller-IsCounted i s mv e c = record {
    not_yet = λ j h. ground (arith, c.not_yet j h);
    already = λ j h. ground (arith, c.already j h);
  }

  Watcher-IsCounted :
      (s : State S) {m : Watcher} {t : State S} → WatcherMove d s m t → IsCounted s → IsCounted t
  Watcher-IsCounted s (signal {i}) c = record {
    not_yet = λ j h. ground (arith, c.not_yet j h);
    already = λ j h. ground (arith, c.already j h);
  }
  Watcher-IsCounted s mv c = record { not_yet = c.not_yet; already = c.already }

  begin-IsCounted : (s : State S) → IsCounted s → IsCounted (begin s)
  begin-IsCounted s c = record {
    not_yet = λ j h. ground (arith, c.not_yet j (omega arith));
    already = λ j h. ground (arith, c.already j);
  }

  Caller-flag :
      (i : ℕ) (s : State S) {p : Phase} {t : State S}
      → CallerMove i s p t
      → s.pending ≤ 1
      → t.pending ≤ 1
  Caller-flag i s push h = h
  Caller-flag i s mv h = ground (arith, h)

  Watcher-flag :
      (s : State S) {m : Watcher} {t : State S}
      → WatcherMove d s m t
      → s.pending ≤ 1
      → t.pending ≤ 1
  Watcher-flag s (pop g) h = h
  Watcher-flag s mv h = ground (arith, h)

  Advance-Inv : (s t : State S) → Advance d s t → Inv s → Inv t
  Advance-Inv s t (by_caller i mv) inv = record {
    fine = λ z j.
        let fine = inv.fine (sym (Caller-strays mv) ∙ z) in
        elim (ℕ_discrete i j) [
          | yes e ↦ subst (λ k. IsFine t t.watcher (t.phase k) k) e (Caller-own i s mv (fine i))
          | no e ↦ Caller-other i s mv (fine i) j e (fine j)
        ];
    counting = Caller-IsCounted i s mv refl inv.counting;
    flag = Caller-flag i s mv inv.flag;
    ordered = Caller-IsOrdered i s mv inv.ordered;
  }
  Advance-Inv s t (by_watcher mv) inv = record {
    fine = λ z j. Watcher-IsFine d s mv j (inv.fine (sym (Watcher-strays mv) ∙ z) j);
    counting = Watcher-IsCounted s mv inv.counting;
    flag = Watcher-flag s mv inv.flag;
    ordered = Watcher-IsOrdered s mv inv.ordered;
  }

  Step-Inv : (s t : State S) → Step d s t → Inv s → Inv t
  Step-Inv s t call inv = record {
    fine = λ z j. begin-IsFine s j (inv.fine z j) (inv.counting.not_yet s.calls (omega arith));
    counting = begin-IsCounted s inv.counting;
    flag = inv.flag;
    ordered = record { queued = inv.ordered.queued; done = inv.ordered.done };
  }
  Step-Inv s t (stray i e) inv = record {
    fine = λ z. absurd (omega (arith, z));
    counting = record {
      not_yet = λ j h. ground (arith, inv.counting.not_yet j h, e);
      already = λ j h. ground (arith, inv.counting.already j h);
    };
    flag = inv.flag;
    ordered = record { queued = inv.ordered.queued; done = inv.ordered.done };
  }
  Step-Inv s t (advance mv) inv = Advance-Inv s t mv inv

  initial-Inv : Inv (initial js)
  initial-Inv = record {
    fine = λ z j. record {
      placed = refl;
      counted = refl;
      mutexed = refl;
      single = omega arith;
      wakened = omega arith;
      guarded = refl;
      watched = refl;
      sending = omega arith;
    };
    counting = record { not_yet = λ j h. refl; already = λ j h. omega arith };
    flag = omega arith;
    ordered = record { queued = refl; done = refl };
  }

  pub Reach-Inv : {s : State S} → Reach d js s → Inv s
  Reach-Inv fresh = initial-Inv
  Reach-Inv (later r mv) = Step-Inv _ _ mv (Reach-Inv r)

-- However the steps of the threads are interleaved, calls are dispatched in the order in which they
-- were pushed on the queue, none is lost, and what the functions have changed is what they change one
-- after another in that order.
pub reach-IsOrdered :
    {S : Type 0} (d : ℕ → S → S) (js : S) (s : State S) → Reach d js s → IsOrdered d js s s.watcher
reach-IsOrdered d js s r = (Reach-Inv d js r).ordered
