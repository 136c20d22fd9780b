-- ===== src/Wakeup/Waiting.antt =====
-- The relay's wait (presentation/worker/relay.go) with the listener as its waiter.
use outboxexpress.Common.{
  ◌+◌, ◌≡◌, sym, ap, subst, ◌⊎◌, inl, inr, refl, Bool, true, false, Option, none, some, List, [],
  ◌∷◌,
}
use outboxexpress.Common.Int.{ℤ, pos, leb_ℤ}
use outboxexpress.Errors.{Error}
use outboxexpress.Wakeup.{
  Listener, Meets, is_live, listen, connect_and_listen, subscribe, woken_by, after_wait,
  listening_started,
}
use outboxexpress.Wakeup.{wait as wait_on_listener}
use outboxexpress.Wakeup.Laws.{wait-outcome}
use outboxexpress.Worker.Relay.{
  Relay, Action, logged, waited, slept, wakeup_unavailable, Waking, woken, timed_out, unavailable,
  ask_waiter, wait,
}

-- `woken, err := r.wake.Wait(ctx, d)`, and the branches on it.
unfoldable pub waking_of : Bool × Option Error → Waking
waking_of (w, some e) = unavailable e
waking_of (true, none) = woken
waking_of (false, none) = timed_out

-- What a wait of the relay does when it waits at all: it asks the listener once; if the listener
-- failed, it logs that and sleeps the whole time itself, and the listener is disconnected, so that its
-- next Wait connects again; and only a notification makes the relay change its idle backoff.
pub record Waited (r : Relay) (d : ℤ) (m : Meets) (l : Listener) (out : Relay × List Action)
    : Type 0 where
  pub slept_out :
      ((e : Error) × ((wait_on_listener m l).0.1 ≡ some e)
        × (out.1
            ≡ waited (r.jittered d) ∷ logged (wakeup_unavailable e) ∷ slept (r.jittered d) ∷ [])
        × (is_live (wait_on_listener m l).1 ≡ false))
      ⊎ (((wait_on_listener m l).0.1 ≡ none) × (out.1 ≡ waited (r.jittered d) ∷ []))
  pub responsive : (out.0 ≡ r) ⊎ (m.notification ≡ none)

ask_waiter-Waited :
    (r : Relay) (d : ℤ) (m : Meets) (l : Listener)
    → Waited r d m l (ask_waiter r (r.jittered d) (waking_of (wait_on_listener m l).0))
unfolding ask_waiter waking_of
ask_waiter-Waited r d m l = go (wait_on_listener m l).0 refl
  where
    As : Bool × Option Error → Type 0
    As o = Waited r d m l (ask_waiter r (r.jittered d) (waking_of o))

    go : (o : Bool × Option Error) → (wait_on_listener m l).0 ≡ o → As (wait_on_listener m l).0
    go (w, some e) eq = subst As (sym eq) (record {
      slept_out = inl (e, ap (λ x. x.1) eq, refl, ((wait-outcome m l).0 e (ap (λ x. x.1) eq)).1);
      responsive = inl refl;
    })
    go (true, none) eq = subst As (sym eq) (record {
      slept_out = inr (ap (λ x. x.1) eq, refl);
      responsive = inr ((wait-outcome m l).1 (ap (λ x. x.0) eq));
    })
    go (false, none) eq =
        subst As (sym eq)
          (record { slept_out = inr (ap (λ x. x.1) eq, refl); responsive = inl refl })

wait-eq-ask_waiter :
    (r : Relay) (d : ℤ) (waking : Waking)
    → r.has_waiter ≡ true
    → leb_ℤ d (pos 0) ≡ false
    → wait r d waking ≡ ask_waiter r (r.jittered d) waking
unfolding wait
wait-eq-ask_waiter r d waking has positive = simp (has, positive)

-- A relay with a listener that is told to wait for a positive time waits on the listener, and sleeps the
-- time out itself exactly when the listener fails.
pub wait-Waited :
    (r : Relay) (d : ℤ) (m : Meets) (l : Listener)
    → r.has_waiter ≡ true
    → leb_ℤ d (pos 0) ≡ false
    → Waited r d m l (wait r d (waking_of (wait_on_listener m l).0))
wait-Waited r d m l has positive =
    subst (Waited r d m l)
      (sym (wait-eq-ask_waiter r d (waking_of (wait_on_listener m l).0) has positive))
      (ask_waiter-Waited r d m l)

-- The listener with a new connection that listens.
abbrev reconnected : Listener → Listener
reconnected l = record {
  conn = some (record { closed = false; listening = true });
  connections = l.connections + 1;
  log = listening_started ∷ l.log;
}

listen-reconnected :
    (m : Meets) (l : Listener)
    → is_live l ≡ false
    → m.connect ≡ none
    → m.listen ≡ none
    → listen m l ≡ (none, reconnected l)
unfolding listen connect_and_listen subscribe
listen-reconnected m l down connected listened =
    rw (listen, down, connect_and_listen, connected, listened) refl

connects_again :
    (m : Meets) (l : Listener)
    → is_live l ≡ false
    → m.connect ≡ none
    → m.listen ≡ none
    → m.notification ≡ none
    → m.broken ≡ false
    → wait_on_listener m l ≡ ((true, none), reconnected l)
unfolding wait_on_listener woken_by after_wait
connects_again m l down connected listened notified whole =
    subst
      (λ (out : Option Error × Listener).
        elim out.0 as (λ _. (Bool × Option Error) × Listener) [
          | some e ↦ ((false, some e), out.1)
          | none ↦ woken_by m m.notification (after_wait m.broken out.1)
        ]
        ≡ ((true, none), reconnected l))
      (sym (listen-reconnected m l down connected listened))
      (notifies m.notification notified m.broken whole)
  where
    notifies :
        (n : Option Error)
        → n ≡ none
        → (b : Bool) → b ≡ false
        → woken_by m n (after_wait b (reconnected l)) ≡ ((true, none), reconnected l)
    notifies (some e) h b k = cc
    notifies none h true k = cc
    notifies none h false k = refl

-- After a Wait that failed, for whatever reason, a Wait that reaches the server opens one new connection,
-- listens on it and is woken by the notification.
pub wait-recovers :
    (m m' : Meets) (l : Listener) (e : Error)
    → (wait_on_listener m l).0.1 ≡ some e
    → m'.connect ≡ none
    → m'.listen ≡ none
    → m'.notification ≡ none
    → m'.broken ≡ false
    → let failed = (wait_on_listener m l).1 in
      let out = wait_on_listener m' failed in
      (out.0 ≡ (true, none))
      × (out.1.conn ≡ some (record { closed = false; listening = true }))
      × (out.1.connections ≡ failed.connections + 1)
wait-recovers m m' l e failed connected listened notified whole =
    subst
      (λ (out : (Bool × Option Error) × Listener).
        (out.0 ≡ (true, none))
        × (out.1.conn ≡ some (record { closed = false; listening = true }))
        × (out.1.connections ≡ (wait_on_listener m l).1.connections + 1))
      (sym
        (connects_again m' _ ((wait-outcome m l).0 e failed).1 connected listened notified whole))
      (refl, refl, refl)
