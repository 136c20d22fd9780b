-- ===== src/Wakeup/Laws.antt =====
-- What the listener holds between two calls.
use outboxexpress.Common.{
  ℕ, ◌≡◌, ◌↔◌, inl, inr, refl, Bool, true, false, Option, none, some, List, [], ◌∷◌, arith,
  if◌then◌else◌, Bool-cases, Option-cases, ◌≤◌,
}
use outboxexpress.Errors.{ok, err, Error, Result, is, deadline_exceeded}
use outboxexpress.Wakeup.{
  Conn, Listener, new_listener, Meets, is_live, connect_and_listen, listen, drop, after_wait,
  woken_by, wait, usage, close,
}

abbrev Holds : Option Conn → ℕ → Type 0
Holds none n = n ≡ 0
Holds (some c) n = (n ≡ (if c.closed then 0 else 1)) × (c.closed ≡ false → c.listening ≡ true)

-- The process holds the listener's connection and no other, while that is open, and LISTEN has been
-- executed on an open one.
unfoldable pub IsTight : Listener → Type 0
IsTight l = Holds l.conn l.connections

connect_and_listen-IsTight :
    (m : Meets) (l : Listener) → is_live l ≡ false → IsTight l → IsTight (connect_and_listen m l).1
unfolding connect_and_listen is_live IsTight
connect_and_listen-IsTight m l dead h = ground arith

listen-IsTight : (m : Meets) (l : Listener) → IsTight l → IsTight (listen m l).1
unfolding listen
listen-IsTight m l h = elim (Bool-cases (is_live l)) [
  | inl live ↦ rw (listen, live) h
  | inr dead ↦ rw (listen, dead) (connect_and_listen-IsTight m l dead h)
]

drop-IsTight : (l : Listener) → IsTight l → IsTight (drop l)
unfolding drop IsTight
drop-IsTight l h = ground arith

after_wait-IsTight : (b : Bool) (l : Listener) → IsTight l → IsTight (after_wait b l)
unfolding after_wait IsTight
after_wait-IsTight b l h = ground arith

woken_by-IsTight :
    (m : Meets) (answer : Option Error) (l : Listener) → IsTight l → IsTight (woken_by m answer l).1
unfolding woken_by
woken_by-IsTight m none l h = h
woken_by-IsTight m (some e) l h = elim (Bool-cases m.ended) [
  | inl over ↦ rw (woken_by, over) h
  | inr on ↦ elim (Bool-cases (is e deadline_exceeded)) [
    | inl late ↦ rw (woken_by, on, late) h
    | inr broken ↦ rw (woken_by, on, broken) (drop-IsTight l h)
  ]
]

-- No call leaks a connection or leaves one open without LISTEN, whatever pgx answers.
pub wait-IsTight : (m : Meets) (l : Listener) → IsTight l → IsTight (wait m l).1
unfolding wait
wait-IsTight m l h = elim (Option-cases (listen m l).0) [
  | inr (e, failed) ↦ rw (wait, failed) (listen-IsTight m l h)
  | inl done ↦
      rw (wait, done)
        (woken_by-IsTight m m.notification _ (after_wait-IsTight m.broken _ (listen-IsTight m l h)))
]

close-IsTight : (answer : Option Error) (l : Listener) → IsTight l → IsTight (close answer l).1
unfolding close is_live IsTight
close-IsTight answer l h = ground arith

usage-IsTight :
    (answer : Result ℕ) (broken : Bool) (l : Listener)
    → IsTight l
    → IsTight (usage answer broken l).1
unfolding usage is_live IsTight after_wait
usage-IsTight (ok n) broken l h = ground arith
usage-IsTight (err e) true l h = ground arith
usage-IsTight (err e) false l h = ground arith

-- A call of one of the listener's methods, with what it meets.
pub data Call : Type 0 where
  waits : Meets → Call
  reads_usage : Result ℕ → Bool → Call
  closes : Option Error → Call

-- The listener after a call.
unfoldable pub called : Call → Listener → Listener
called (waits m) l = (wait m l).1
called (reads_usage answer broken) l = (usage answer broken l).1
called (closes answer) l = (close answer l).1

unfoldable pub called_all : List Call → Listener → Listener
unfolding called
called_all [] l = l
called_all (c ∷ cs) l = called_all cs (called c l)

called_all-IsTight : (cs : List Call) (l : Listener) → IsTight l → IsTight (called_all cs l)
unfolding called_all
called_all-IsTight [] l h = h
called_all-IsTight (waits m ∷ cs) l h = called_all-IsTight cs _ (wait-IsTight m l h)
called_all-IsTight (reads_usage answer broken ∷ cs) l h =
    called_all-IsTight cs _ (usage-IsTight answer broken l h)
called_all-IsTight (closes answer ∷ cs) l h = called_all-IsTight cs _ (close-IsTight answer l h)

new_listener-IsTight : IsTight new_listener
unfolding IsTight
new_listener-IsTight = refl

tight_connections :
    (l : Listener)
    → IsTight l
    → (l.connections ≤ 1)
      × ((is_live l ≡ true) ↔ (l.connections ≡ 1))
      × ((c : Conn) → l.conn ≡ some c → c.closed ≡ false → c.listening ≡ true)
unfolding IsTight is_live
tight_connections l h = (ground arith, ground arith, λ c e open_still. ground (arith, e))

close_tight :
    (answer : Option Error) (l : Listener) → IsTight l → ((close answer l).1).connections ≡ 0
unfolding close is_live IsTight
close_tight answer l h = ground arith

-- Whatever is called and whatever pgx answers, a listener has at most one connection open, and has one
-- open exactly when it is live, with LISTEN executed on it.
pub called_all-connections :
    (cs : List Call)
    → let l = called_all cs new_listener in
      (l.connections ≤ 1)
      × ((is_live l ≡ true) ↔ (l.connections ≡ 1))
      × ((c : Conn) → l.conn ≡ some c → c.closed ≡ false → c.listening ≡ true)
called_all-connections cs =
    tight_connections (called_all cs new_listener)
      (called_all-IsTight cs new_listener new_listener-IsTight)

-- Close leaves no connection open, whatever it returns and whatever was called before.
pub close-connections :
    (cs : List Call) (answer : Option Error)
    → ((close answer (called_all cs new_listener)).1).connections ≡ 0
close-connections cs answer =
    close_tight answer (called_all cs new_listener)
      (called_all-IsTight cs new_listener new_listener-IsTight)

listen_failed :
    (m : Meets) (l : Listener) (e : Error)
    → (listen m l).0 ≡ some e
    → is_live (listen m l).1 ≡ false
unfolding listen is_live connect_and_listen
listen_failed m l e h = ground arith

listen_works :
    (m : Meets) (l : Listener) → m.connect ≡ none → m.listen ≡ none → (listen m l).0 ≡ none
unfolding listen connect_and_listen
listen_works m l c s = ground arith

drop-dead : (l : Listener) → is_live (drop l) ≡ false
unfolding drop is_live
drop-dead l = ground arith

woken_by-outcome :
    (m : Meets) (answer : Option Error) (l : Listener)
    → let out = woken_by m answer l in
      ((e : Error) → (out.0).1 ≡ some e → ((out.0).0 ≡ false) × (is_live out.1 ≡ false))
      × ((out.0).0 ≡ true → answer ≡ none)
unfolding woken_by
woken_by-outcome m none l = ((λ e wrong. cc), λ _. refl)
woken_by-outcome m (some x) l = elim (Bool-cases m.ended) [
  | inl over ↦ rw (woken_by, over) ((λ e wrong. cc), λ wrong. cc)
  | inr on ↦ elim (Bool-cases (is x deadline_exceeded)) [
    | inl late ↦ rw (woken_by, on, late) ((λ e wrong. cc), λ wrong. cc)
    | inr broken ↦ rw (woken_by, on, broken) ((λ e _. (refl, drop-dead l)), λ wrong. cc)
  ]
]

-- An error of Wait leaves no live connection, so that the next call connects again; it is never
-- returned together with a wakeup, and a wakeup is a notification.
pub wait-outcome :
    (m : Meets) (l : Listener)
    → let out = wait m l in
      ((e : Error) → (out.0).1 ≡ some e → ((out.0).0 ≡ false) × (is_live out.1 ≡ false))
      × ((out.0).0 ≡ true → m.notification ≡ none)
unfolding wait
wait-outcome m l = elim (Option-cases (listen m l).0) [
  | inr (e, failed) ↦ rw (wait, failed) ((λ x _. (refl, listen_failed m l e failed)), λ wrong. cc)
  | inl done ↦ rw (wait, done) (woken_by-outcome m m.notification _)
]

-- A wait that can connect returns what the notification says, whatever became of the connection before.
pub wait_recovers :
    (m : Meets) (l : Listener)
    → m.connect ≡ none
    → m.listen ≡ none
    → m.notification ≡ none
    → (wait m l).0 ≡ (true, none)
unfolding wait
wait_recovers m l c s n = rw (wait, listen_works m l c s, n) refl
