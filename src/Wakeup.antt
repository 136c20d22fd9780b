-- ===== src/Wakeup.antt =====
-- internal/accounts/infrastructure/wakeup: the listener that the relay waits on, and the notifier that
-- a registration calls after its commit. pgx is what a call meets; a queue usage, a fraction in the
-- source, is a number of millionths.
pub mod Laws
pub mod Waiting
use Prim.Native.String.{◌++◌ as ◌++ˢ◌}
use outboxexpress.Common.{
  ℕ, ◌+◌, ◌-◌, String, Bool, true, false, Option, none, some, List, [], ◌∷◌, if◌then◌else◌,
}
use outboxexpress.Errors.{Error, Result, ok, err, is, wrap, deadline_exceeded}

abbrev pub channel_outbox_new : String
channel_outbox_new = "outbox_new"

-- A *pgx.Conn: whether it is closed, and whether LISTEN has been executed on it.
pub record Conn : Type 0 where
  pub closed : Bool
  pub listening : Bool

pub data Line : Type 0 where
  listening_started : Line
  usage_unreadable : Error → Line
  wakeup_failed : Error → Line

-- The listener, how many connections this process has open, and its log.
pub record Listener : Type 0 where
  pub conn : Option Conn
  pub connections : ℕ
  pub log : List Line

abbrev pub new_listener : Listener
new_listener = record { conn = none; connections = 0; log = [] }

-- What pgx answers in one call of Wait: to Connect, to LISTEN and to WaitForNotification; whether the
-- caller's context has ended by then; and whether pgx has closed the connection in the wait.
pub record Meets : Type 0 where
  pub connect : Option Error
  pub listen : Option Error
  pub notification : Option Error
  pub ended : Bool
  pub broken : Bool

-- `l.conn != nil && !l.conn.IsClosed()`
unfoldable pub is_live : Listener → Bool
is_live l = elim l.conn [ none ↦ false | some c ↦ elim c.closed [ true ↦ false | false ↦ true ] ]

-- LISTEN on the connection that Connect has just opened, which is closed again if that fails.
unfoldable pub subscribe : Option Error → Listener → Option Error × Listener
subscribe (some e) l = (
  some (wrap ("wakeup: listen " ++ˢ channel_outbox_new) e),
  record l { connections = l.connections - 1 },
)
subscribe none l = (
  none,
  record l {
    conn = some (record { closed = false; listening = true });
    log = listening_started ∷ l.log;
  },
)

unfoldable pub connect_and_listen : Meets → Listener → Option Error × Listener
unfolding subscribe
connect_and_listen m l = elim m.connect [
  | some e ↦ (some (wrap "wakeup: listen connection" e), l)
  | none ↦ subscribe m.listen (record l { connections = l.connections + 1 })
]

unfoldable pub listen : Meets → Listener → Option Error × Listener
unfolding is_live connect_and_listen
listen m l = if is_live l then (none, l) else connect_and_listen m l

-- Close of an open connection, and of one that is closed already.
abbrev pub less_one : Bool → ℕ → ℕ
less_one true n = n
less_one false n = n - 1

unfoldable pub drop : Listener → Listener
drop l = elim l.conn [
  | none ↦ l
  | some c ↦ record l { conn = none; connections = less_one c.closed l.connections }
]

-- pgx has closed the connection by itself, or not.
unfoldable pub after_wait : Bool → Listener → Listener
after_wait false l = l
after_wait true l = elim l.conn [
  | none ↦ l
  | some c ↦ record l {
    conn = some (record c { closed = true });
    connections = less_one c.closed l.connections;
  }
]

-- The switch of Wait.
unfoldable pub woken_by : Meets → Option Error → Listener → (Bool × Option Error) × Listener
unfolding drop
woken_by m none l = ((true, none), l)
woken_by m (some e) l =
    if m.ended
    then ((false, none), l)
    else if is e deadline_exceeded
    then ((false, none), l)
    else ((false, some (wrap ("wakeup: wait on " ++ˢ channel_outbox_new) e)), drop l)

-- Listener.Wait
unfoldable pub wait : Meets → Listener → (Bool × Option Error) × Listener
unfolding listen woken_by after_wait
wait m l =
    let (failed, l') = listen m l in
    elim failed [
      | some e ↦ ((false, some e), l')
      | none ↦ woken_by m m.notification (after_wait m.broken l')
    ]

-- Listener.Usage, of what the query returns and whether pgx has closed the connection for its failure.
unfoldable pub usage : Result ℕ → Bool → Listener → Option ℕ × Listener
unfolding is_live after_wait
usage answer broken l =
    if is_live l
    then elim answer [
      | ok n ↦ (some n, l)
      | err e ↦ (none, after_wait broken (record l { log = usage_unreadable e ∷ l.log }))
    ]
    else (none, l)

-- Listener.Close, of what the connection's Close returns. It closes the connection in either case.
unfoldable pub close : Option Error → Listener → Option Error × Listener
unfolding is_live
close answer l =
    if is_live l
    then elim answer [
      | some e ↦ (
        some (wrap "wakeup: close listen connection" e),
        record l {
          conn = some (record { closed = true; listening = false });
          connections = l.connections - 1;
        },
      )
      | none ↦ (none, record l { conn = none; connections = l.connections - 1 })
    ]
    else (none, l)

-- Notifier.Notify: nothing but a line of the log, whatever the statement answers.
unfoldable pub notify : Option Error → List Line
notify none = []
notify (some e) = wakeup_failed e ∷ []
