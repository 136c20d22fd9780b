-- ===== src/Register/Adding.antt =====
-- A transaction that has saved a user and its event has added one row of each.
use outboxexpress.Common.{
  ℕ, suc, ◌≡◌, refl, ap, ◌∙◌, subst, false, Option, none, some, List, [], ◌∷◌, ◌++◌, arith,
}
use outboxexpress.Common.Int.{ℤ}
use outboxexpress.Domain.Std.{Std}
use outboxexpress.Domain.User.{User, Event}
use outboxexpress.Domain.User.Laws.{announcement}
use outboxexpress.Outbox.{OutboxRow, pending}
use outboxexpress.Errors.{Error, Result, ok, err}
use outboxexpress.Envelope.{Metadata, Envelope, envelopes_from}
use outboxexpress.Envelope.Laws.{Carries, CarriesAll, envelopes_from-CarriesAll}
use outboxexpress.Postgres.Db.{
  Db, UserRow, Server, Statement, insert_user, insert_outbox, add_user, add_outbox, new_row,
  as_stored, has_user_id, has_email, has_event_id,
}
use outboxexpress.Postgres.Tracker.{track, drain}
use outboxexpress.Postgres.Uow.{
  UnitOfWork, Session, user_row, exec, saved, save, append_rows, closed, append, append_events,
  drain_events,
}

exec-eq-none :
    (std : Std) (server : Server) (statement : Statement) (run : Db → Option Error × Db) (s t : Db)
    → exec std server statement run s ≡ (none, t)
    → run s ≡ (none, t)
unfolding exec
exec-eq-none std server statement run s t h = ground arith

add_user-eq-none :
    (u : UserRow) (s t : Db)
    → add_user u s ≡ (none, t)
    → (t ≡ record s { users = s.users ++ u ∷ [] })
      × (has_user_id u.id s.users ≡ false)
      × (has_email u.email s.users ≡ false)
unfolding add_user
add_user-eq-none u s t h = ground arith

add_outbox-eq-none :
    (now : ℤ) (e : Envelope) (s t : Db)
    → add_outbox now e s ≡ (none, t)
    → (t ≡ record s { outbox = s.outbox ++ new_row s.next_id now e ∷ []; next_id = suc s.next_id })
      × (has_event_id e.event_id s.outbox ≡ false)
unfolding add_outbox
add_outbox-eq-none now e s t h = ground arith

module _ (std : Std) (uow : UnitOfWork) where
  open uow use {server}

  saved-eq-none :
      (u : User) (out : Option Error × Db) (w w' : Session) (t : Db)
      → saved std server 0 u out w ≡ (none, t, w')
      → (out ≡ (none, t)) × (w' ≡ record w { tracked = track w.tracked 0 })
  unfolding saved
  saved-eq-none u (none, s) w w' t h = ground arith
  saved-eq-none u (some e, s) w w' t h = cc

  none-of-wrapped :
      (f : Error → Error) (out : Option Error × Db) (t : Db)
      → ◌≡◌ {A = Option Error × Db}
          (elim (out.0) [ some x ↦ (some (f x), out.1) | none ↦ (none, out.1) ])
          (none, t)
      → out ≡ (none, t)
  none-of-wrapped f (none, r) t h = h
  none-of-wrapped f (some x, r) t h = cc

  append_rows_one :
      (e : Envelope) (s t : Db)
      → append_rows std server 0 (e ∷ []) s ≡ (none, t)
      → exec std server (insert_outbox e) (add_outbox server.now (as_stored std e)) s ≡ (none, t)
  unfolding append_rows
  append_rows_one e s t h =
      none-of-wrapped _
        (exec std server (insert_outbox e) (add_outbox server.now (as_stored std e)) s) t h

  closed-eq-none :
      (close : Option Error) (out : Option Error × Db) (t : Db)
      → closed std server close out ≡ (none, t)
      → out ≡ (none, t)
  unfolding closed
  closed-eq-none close (some x, r) t h = cc
  closed-eq-none none (none, r) t h = h
  closed-eq-none (some e) (none, r) t h = cc

  -- A row that waits for the relay and that no pass has seen; its payload is what JSONB makes of the
  -- text.
  abbrev pub pending_row : ℕ → ℤ → Envelope → OutboxRow
  pending_row id now e = record {
    id = id;
    envelope = record e { payload = std.jsonb e.payload };
    status = pending;
    attempts = 0;
    available_at = now;
    last_error = none;
    published_at = none;
  }

  -- What a transaction that has saved the user `u` and its event leaves of the tables.
  pub record Adds (meta : Metadata) (u : User) (s t : Db) : Type 0 where
    pub envelope : Envelope
    pub carries : Carries std uow.codec uow.ids meta 0 (announcement u) envelope
    pub users : t.users ≡ s.users ++ user_row u ∷ []
    pub outbox : t.outbox ≡ s.outbox ++ pending_row s.next_id server.now envelope ∷ []
    pub next_id : t.next_id ≡ suc s.next_id
    pub new_user : has_user_id u.id s.users ≡ false
    pub new_email : has_email u.email.value s.users ≡ false
    pub new_event : has_event_id envelope.event_id s.outbox ≡ false

  append_one :
      (meta : Metadata) (event : Event) (es : List Envelope) (s t : Db)
      → CarriesAll std uow.codec uow.ids meta 0 (event ∷ []) es
      → append std server uow.close es s ≡ (none, t)
      → (e : Envelope) × Carries std uow.codec uow.ids meta 0 event e
        × (add_outbox server.now (as_stored std e) s ≡ (none, t))
  unfolding append
  append_one meta event [] s t c h = elim c [ ]
  append_one meta event (e ∷ f ∷ es) s t (_, c) h = elim c [ ]
  append_one meta event (e ∷ []) s t (c, _) h = (
    e,
    c,
    exec-eq-none std server (insert_outbox e) (add_outbox server.now (as_stored std e)) s t
        (append_rows_one e s t (closed-eq-none uow.close _ t h)),
  )

  append_events_one :
      (meta : Metadata) (event : Event) (s t : Db) (w w' : Session)
      → append_events std uow meta (event ∷ []) s w ≡ (none, t, w')
      → (e : Envelope) × Carries std uow.codec uow.ids meta 0 event e
        × (add_outbox server.now (as_stored std e) s ≡ (none, t))
  unfolding append_events
  append_events_one meta event s t w w' h =
      go (envelopes_from std uow.codec uow.ids meta 0 (event ∷ [])) refl h
    where
      go :
          (r : Result (List Envelope))
          → envelopes_from std uow.codec uow.ids meta 0 (event ∷ []) ≡ r
          → ◌≡◌ {A = Option Error × Db × Session}
              (elim r [
                | err e ↦ (some e, s, w)
                | ok envelopes ↦
                    let (failed, db') = append std server uow.close envelopes s in (failed, db', w)
              ])
              (none, t, w')
          → (e : Envelope) × Carries std uow.codec uow.ids meta 0 event e
            × (add_outbox server.now (as_stored std e) s ≡ (none, t))
      go (err x) eq k = cc
      go (ok es) eq k =
          append_one meta event es s t
            (envelopes_from-CarriesAll std uow.codec uow.ids meta 0 (event ∷ []) es eq) (cc)

  drain_events_one :
      (meta : Metadata) (event : Event) (s t : Db) (w w' : Session)
      → (drain w.tracked w.heap).0 ≡ event ∷ []
      → drain_events std uow meta (none, s, w) ≡ (none, t, w')
      → (e : Envelope) × Carries std uow.codec uow.ids meta 0 event e
        × (add_outbox server.now (as_stored std e) s ≡ (none, t))
  unfolding drain_events
  drain_events_one meta event s t w w' drained h =
      append_events_one meta event s t
        (record w { heap = (drain w.tracked w.heap).1; tracked = [] }) w'
        (subst
          (λ es.
            append_events std uow meta es s
              (record w { heap = (drain w.tracked w.heap).1; tracked = [] })
            ≡ (none, t, w'))
          drained h)

  unfoldable pub fresh_session : User → Session
  fresh_session u = record { heap = λ _. u; tracked = [] }

  drain-track :
      (u : User) (event : Event) (w : Session)
      → u.events ≡ event ∷ []
      → w ≡ record (fresh_session u) { tracked = track (fresh_session u).tracked 0 }
      → (drain w.tracked w.heap).0 ≡ event ∷ []
  unfolding drain track fresh_session
  drain-track u event w one eq = ap (λ w. (drain w.tracked w.heap).0) eq ∙ ap (λ es. es ++ []) one

  after_insert :
      (meta : Metadata) (u : User) (s r t : Db) (w w' : Session)
      → u.events ≡ announcement u ∷ []
      → save std server 0 s (fresh_session u) ≡ (none, r, w)
      → drain_events std uow meta (none, r, w) ≡ (none, t, w')
      → Adds meta u s t
  unfolding save fresh_session new_row
  after_insert meta u s r t w w' one saving h =
      let (ran, session) = saved-eq-none u _ (fresh_session u) w r saving in
      let (inserted, new_user, new_email) =
        add_user-eq-none (user_row u) s r
          (exec-eq-none std server (insert_user (user_row u)) (add_user (user_row u)) s r ran) in
      let (e, carries, appended) =
        drain_events_one meta (announcement u) r t w w'
          (drain-track u (announcement u) w one session) h in
      let (added, new_event) = add_outbox-eq-none server.now (as_stored std e) r t appended in
      record {
        envelope = e;
        carries = carries;
        users = ap (λ d. d.users) added ∙ ap (λ d. d.users) inserted;
        outbox =
            ap (λ d. d.outbox) added
            ∙ ap (λ (d : Db). d.outbox ++ new_row d.next_id server.now (as_stored std e) ∷ [])
                inserted;
        next_id = ap (λ d. d.next_id) added ∙ ap (λ (d : Db). suc d.next_id) inserted;
        new_user = new_user;
        new_email = new_email;
        new_event = subst (λ (d : Db). has_event_id e.event_id d.outbox ≡ false) inserted new_event;
      }

  pub after_save :
      (meta : Metadata) (u : User) (s t : Db) (out : Option Error × Db × Session) (w' : Session)
      → u.events ≡ announcement u ∷ []
      → save std server 0 s (fresh_session u) ≡ out
      → drain_events std uow meta out ≡ (none, t, w')
      → Adds meta u s t
  unfolding drain_events
  after_save meta u s t (none, r, w) w' one saving h = after_insert meta u s r t w w' one saving h
  after_save meta u s t (some e, r, w) w' one saving h = cc
