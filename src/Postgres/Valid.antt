-- ===== src/Postgres/Valid.antt =====
-- Every statement of the repositories keeps the tables valid and never takes the sequence back,
-- whatever it answers.
use outboxexpress.Common.{
  ℕ, suc, ◌≡◌, ◌≢◌, ◌≤◌, ◌<◌, sym, ap, ◌∙◌, inl, inr, false, List, [], ◌∷◌, ◌++◌, String, All,
  Pairs, All-imp, All-append, Pairs-append, arith, ◌==◌, eq_iff, Bool-cases,
}
use outboxexpress.Common.Int.{ℤ}
use outboxexpress.Envelope.{Envelope}
use outboxexpress.Outbox.{OutboxRow}
use outboxexpress.Outbox.Table.{update_where}
use outboxexpress.Postgres.Db.{
  Db, UserRow, IsValid, new_row, add_user, add_outbox, has_user_id, has_email, has_event_id,
  rollback,
}

-- Valid tables that come after `s`.
pub record Grown (s t : Db) : Type 0 where
  pub valid : IsValid t
  pub ahead : s.next_id ≤ t.next_id

pub Grown-refl : (s : Db) → IsValid s → Grown s s
Grown-refl s v = record { valid = v; ahead = omega arith }

pub Grown-trans : (s t u : Db) → Grown s t → Grown t u → Grown s u
Grown-trans s t u g h = record { valid = h.valid; ahead = omega (arith, g.ahead, h.ahead) }

fresh_ahead :
    (n m : ℕ) (rows : List OutboxRow) → n ≤ m → All (λ r. r.id < n) rows → All (λ r. r.id < m) rows
fresh_ahead n m rows le = All-imp (λ r. r.id < n) (λ r. r.id < m) (λ r h. omega (arith, h)) rows

-- A rollback to valid tables, with a sequence that is ahead.
pub rollback-Grown : (s t : Db) → IsValid s → s.next_id ≤ t.next_id → Grown s (rollback s t)
rollback-Grown s t v ahead = record {
  valid = record {
    fresh = fresh_ahead s.next_id t.next_id s.outbox ahead v.fresh;
    ordered = v.ordered;
    event_ids = v.event_ids;
    user_ids = v.user_ids;
    emails = v.emails;
  };
  ahead = ahead;
}

module _ (id : ℕ) (f : OutboxRow → OutboxRow) where
  pub All-update_where {κ} :
      (P : OutboxRow → Type κ) (rows : List OutboxRow)
      → ((r : OutboxRow) → P r → P (f r))
      → All P rows
      → All P (update_where id f rows)
  unfolding update_where
  All-update_where P [] keeps h = tt
  All-update_where P (r ∷ rs) keeps h = elim (Bool-cases (r.id == id)) [
    | inl e ↦ rw e (keeps r h.0, All-update_where P rs keeps h.1)
    | inr e ↦ rw e (h.0, All-update_where P rs keeps h.1)
  ]

  -- For a relation that the write keeps on either side.
  pub Pairs-update_where {κ} :
      (R : OutboxRow → OutboxRow → Type κ) (rows : List OutboxRow)
      → ((r q : OutboxRow) → R r q → R (f r) q)
      → ((r q : OutboxRow) → R r q → R r (f q))
      → Pairs R rows
      → Pairs R (update_where id f rows)
  unfolding update_where
  Pairs-update_where R [] left right h = tt
  Pairs-update_where R (r ∷ rs) left right h =
      let rest = Pairs-update_where R rs left right h.1 in
      elim (Bool-cases (r.id == id)) [
        | inl e ↦ rw e (
          All-update_where (R (f r)) rs (right (f r)) (All-imp (R r) (R (f r)) (left r) rs h.0),
          rest,
        )
        | inr e ↦ rw e (All-update_where (R r) rs (right r) h.0, rest)
      ]

-- A write that keeps the id and the envelope of a row.
pub record Keeps (f : OutboxRow → OutboxRow) : Type 0 where
  pub same_id : (r : OutboxRow) → (f r).id ≡ r.id
  pub same_envelope : (r : OutboxRow) → (f r).envelope ≡ r.envelope

pub update_where-Grown :
    (id : ℕ) (f : OutboxRow → OutboxRow) (s : Db)
    → Keeps f
    → IsValid s
    → Grown s (record s { outbox = update_where id f s.outbox })
update_where-Grown id f s k v = record {
  valid = record {
    fresh =
        All-update_where id f (λ r. r.id < s.next_id) s.outbox
          (λ r h. omega (arith, h, k.same_id r)) v.fresh;
    ordered =
        Pairs-update_where id f (λ r q. r.id < q.id) s.outbox
          (λ r q h. omega (arith, h, k.same_id r)) (λ r q h. omega (arith, h, k.same_id q))
          v.ordered;
    event_ids =
        Pairs-update_where id f (λ r q. r.envelope.event_id ≢ q.envelope.event_id) s.outbox
          (λ r q h e. h (ap (λ (x : Envelope). x.event_id) (sym (k.same_envelope r)) ∙ e))
          (λ r q h e. h (e ∙ ap (λ (x : Envelope). x.event_id) (k.same_envelope q))) v.event_ids;
    user_ids = v.user_ids;
    emails = v.emails;
  };
  ahead = omega arith;
}

user_id_is_new : (id : ℕ) (us : List UserRow) → has_user_id id us ≡ false → All (λ u. u.id ≢ id) us
unfolding has_user_id
user_id_is_new id [] h = tt
user_id_is_new id (u ∷ us) h = (ground arith, user_id_is_new id us (ground arith))

email_is_new : (e : String) (us : List UserRow) → has_email e us ≡ false → All (λ u. u.email ≢ e) us
unfolding has_email
email_is_new e [] h = tt
email_is_new e (u ∷ us) h = (ground (arith, eq_iff u.email e), email_is_new e us (ground arith))

event_id_is_new :
    (id : ℕ) (rs : List OutboxRow)
    → has_event_id id rs ≡ false
    → All (λ r. r.envelope.event_id ≢ id) rs
unfolding has_event_id
event_id_is_new id [] h = tt
event_id_is_new id (r ∷ rs) h = (ground arith, event_id_is_new id rs (ground arith))

pub appended_user :
    (u : UserRow) (s : Db)
    → has_user_id u.id s.users ≡ false
    → has_email u.email s.users ≡ false
    → IsValid s
    → IsValid (record s { users = s.users ++ u ∷ [] })
appended_user u s id email v = record {
  fresh = v.fresh;
  ordered = v.ordered;
  event_ids = v.event_ids;
  user_ids =
      Pairs-append (λ a b. a.id ≢ b.id) s.users u v.user_ids (user_id_is_new u.id s.users id);
  emails =
      Pairs-append (λ a b. a.email ≢ b.email) s.users u v.emails
        (email_is_new u.email s.users email);
}

pub appended_row :
    (now : ℤ) (e : Envelope) (s : Db)
    → has_event_id e.event_id s.outbox ≡ false
    → IsValid s
    → IsValid
        (record s { outbox = s.outbox ++ new_row s.next_id now e ∷ []; next_id = suc s.next_id })
unfolding new_row
appended_row now e s id v = record {
  fresh =
      All-append (λ r. r.id < suc s.next_id) s.outbox (new_row s.next_id now e ∷ [])
        (omega arith, tt) (fresh_ahead s.next_id (suc s.next_id) s.outbox (omega arith) v.fresh);
  ordered = Pairs-append (λ r q. r.id < q.id) s.outbox (new_row s.next_id now e) v.ordered v.fresh;
  event_ids =
      Pairs-append (λ r q. r.envelope.event_id ≢ q.envelope.event_id) s.outbox
        (new_row s.next_id now e) v.event_ids (event_id_is_new e.event_id s.outbox id);
  user_ids = v.user_ids;
  emails = v.emails;
}

pub add_user-Grown : (u : UserRow) (s : Db) → IsValid s → Grown s (add_user u s).1
unfolding add_user
add_user-Grown u s v = elim (Bool-cases (has_user_id u.id s.users)) [
  | inl e ↦ rw e (Grown-refl s v)
  | inr e ↦ elim (Bool-cases (has_email u.email s.users)) [
    | inl f ↦ rw (e, f) (Grown-refl s v)
    | inr f ↦ rw (e, f) (record { valid = appended_user u s e f v; ahead = omega arith })
  ]
]

pub add_outbox-Grown :
    (now : ℤ) (e : Envelope) (s : Db) → IsValid s → Grown s (add_outbox now e s).1
unfolding add_outbox
add_outbox-Grown now e s v = elim (Bool-cases (has_event_id e.event_id s.outbox)) [
  | inl h ↦ rw h (rollback-Grown s (record s { next_id = suc s.next_id }) v (omega arith))
  | inr h ↦ rw h (record { valid = appended_row now e s h v; ahead = omega arith })
]
