-- ===== src/System/Sound.antt =====
-- What the proofs of the three kinds of step share.
use mathlib.Core.List.{Memᴰ}
use mathlib.Core.List.Memᴰ.{append_left}
use outboxexpress.Common.{
  ℕ, ◌≡◌, refl, inl, inr, some, Option, List, [], ◌∷◌, ◌++◌, All, Bool-cases, ◌==◌, arith, sym,
  subst,
}
use outboxexpress.Messaging.{Message}
use outboxexpress.Envelope.{Envelope}
use outboxexpress.Outbox.{OutboxRow}
use outboxexpress.Outbox.Table.{find, update_where}
use outboxexpress.Postgres.Valid.{Keeps}
use outboxexpress.System.{envelopes}

-- Nothing that was acknowledged is forgotten.
abbrev pub Extends : List Message → List Message → Type 0
Extends a b = (m : Message) → Memᴰ m a → Memᴰ m b

pub Extends-append : (a b : List Message) → Extends a (a ++ b)
Extends-append a b m h = append_left b h

pub All-mem {ℓ κ} : {A : Type ℓ} (P : A → Type κ) {x : A} {xs : List A} → Memᴰ x xs → All P xs → P x
All-mem P (Memᴰ.head e) h = subst P (sym e) h.0
All-mem P (Memᴰ.tail m) h = All-mem P m h.1

pub All-from-mem {ℓ κ} :
    {A : Type ℓ} (P : A → Type κ) (xs : List A) → ((x : A) → Memᴰ x xs → P x) → All P xs
All-from-mem P [] f = tt
All-from-mem P (x ∷ xs) f = (f x (Memᴰ.head refl), All-from-mem P xs (λ y m. f y (Memᴰ.tail m)))

-- A write to the rows with an id, of which more is known.
pub All-update_where_at {κ} :
    (P : OutboxRow → Type κ) (id : ℕ) (f : OutboxRow → OutboxRow) (rows : List OutboxRow)
    → All (λ r. r.id ≡ id → P (f r)) rows
    → All P rows
    → All P (update_where id f rows)
unfolding update_where
All-update_where_at P id f [] written h = tt
All-update_where_at P id f (r ∷ rs) written h = elim (Bool-cases (r.id == id)) [
  | inl e ↦ rw e (written.0 (ground arith), All-update_where_at P id f rs written.1 h.1)
  | inr e ↦ rw e (h.0, All-update_where_at P id f rs written.1 h.1)
]

pub envelopes-update_where :
    (id : ℕ) (f : OutboxRow → OutboxRow) (rows : List OutboxRow)
    → Keeps f
    → envelopes (update_where id f rows) ≡ envelopes rows
unfolding update_where
envelopes-update_where id f [] k = refl
envelopes-update_where id f (r ∷ rs) k = elim (Bool-cases (r.id == id)) [
  | inl e ↦ rw (e, k.same_envelope r, envelopes-update_where id f rs k) refl
  | inr e ↦ rw (e, envelopes-update_where id f rs k) refl
]

pub find-All {κ} :
    (P : OutboxRow → Type κ) (rows : List OutboxRow) (id : ℕ) (r : OutboxRow)
    → All P rows
    → find rows id ≡ some r
    → P r
unfolding find
find-All P [] id r h e = cc
find-All P (q ∷ qs) id r h e = elim (Bool-cases (q.id == id)) [
  | inl here ↦
      let same : ◌≡◌ {A = Option OutboxRow} (some q) (some r) = rw here at e in
      let same' : q ≡ r = cc in subst P same' h.0
  | inr later ↦ find-All P qs id r h.1 (rw later at e)
]

pub All-envelopes {κ} :
    (P : Envelope → Type κ) (rows : List OutboxRow)
    → All P (envelopes rows)
    → All (λ r. P r.envelope) rows
All-envelopes P [] h = tt
All-envelopes P (r ∷ rs) h = (h.0, All-envelopes P rs h.1)

pub find-Memᴰ :
    (rows : List OutboxRow) (id : ℕ) (r : OutboxRow) → find rows id ≡ some r → Memᴰ r rows
unfolding find
find-Memᴰ [] id r e = cc
find-Memᴰ (q ∷ qs) id r e = elim (Bool-cases (q.id == id)) [
  | inl here ↦
      let same : ◌≡◌ {A = Option OutboxRow} (some q) (some r) = rw here at e in
      let same' : r ≡ q = cc in Memᴰ.head same'
  | inr later ↦ Memᴰ.tail (find-Memᴰ qs id r (rw later at e))
]
