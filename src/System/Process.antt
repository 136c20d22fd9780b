-- ===== src/System/Process.antt =====
-- The relay's loop (presentation/worker/relay.go) with the pass that it drives, and the purge's loop
-- (application/purge_published.go) with its pages: what they do to the service is a run of its steps.
use outboxexpress.Common.{
  ℕ, zero, suc, ltb, subst, ◌≡◌, refl, ap, inl, inr, Bool, true, false, Option, none, some, List,
  [], ◌∷◌, ◌++◌, All, if◌then◌else◌, Bool-cases, Option-cases,
}
use outboxexpress.Domain.Std.{Std}
use outboxexpress.Errors.{Error, Result-cases}
use outboxexpress.Messaging.{Codec, Message}
use outboxexpress.Envelope.{UserRegisteredData}
use outboxexpress.Postgres.Db.{Db, Server, Grabs}
use outboxexpress.Postgres.Purge.{outbox_purger, purge_published}
use outboxexpress.Purge.{PurgePublished, PurgeResult, add_page, pages}
use outboxexpress.Publish.{PublishPendingBatch, Pass}
use outboxexpress.Publish.{execute as execute_pass}
use outboxexpress.System.{
  System, relay_on, relayed, purged, purge, Restores, relay, Reach, here, next,
}
use outboxexpress.Worker.Relay.{Relay, Action, Round, Waking, one_round, run_rounds}

-- What one round of the relay meets: the parts of its pass, and what a Round has beside the result.
pub record Turn : Type 0 where
  pub server : Server
  pub uc : PublishPendingBatch Db
  pub readings : ℕ
  pub ended_before : Bool
  pub ended_after : Bool
  pub grace_expired : Bool
  pub waking : Waking
  pub usage : Option ℕ

pub Reach-trans :
    (std : Std) (codec : Codec UserRegisteredData) (s t u : System)
    → Reach std codec s t
    → Reach std codec t u
    → Reach std codec s u
Reach-trans std codec s t u run here = run
Reach-trans std codec s t u run (next {s = v} more step) =
    next (Reach-trans std codec s t v run more) step

module _ (std : Std) (codec : Codec UserRegisteredData) where
  -- `r.publish.Execute(pass)`
  unfoldable pub pass_of : Turn → System → Option Error × Db × Pass
  pass_of turn s =
      execute_pass std (relay_on std codec turn.server turn.uc) s.acked turn.readings s.db

  unfoldable pub round_of : Turn → System → Round
  unfolding pass_of
  round_of turn s = record {
    ended_before = turn.ended_before;
    ended_after = turn.ended_after;
    grace_expired = turn.grace_expired;
    res = ((pass_of turn s).2).result;
    err = (pass_of turn s).0;
    waking = turn.waking;
    usage = turn.usage;
  }

  -- A round that finds its context ended executes no pass.
  unfoldable pub after_turn : Turn → System → System
  unfolding relayed
  after_turn turn s =
      if turn.ended_before then s else relayed std codec turn.server turn.uc turn.readings s

  -- Run with its passes: the actions, whether it has returned, and the service then.
  unfoldable pub process : Relay → List Turn → System → List Action × Bool × System
  unfolding round_of after_turn
  process r [] s = ([], false, s)
  process r (turn ∷ turns) s = elim ((one_round r (round_of turn s)).0) [
    | none ↦ ((one_round r (round_of turn s)).1, true, after_turn turn s)
    | some r' ↦
        let (acts, returned, t) = process r' turns (after_turn turn s) in
        ((one_round r (round_of turn s)).1 ++ acts, returned, t)
  ]

  -- The rounds that the turns are, each on the state that the turns before it have left.
  unfoldable pub rounds_of : List Turn → System → List Round
  unfolding round_of after_turn
  rounds_of [] s = []
  rounds_of (turn ∷ turns) s = round_of turn s ∷ rounds_of turns (after_turn turn s)

  -- A relay of this service does and logs what its loop does over the rounds that its passes make.
  pub process-run_rounds :
      (r : Relay) (turns : List Turn) (s : System)
      → ((process r turns s).0, (process r turns s).1) ≡ run_rounds r (rounds_of turns s)
  unfolding process rounds_of run_rounds
  process-run_rounds r [] s = refl
  process-run_rounds r (turn ∷ turns) s = elim (Option-cases (one_round r (round_of turn s)).0) [
    | inl stops ↦ rw (process, rounds_of, run_rounds, stops) refl
    | inr (r', goes) ↦
        rw (process, rounds_of, run_rounds, goes)
          (ap (λ (x : List Action × Bool). ((one_round r (round_of turn s)).1 ++ x.0, x.1))
            (process-run_rounds r' turns (after_turn turn s)))
  ]

  abbrev pub IsPlausible : Turn → Type 0
  IsPlausible turn = Restores std codec turn.uc.uow × Grabs turn.server

  after_turn-Reach :
      (turn : Turn) (s : System) → IsPlausible turn → Reach std codec s (after_turn turn s)
  unfolding after_turn
  after_turn-Reach turn s (restores, grabs) = elim (Bool-cases turn.ended_before) [
    | inl ended ↦ rw (after_turn, ended) here
    | inr on ↦
        rw (after_turn, on) (next here (relay s turn.server turn.uc turn.readings restores grabs))
  ]

  -- All that a relay does to the service, over any number of rounds, is a run of its steps.
  pub process-Reach :
      (r : Relay) (turns : List Turn) (s : System)
      → All IsPlausible turns
      → Reach std codec s (process r turns s).2
  unfolding process
  process-Reach r [] s h = here
  process-Reach r (turn ∷ turns) s h = elim (Option-cases (one_round r (round_of turn s)).0) [
    | inl stops ↦ rw (process, stops) (after_turn-Reach turn s h.0)
    | inr (r', goes) ↦
        rw (process, goes)
          (Reach-trans std codec s (after_turn turn s) _ (after_turn-Reach turn s h.0)
            (process-Reach r' turns (after_turn turn s) h.1))
  ]

module _ (std : Std) (codec : Codec UserRegisteredData) (server : Server) (uc : PurgePublished)
    (ctx : ℕ → Option Error) (acked : List Message) where
  abbrev with_db : Db → System
  with_db db = record { db = db; acked = acked }

  abbrev Reaches : Db → Option (Option Error × PurgeResult × Db) → Type 0
  Reaches s none = Unit
  Reaches s (some out) = Reach std codec (with_db s) (with_db (out.2))

  page-Reach :
      (s : Db)
      → Reach std codec (with_db s) (with_db (purge_published server uc.retention uc.batch s).1)
  unfolding purged
  page-Reach s = next here (purge (with_db s) server uc.retention uc.batch)

  Reaches-page :
      (s : Db) (out : Option (Option Error × PurgeResult × Db))
      → Reaches (purge_published server uc.retention uc.batch s).1 out
      → Reaches s out
  Reaches-page s none h = tt
  Reaches-page s (some out) h = Reach-trans std codec (with_db s) _ _ (page-Reach s) h

  pages-Reaches :
      (fuel n : ℕ) (res : PurgeResult) (s : Db)
      → Reaches s (pages (outbox_purger server) uc ctx fuel n res s)
  unfolding pages
  pages-Reaches zero n res s = tt
  pages-Reaches (suc fuel) n res s = elim (Option-cases (ctx n)) [
    | inr (e, ended) ↦ rw (pages, ended) here
    | inl going ↦ elim (Result-cases (purge_published server uc.retention uc.batch s).0) [
      | inr (e, refused) ↦ rw (pages, going, refused) (page-Reach s)
      | inl (k, deleted) ↦ elim (Bool-cases (ltb k uc.batch)) [
        | inl short ↦ rw (pages, going, deleted, short) (page-Reach s)
        | inr full ↦
            rw (pages, going, deleted, full)
              (Reaches-page s _ (pages-Reaches fuel (suc n) (add_page k res) _))
      ]
    ]
  ]

  -- A run of the purge, however it ends, is one step of the service for each page that it asks for.
  pub pages-Reach :
      (fuel n : ℕ) (res : PurgeResult) (s : Db) (out : Option Error × PurgeResult × Db)
      → pages (outbox_purger server) uc ctx fuel n res s ≡ some out
      → Reach std codec (with_db s) (with_db (out.2))
  pages-Reach fuel n res s out h = subst (Reaches s) h (pages-Reaches fuel n res s)
