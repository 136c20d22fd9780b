-- ===== src/Worker/Relay/Idle.antt =====
-- The waits of the loop: their range, and the idle ladder.
use outboxexpress.Common.{
  ℕ, suc, ◌*◌, ◌^◌, ◌<◌, ◌≤◌, ◌≡◌, refl, ◌↔◌, inl, inr, true, false, List, [], ◌∷◌, arith, leb,
  if◌then◌else◌, Bool-cases, All, length, ap, ◌∙◌,
}
use outboxexpress.Common.Int.{ℤ, pos, ◌≤ℤ◌, ◌<ℤ◌, min_ℤ, double64}
use native.Mathlib.Nat.{pow-suc}
use outboxexpress.Backoff.Laws.{le-mul-pow}
use outboxexpress.Publish.{PublishResult, is_full}
use outboxexpress.Worker.Relay.{Relay, RelayPolicy, next_wait, some_transient}

-- A policy with a positive minimum, not above the maximum, whose double fits an int64.
pub record IsSane (p : RelayPolicy) : Type 0 where
  pub positive : pos 0 <ℤ p.idle_min
  pub ordered : p.idle_min ≤ℤ p.idle_max
  pub fits : p.idle_max <ℤ pos (2 ^ 62)

-- The idle backoff lies between the policy's bounds.
abbrev pub InRange : Relay → Type 0
InRange r = (r.policy.idle_min ≤ℤ r.idle) × (r.idle ≤ℤ r.policy.idle_max)

next_idle : ℤ → ℤ → ℤ
next_idle idle top = min_ℤ (double64 idle) top

next_idle-bounds :
    (idle low top : ℤ)
    → pos 0 <ℤ low
    → low ≤ℤ idle
    → idle ≤ℤ top
    → top <ℤ pos (2 ^ 62)
    → (low ≤ℤ next_idle idle top) × (next_idle idle top ≤ℤ top)
unfolding next_idle
next_idle-bounds (pos i) (pos l) (pos t) a b c d = ground arith
next_idle-bounds _ _ _ a b c d = ground arith

-- Whatever a pass returns, the idle backoff stays in the policy's range, the wait is at least 0 and
-- at most the policy's maximum, and it is 0 exactly when the pass filled its batch.
pub next_wait-InRange :
    (r : Relay) (res : PublishResult)
    → IsSane r.policy
    → InRange r
    → InRange (next_wait r res).0
      × (pos 0 ≤ℤ (next_wait r res).1)
      × ((next_wait r res).1 ≤ℤ r.policy.idle_max)
      × (((next_wait r res).1 ≡ pos 0) ↔ (is_full res ≡ true))
unfolding next_wait next_idle
next_wait-InRange r res sane h = ground (
  arith,
  next_idle-bounds r.idle r.policy.idle_min r.policy.idle_max sane.positive h.0 h.1 sane.fits,
)

-- A pass that found nothing.
pub record IsIdle (res : PublishResult) : Type 0 where
  pub not_full : is_full res ≡ false
  pub none_transient : some_transient res.transient ≡ false
  pub none_claimed : res.claimed ≡ 0

-- The relay after these passes, with no wakeup between them.
pub next_waits : Relay → List PublishResult → Relay
next_waits r [] = r
next_waits r (res ∷ more) = next_waits (next_wait r res).0 more

abbrev pub ladder : ℕ → ℕ → ℕ → ℕ
ladder top i n = if leb top (i * 2 ^ n) then top else i * 2 ^ n

next_wait-IsIdle :
    (r : Relay) (res : PublishResult) (top i : ℕ)
    → r.policy.idle_max ≡ pos top
    → top < 2 ^ 62
    → r.idle ≡ pos i
    → i ≤ top
    → IsIdle res
    → ((next_wait r res).0.idle ≡ pos (if leb top (2 * i) then top else 2 * i))
      × ((next_wait r res).0.policy ≡ r.policy)
unfolding next_wait
next_wait-IsIdle r res top i et fits ei below idle = ground (arith, idle)

ladder-step :
    (top i n : ℕ)
    → i ≤ top
    → 0 < i
    → ladder top (if leb top (2 * i) then top else 2 * i) n ≡ ladder top i (suc n)
ladder-step top i n below positive =
    let a = le-mul-pow top n in
    let b = le-mul-pow (2 * i) n in
    let c : i * 2 ^ suc n ≡ 2 * i * 2 ^ n = rw (pow-suc 2 n) (omega arith) in
    rw c (elim (Bool-cases (leb top (2 * i))) [ inl e ↦ rw e (ground arith) | inr e ↦ rw e refl ])

-- After n passes that found nothing the idle backoff has doubled n times, up to the maximum.
pub next_waits-ladder :
    (r : Relay) (results : List PublishResult) (top i : ℕ)
    → r.policy.idle_max ≡ pos top
    → top < 2 ^ 62
    → r.idle ≡ pos i
    → i ≤ top
    → 0 < i
    → All IsIdle results
    → (next_waits r results).idle ≡ pos (ladder top i (length results))
unfolding next_waits
next_waits-ladder r [] top i et fits ei below positive h =
    ei ∙ ap pos (let one : i * 2 ^ 0 ≡ i = omega arith in rw one (ground arith))
next_waits-ladder r (res ∷ more) top i et fits ei below positive h =
    let (next, kept) = next_wait-IsIdle r res top i et fits ei below h.0 in
    next_waits-ladder (next_wait r res).0 more top (if leb top (2 * i) then top else 2 * i)
      (ap (λ (p : RelayPolicy). p.idle_max) kept ∙ et) fits next (ground arith) (ground arith) h.1
    ∙ ap pos (ladder-step top i (length more) below positive)
