-- ===== src/Backoff/Laws.antt =====
-- The schedule against its formula, min(limit, base · 2^n).
use outboxexpress.Common.{
  ℕ, zero, suc, ◌+◌, ◌*◌, ◌^◌, ◌/◌, ◌%◌, ◌≤◌, ◌<◌, ◌≡◌, refl, inl, inr, arith, if◌then◌else◌, leb,
  Bool-cases,
}
use outboxexpress.Common.Int.{pos, min_ℤ, double64, ◌≤ℤ◌}
use outboxexpress.Backoff.{Exponential, grow, delay_after}
use native.Mathlib.Nat.{pow-suc, pow-zero}

-- The doubling with no saturation, on natural numbers of any size.
abbrev pub ideal : ℕ → ℕ → ℕ → ℕ
ideal limit base n = if leb limit (base * 2 ^ n) then limit else base * 2 ^ n

-- A delay between the formula's value and one nanosecond above it, and not above the limit.
pub record Follows (limit base n : ℕ) (delay : ℕ) : Type 0 where
  pub at_least : ideal limit base n ≤ delay
  pub at_most : delay ≤ ideal limit base n + 1
  pub capped : delay ≤ limit
  pub exact : limit % 2 ≡ 0 → delay ≡ ideal limit base n

double64_pos : (d : ℕ) → 2 * d < 2 ^ 63 → double64 (pos d) ≡ pos (2 * d)
double64_pos d h = ground arith

pub le-mul-pow : (d n : ℕ) → d ≤ d * 2 ^ n
le-mul-pow d zero = omega (arith, pow-zero 2)
le-mul-pow d (suc n) = rw (pow-suc 2 n) (omega (arith, le-mul-pow d n))

-- The last step of the loop, at or above half the limit.
Follows-cap : (limit d n : ℕ) → 0 < d → d ≤ limit → limit / 2 ≤ d → Follows limit d (suc n) limit
Follows-cap limit d n positive below high =
    let power = pow-suc 2 n in
    let grown = le-mul-pow d n in
    let wide : 2 * d ≤ d * 2 ^ suc n = rw power (omega (arith, grown)) in
    record {
      at_least = ground arith;
      at_most = ground arith;
      capped = omega arith;
      exact = λ even. ground arith;
    }

-- A step below half the limit.
Follows-double : (limit d n r : ℕ) → Follows limit (2 * d) n r → Follows limit d (suc n) r
Follows-double limit d n r h =
    let same : d * 2 ^ suc n ≡ 2 * d * 2 ^ n = rw (pow-suc 2 n) (omega arith) in
    record {
      at_least = rw same (h.at_least);
      at_most = rw same (h.at_most);
      capped = h.capped;
      exact = rw same (h.exact);
    }

Follows-zero : (limit d : ℕ) → d ≤ limit → Follows limit d 0 d
Follows-zero limit d below =
    let one : d * 2 ^ 0 ≡ d = omega arith in
    record {
      at_least = rw one (ground arith);
      at_most = rw one (ground arith);
      capped = below;
      exact = rw one (λ _. ground arith);
    }

-- The loop from a positive delay that is not above the limit.
grow-Follows :
    (limit n d : ℕ)
    → limit < 2 ^ 63
    → 0 < d
    → d ≤ limit
    → (r : ℕ) × (grow (pos limit) n (pos d) ≡ pos r) × Follows limit d n r
unfolding grow
grow-Follows limit zero d fits positive below = (d, refl, Follows-zero limit d below)
grow-Follows limit (suc n) d fits positive below = elim (Bool-cases (leb (limit / 2) d)) [
  | inl high ↦ (limit, ground arith, Follows-cap limit d n positive below (ground arith))
  | inr low ↦
      let room : 2 * d < limit = ground arith in
      let (r, e, f) = grow-Follows limit n (2 * d) fits (omega arith) (omega arith) in
      (r, ground (arith, double64_pos d), Follows-double limit d n r f)
]

Follows-min : (limit base n r : ℕ) → limit < base → Follows limit limit n r → Follows limit base n r
Follows-min limit base n r over h =
    let a = le-mul-pow limit n in
    let b = le-mul-pow base n in
    record {
      at_least = ground arith;
      at_most = ground arith;
      capped = h.capped;
      exact = ground arith;
    }

min_below : (a b : ℕ) → a ≤ b → min_ℤ (pos a) (pos b) ≡ pos a
min_below a b h = ground arith

min_above : (a b : ℕ) → b < a → min_ℤ (pos a) (pos b) ≡ pos b
min_above a b h = ground arith

-- Before the jitter the delay is min(limit, base · 2^n) when the limit is even, and is at most one
-- nanosecond above that and never above the limit when it is odd; no doubling overflows an int64.
pub delay_after-Follows :
    (e : Exponential) (base limit n : ℕ)
    → e.base ≡ pos base
    → e.cap ≡ pos limit
    → 0 < base
    → 0 < limit
    → limit < 2 ^ 63
    → (r : ℕ) × (delay_after e n ≡ pos r) × Follows limit base n r
unfolding delay_after
delay_after-Follows e base limit n eb ec hb hc fits = elim (Bool-cases (leb base limit)) [
  | inl below ↦
      rw (eb, ec, min_below base limit (ground arith))
        (grow-Follows limit n base fits hb (ground arith))
  | inr over ↦
      let (r, g, f) = grow-Follows limit n limit fits hc (omega arith) in
      rw (eb, ec, min_above base limit (ground arith))
        (r, g, Follows-min limit base n r (ground arith) f)
]

-- A later attempt never waits less before the jitter.
pub delay_after-mono :
    (e : Exponential) (base limit n : ℕ)
    → e.base ≡ pos base
    → e.cap ≡ pos limit
    → 0 < base
    → 0 < limit
    → limit < 2 ^ 63
    → delay_after e n ≤ℤ delay_after e (suc n)
delay_after-mono e base limit n eb ec hb hc fits =
    let (r, er, fr) = delay_after-Follows e base limit n eb ec hb hc fits in
    let (q, eq, fq) = delay_after-Follows e base limit (suc n) eb ec hb hc fits in
    let grown = le-mul-pow base n in
    let next : base * 2 ^ suc n ≡ 2 * (base * 2 ^ n) = rw (pow-suc 2 n) (omega arith) in
    rw (er, eq) (ground (arith, fr.at_most, fr.capped, fq.at_least))
