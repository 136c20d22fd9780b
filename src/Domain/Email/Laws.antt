-- ===== src/Domain/Email/Laws.antt =====
-- What NewEmail accepts, and that it is a normal form.
use Prim.Native.Nat.{compare}
use Prim.Native.String.{◌++◌, len, slice, find}
use text.Mathlib.Text.{find?, when, is_le}
use text.Mathlib.TextFind.{Hit, find_cases}
use text.Mathlib.TextLemmas.{append_assoc}
use text.Mathlib.TextPositions.{len-append, slice-append_right}
use mathlib.Core.Option
use outboxexpress.Common.{
  Option-cases, subst, ℕ, ◌+◌, Bool, false, inl, inr, sym, ap, refl, ◌≤◌, String, ◌≡◌, ◌≢◌, ◌↔◌,
  Option, none, true, some, arith, eq_iff, ◌∙◌,
}
use outboxexpress.Errors.{ok, err, Error, sentinel, invalid_email}
use outboxexpress.Domain.Std.{Std, Normalises}
use outboxexpress.Domain.Email.{
  Email, max_email_length, domain_part, contains, has_dotted_domain, accept_parsed, accept_email,
  normal_email, new_email,
}

-- The text of an accepted address.
pub record IsAddress (std : Std) (s : String) : Type 0 where
  pub non_empty : s ≢ ""
  pub short : len s ≤ max_email_length
  pub bare : std.parse_address s ≡ some s
  pub dotted : has_dotted_domain s ≡ true

accept_parsed-eq-ok :
    (s : String) (o : Option String) (e : Email)
    → accept_parsed s o ≡ ok e
    → (o ≡ some s) × (has_dotted_domain s ≡ true) × (e.value ≡ s)
unfolding accept_parsed
accept_parsed-eq-ok s none e h = cc
accept_parsed-eq-ok s (some address) e h = ground (arith, eq_iff address s)

accept_email-IsAddress :
    (std : Std) (s : String) (e : Email)
    → accept_email std s ≡ ok e
    → IsAddress std s × (e.value ≡ s)
unfolding accept_email
accept_email-IsAddress std s e h =
    ground (arith, eq_iff s "", accept_parsed-eq-ok s (std.parse_address s) e)

IsAddress-accept_email :
    (std : Std) (s : String) → IsAddress std s → accept_email std s ≡ ok (record { value = s })
unfolding accept_email accept_parsed
IsAddress-accept_email std s h = rw (h.bare) (ground (arith, eq_iff s "", eq_iff s s))

-- NewEmail returns exactly the addresses whose text is the lower-cased, trimmed input, is not
-- empty, is at most 320 bytes long, is parsed to itself and has a dot after its "@".
pub new_email_iff :
    (std : Std) (raw : String) (e : Email)
    → (new_email std raw ≡ ok e) ↔ ((e.value ≡ normal_email std raw) × IsAddress std e.value)
unfolding new_email
new_email_iff std raw e = (
  λ h. let (a, v) = accept_email-IsAddress std (normal_email std raw) e h in (v, subst_value a v),
  λ (v, a). built v a,
)
  where
    subst_value :
        IsAddress std (normal_email std raw)
        → e.value ≡ normal_email std raw
        → IsAddress std e.value
    subst_value a v = record {
      non_empty = ground (arith, a.non_empty);
      short = ground (arith, a.short);
      bare = ground (arith, a.bare);
      dotted = ground (arith, a.dotted);
    }

    built :
        e.value ≡ normal_email std raw
        → IsAddress std e.value
        → accept_email std (normal_email std raw) ≡ ok e
    built v a = rw (← v) (IsAddress-accept_email std e.value a)

-- A text with an "@" and, after it, a dot.
abbrev pub IsDotted : String → Type 0
IsDotted s =
    (user : String) × (host : String) × (tail : String) × (s
      ≡ user ++ ("@" ++ (host ++ ("." ++ tail))))

find?-Hit : (s t : String) (k : ℕ) → find? s t ≡ some k → Hit s t × (k ≡ find s t)
find?-Hit s t k h = elim (find_cases s t) [
  | inl hit ↦ (hit, within (is_le (compare (find s t) (len s))) h)
  | inr miss ↦ absurd (ground (arith, miss))
]
  where
    within : (b : Bool) → when b (find s t) ≡ some k → k ≡ find s t
    within true e = cc
    within false e = cc

-- What stands after the first part.
after_part : (u t v : String) → slice (u ++ (t ++ v)) (len u + len t) (len (u ++ (t ++ v))) ≡ v
after_part u t v =
    ap (λ w. slice w (len u + len t) (len w)) (sym (append_assoc u t v))
    ∙ ap (λ k. slice ((u ++ t) ++ v) k (len ((u ++ t) ++ v))) (sym (len-append u t))
    ∙ ap (slice ((u ++ t) ++ v) (len (u ++ t))) (len-append (u ++ t) v)
    ∙ slice-append_right (u ++ t) v

dots :
    (d : String)
    → contains d "." ≡ true
    → (host : String) × (tail : String) × (d ≡ host ++ ("." ++ tail))
unfolding contains
dots d h = elim (Option-cases (find? d ".")) [
  | inl missing ↦ absurd (cc (rw (missing, contains) at h))
  | inr (at, found) ↦
      let ((host, tail, split, _), _) = find?-Hit d "." at found in (host, tail, split)
]

has_dotted_domain-IsDotted : (s : String) → has_dotted_domain s ≡ true → IsDotted s
unfolding has_dotted_domain domain_part contains
has_dotted_domain-IsDotted s h = cut (find? s "@") refl h
  where
    cut :
        (o : Option ℕ)
        → find? s "@" ≡ o
        → elim (Option.map (λ at. slice s (at + 1) (len s)) o) [
          | none ↦ false
          | some d ↦ contains d "."
        ]
          ≡ true
        → IsDotted s
    cut none e k = cc
    cut (some at) e k =
        let ((u, v, whole, place), same) = find?-Hit s "@" at e in
        let rest : slice s (at + 1) (len s) ≡ v =
          ap (λ j. slice s (j + 1) (len s)) (same ∙ place)
          ∙ ap (λ w. slice w (len u + 1) (len w)) whole
          ∙ after_part u "@" v in
        let (host, tail, split) = dots v (subst (λ d. contains d "." ≡ true) rest k) in
        (u, host, tail, whole ∙ ap (λ w. u ++ ("@" ++ w)) split)

-- NewEmail returns only addresses whose text is the trimmed and then lower-cased input, is not empty, is
-- at most 320 bytes long, is what the parser of addresses finds in it, and has a dot after an "@".
pub new_email-eq-ok :
    (std : Std) (raw : String) (e : Email)
    → new_email std raw ≡ ok e
    → (e.value ≡ std.to_lower (std.trim_space raw))
      × (e.value ≢ "")
      × (len e.value ≤ 320)
      × (std.parse_address e.value ≡ some e.value)
      × IsDotted e.value
unfolding normal_email
new_email-eq-ok std raw e h =
    let (v, a) = (new_email_iff std raw e).0 h in
    (v, a.non_empty, a.short, a.bare, has_dotted_domain-IsDotted e.value a.dotted)

-- A normalised address is accepted again and gives itself, when trimming and lowering are
-- idempotent.
pub new_email_idem :
    (std : Std) (raw : String) (e : Email)
    → Normalises std
    → new_email std raw ≡ ok e
    → new_email std e.value ≡ ok e
unfolding normal_email
new_email_idem std raw e n h =
    let (v, a) = (new_email_iff std raw e).0 h in
    (new_email_iff std e.value e).1
      (v ∙ cc (v, n.trim_lower raw, n.lower_lower (std.trim_space raw)), a)

accept_parsed-eq-err :
    (s : String) (o : Option String) (x : Error)
    → accept_parsed s o ≡ err x
    → x ≡ sentinel invalid_email
unfolding accept_parsed
accept_parsed-eq-err s none x h = cc
accept_parsed-eq-err s (some address) x h = ground (arith, eq_iff address s)

-- Every refusal is ErrInvalidEmail.
pub new_email-eq-err :
    (std : Std) (raw : String) (x : Error) → new_email std raw ≡ err x → x ≡ sentinel invalid_email
unfolding new_email accept_email
new_email-eq-err std raw x h = ground (
  arith,
  accept_parsed-eq-err (normal_email std raw) (std.parse_address (normal_email std raw)) x,
)
