-- ===== src/Kafka/Headers.antt =====
-- recordHeaders: which headers a record has, and their order.
use Prim.Native.Nat.{Ordering}
use Prim.Native.String.{compare}
use outboxexpress.Common.Text.{compare-flip}
use mathlib.Core.List.Permᴰ
use mathlib.Core.List.{Permᴰ}
use outboxexpress.Common.{
  Bool, true, false, inl, inr, Bool-cases, ◌≢◌, String, ◌≡◌, refl, ap, ◌∙◌, none, some, [], ◌∷◌,
  arith, str_eq, eq_iff, if◌then◌else◌,
}
use outboxexpress.Common.Dict.{lookup, Distinct}
use outboxexpress.Messaging.{Headers as HeaderMap}
use outboxexpress.Kafka.{at_most, insert_header, record_headers}

above : (b a : String) → at_most a b ≡ false → compare b a ≢ Ordering.gt
above b a high up = go (compare a b) (compare-flip b a up) high
  where
    go :
        (o : Ordering)
        → o ≡ Ordering.lt
        → ◌≡◌ {A = Bool} (elim o [ Ordering.gt ↦ false | _ ↦ true ]) false
        → ⊥
    go Ordering.lt e k = cc
    go Ordering.eq e k = cc
    go Ordering.gt e k = cc

lookup-insert_header :
    (key value wanted : String) (rest : HeaderMap)
    → lookup key rest ≡ none
    → lookup wanted (insert_header (key, value) rest)
      ≡ (if str_eq key wanted then some value else lookup wanted rest)
unfolding insert_header lookup
lookup-insert_header key value wanted [] h = refl
lookup-insert_header key value wanted ((other, v) ∷ rest) h =
    let ih = lookup-insert_header key value wanted rest in
    ground (arith, ih, eq_iff key wanted, eq_iff other wanted, eq_iff other key)

lookup-record_headers :
    (headers : HeaderMap) (wanted : String)
    → Distinct headers
    → lookup wanted (record_headers headers) ≡ lookup wanted headers
unfolding record_headers lookup
lookup-record_headers [] wanted h = refl
lookup-record_headers ((key, value) ∷ rest) wanted (new, h) =
    lookup-insert_header key value wanted (record_headers rest)
      (lookup-record_headers rest key h ∙ new)
    ∙ ap (λ found. if str_eq key wanted then some value else found)
        (lookup-record_headers rest wanted h)

insert_header-Permᴰ :
    (h : String × String) (rest : HeaderMap) → Permᴰ (insert_header h rest) (h ∷ rest)
unfolding insert_header
insert_header-Permᴰ h [] = Permᴰ.refl (h ∷ [])
insert_header-Permᴰ h (g ∷ rest) = elim (Bool-cases (at_most h.0 g.0)) [
  | inl low ↦ rw low (Permᴰ.refl (h ∷ g ∷ rest))
  | inr high ↦
      rw high (Permᴰ.trans (Permᴰ.cons refl (insert_header-Permᴰ h rest)) (Permᴰ.swap refl refl))
]

record_headers-Permᴰ : (headers : HeaderMap) → Permᴰ (record_headers headers) headers
unfolding record_headers
record_headers-Permᴰ [] = Permᴰ.nil
record_headers-Permᴰ (h ∷ rest) =
    Permᴰ.trans (insert_header-Permᴰ h (record_headers rest))
      (Permᴰ.cons refl (record_headers-Permᴰ rest))

-- No key stands before a smaller one that follows it at once.
abbrev pub Ascending : HeaderMap → Type 0
Ascending [] = Unit
Ascending (h ∷ []) = Unit
Ascending (h ∷ g ∷ rest) = (compare h.0 g.0 ≢ Ordering.gt) × Ascending (g ∷ rest)

at_most-not-gt : (a b : String) → at_most a b ≡ true → compare a b ≢ Ordering.gt
at_most-not-gt a b low up = go (compare a b) up low
  where
    go :
        (o : Ordering)
        → o ≡ Ordering.gt
        → ◌≡◌ {A = Bool} (elim o [ Ordering.gt ↦ false | _ ↦ true ]) true
        → ⊥
    go Ordering.lt e k = cc
    go Ordering.eq e k = cc
    go Ordering.gt e k = cc

-- The head of a list that h was put into is h or the head that it had.
insert_header-Ascending :
    (h : String × String) (rest : HeaderMap) → Ascending rest → Ascending (insert_header h rest)
unfolding insert_header
insert_header-Ascending h [] up = tt
insert_header-Ascending h (g ∷ []) up = elim (Bool-cases (at_most h.0 g.0)) [
  | inl low ↦ rw low (at_most-not-gt h.0 g.0 low, tt)
  | inr high ↦ rw high (above g.0 h.0 high, tt)
]
insert_header-Ascending h (g ∷ f ∷ rest) up = elim (Bool-cases (at_most h.0 g.0)) [
  | inl low ↦ rw low (at_most-not-gt h.0 g.0 low, up)
  | inr high ↦
      let later = insert_header-Ascending h (f ∷ rest) up.1 in
      elim (Bool-cases (at_most h.0 f.0)) [
        | inl low ↦ rw (high, low) (above g.0 h.0 high, (rw low at later))
        | inr over ↦ rw (high, over) (up.0, (rw over at later))
      ]
]

record_headers-Ascending : (headers : HeaderMap) → Ascending (record_headers headers)
unfolding record_headers
record_headers-Ascending [] = tt
record_headers-Ascending (h ∷ rest) =
    insert_header-Ascending h (record_headers rest) (record_headers-Ascending rest)

-- The headers of a record are those of the message, each as often as it stands there, in ascending order
-- of their keys; where each key stands once, as in a Go map, it has the value that it has there.
pub record_headers-sorted :
    (headers : HeaderMap)
    → Distinct headers
    → Permᴰ (record_headers headers) headers
      × Ascending (record_headers headers)
      × ((wanted : String) → lookup wanted (record_headers headers) ≡ lookup wanted headers)
record_headers-sorted headers distinct = (
  record_headers-Permᴰ headers,
  record_headers-Ascending headers,
  λ wanted. lookup-record_headers headers wanted distinct,
)
