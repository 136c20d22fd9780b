-- ===== src/Platform/Producer.antt =====
-- internal/platform/kafka/config.go and client.go: the settings of a producer, and making one. kgo's
-- options are a list, of which the client is made.
use Prim.Native.String.{◌++◌}
use outboxexpress.Common.{
  ℕ, suc, ◌≡◌, ◌≢◌, ◌↔◌, refl, String, Option, none, some, List, [], ◌∷◌, All, All-append, arith,
  str_eq, eq_iff,
}
use outboxexpress.Common.{◌++◌ as ◌++ᴸ◌}
use outboxexpress.Common.Int.{ℤ, pos, ◌<ℤ◌, leb_ℤ}
use outboxexpress.Domain.Std.{Std}
use outboxexpress.Errors.{Error, Result, ok, err, wrap, sentinel, annotate, no_brokers}
use outboxexpress.Config.{Parsers}
use outboxexpress.Platform.Pool.{problem, refusal, refusal-none, none-refusal, problem-none}

pub record ProducerConfig : Type 0 where
  pub brokers : List String
  pub request_timeout_overhead : ℤ

unfoldable pub default_producer_config : List String → ProducerConfig
default_producer_config brokers = record {
  brokers = brokers;
  request_timeout_overhead = pos 10000000000;
}

unfoldable pub empty_brokers : List String → Option Error
empty_brokers [] = some (annotate (sentinel no_brokers) "Brokers is empty, set KAFKA_BROKERS")
empty_brokers (b ∷ bs) = none

-- The loop over the brokers, from the i-th one on.
unfoldable pub blank_brokers : Std → ℕ → List String → List (Option Error)
unfolding problem
blank_brokers std i [] = []
blank_brokers std i (b ∷ bs) =
    problem (str_eq (std.trim_space b) "") ("blank seed at Brokers[" ++ (std.itoa i ++ "]"))
    ∷ blank_brokers std (suc i) bs

unfoldable pub producer_problems : Std → Parsers → ProducerConfig → List (Option Error)
unfolding empty_brokers blank_brokers
producer_problems std parsers c =
    empty_brokers c.brokers
    ∷ (blank_brokers std 0 c.brokers
        ++ᴸ problem (leb_ℤ c.request_timeout_overhead (pos 0)) (
            "RequestTimeoutOverhead must be positive, got "
            ++ parsers.show_duration c.request_timeout_overhead)
          ∷ [])

unfoldable pub validate : Std → Parsers → ProducerConfig → Option Error
unfolding producer_problems refusal
validate std parsers c = refusal "kafka: producer config" (producer_problems std parsers c)

pub data ClientOption : Type 0 where
  seed_brokers : List String → ClientOption
  request_timeout_overhead : ℤ → ClientOption
  required_acks_all_isr : ClientOption
  record_retries : ℕ → ClientOption
  compression_zstd : ClientOption

-- NewProducer: the options of the client, or an error. `new_client` is what kgo.NewClient answers.
unfoldable pub new_producer :
    Std → Parsers → (List ClientOption → Option Error) → ProducerConfig → Result (List ClientOption)
unfolding validate
new_producer std parsers new_client c = elim (validate std parsers c) [
  | some e ↦ err e
  | none ↦
      let options =
        seed_brokers c.brokers
        ∷ ClientOption.request_timeout_overhead c.request_timeout_overhead
        ∷ required_acks_all_isr
        ∷ record_retries 0
        ∷ compression_zstd
        ∷ [] in
      elim (new_client options) [ some e ↦ err (wrap "kafka: producer" e) | none ↦ ok options ]
]

-- Settings that a producer can run with.
pub record IsUsable (std : Std) (c : ProducerConfig) : Type 0 where
  pub some_broker : c.brokers ≢ []
  pub no_blank : All (λ b. std.trim_space b ≢ "") c.brokers
  pub overhead : pos 0 <ℤ c.request_timeout_overhead

All-front :
    {A : Type 0} (P : A → Type 0) (front back : List A)
    → All P (front ++ᴸ back)
    → All P front × All P back
All-front P [] back h = (tt, h)
All-front P (x ∷ front) back h = let (one, two) = All-front P front back h.1 in ((h.0, one), two)

blank_brokers-none :
    (std : Std) (i : ℕ) (bs : List String)
    → All (λ o. o ≡ none) (blank_brokers std i bs) ↔ All (λ b. std.trim_space b ≢ "") bs
unfolding blank_brokers
blank_brokers-none std i [] = ((λ h. h), λ h. h)
blank_brokers-none std i (b ∷ bs) =
    let rest = blank_brokers-none std (suc i) bs in
    let blank = eq_iff (std.trim_space b) "" in
    (
      (λ h. ((λ e. ground (arith, (problem-none _ _).0 h.0, blank)), rest.0 h.1)),
      λ h. ((problem-none _ _).1 (ground (arith, h.0, blank)), rest.1 h.1),
    )

-- The validation of a producer's settings refuses exactly the ones without a broker, with a blank one,
-- or with an overhead that is not positive.
pub validate_iff :
    (std : Std) (parsers : Parsers) (c : ProducerConfig)
    → (validate std parsers c ≡ none) ↔ IsUsable std c
unfolding validate producer_problems empty_brokers
validate_iff std parsers c = (to, from)
  where
    some_seed : (bs : List String) → empty_brokers bs ≡ none → bs ≢ []
    some_seed [] h = cc
    some_seed (b ∷ bs) h = λ e. cc

    no_error : (bs : List String) → bs ≢ [] → empty_brokers bs ≡ none
    no_error [] h = absurd (h refl)
    no_error (b ∷ bs) h = refl

    to : validate std parsers c ≡ none → IsUsable std c
    to h =
        let (seeds, rest) =
          refusal-none "kafka: producer config" (producer_problems std parsers c) h in
        let (blank, (overhead, _)) =
          All-front (λ (o : Option Error). o ≡ none) (blank_brokers std 0 c.brokers) _ rest in
        record {
          some_broker = some_seed c.brokers seeds;
          no_blank = (blank_brokers-none std 0 c.brokers).0 blank;
          overhead = ground (arith, (problem-none _ _).0 overhead);
        }

    from : IsUsable std c → validate std parsers c ≡ none
    from u = none-refusal "kafka: producer config" (producer_problems std parsers c) (
      no_error c.brokers u.some_broker,
      All-append (λ (o : Option Error). o ≡ none) (blank_brokers std 0 c.brokers) _
          ((problem-none _ _).1 (ground (arith, u.overhead)), tt)
          ((blank_brokers-none std 0 c.brokers).1 u.no_blank),
    )
