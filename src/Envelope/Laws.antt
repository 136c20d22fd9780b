-- ===== src/Envelope/Laws.antt =====
-- From maps each event to one envelope, in order.
use Prim.Native.String.{◌++◌}
use outboxexpress.Common.{
  ℕ, suc, ◌≡◌, ◌≢◌, refl, inl, inr, subst, ◌∙◌, String, Option, none, some, not, ◌&&◌, List, [],
  ◌∷◌, arith, str_eq, eq_iff, if◌then◌else◌, Bool-cases,
}
use outboxexpress.Common.Dict.{lookup, insert, lookup-insert}
use outboxexpress.Errors.{Result, ok, err, wrap, >>=-eq-ok}
use outboxexpress.Domain.Std.{Std}
use outboxexpress.Domain.User.{
  Event, UserRegistered, user_registered, foreign, event_type, aggregate_type, aggregate_id,
  occurred_at,
}
use outboxexpress.Messaging.{
  header_traceparent, header_correlation_id, Codec, cloud_event, encode_cloud_event,
}
use outboxexpress.Envelope.{
  Metadata, Envelope, UserRegisteredData, headers, set_if_present, IdGen, map_data, attributes,
  envelope_of, mint_event_id, envelopes_from,
}

module _ (std : Std) (codec : Codec UserRegisteredData) (ids : IdGen) (meta : Metadata) where
  -- A header that is left out when its value is empty.
  abbrev optional : String → Option String
  optional value = if str_eq value "" then none else some value

  -- An envelope that carries a registration: its routing fields are the event's, its identifier is the
  -- n-th that the supply gave, its headers are the two of the request that are not empty, and its
  -- payload is the CloudEvents text with that identifier and the fields of the event.
  pub record CarriesUser (n : ℕ) (u : UserRegistered) (e : Envelope) : Type 0 where
    pub minted : ids n ≡ ok e.event_id
    pub routed : e.aggregate_type ≡ "User"
    pub keyed : e.aggregate_id ≡ std.uuid_string u.user_id
    pub typed : e.event_type ≡ "com.outboxexpress.accounts.user.registered"
    pub dated : e.occurred_at ≡ u.registered_at
    pub versioned : e.schema_version ≡ 1
    pub correlated : lookup "correlation_id" e.headers ≡ optional meta.correlation_id
    pub traced : lookup "traceparent" e.headers ≡ optional meta.traceparent
    pub only_these :
        (key : String) → key ≢ "correlation_id" → key ≢ "traceparent" → lookup key e.headers ≡ none
    pub encoded :
        codec.marshal (record {
          specversion = "1.0";
          id = std.uuid_string e.event_id;
          type = "com.outboxexpress.accounts.user.registered";
          source = "/services/accounts";
          subject = std.uuid_string u.user_id;
          time = codec.format_time u.registered_at;
          dataschema =
              "https://schemas.outboxexpress.dev"
              ++ ("/" ++ ("accounts/user.registered" ++ ("/" ++ (std.itoa 1 ++ ".json"))));
          datacontenttype = "application/json";
          traceparent = meta.traceparent;
          content = record {
            user_id = std.uuid_string u.user_id;
            email = u.email.value;
            display_name = u.display_name.value;
            version = u.version;
            registered_at = codec.format_time u.registered_at;
          };
        })
        ≡ ok e.payload

  -- No envelope carries an event that the context does not publish.
  abbrev pub Carries : ℕ → Event → Envelope → Type 0
  Carries n (user_registered u) e = CarriesUser n u e
  Carries n (foreign f) e = ⊥

  -- The same for the lists, position by position, and of equal length.
  abbrev pub CarriesAll : ℕ → List Event → List Envelope → Type 0
  CarriesAll n [] [] = Unit
  CarriesAll n [] (e ∷ es) = ⊥
  CarriesAll n (event ∷ events) [] = ⊥
  CarriesAll n (event ∷ events) (e ∷ es) = Carries n event e × CarriesAll (suc n) events es

  abbrev known : String → Option String
  known key =
      if str_eq header_traceparent key && not (str_eq meta.traceparent "")
      then some meta.traceparent
      else if str_eq header_correlation_id key && not (str_eq meta.correlation_id "")
      then some meta.correlation_id
      else none

  headers_lookup : (key : String) → lookup key (headers meta) ≡ known key
  unfolding headers set_if_present lookup
  headers_lookup key = elim (Bool-cases (str_eq meta.traceparent "")) [
    | inl t ↦ elim (Bool-cases (str_eq meta.correlation_id "")) [
      | inl c ↦ ground (
        arith,
        t,
        c,
        lookup-insert header_correlation_id key meta.correlation_id [],
        lookup-insert header_traceparent key meta.traceparent [],
        lookup-insert header_traceparent key meta.traceparent
            (insert header_correlation_id meta.correlation_id []),
      )
      | inr c ↦ ground (
        arith,
        t,
        c,
        lookup-insert header_correlation_id key meta.correlation_id [],
        lookup-insert header_traceparent key meta.traceparent [],
        lookup-insert header_traceparent key meta.traceparent
            (insert header_correlation_id meta.correlation_id []),
      )
    ]
    | inr t ↦ elim (Bool-cases (str_eq meta.correlation_id "")) [
      | inl c ↦ ground (
        arith,
        t,
        c,
        lookup-insert header_correlation_id key meta.correlation_id [],
        lookup-insert header_traceparent key meta.traceparent [],
        lookup-insert header_traceparent key meta.traceparent
            (insert header_correlation_id meta.correlation_id []),
      )
      | inr c ↦ ground (
        arith,
        t,
        c,
        lookup-insert header_correlation_id key meta.correlation_id [],
        lookup-insert header_traceparent key meta.traceparent [],
        lookup-insert header_traceparent key meta.traceparent
            (insert header_correlation_id meta.correlation_id []),
      )
    ]
  ]

  envelope_of-Carries :
      (n : ℕ) (event : Event) (e : Envelope)
      → envelope_of std codec ids meta n event ≡ ok e
      → Carries n event e
  unfolding envelope_of encode_cloud_event map_data event_type aggregate_type aggregate_id
      occurred_at attributes cloud_event mint_event_id
  envelope_of-Carries n (user_registered u) e h =
      let (id, minted, more) = >>=-eq-ok (mint_event_id std codec (ids n)) _ h in
      let (payload, encoded, built) = >>=-eq-ok (encode_cloud_event std codec _ _) _ more in
      subst (CarriesUser n u) (built_from _ e built) (record {
        minted = minted_from (ids n) id minted;
        routed = refl;
        keyed = refl;
        typed = refl;
        dated = refl;
        versioned = refl;
        correlated = headers_lookup "correlation_id" ∙ correlated_by;
        traced = headers_lookup "traceparent" ∙ traced_by;
        only_these = λ key c t. headers_lookup key ∙ other key c t;
        encoded = encoded_from _ _ payload encoded;
      })
    where
      built_from : (a b : Envelope) → ok a ≡ ok b → a ≡ b
      built_from a b k = cc

      minted_from : (r : Result ℕ) (id : ℕ) → mint_event_id std codec r ≡ ok id → r ≡ ok id
      minted_from (ok i) id k = k
      minted_from (err x) id k = cc

      encoded_from :
          (what : String) (r : Result String) (payload : String)
          → ◌≡◌ {A = Result String}
              (elim r [ ok p ↦ ok p | err x ↦ err (wrap what x) ])
              (ok payload)
          → r ≡ ok payload
      encoded_from what (ok p) payload k = k
      encoded_from what (err x) payload k = cc

      correlated_by : known "correlation_id" ≡ optional meta.correlation_id
      correlated_by = ground arith

      traced_by : known "traceparent" ≡ optional meta.traceparent
      traced_by = ground arith

      other : (key : String) → key ≢ "correlation_id" → key ≢ "traceparent" → known key ≡ none
      other key c t = ground (arith, eq_iff "correlation_id" key, eq_iff "traceparent" key)
  envelope_of-Carries n (foreign u) e h = cc

  -- A successful From gives one envelope for each event, in the order of the events, and each
  -- carries its event under an identifier of its own call of IDGen.New.
  pub envelopes_from-CarriesAll :
      (n : ℕ) (events : List Event) (es : List Envelope)
      → envelopes_from std codec ids meta n events ≡ ok es
      → CarriesAll n events es
  unfolding envelopes_from
  envelopes_from-CarriesAll n [] [] h = tt
  envelopes_from-CarriesAll n [] (e ∷ es) h = cc
  envelopes_from-CarriesAll n (event ∷ events) [] h =
      let (e, made, more) = >>=-eq-ok (envelope_of std codec ids meta n event) _ h in
      let (following, rest, built) =
        >>=-eq-ok (envelopes_from std codec ids meta (suc n) events) _ more in
      cc
  envelopes_from-CarriesAll n (event ∷ events) (e ∷ es) h =
      let (e', made, more) = >>=-eq-ok (envelope_of std codec ids meta n event) _ h in
      let (following, rest, built) =
        >>=-eq-ok (envelopes_from std codec ids meta (suc n) events) _ more in
      (envelope_of-Carries n event e (cc), envelopes_from-CarriesAll (suc n) events es (cc))
