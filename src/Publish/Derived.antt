-- ===== src/Publish/Derived.antt =====
-- publishHeaders: the headers of a message are the stored ones, under the ones that are derived.
use outboxexpress.Common.{
  ◌≡◌, ◌∙◌, ap, subst, ◌⊎◌, inl, inr, String, [], ◌∷◌, some, none, true, false, str_eq, eq_iff,
  refl, if◌then◌else◌, Option, Bool-cases,
}
use outboxexpress.Common.Dict.{lookup, insert, lookup-insert, Distinct}
use outboxexpress.Domain.Std.{Std}
use outboxexpress.Messaging.{Headers}
use outboxexpress.Outbox.{PendingMessage}
use outboxexpress.Publish.{copy_headers, publish_headers}

abbrev or_else : Option String → Option String → Option String
or_else (some value) other = some value
or_else none other = other

lookup-copy_headers :
    (stored target : Headers) (key : String)
    → Distinct stored
    → lookup key (copy_headers stored target) ≡ or_else (lookup key stored) (lookup key target)
unfolding copy_headers lookup
lookup-copy_headers [] target key h = refl
lookup-copy_headers ((k, v) ∷ rest) target key (new, h) =
    lookup-copy_headers rest (insert k v target) key h
    ∙ ap (or_else (lookup key rest)) (lookup-insert k key v target)
    ∙ last (Bool-cases (str_eq k key))
  where
    last :
        (str_eq k key ≡ true) ⊎ (str_eq k key ≡ false)
        → or_else (lookup key rest) (if str_eq k key then some v else lookup key target)
          ≡ or_else (if str_eq k key then some v else lookup key rest) (lookup key target)
    last (inl same) =
        let gone : lookup key rest ≡ none =
          subst (λ x. lookup x rest ≡ none) ((eq_iff k key).0 same) new in
        rw (same, gone) refl
    last (inr other) = rw other refl

-- The headers of a message, as a function of the key: five that the relay derives, over the stored ones.
abbrev pub derived_header : Std → PendingMessage → String → String → Option String
derived_header std p event_id key =
    if str_eq "content-type" key
    then some "application/json"
    else if str_eq "schema_version" key
    then some (std.itoa p.schema_version)
    else if str_eq "ce_specversion" key
    then some "1.0"
    else if str_eq "ce_type" key
    then some p.event_type
    else if str_eq "ce_id" key
    then some event_id
    else lookup key p.headers

-- A message's header is the derived one for the five keys that the relay derives, whatever the
-- stored headers say, and the stored one for any other key, where no key is stored twice.
pub lookup-publish_headers :
    (std : Std) (p : PendingMessage) (event_id key : String)
    → Distinct p.headers
    → lookup key (publish_headers std p event_id) ≡ derived_header std p event_id key
unfolding publish_headers lookup
lookup-publish_headers std p event_id key distinct =
    let kept : lookup key (copy_headers p.headers []) ≡ lookup key p.headers =
      lookup-copy_headers p.headers [] key distinct ∙ stored (lookup key p.headers) in
    simp (lookup-insert, kept) refl
  where
    stored : (o : Option String) → or_else o none ≡ o
    stored (some v) = refl
    stored none = refl
