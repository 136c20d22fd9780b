-- ===== src/Domain/User.antt =====
-- domain/user.go, events.go and recorder.go. `Event` is the interface with the one event that the
-- context has and, for the `default` of the type switch in application/envelope.go, any other
-- implementation, given by what its methods return.
pub mod Laws
use outboxexpress.Common.{ℕ, String, List, [], ◌∷◌, ◌++◌, if◌then◌else◌, ◌==◌}
use outboxexpress.Common.Int.{ℤ}
use outboxexpress.Errors.{Result, ok, err, ◌>>=◌, ◌>>◌, sentinel, invalid_id}
use outboxexpress.Domain.Std.{Std, uuid_nil}
use outboxexpress.Domain.Email.{Email, new_email}
use outboxexpress.Domain.DisplayName.{DisplayName, new_display_name}

pub record UserRegistered : Type 0 where
  pub user_id : ℕ
  pub email : Email
  pub display_name : DisplayName
  pub version : ℕ
  pub registered_at : ℤ

pub record ForeignEvent : Type 0 where
  pub go_type : String  -- what %T prints
  pub event_type : String
  pub aggregate_type : String
  pub aggregate_id : String
  pub occurred_at : ℤ

pub data Event : Type 0 where
  user_registered : UserRegistered → Event
  foreign : ForeignEvent → Event

abbrev pub aggregate_type_user : String
aggregate_type_user = "User"

abbrev pub event_type_user_registered : String
event_type_user_registered = "com.outboxexpress.accounts.user.registered"

unfoldable pub event_type : Event → String
event_type (user_registered e) = event_type_user_registered
event_type (foreign e) = e.event_type

unfoldable pub aggregate_type : Event → String
aggregate_type (user_registered e) = aggregate_type_user
aggregate_type (foreign e) = e.aggregate_type

unfoldable pub aggregate_id : Std → Event → String
aggregate_id std (user_registered e) = std.uuid_string e.user_id
aggregate_id std (foreign e) = e.aggregate_id

unfoldable pub occurred_at : Event → ℤ
occurred_at (user_registered e) = e.registered_at
occurred_at (foreign e) = e.occurred_at

-- The aggregate, with the events of its embedded eventRecorder.
pub record User : Type 0 where
  pub id : ℕ
  pub email : Email
  pub display_name : DisplayName
  pub version : ℕ
  pub created_at : ℤ
  pub events : List Event

-- eventRecorder.record
unfoldable pub record_event : Event → User → User
record_event e u = record u { events = u.events ++ e ∷ [] }

-- eventRecorder.PullEvents
unfoldable pub pull_events : User → List Event × User
pull_events u = (u.events, record u { events = [] })

-- What the new aggregate announces.
unfoldable pub registration : User → Event
registration u = user_registered (record {
  user_id = u.id;
  email = u.email;
  display_name = u.display_name;
  version = u.version;
  registered_at = u.created_at;
})

unfoldable pub register : Std → ℕ → String → String → ℤ → Result User
unfolding record_event registration
register std id email display_name now = if id == uuid_nil then err (sentinel invalid_id) else do
  addr ← new_email std email
  name ← new_display_name std display_name
  let u : User = record {
    id = id;
    email = addr;
    display_name = name;
    version = 1;
    created_at = now;
    events = [];
  }
  ok (record_event (registration u) u)
