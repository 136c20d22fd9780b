-- ===== src/Domain/User/Laws.antt =====
-- When Register makes a user, which one, and which errors it returns.
use outboxexpress.Common.{ℕ, String, ◌≡◌, ◌≢◌, ◌↔◌, ◌⊎◌, [], ◌∷◌, arith}
use outboxexpress.Common.Int.{ℤ}
use outboxexpress.Errors.{Error, ok, err, sentinel, invalid_id, invalid_email, invalid_display_name}
use outboxexpress.Domain.Std.{Std, uuid_nil}
use outboxexpress.Domain.Email.{Email, new_email}
use outboxexpress.Domain.Email.Laws.{new_email-eq-err}
use outboxexpress.Domain.DisplayName.{new_display_name, new_display_name-eq-err}
use outboxexpress.Domain.User.{User, Event, user_registered, registration, register}

-- The event that a new user is announced by: it repeats the user.
abbrev pub announcement : User → Event
announcement u = user_registered (record {
  user_id = u.id;
  email = u.email;
  display_name = u.display_name;
  version = 1;
  registered_at = u.created_at;
})

-- A user that Register has made: a first version of the given parts with exactly one event, which
-- repeats them.
pub record IsRegistered (std : Std) (id : ℕ) (email name : String) (now : ℤ) (u : User)
    : Type 0 where
  pub id_kept : u.id ≡ id
  pub id_real : id ≢ uuid_nil
  pub email_valid : new_email std email ≡ ok u.email
  pub name_valid : new_display_name std name ≡ ok u.display_name
  pub first : u.version ≡ 1
  pub created : u.created_at ≡ now
  pub announced : u.events ≡ announcement u ∷ []

-- Register returns a user exactly when the identifier is not nil and both texts are valid, and that
-- user has those parts, version 1, the given time, and one UserRegistered event that repeats them.
pub register_iff :
    (std : Std) (id : ℕ) (email name : String) (now : ℤ) (u : User)
    → (register std id email name now ≡ ok u) ↔ IsRegistered std id email name now u
unfolding register registration
register_iff std id email name now u = ground (arith)

-- Register refuses with ErrInvalidID exactly for the nil identifier, else with ErrInvalidEmail when
-- the address is refused, else, the address being valid, with ErrInvalidDisplayName; it has no other
-- error.
pub register-eq-err :
    (std : Std) (id : ℕ) (email name : String) (now : ℤ) (x : Error)
    → register std id email name now ≡ err x
    → ((id ≡ uuid_nil) × (x ≡ sentinel invalid_id))
      ⊎ ((id ≢ uuid_nil) × (new_email std email ≡ err x) × (x ≡ sentinel invalid_email))
      ⊎ ((id ≢ uuid_nil)
          × ((e : Email) × (new_email std email ≡ ok e))
          × (new_display_name std name ≡ err x)
          × (x ≡ sentinel invalid_display_name))
unfolding register
register-eq-err std id email name now x h =
    ground (arith, new_email-eq-err std email x, new_display_name-eq-err std name x)
