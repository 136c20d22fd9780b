-- ===== src/Domain/DisplayName.antt =====
-- domain/display_name.go. A rune is a character of the native string.
use Prim.Native.String.{count}
use outboxexpress.Common.{
  ℕ, ◌≤◌, String, ◌≡◌, ◌≢◌, ◌↔◌, ◌||◌, ltb, str_eq, eq_iff, if◌then◌else◌, arith,
}
use outboxexpress.Errors.{Error, Result, ok, err, sentinel, invalid_display_name}
use outboxexpress.Domain.Std.{Std, Normalises}

pub record DisplayName : Type 0 where
  pub value : String

abbrev pub max_display_name_runes : ℕ
max_display_name_runes = 200

unfoldable pub new_display_name : Std → String → Result DisplayName
new_display_name std raw =
    let s = std.trim_space raw in
    if str_eq s "" || ltb max_display_name_runes (count s)
    then err (sentinel invalid_display_name)
    else ok (record { value = s })

-- NewDisplayName returns exactly the names whose text is the trimmed input, is not empty and has
-- at most 200 runes.
pub new_display_name_iff :
    (std : Std) (raw : String) (n : DisplayName)
    → (new_display_name std raw ≡ ok n)
      ↔ ((n.value ≡ std.trim_space raw) × (n.value ≢ "") × (count n.value ≤ max_display_name_runes))
unfolding new_display_name
new_display_name_iff std raw n = ground (arith, eq_iff (std.trim_space raw) "")

-- A trimmed name is accepted again and gives itself, when trimming is idempotent.
pub new_display_name_idem :
    (std : Std) (raw : String) (n : DisplayName)
    → Normalises std
    → new_display_name std raw ≡ ok n
    → new_display_name std n.value ≡ ok n
new_display_name_idem std raw n laws h =
    let (v, ne, short) = (new_display_name_iff std raw n).0 h in
    (new_display_name_iff std n.value n).1 (cc (v, laws.trim_trim raw), ne, short)

-- Every refusal is ErrInvalidDisplayName.
pub new_display_name-eq-err :
    (std : Std) (raw : String) (x : Error)
    → new_display_name std raw ≡ err x
    → x ≡ sentinel invalid_display_name
unfolding new_display_name
new_display_name-eq-err std raw x h = ground arith
