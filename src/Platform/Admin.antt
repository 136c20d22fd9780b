-- ===== src/Platform/Admin.antt =====
-- internal/platform/admin/admin.go: the operator's endpoints. A request is its method and path; the
-- rest of net/http is the Go runtime's.
use Prim.Native.String.{◌++◌}
use outboxexpress.Common.{ℕ, String, Bool, ◌||◌, Option, none, some, str_eq, if◌then◌else◌}
use outboxexpress.Errors.{Error, text, wrap}

pub record Response : Type 0 where
  pub status : ℕ
  pub body : String

abbrev pub status_ok : ℕ
status_ok = 200

abbrev pub status_service_unavailable : ℕ
status_service_unavailable = 503

-- Healthz
unfoldable pub healthz : Response
healthz = record { status = status_ok; body = "ok\n" }

-- The handler of GET /readyz.
unfoldable pub readyz : Option Error → Response
readyz (some e) = record { status = status_service_unavailable; body = text e ++ "\n" }
readyz none = record { status = status_ok; body = "ready\n" }

-- Router: the mux sends HEAD to the handler of GET too, as documented; `none` is no route's response.
unfoldable pub route : Option Error → (method path : String) → Option Response
unfolding healthz readyz
route ready method path =
    if str_eq method "GET" || str_eq method "HEAD"
    then if str_eq path "/healthz"
      then some healthz
      else if str_eq path "/readyz"
      then some (readyz ready)
      else none
    else none

-- Listen, of what ListenAndServe returns and whether that is ErrServerClosed.
unfoldable pub listen : Option Error → (Error → Bool) → Option Error
listen none is_server_closed = none
listen (some e) is_server_closed =
    if is_server_closed e then none else some (wrap "admin listener" e)
