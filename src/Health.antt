-- ===== src/Health.antt =====
-- internal/health/handler.go: the handler of /health and the registration of the endpoints. What a
-- reply holds is the response before `encoding/json` writes it.
pub mod Replies
use gitlab_elt.Common.{
  ℕ, String, Option, none, some, GoMap, insert, lookup, ◌==◌, string_eq, if◌then◌else◌, not,
}
use gitlab_elt.Text.Times.{format_rfc3339}

pub record Response : Type 0 where
  pub status : String
  pub timestamp : String
  pub error : String

-- What comes back of a request: the status code, the content type and the body, where they are
-- written.
pub record Reply : Type 0 where
  pub code : ℕ
  pub content_type : Option String
  pub body : Option Response

-- `Ping` of the database with a context of three seconds, at a time: an error by its text, or none.
pub record Pinger : Type 0 where
  pub ping : ℕ → Option String

abbrev pub Handler : Type 0
Handler = ℕ → String → Reply

abbrev json_reply : ℕ → Response → Reply
json_reply code resp = record {
  code = code;
  content_type = some "application/json";
  body = some resp;
}

abbrev pub health_reply : String → Option String → Reply
health_reply timestamp (some e) =
    json_reply 503 (record { status = "unhealthy"; timestamp = timestamp; error = e })
health_reply timestamp none =
    json_reply 200 (record { status = "healthy"; timestamp = timestamp; error = "" })

-- `Handler.ServeHTTP` at the time `now`, of a request with this method.
unfoldable pub serve_http : Pinger → Handler
serve_http pinger now method =
    if not (method == "GET")
    then record { code = 405; content_type = none; body = none }
    else health_reply (format_rfc3339 now) (pinger.ping now)

-- The handler that `RegisterHandlers` takes where there is no pinger. It looks at no method.
unfoldable pub serve_unconfigured : Handler
serve_unconfigured now method = json_reply 503 (record {
  status = "unhealthy";
  timestamp = format_rfc3339 now;
  error = "health pinger not configured";
})

abbrev pub Mux : Type 0
Mux = GoMap String Handler

-- `mux.Handle`, which panics where the pattern is taken.
abbrev added_to : Option Handler → Mux → Option Mux
added_to (some old) m = none
added_to none m = some m

unfoldable pub handle : String → Handler → Mux → Option Mux
handle pattern h mux = added_to (lookup pattern mux) (insert pattern h mux)

abbrev pub health_handler : Option Pinger → Handler
health_handler none = serve_unconfigured
health_handler (some pinger) = serve_http pinger

abbrev then_metrics : Option Mux → Option Handler → Option Mux
then_metrics none h = none
then_metrics (some mux) none = some mux
then_metrics (some mux) (some h) = handle "/metrics" h mux

-- `RegisterHandlers` of a mux that is not nil; `none` is a panic.
unfoldable pub register_handlers : Mux → Option Pinger → Option Handler → Option Mux
register_handlers mux pinger metrics_handler =
    then_metrics (handle "/health" (health_handler pinger) mux) metrics_handler

abbrev reply_of : Option Handler → ℕ → String → Reply
reply_of none now method = record { code = 404; content_type = none; body = none }
reply_of (some h) now method = h now method

-- `ServeMux.ServeHTTP` of a path that is clean: the handler of this very path.
unfoldable pub serve : Mux → String → ℕ → String → Reply
serve mux path = reply_of (lookup path mux)
