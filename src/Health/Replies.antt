-- ===== src/Health/Replies.antt =====
-- What the health endpoint answers (internal/health/handler.go).
use gitlab_elt.Common.{
  ℕ, String, Option, none, some, [], ◌∷◌, insert, lookup, string_eq, eq_iff, ◌≡◌, ◌↔◌, ◌⊎◌, inl,
  refl, arith,
}
use gitlab_elt.Health.{
  Pinger, Handler, Mux, serve_http, serve_unconfigured, health_handler, handle, register_handlers,
  serve,
}

-- The database answered.
abbrev pub Answers : Option Pinger → ℕ → Type 0
Answers none now = ⊥
Answers (some p) now = p.ping now ≡ none

-- The mux that the registration makes of an empty one.
abbrev endpoints : Option Pinger → Option Handler → Mux
endpoints pinger none = ("/health", health_handler pinger) ∷ []
endpoints pinger (some h) = ("/health", health_handler pinger) ∷ ("/metrics", h) ∷ []

register_handlers-endpoints :
    (pinger : Option Pinger) (metrics : Option Handler)
    → register_handlers [] pinger metrics ≡ some (endpoints pinger metrics)
unfolding register_handlers handle lookup insert
register_handlers-endpoints pinger none = refl
register_handlers-endpoints pinger (some h) = refl

serve-endpoints :
    (pinger : Option Pinger) (metrics : Option Handler) (now : ℕ) (method : String)
    → serve (endpoints pinger metrics) "/health" now method ≡ health_handler pinger now method
unfolding serve lookup
serve-endpoints pinger none now method = refl
serve-endpoints pinger (some h) now method = refl

health_handler_200 :
    (pinger : Option Pinger) (now : ℕ) (method : String)
    → ((health_handler pinger now method).code ≡ 200) ↔ ((method ≡ "GET") × Answers pinger now)
unfolding serve_http serve_unconfigured
health_handler_200 none now method = ((λ e. absurd (omega (arith, e))), (λ h. absurd h.1))
health_handler_200 (some p) now method = ground (arith, eq_iff method "GET")

health_handler_503 :
    (pinger : Option Pinger) (now : ℕ) (method : String)
    → ((health_handler pinger now method).code ≡ 503)
      ↔ ((pinger ≡ none) ⊎ ((method ≡ "GET") × (¬ Answers pinger now)))
unfolding serve_http serve_unconfigured
health_handler_503 none now method = ((λ e. inl refl), (λ h. refl))
health_handler_503 (some p) now method = ground (arith, eq_iff method "GET")

-- On a new mux the registration does not panic. A request of /health then has the status 200 exactly
-- if it is a GET and there is a pinger and the database answers it, and 503 exactly if there is no
-- pinger, whatever the method is, or it is a GET and the database does not answer.
pub register_handlers-serve :
    (pinger : Option Pinger) (metrics : Option Handler) (now : ℕ) (method : String)
    → (mux : Mux) × (register_handlers [] pinger metrics ≡ some mux)
      × (((serve mux "/health" now method).code ≡ 200) ↔ ((method ≡ "GET") × Answers pinger now))
      × (((serve mux "/health" now method).code ≡ 503)
          ↔ ((pinger ≡ none) ⊎ ((method ≡ "GET") × (¬ Answers pinger now))))
register_handlers-serve pinger metrics now method = (
  endpoints pinger metrics,
  register_handlers-endpoints pinger metrics,
  rw (serve-endpoints pinger metrics now method) (health_handler_200 pinger now method),
  rw (serve-endpoints pinger metrics now method) (health_handler_503 pinger now method),
)
