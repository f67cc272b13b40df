-- ===== src/Gitlab/Client.antt =====
-- internal/gitlab/client.go: the requests to the GitLab API. What is left out are the connection
-- itself, the tracing, and the metric of each request.
pub mod Retries
pub mod Pages
use gitlab_elt.Common.{
  ℕ, zero, suc, ◌+◌, ◌*◌, ◌^◌, ◌%◌, String, Bool, Option, none, some, List, [], ◌∷◌, ◌++◌, ◌==◌,
  nat_eq, string_eq, leb, ltb, if◌then◌else◌,
}

-- What happens to one attempt: the limiter or the building of the request fails, the request or the
-- reading of the body fails, or an answer comes, by its status, its body and its header
-- `x-next-page`.
pub data Attempt : Type 0 where
  limiter_failure request_failure : Attempt
  no_response broken_body : Attempt
  response : ℕ → String → String → Attempt

pub data Failure : Type 0 where
  context_done limiter_error create_request : Failure
  client_error : ℕ → String → Failure
  retries_exceeded bad_page out_of_fuel : Failure

pub data Outcome (A : Type 0) : Type 0 where
  success : A → Outcome A
  failure : Failure → Outcome A

-- `nextPage == ""` is the last page.
pub record Page : Type 0 where
  pub body : String
  pub next_page : String

-- What the body of the loop does with an answer: `none` is the `continue` of a retry.
abbrev pub classify : ℕ → String → String → Option (Outcome Page)
classify status body next_page =
    if leb 500 status
    then none
    else if status == 429
    then none
    else if leb 400 status
    then some (failure (client_error status body))
    else some (success (record { body = body; next_page = next_page }))

abbrev decide : Attempt → Option (Outcome Page)
decide limiter_failure = some (failure limiter_error)
decide request_failure = some (failure create_request)
decide no_response = none
decide broken_body = none
decide (response status body next_page) = classify status body next_page

-- The attempts of one call, and whether the context ends in the wait before each.
pub record Requests : Type 0 where
  pub cancelled : ℕ → Bool
  pub attempt : ℕ → Attempt

-- One turn of the loop. The first attempt has no wait.
abbrev pub turn : Requests → ℕ → Option (Outcome Page)
turn q zero = decide (q.attempt zero)
turn q (suc n) =
    if q.cancelled (suc n) then some (failure context_done) else decide (q.attempt (suc n))

-- The duration before an attempt, as the `int64` of its nanoseconds: a power of two times half a
-- second. `time.After` of a negative duration is over at once.
abbrev pub backoff : ℕ → ℕ
backoff zero = 0
backoff (suc n) = 2 ^ n * 500_000_000 % 18_446_744_073_709_551_616

abbrev pub pause : ℕ → ℕ
pause n = if ltb (backoff n) 9_223_372_036_854_775_808 then backoff n else 0

-- How a call ended, after how many turns, and the nanoseconds of their pauses, which a context that
-- ends in the last one cuts short.
pub record Call : Type 0 where
  pub outcome : Outcome Page
  pub attempts : ℕ
  pub waited : ℕ

abbrev pub or_retry : Option (Outcome Page) → ℕ → Call → Call
or_retry (some o) wait rest = record { outcome = o; attempts = 1; waited = wait }
or_retry none wait rest = record {
  outcome = rest.outcome;
  attempts = suc rest.attempts;
  waited = wait + rest.waited;
}

-- The loop of `doGet` from the attempt `n` on, with `left` attempts to make.
unfoldable pub try_from : Requests → ℕ → ℕ → Call
try_from q zero n = record { outcome = failure retries_exceeded; attempts = 0; waited = 0 }
try_from q (suc left) n = or_retry (turn q n) (pause n) (try_from q left (suc n))

-- `doGet` of a client with `max_retries`, which is no negative number.
unfoldable pub do_get : ℕ → Requests → Call
do_get max_retries q = try_from q (suc max_retries) 0

-- What a loop over the pages asks for: the decoder of `appendJSONSlice`, and what `doGet` gives for
-- the page that the turn `n` asks for.
module _ {A : Type 0} (decode : String → Option (List A)) (get : ℕ → String → Outcome Page) where
  abbrev pub append_page :
      Page → Option (List A) → List A → (String → List A → Outcome (List A)) → Outcome (List A)
  append_page p none found rest = failure bad_page
  append_page p (some items) found rest =
      if p.next_page == "" then success (found ++ items) else rest p.next_page (found ++ items)

  abbrev pub after_get :
      Outcome Page → List A → (String → List A → Outcome (List A)) → Outcome (List A)
  after_get (failure f) found rest = failure f
  after_get (success p) found rest = append_page p (decode p.body) found rest

  -- The loop of `getPaginated` on fuel: the pages from `page` on behind what was found before.
  unfoldable pub get_pages : ℕ → ℕ → String → List A → Outcome (List A)
  get_pages zero n page found = failure out_of_fuel
  get_pages (suc fuel) n page found = after_get (get n page) found (get_pages fuel (suc n))

  unfoldable pub get_paginated : ℕ → Outcome (List A)
  get_paginated fuel = get_pages fuel 0 "1" []
