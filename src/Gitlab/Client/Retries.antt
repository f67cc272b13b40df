-- ===== src/Gitlab/Client/Retries.antt =====
-- The attempts of `doGet` (internal/gitlab/client.go).
use gitlab_elt.Common.{
  ℕ, zero, suc, ◌+◌, ◌≤◌, ◌<◌, ◌∙◌, String, Option, none, some, ◌≡◌, refl, ap, subst, nat_eq, arith,
}
use gitlab_elt.Gitlab.Client.{
  Attempt, limiter_failure, request_failure, no_response, broken_body, response, Requests, Outcome,
  success, Page, Call, classify, decide, turn, pause, or_retry, try_from, do_get,
}

-- The sum of the pauses before the attempts from `n` on.
abbrev pauses : ℕ → ℕ → ℕ
pauses zero n = 0
pauses (suc left) n = pause n + pauses left (suc n)

try_from-decided :
    (q : Requests) (left n m : ℕ) (o : Outcome Page)
    → m < left
    → ((k : ℕ) → k < m → turn q (n + k) ≡ none)
    → turn q (n + m) ≡ some o
    → ((try_from q left n).outcome ≡ o) × ((try_from q left n).attempts ≡ suc m)
unfolding try_from
try_from-decided q zero n m o lt before decided = absurd (omega (arith, lt))
try_from-decided q (suc left) n zero o lt before decided =
    let first : turn q n ≡ some o = ap (turn q) (omega arith) ∙ decided in rw first (refl, refl)
try_from-decided q (suc left) n (suc m) o lt before decided =
    let retried : turn q n ≡ none = ap (turn q) (omega arith) ∙ before 0 (omega arith) in
    let (outcome, attempts) =
      try_from-decided q left (suc n) m o (omega (arith, lt))
        (λ k less. ap (turn q) (omega arith) ∙ before (suc k) (omega (arith, less)))
        (ap (turn q) (omega arith) ∙ decided) in
    rw retried (outcome, ap suc attempts)

-- A call ends with the first attempt that is no reason for another, as that attempt says, if it is
-- among the first `max_retries + 1`: no attempt comes after a final answer.
pub do_get-decided :
    (max_retries : ℕ) (q : Requests) (j : ℕ) (o : Outcome Page)
    → j ≤ max_retries
    → ((k : ℕ) → k < j → turn q k ≡ none)
    → turn q j ≡ some o
    → ((do_get max_retries q).outcome ≡ o) × ((do_get max_retries q).attempts ≡ suc j)
unfolding do_get
do_get-decided max_retries q j o le before decided =
    try_from-decided q (suc max_retries) 0 j o (omega (arith, le))
      (λ k less. ap (turn q) (omega arith) ∙ before k less) (ap (turn q) (omega arith) ∙ decided)

-- An attempt that answers with the page, by a status below 400.
abbrev pub IsAnswer : Attempt → Page → Type 0
IsAnswer a p = (status : ℕ) × (a ≡ response status p.body p.next_page) × (status < 400)

classify-IsAnswer :
    (status : ℕ) (body next_page : String) (p : Page)
    → classify status body next_page ≡ some (success p)
    → IsAnswer (response status body next_page) p
classify-IsAnswer status body next_page p h = (status, ground arith, ground arith)

decide-IsAnswer : (a : Attempt) (p : Page) → decide a ≡ some (success p) → IsAnswer a p
decide-IsAnswer limiter_failure p h = cc
decide-IsAnswer request_failure p h = cc
decide-IsAnswer no_response p h = cc
decide-IsAnswer broken_body p h = cc
decide-IsAnswer (response status body next_page) p h = classify-IsAnswer status body next_page p h

turn-IsAnswer :
    (q : Requests) (n : ℕ) (p : Page) → turn q n ≡ some (success p) → IsAnswer (q.attempt n) p
turn-IsAnswer q zero p h = decide-IsAnswer (q.attempt zero) p h
turn-IsAnswer q (suc n) p h = decide-IsAnswer (q.attempt (suc n)) p (ground arith)

-- An answer among the next `left` attempts.
abbrev Answered : Requests → ℕ → ℕ → Page → Type 0
Answered q left n p = (j : ℕ) × (j < left) × IsAnswer (q.attempt (n + j)) p

retried-Answered :
    (q : Requests) (left n : ℕ) (p : Page) → Answered q left (suc n) p → Answered q (suc left) n p
retried-Answered q left n p (j, less, answer) =
    (suc j, omega (arith, less), subst (λ k. IsAnswer (q.attempt k) p) (omega arith) answer)

or_retry-Answered :
    (q : Requests) (left n : ℕ) (o : Option (Outcome Page)) (rest : Call) (p : Page)
    → turn q n ≡ o
    → (rest.outcome ≡ success p → Answered q left (suc n) p)
    → (or_retry o (pause n) rest).outcome ≡ success p
    → Answered q (suc left) n p
or_retry-Answered q left n (some o) rest p h later final =
    let answer = turn-IsAnswer q n p (h ∙ ap some final) in
    (0, omega arith, subst (λ k. IsAnswer (q.attempt k) p) (omega arith) answer)
or_retry-Answered q left n none rest p h later final = retried-Answered q left n p (later final)

try_from-Answered :
    (q : Requests) (left n : ℕ) (p : Page)
    → (try_from q left n).outcome ≡ success p
    → Answered q left n p
unfolding try_from
try_from-Answered q zero n p h = cc
try_from-Answered q (suc left) n p h =
    or_retry-Answered q left n (turn q n) (try_from q left (suc n)) p refl
      (try_from-Answered q left (suc n) p) h

-- A call that gives a page has it from one of its first `max_retries + 1` attempts, whose status is
-- below 400.
pub do_get-IsAnswer :
    (max_retries : ℕ) (q : Requests) (p : Page)
    → (do_get max_retries q).outcome ≡ success p
    → (j : ℕ) × (j ≤ max_retries) × IsAnswer (q.attempt j) p
unfolding do_get
do_get-IsAnswer max_retries q p h =
    let (j, less, answer) = try_from-Answered q (suc max_retries) 0 p h in
    (j, omega (arith, less), subst (λ k. IsAnswer (q.attempt k) p) (omega arith) answer)
