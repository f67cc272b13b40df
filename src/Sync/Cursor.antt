-- ===== src/Sync/Cursor.antt =====
-- When an extraction (internal/sync/extractor.go) moves the cursor of a project.
use gitlab_elt.Common.{
  ℕ, suc, ◌∙◌, Bool, true, false, some, List, [], ◌∷◌, ◌==◌, ◌≡◌, refl, nat_eq, arith, ==-refl,
  Bool-cases, inl, inr, count_if, any,
}
use gitlab_elt.Domain.{GitlabIssue, int_of_int32}
use gitlab_elt.Gitlab.{list_issues, list_label_events}
use gitlab_elt.Repository.{
  RawProject, Db, Result, ok, err, api_failure, statement, now_utc, record_metric, advance,
}
use gitlab_elt.Repository.Bronze.{upsert_raw_issue}
use gitlab_elt.Repository.Projects.{
  is_raw_project, is_project, is_matched, sync_matched, sync_project_last_synced,
}
use gitlab_elt.Repository.Projects.Cursor.{cursors, cursors-matched}
use gitlab_elt.Sync.{
  Extractor, since, persist_issue_metadata, fetch_issue_raw_events, fetch_issues,
  fetch_project_raw_events, persist_events, advance_cursor, extract_project,
}

-- What stays when the events of a project are fetched: its rows, and the raw events.
abbrev Fetched : Db → Db → Type 0
Fetched d e =
    (e.raw_projects ≡ d.raw_projects) × (e.projects ≡ d.projects) × (e.raw_events ≡ d.raw_events)

module _ (e : Extractor) where
  metadata-Fetched :
      (p : ℕ) (issue : GitlabIssue) (d : Db) → Fetched d (persist_issue_metadata e p issue d).1
  unfolding persist_issue_metadata upsert_raw_issue statement
  metadata-Fetched p issue d = ground arith

  -- No label events can be listed.
  abbrev pub Unlisted : Type 0
  Unlisted = (t p i : ℕ) → e.gitlab.label_events t p i ≡ err api_failure

  fetch_issue_unlisted :
      (p : ℕ) (issue : GitlabIssue) (d : Db)
      → Unlisted
      → fetch_issue_raw_events e p issue d ≡ (err api_failure, advance d)
  unfolding fetch_issue_raw_events list_label_events
  fetch_issue_unlisted p issue d lost = rw (lost d.tick p issue.iid) refl

  fetch_issues_unlisted :
      (p : ℕ) (issues : List GitlabIssue) (d : Db)
      → Unlisted
      → let (r, d') = fetch_issues e p issues d in (r ≡ ok []) × Fetched d d'
  unfolding fetch_issues
  fetch_issues_unlisted p [] d lost = (refl, (refl, refl, refl))
  fetch_issues_unlisted p (issue ∷ issues) d lost =
      let d₁ = (persist_issue_metadata e p issue d).1 in
      let m = metadata-Fetched p issue d in
      let (empty, rest) = fetch_issues_unlisted p issues (advance d₁) lost in
      rw (fetch_issue_unlisted p issue d₁ lost, empty)
        (refl, (rest.0 ∙ m.0, rest.1 ∙ m.1, rest.2 ∙ m.2))

any_of_count : {A : Type 0} (p : A → Bool) (xs : List A) → count_if p xs ≡ 1 → any p xs ≡ true
any_of_count p [] h = absurd (omega (arith, h))
any_of_count p (x ∷ xs) h = ground (arith, any_of_count p xs)

-- The project has one row in each table.
abbrev pub HasRows : ℕ → Db → Type 0
HasRows id d =
    (count_if (is_raw_project id) d.raw_projects ≡ 1) × (count_if (is_project id) d.projects ≡ 1)

-- A call that succeeds, leaves the raw events alone, and moves both cursors of the project to `at`.
abbrev pub MovesOnly : ℕ → ℕ → Db → Result Unit × Db → Type 0
MovesOnly id at d (r, d') =
    (r ≡ ok tt) × (d'.raw_events ≡ d.raw_events) × (cursors id d' ≡ (some at, some at))

module _ (e : Extractor) (works : (t : ℕ) → e.env.fails t ≡ false) where
  advance_cursor-MovesOnly :
      (id start : ℕ) (d : Db) → HasRows id d → MovesOnly id start d (advance_cursor e id start d)
  unfolding advance_cursor sync_project_last_synced statement record_metric
  advance_cursor-MovesOnly id start d (raw_row, row) =
      let matched : is_matched id d ≡ true =
        rw
          (
            any_of_count (is_project id) d.projects row,
            any_of_count (is_raw_project id) d.raw_projects raw_row,
          )
          refl in
      let same_id : (id == id) ≡ true = ==-refl id in
      let moved : cursors id (sync_matched id (some start) d).1 ≡ (some start, some start) =
        cursors-matched id id (some start) d matched ∙ rw same_id refl in
      elim (Bool-cases e.env.has_metrics) [
        | inl m ↦ rw (works d.tick, matched, raw_row, row, m) (refl, refl, moved)
        | inr m ↦ rw (works d.tick, matched, raw_row, row, m) (refl, refl, moved)
      ]

  fetch_unlisted :
      (p t : ℕ) (issues : List GitlabIssue) (d : Db)
      → Unlisted e
      → e.gitlab.issues d.tick p t ≡ ok issues
      → let (r, d') = fetch_project_raw_events e p t d in (r ≡ ok []) × Fetched d d'
  unfolding fetch_project_raw_events list_issues
  fetch_unlisted p t issues d lost listed =
      rw listed (fetch_issues_unlisted e p issues (advance d) lost)

  finish :
      (id start : ℕ) (d d' : Db)
      → Fetched d d'
      → HasRows id d
      → MovesOnly id start d (advance_cursor e id start d')
  finish id start d d' (raw_projects, projects, raw_events) (raw_row, row) =
      let (done, same, moved) =
        advance_cursor-MovesOnly id start d' (rw raw_projects raw_row, rw projects row) in
      (done, same ∙ raw_events, moved)

  -- With a repository, where no statement fails, the list of the project's issues succeeds, GitLab
  -- refuses every list of label events, and the project has exactly one row in each of its two
  -- tables, the extraction of the project succeeds and moves its cursor in both tables to the time of
  -- the start, though it has stored no event: the updates of its issues are not asked for again.
  pub extract_project-MovesOnly :
      (project : RawProject) (issues : List GitlabIssue) (d : Db)
      → e.has_queries ≡ true
      → Unlisted e
      → e.gitlab.issues (suc d.tick) (int_of_int32 project.id) (since project.last_synced_at)
        ≡ ok issues
      → HasRows project.id d
      → MovesOnly project.id (e.env.now d.tick) d (extract_project e project d)
  unfolding extract_project now_utc persist_events fetch_project_raw_events advance_cursor
      list_issues sync_project_last_synced
  extract_project-MovesOnly project issues d queries lost listed rows =
      let p = int_of_int32 project.id in
      let t = since project.last_synced_at in
      let (empty, same) = fetch_unlisted p t issues (advance d) lost listed in
      simp (empty, queries)
        (finish project.id (e.env.now d.tick) d (fetch_project_raw_events e p t (advance d)).1 same
          rows)
