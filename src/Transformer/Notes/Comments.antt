-- ===== src/Transformer/Notes/Comments.antt =====
-- Notes that are comments (internal/transformer/service.go).
use gitlab_elt.Common.{
  some, ℕ, suc, Bool, true, false, some, List, [], ◌∷◌, ◌++◌, ◌==◌, ◌≡◌, refl, nat_eq, find?, any,
  found_of_any, Bool-cases, inl, inr, if◌then◌else◌,
}
use gitlab_elt.Domain.{GitlabNote}
use gitlab_elt.Repository.{
  Db, RawEvent, Issue, IssueComment, Result, ok, err, no_rows, advance, statement,
}
use gitlab_elt.Repository.Silver.{
  is_issue, new_issue_comment, insert_issue_comment, InsertIssueCommentParams,
}
use gitlab_elt.Transformer.Notes.{transform_event-note}
use gitlab_elt.Transformer.Working.{not_found, ensure_issue_there, measured}
use gitlab_elt.Transformer.Service.{
  Service, transform_event, transform_note_payload, transform_comment, after_comment,
  comment_params,
}

abbrev pub is_comment_key : ℕ → IssueComment → Bool
is_comment_key note_id c = c.gitlab_note_id == note_id

-- The comments with that of a note: a note that has its comment already adds none.
abbrev pub comments_with : Issue → GitlabNote → Db → List IssueComment
comments_with issue note d =
    if any (is_comment_key note.id) d.issue_comments
    then d.issue_comments
    else d.issue_comments
      ++ (record {
        id = suc d.issue_comment_seq;
        gitlab_note_id = note.id;
        issue_id = issue.id;
        author_name = some note.author.username;
        body = some note.body;
        comment_timestamp = note.created_at;
      }
          ∷ [])

-- A success that has the comment in its place, and leaves the issues and their events.
abbrev pub IsCommented : Issue → GitlabNote → Db → Result Unit × Db → Type 0
IsCommented issue note d (r, d') =
    (r ≡ ok tt)
    × (d'.issue_comments ≡ comments_with issue note d)
    × (d'.issues ≡ d.issues)
    × (d'.issue_events ≡ d.issue_events)

module _ (s : Service) (works : (t : ℕ) → s.env.fails t ≡ false) where
  insert_first :
      (p : InsertIssueCommentParams) (d : Db)
      → any (is_comment_key p.gitlab_note_id) d.issue_comments ≡ false
      → insert_issue_comment s.env p d ≡ (
        ok (new_issue_comment (suc d.issue_comment_seq) p),
        record (advance d) {
          issue_comment_seq = suc d.issue_comment_seq;
          issue_comments = d.issue_comments ++ (new_issue_comment (suc d.issue_comment_seq) p ∷ []);
        },
      )
  unfolding insert_issue_comment statement
  insert_first p d new =
      rw (works d.tick, not_found (is_comment_key p.gitlab_note_id) d.issue_comments new) refl

  insert_again :
      (p : InsertIssueCommentParams) (d : Db)
      → any (is_comment_key p.gitlab_note_id) d.issue_comments ≡ true
      → insert_issue_comment s.env p d
        ≡ (err no_rows, record (advance d) { issue_comment_seq = suc d.issue_comment_seq })
  unfolding insert_issue_comment statement
  insert_again p d old =
      let (c, found) = found_of_any (is_comment_key p.gitlab_note_id) d.issue_comments old in
      rw (works d.tick, found) refl

  transform_comment-IsCommented :
      (raw : RawEvent) (note : GitlabNote) (issue : Issue) (d : Db)
      → find? (is_issue raw.project_id raw.issue_iid) d.issues ≡ some issue
      → IsCommented issue note d (transform_comment s raw note d)
  unfolding transform_comment after_comment
  transform_comment-IsCommented raw note issue d there =
      let p = comment_params s issue note in
      let key = is_comment_key note.id in
      elim (Bool-cases (any key d.issue_comments)) [
        | inl old ↦
            rw
              (
                ensure_issue_there s works raw.project_id raw.issue_iid issue d there,
                insert_again p (advance d) old,
              )
              (refl, rw old refl, refl, refl)
        | inr new ↦
            let after : Db = record (advance (advance d)) {
              issue_comment_seq = suc d.issue_comment_seq;
              issue_comments =
                  d.issue_comments ++ (new_issue_comment (suc d.issue_comment_seq) p ∷ []);
            } in
            let (ms, m) = measured s raw "success" after in
            rw
              (
                ensure_issue_there s works raw.project_id raw.issue_iid issue d there,
                insert_first p (advance d) new,
                m,
              )
              (refl, rw new refl, refl, refl)
      ]

  -- Where no statement fails, the note of a user on a known issue succeeds, and `issue_comments` then
  -- has its comment, once: the row is appended, with the issue and the note's author, body and time,
  -- if no comment has the note's id, and the table stays as it is if one has. The issues and their
  -- events do not change.
  pub transform_event-IsCommented :
      (raw : RawEvent) (note : GitlabNote) (issue : Issue) (d : Db)
      → raw.event_type ≡ "note"
      → s.codec.decode_note raw.raw_payload ≡ some note
      → note.system ≡ false
      → find? (is_issue raw.project_id raw.issue_iid) d.issues ≡ some issue
      → IsCommented issue note d (transform_event s raw d)
  unfolding transform_note_payload transform_comment
  transform_event-IsCommented raw note issue d type decoded by_user there =
      rw (transform_event-note s raw note d type decoded, by_user)
        (transform_comment-IsCommented raw note issue d there)
