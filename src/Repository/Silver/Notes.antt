-- ===== src/Repository/Silver/Notes.antt =====
-- internal/repository/issue_comments.sql.go and unknown_labels_log.sql.go.
use gitlab_elt.Common.{
  ℕ, suc, String, Option, none, some, List, [], ◌∷◌, ◌++◌, if◌then◌else◌, ◌==◌, nat_eq, string_eq,
  find?,
}
use gitlab_elt.Repository.Tables.{IssueComment, UnknownLabelsLog}
use gitlab_elt.Repository.Connection.{Env, Action, ok, err, no_rows, statement}

-- Comments.

pub record InsertIssueCommentParams : Type 0 where
  pub gitlab_note_id : ℕ
  pub issue_id : ℕ
  pub author_name : Option String
  pub body : Option String
  pub comment_timestamp : ℕ

abbrev pub new_issue_comment : ℕ → InsertIssueCommentParams → IssueComment
new_issue_comment id p = record {
  id = id;
  gitlab_note_id = p.gitlab_note_id;
  issue_id = p.issue_id;
  author_name = p.author_name;
  body = p.body;
  comment_timestamp = p.comment_timestamp;
}

module _ (env : Env) where
  -- `ON CONFLICT (gitlab_note_id) DO NOTHING RETURNING`
  unfoldable pub insert_issue_comment : InsertIssueCommentParams → Action IssueComment
  insert_issue_comment p = statement env (λ d.
      elim (find? (λ c. c.gitlab_note_id == p.gitlab_note_id) d.issue_comments) [
        | none ↦ (
          ok (new_issue_comment (suc d.issue_comment_seq) p),
          record d {
            issue_comment_seq = suc d.issue_comment_seq;
            issue_comments =
                d.issue_comments ++ (new_issue_comment (suc d.issue_comment_seq) p ∷ []);
          },
        )
        | some c ↦ (err no_rows, record d { issue_comment_seq = suc d.issue_comment_seq })
      ])

-- Unknown labels.

-- `occurrence_count + 1` for the row of the label.
abbrev pub count_label : String → List UnknownLabelsLog → List UnknownLabelsLog
count_label label [] = []
count_label label (u ∷ us) =
    (if u.label_name == label then record u { occurrence_count = suc u.occurrence_count } else u)
    ∷ count_label label us

abbrev pub new_unknown_label : ℕ → String → UnknownLabelsLog
new_unknown_label id label = record { id = id; label_name = label; occurrence_count = 1 }

module _ (env : Env) where
  unfoldable pub upsert_unknown_label : String → Action UnknownLabelsLog
  upsert_unknown_label label = statement env (λ d.
      let id = suc d.unknown_label_seq in
      elim (find? (λ u. u.label_name == label) d.unknown_labels) [
        | none ↦ (
          ok (new_unknown_label id label),
          record d {
            unknown_label_seq = id;
            unknown_labels = d.unknown_labels ++ (new_unknown_label id label ∷ []);
          },
        )
        | some u ↦ (
          ok (record u { occurrence_count = suc u.occurrence_count }),
          record d { unknown_label_seq = id; unknown_labels = count_label label d.unknown_labels },
        )
      ])
