-- ===== src/Repository/Keys.antt =====
-- The unique constraints of the Silver tables (db/migrations) under the queries of
-- internal/repository.
pub mod Lists
use gitlab_elt.Common.{
  ℕ, zero, suc, ◌≤◌, String, Bool, true, false, Option, none, some, List, [], ◌∷◌, ◌++◌, ◌==◌, ◌&&◌,
  ◌≡◌, refl, nat_eq, string_eq, eq_iff, if◌then◌else◌, any, find?, All, All-append, arith,
}
use gitlab_elt.Repository.Tables.{Issue, IssueEvent, IssueComment, UnknownLabelsLog}
use gitlab_elt.Repository.Connection.{Db, Env, statement, advance, ok, err}
use gitlab_elt.Repository.Silver.{
  sql_eq, is_issue, is_event_key, update_issues, overwrite_issue, new_issue, new_issue_event,
  new_issue_comment, UpsertIssueParams, InsertIssueEventParams, InsertIssueCommentParams,
  count_label, new_unknown_label, upsert_issue, insert_issue_event, insert_issue_comment,
  upsert_unknown_label, update_issue_assignees, update_issue_canonical_state, update_issue_metadata,
}
use gitlab_elt.Repository.Keys.Lists.{NodupBy, append-NodupBy}

abbrev pub same_issue : Issue → Issue → Bool
same_issue i j = is_issue i.project_id i.iid j

abbrev pub same_event : IssueEvent → IssueEvent → Bool
same_event e f = is_event_key e.gitlab_event_id e.project_id f

abbrev pub same_comment : IssueComment → IssueComment → Bool
same_comment c d = d.gitlab_note_id == c.gitlab_note_id

abbrev pub same_label : UnknownLabelsLog → UnknownLabelsLog → Bool
same_label u v = v.label_name == u.label_name

abbrev pub AllNumbered : List IssueEvent → Type 0
AllNumbered [] = Unit
AllNumbered (e ∷ es) = (1 ≤ e.id) × AllNumbered es

append-AllNumbered :
    (e : IssueEvent) (es : List IssueEvent)
    → 1 ≤ e.id
    → AllNumbered es
    → AllNumbered (es ++ (e ∷ []))
append-AllNumbered e [] h n = (h, tt)
append-AllNumbered e (f ∷ fs) h n = (n.0, append-AllNumbered e fs h n.1)

-- The keys are unique, and every event has a number, so that its id is not the zero value.
pub record IsConsistent (d : Db) : Type 0 where
  pub issue_keys : NodupBy same_issue d.issues
  pub event_keys : NodupBy same_event d.issue_events
  pub event_ids : AllNumbered d.issue_events
  pub note_keys : NodupBy same_comment d.issue_comments
  pub label_keys : NodupBy same_label d.unknown_labels

same_issue_comm : (i j : Issue) → same_issue i j ≡ same_issue j i
same_issue_comm i j = ground arith

same_event_comm : (e f : IssueEvent) → same_event e f ≡ same_event f e
same_event_comm e f = ground arith

same_comment_comm : (c d : IssueComment) → same_comment c d ≡ same_comment d c
same_comment_comm c d = ground arith

same_label_comm : (u v : UnknownLabelsLog) → same_label u v ≡ same_label v u
same_label_comm u v =
    ground (arith, eq_iff u.label_name v.label_name, eq_iff v.label_name u.label_name)

-- An update of issues that leaves the project and the number of each alone.
abbrev pub KeepsKey : (Issue → Issue) → Type 0
KeepsKey f = (i : Issue) → ((f i).project_id ≡ i.project_id) × ((f i).iid ≡ i.iid)

any-update_issues :
    (i : Issue) (test : Issue → Bool) (f : Issue → Issue) (is : List Issue)
    → KeepsKey f
    → any (same_issue i) (update_issues test f is) ≡ any (same_issue i) is
any-update_issues i test f [] k = refl
any-update_issues i test f (j ∷ js) k = ground (arith, k j, any-update_issues i test f js k)

pub update_issues-NodupBy :
    (test : Issue → Bool) (f : Issue → Issue) (is : List Issue)
    → KeepsKey f
    → NodupBy same_issue is
    → NodupBy same_issue (update_issues test f is)
update_issues-NodupBy test f [] k n = tt
update_issues-NodupBy test f (i ∷ is) k n =
    ground (arith, k i, any-update_issues i test f is k, update_issues-NodupBy test f is k n.1)

any-count_label :
    (u : UnknownLabelsLog) (label : String) (us : List UnknownLabelsLog)
    → any (same_label u) (count_label label us) ≡ any (same_label u) us
any-count_label u label [] = refl
any-count_label u label (v ∷ vs) = ground (arith, any-count_label u label vs)

pub count_label-NodupBy :
    (label : String) (us : List UnknownLabelsLog)
    → NodupBy same_label us
    → NodupBy same_label (count_label label us)
count_label-NodupBy label [] n = tt
count_label-NodupBy label (u ∷ us) n =
    ground (arith, any-count_label u label us, count_label-NodupBy label us n.1)

module _ (env : Env) (d : Db) (c : IsConsistent d) where
  pub upsert_issue-IsConsistent : (p : UpsertIssueParams) → IsConsistent (upsert_issue env p d).1
  unfolding statement upsert_issue
  upsert_issue-IsConsistent p = ground (
    arith,
    append-NodupBy same_issue (new_issue (suc d.issue_seq) p) d.issues
        (λ i. same_issue_comm i (new_issue (suc d.issue_seq) p)),
    update_issues-NodupBy (is_issue p.project_id p.iid) (overwrite_issue p) d.issues
        (λ i. (refl, refl)),
  )

  pub insert_issue_event-IsConsistent :
      (p : InsertIssueEventParams) → IsConsistent (insert_issue_event env p d).1
  unfolding statement insert_issue_event
  insert_issue_event-IsConsistent p =
      let e = new_issue_event (suc d.issue_event_seq) p in
      ground (
        arith,
        append-NodupBy same_event e d.issue_events (λ f. same_event_comm f e),
        append-AllNumbered e d.issue_events,
      )

  pub insert_issue_comment-IsConsistent :
      (p : InsertIssueCommentParams) → IsConsistent (insert_issue_comment env p d).1
  unfolding statement insert_issue_comment
  insert_issue_comment-IsConsistent p =
      let e = new_issue_comment (suc d.issue_comment_seq) p in
      ground (arith, append-NodupBy same_comment e d.issue_comments (λ f. same_comment_comm f e))

  pub upsert_unknown_label-IsConsistent :
      (label : String) → IsConsistent (upsert_unknown_label env label d).1
  unfolding statement upsert_unknown_label
  upsert_unknown_label-IsConsistent label =
      let u = new_unknown_label (suc d.unknown_label_seq) label in
      ground (
        arith,
        append-NodupBy same_label u d.unknown_labels (λ v. same_label_comm v u),
        count_label-NodupBy label d.unknown_labels,
      )

  pub update_issue_assignees-IsConsistent :
      (text : String) (id : ℕ) → IsConsistent (update_issue_assignees env text id d).1
  unfolding statement update_issue_assignees
  update_issue_assignees-IsConsistent text id = ground (
    arith,
    update_issues-NodupBy (λ i. i.id == id) (λ i. record i { assignees = text }) d.issues
        (λ i. (refl, refl)),
  )

  pub update_issue_canonical_state-IsConsistent :
      (state : Option String) (id : ℕ)
      → IsConsistent (update_issue_canonical_state env state id d).1
  unfolding statement update_issue_canonical_state
  update_issue_canonical_state-IsConsistent state id = ground (
    arith,
    update_issues-NodupBy (λ i. i.id == id) (λ i. record i { current_canonical_state = state })
        d.issues (λ i. (refl, refl)),
  )

  pub update_issue_metadata-IsConsistent :
      (text : String) (id : ℕ) → IsConsistent (update_issue_metadata env text id d).1
  unfolding statement update_issue_metadata
  update_issue_metadata-IsConsistent text id = ground (
    arith,
    update_issues-NodupBy (λ i. i.id == id) (λ i. record i { metadata_labels = text }) d.issues
        (λ i. (refl, refl)),
  )
