-- ===== src/Transformer/Working.antt =====
-- What the steps of the service (internal/transformer/service.go) give where the statements work.
use gitlab_elt.Common.{
  map, ap, if◌then◌else◌, ℕ, String, Bool, false, none, some, List, [], ◌∷◌, ◌≡◌, refl, find?, any,
  arith, Bool-cases, inl, inr,
}
use gitlab_elt.Repository.{
  Db, Metric, transform_result, RawEvent, Issue, ok, advance, statement, record_metric,
}
use gitlab_elt.Repository.Silver.{is_issue, update_issues, get_issue_by_project_and_iid}
use gitlab_elt.Text.{format_int32}
use gitlab_elt.Transformer.Service.{Service, ensure_issue, create_stub, record_transform_result}

pub not_found : {A : Type 0} (p : A → Bool) (xs : List A) → any p xs ≡ false → find? p xs ≡ none
not_found p [] h = refl
not_found p (x ∷ xs) h = ground (arith, not_found p xs)

pub update_issues-map :
    (test : Issue → Bool) (f : Issue → Issue) (is : List Issue)
    → update_issues test f is ≡ map (λ i. if test i then f i else i) is
update_issues-map test f [] = refl
update_issues-map test f (i ∷ is) =
    ap (λ js. (if test i then f i else i) ∷ js) (update_issues-map test f is)

module _ (s : Service) where
  pub measured :
      (raw : RawEvent) (status : String) (d : Db)
      → (ms : List Metric) × (record_transform_result s raw status d
          ≡ (ok tt, record d { metrics = ms }))
  unfolding record_transform_result record_metric
  measured raw status d = elim (Bool-cases s.env.has_metrics) [
    | inl e ↦ (
      transform_result (format_int32 raw.project_id) raw.event_type status ∷ d.metrics,
      rw e refl,
    )
    | inr e ↦ (d.metrics, rw e refl)
  ]

module _ (s : Service) (works : (t : ℕ) → s.env.fails t ≡ false) where
  pub ensure_issue_there :
      (project_id iid : ℕ) (issue : Issue) (d : Db)
      → find? (is_issue project_id iid) d.issues ≡ some issue
      → ensure_issue s project_id iid d ≡ (ok issue, advance d)
  unfolding ensure_issue create_stub get_issue_by_project_and_iid statement
  ensure_issue_there project_id iid issue d there = rw (works d.tick, there) refl
