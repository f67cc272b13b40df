-- ===== src/Transformer/Service/Stub.antt =====
-- internal/transformer/service.go: the service, its metrics, and `ensureIssue`.
use Prim.Native.String.{◌++◌ as ◌<>◌}
use gitlab_elt.Common.{ℕ, String, Option, none, some, ◌==◌, nat_eq, string_eq, if◌then◌else◌}
use gitlab_elt.Domain.{GitlabIssue, int32, positive_int64}
use gitlab_elt.Text.{TextLib, format_int32}
use gitlab_elt.Mapper.{Mapper}
use gitlab_elt.Json.{Codec}
use gitlab_elt.Repository.{
  RawEvent, RawIssue, Issue, Env, Err, Result, ok, err, Action, transform_result, pure, raise,
  attempt, ◌>>=◌, ◌>>◌, now_utc, record_metric,
}
use gitlab_elt.Repository.Bronze.{get_raw_issue_by_project_and_iid}
use gitlab_elt.Repository.Silver.{UpsertIssueParams, get_issue_by_project_and_iid, upsert_issue}

-- The fields of `Service`; the connection and the metrics recorder are in `env`.
pub record Service : Type 0 where
  pub env : Env
  pub lib : TextLib
  pub codec : Codec
  pub mapper : Mapper
  pub batch_size : ℕ

abbrev created_at_or : ℕ → Option GitlabIssue → ℕ
created_at_or now none = now
created_at_or now (some i) = i.created_at

module _ (s : Service) where
  unfoldable pub record_transform_result : RawEvent → String → Action (Unit {0})
  record_transform_result raw status =
      record_metric s.env (transform_result (format_int32 raw.project_id) raw.event_type status)

  unfoldable pub transform_error : {A : Type 0} → RawEvent → Err → Action A
  transform_error raw e = record_transform_result raw "error" >> raise e

  -- What `ensureIssue` writes for an issue that it did not find: the data of the raw issue where
  -- there is one, and no state, no metadata and no assignees.
  unfoldable pub stub_params : ℕ → ℕ → ℕ → Result RawIssue → UpsertIssueParams
  stub_params project_id iid now (ok raw) = record {
    gitlab_issue_id = if positive_int64 raw.gitlab_issue_id then int32 raw.gitlab_issue_id else 0;
    project_id = project_id;
    iid = iid;
    title = some (if raw.title == "" then "Issue #" <> format_int32 iid else raw.title);
    current_canonical_state = none;
    metadata_labels = "";
    assignees = "";
    gitlab_created_at =
        if raw.raw_payload == ""
        then now
        else created_at_or now (s.codec.decode_issue raw.raw_payload);
  }
  stub_params project_id iid now (err _) = record {
    gitlab_issue_id = 0;
    project_id = project_id;
    iid = iid;
    title = some ("Issue #" <> format_int32 iid);
    current_canonical_state = none;
    metadata_labels = "";
    assignees = "";
    gitlab_created_at = now;
  }

  -- `ensureIssue` behind its first query: any error of that query counts as a missing issue.
  unfoldable pub create_stub : ℕ → ℕ → Result Issue → Action Issue
  create_stub project_id iid (ok issue) = pure issue
  create_stub project_id iid (err _) = do
    now ← now_utc s.env
    raw ← attempt (get_raw_issue_by_project_and_iid s.env project_id iid)
    upsert_issue s.env (stub_params project_id iid now raw)

  unfoldable pub ensure_issue : ℕ → ℕ → Action Issue
  ensure_issue project_id iid = do
    issue ← attempt (get_issue_by_project_and_iid s.env project_id iid)
    create_stub project_id iid issue
