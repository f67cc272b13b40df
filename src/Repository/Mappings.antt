-- ===== src/Repository/Mappings.antt =====
-- internal/repository/state_mapping.sql.go and metadata_mapping.sql.go. The two tables stand in the
-- order in which the queries return them.
use gitlab_elt.Common.{List}
use gitlab_elt.Repository.Tables.{StateMapping, MetadataMapping}
use gitlab_elt.Repository.Connection.{Env, Action, ok, statement}

module _ (env : Env) where
  unfoldable pub list_state_mappings : Action (List StateMapping)
  list_state_mappings = statement env (λ d. (ok d.state_mappings, d))

  unfoldable pub list_metadata_mappings : Action (List MetadataMapping)
  list_metadata_mappings = statement env (λ d. (ok d.metadata_mappings, d))
