-- ===== src/Transformer/Batch/Consistent.antt =====
-- What a run of `TransformAll` (internal/transformer/service.go) does to the Silver tables.
use gitlab_elt.Common.{ℕ}
use gitlab_elt.Repository.{Db}
use gitlab_elt.Repository.Keys.{IsConsistent}
use gitlab_elt.Repository.Silent.{SameSilver-IsConsistent}
use gitlab_elt.Transformer.Service.{Service}
use gitlab_elt.Transformer.Frame.Consistent.{StaysConsistent, transform_event-IsConsistent}
use gitlab_elt.Transformer.Frame.Rows.{
  KeepsRows, KeepsRows-IsFrame, SameSilver-KeepsRows, transform_event-KeepsRows,
}
use gitlab_elt.Transformer.Batch.{transform_all}
use gitlab_elt.Transformer.Batch.Frame.{KeepsBatches, transform_all-Keeps}

module _ (s : Service) where
  consistent_batches : KeepsBatches s StaysConsistent
  consistent_batches = record {
    frame = record { same = λ d c. c; then_also = λ d e f h k c. k (h c) };
    event = λ raw d c. transform_event-IsConsistent s raw d c;
    silent = λ d e same c. SameSilver-IsConsistent d e same c;
  }

  -- A run of `TransformAll` over any raw events, at any point of which statements may fail, leaves no
  -- two issues with one project and number, no two issue events with one GitLab id and project, no
  -- two comments with one note id and no two unknown labels with one name, if there were none before.
  pub transform_all-IsConsistent :
      (fuel : ℕ) (d : Db) → IsConsistent d → IsConsistent (transform_all s fuel d).1
  transform_all-IsConsistent = transform_all-Keeps s StaysConsistent consistent_batches

  row_keeping_batches : KeepsBatches s KeepsRows
  row_keeping_batches = record {
    frame = KeepsRows-IsFrame;
    event = transform_event-KeepsRows s;
    silent = SameSilver-KeepsRows;
  }

  pub transform_all-KeepsRows : (fuel : ℕ) (d : Db) → KeepsRows d (transform_all s fuel d).1
  transform_all-KeepsRows = transform_all-Keeps s KeepsRows row_keeping_batches
