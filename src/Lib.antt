-- ===== src/Lib.antt =====
-- A model of the worker of gitlab-elt, which copies the label events and notes of GitLab issues into a
-- database (Bronze) and derives the states, comments and assignees of the issues from them (Silver).
--
-- The parts and how they interact. The discovery (internal/discovery/service.go) asks GitLab for the
-- projects of the configured groups and upserts them. The extractor (internal/sync/extractor.go) asks
-- for the issues of each project since its cursor, stores their events as raw events, and moves the
-- cursor. The transformer (internal/transformer) takes the unprocessed raw events in batches, maps
-- their labels by the mapper (internal/mapper), writes the Silver tables, and marks the events that
-- worked. All of them reach the database by the queries of internal/repository, and GitLab by the
-- client of internal/gitlab. The scheduler (internal/scheduler) starts them. The worker
-- (cmd/worker/main.go) loads its configuration (internal/config) and the mapper, and wires them all.
--
-- The files:
--   Domain            internal/domain/models.go, the values of the GitLab API
--   Text              the functions of Go's standard library on texts, numbers and times that the
--                     worker uses
--   Json              encoding/json, as a record of encoders and decoders
--   Repository        internal/repository: Tables are the rows (models.go); Connection is the database
--                     as a state, with the failures of statements, the clock and the metrics; Bronze,
--                     Silver, Mappings and Projects are the queries; Frame carries a relation from
--                     queries to bodies; Keys are the unique constraints, and Silent
--                     are the changes that the Silver tables do not notice
--   Mapper            internal/mapper/mapper.go
--   Transformer       internal/transformer: Service (service.go: Stub is `ensureIssue`, Metadata is
--                     `updateIssueMetadata`), Batch (`TransformBatch`, `TransformAll`), EdgeCases
--                     (edge_cases.go) and Assignees (assignees.go); Frame, Labels, Notes and
--                     Stubs hold what is proved of them, and Working what the steps give
--                     where the statements work
--   Gitlab            the interface `GitlabClient` of internal/domain/interfaces.go; Gitlab.Client and
--                     Gitlab.Endpoints are internal/gitlab/client.go: the retries and the pages, and
--                     the addresses, with the client as an implementation of the interface
--   Config            internal/config/config.go: Types, Variables (`resolveEnvValue` and what calls
--                     it), Lists (`parseIntList`), Telemetry (the settings of OpenTelemetry) and Load
--   Telemetry         internal/telemetry/tracing.go
--   Metrics           internal/metrics: Registry (metrics.go), Meter (otel_meter.go), Exporter
--                     (otel_exporter.go), Resource (otel_resource.go); Catalog is the catalog of
--                     docs/OBSERVABILITY.md, Documented what the client library of Prometheus
--                     promises, and Mirror what both systems receive
--   Health            internal/health/handler.go
--   Sync              internal/sync/extractor.go
--   Discovery         internal/discovery/service.go
--   Scheduler         internal/scheduler/scheduler.go
--   Worker            the sync cycle and the discovery job of cmd/worker/main.go, the steps of
--                     cmd/backfill/main.go, and sequences of them; Worker.Startup is the start of the
--                     worker and the jobs that its cron fires, Worker.Observed its metrics, and
--                     Worker.Backfill the process of the backfill
--   Common            shared tests, lists, maps and integers
--   Tests             runs on sample data
--
-- How code becomes a definition. A Go function keeps its name, in snake case. One that works on the
-- database is an action: it takes the database and returns a result or an error beside the new
-- database. A call whose error the code looks at itself is an `attempt`; one that returns the error
-- at once is a step of a do block. Errors are told apart by kind, since only `pgx.ErrNoRows` is
-- tested for. A Go integer is the natural number of its bit pattern, with its wrap-around written
-- out; a time is milliseconds since year 1. A statement of SQL is a function on the tables, its
-- ON CONFLICT clause included, and may fail at any tick of the clock, as the parameter `fails` says.
-- Equal times in an ORDER BY are taken in the order of insertion.
--
-- Fuel. `TransformAll` loops until a batch has no success: fuel of one more than the number of
-- unprocessed events is enough, since every round but the last marks an event. The loop over the
-- pages depends on the server, so its fuel is the number of pages that the server has. The loop of
-- the retries is structural.
--
-- Not modelled: jobs that overlap, the shutdown, the spans of the tracing, the queries that only the
-- reports use, the texts of errors and logs, and a metadata column that holds the JSON value `null`,
-- which no code writes. The limiter of the requests is part of what the server says. The case and the
-- accents of Unicode (`unicode.ToLower`, golang.org/x/text), the JSON texts, the floating-point
-- numbers, the operating system, the cron library and those of Prometheus and OpenTelemetry are
-- parameters. The components list the calls of the recorder without durations, in `Db.metrics`; what
-- the recorder makes of a call is Metrics.
pub mod Common
pub mod Domain
pub mod Telemetry
pub mod Metrics
pub mod Text
pub mod Config
pub mod Health
pub mod Repository
pub mod Mapper
pub mod Transformer
pub mod Json
pub mod Gitlab
pub mod Sync
pub mod Discovery
pub mod Scheduler
pub mod Tests
pub mod Worker
