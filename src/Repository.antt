-- ===== src/Repository.antt =====
-- internal/repository: the rows of the tables (models.go), the connection that the queries run over
-- (db.go), and the queries, one function for each of the generated methods that the worker calls.
mod Tables
mod Connection
pub mod Bronze
pub mod Silver
pub mod Mappings
pub mod Frame
pub mod Keys
pub mod Latest
pub mod Silent
pub mod Projects
pub use Tables.*
pub use Connection.*
unfoldable pub use Connection.{statement, now_utc, record_metric}
