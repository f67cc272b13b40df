-- ===== src/Config.antt =====
-- internal/config/config.go: what the worker reads from its environment. The types are in Types, the
-- variables in Variables, lists of numbers in Lists, the OpenTelemetry settings in Telemetry, and
-- `Load` in Load.
pub mod Types
pub mod Variables
pub mod Lists
pub mod Telemetry
pub mod Load
