-- ===== src/Tests.antt =====
-- Runs of the model on sample data (Tests/Sample), one at least for each of the results in Lib.antt.
mod Sample
mod Transforming
mod Assigning
mod Mapping
mod Noting
mod Observing
mod Extracting
mod Requesting
mod Configuring
mod Starting
