-- ===== src/Processor.antt =====
-- src/argus/processor: the service that classifies new events.
pub mod Filters
pub mod Classifier
pub mod Dedup
pub mod Worker
pub mod Cluster
