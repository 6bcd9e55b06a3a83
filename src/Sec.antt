-- ===== src/Sec.antt =====
-- src/argus/sec_poller: the service that reads Form 4 filings.
pub mod Edgar
pub mod Fetch
pub mod Search
pub mod Pipeline
