-- ===== src/Rss.antt =====
-- src/argus/rss_poller: the service that reads the feeds.
pub mod Feeds
pub mod Fetch
pub mod Parser
pub mod Pipeline
