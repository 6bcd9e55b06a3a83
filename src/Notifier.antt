-- ===== src/Notifier.antt =====
-- src/argus/notifier: the service that sends alerts to Discord.

pub mod Commits
pub mod Discord
pub mod Embeds
pub mod Summaries
pub mod Worker
pub mod Digest
pub mod Form4Cluster
