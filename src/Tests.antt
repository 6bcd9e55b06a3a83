-- ===== src/Tests.antt =====
-- Sample rows and surroundings, and the theorems applied to them.
mod Samples
mod Migrating
mod Processing
mod Searching
mod Settling
mod Scheduling
mod Notifying
mod Alerting
mod Retrying
mod Polling
mod Filing
mod Running
mod Answering
mod Configuring
mod Retrieving
mod Delivering
mod Starting
mod Constructing
mod Waiting
