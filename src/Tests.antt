-- ===== src/Tests.antt =====
-- Runs of the model on small data, and instances of the theorems.
mod Samples
mod Sync
mod Reconciler
mod Settings
mod Gmail
mod GmailSync
mod Microsoft
mod Drafts
mod Services
mod Order
mod Repo
