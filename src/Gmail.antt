-- ===== src/Gmail.antt =====
-- core/internal/provider/gmail: the Gmail backend.
pub mod Quota
pub mod Message
pub mod Delta
pub mod Errors
pub mod Checkpoint
pub mod Sync
pub mod Mailbox
