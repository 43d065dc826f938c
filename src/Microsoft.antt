-- ===== src/Microsoft.antt =====
-- core/internal/provider/microsoft: the Outlook backend.
pub mod Errors
pub mod Message
pub mod Checkpoint
pub mod Sync
pub mod Actions
