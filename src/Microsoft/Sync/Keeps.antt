-- ===== src/Microsoft/Sync/Keeps.antt =====
-- sync.go, no conversation is lost.

use dankmail.Base.{String, List, string_eq, map, nat_eq}
use dankmail.Provider.{ThreadDelta}
use dankmail.Microsoft.Message.{MicrosoftProvider}
use dankmail.Microsoft.Sync.Kept.{Kept}

module _ (p : MicrosoftProvider) where
  abbrev reported_ids : List ThreadDelta → List String
  reported_ids = map (λ d. d.thread_id)
