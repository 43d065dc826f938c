-- ===== src/Sync/World.antt =====
-- The state that the parts of core/internal/sync share: the database, the events that went to the
-- bus, and the wake-up tokens of the executors.
use dankmail.Base.{ℕ, String, Bool, List, [], ◌∷◌, ◌++◌, if◌then◌else◌, contains, nat_eq}
use dankmail.Errdefs.{Error}
use dankmail.Provider.{Call}
use dankmail.Schema.{Cache}
use dankmail.Sync.Types.{AccountId, OpType}

pub record Arrival : Type 0 where
  pub account_id : AccountId
  pub thread_id : String
  pub message_id : String
  pub from : String
  pub subject : String
  pub snippet : String
  pub in_inbox : Bool

pub data Event : Type 0 where
  threads_changed account_auth : AccountId → Event
  ops_applied : AccountId → OpType → ℕ → Event
  op_failed : AccountId → OpType → Error → Event
  snooze_woke : AccountId → String → String → Event
  message_arrived : Arrival → Event

-- `published` has the oldest event first; `wakes` the accounts whose channel, of capacity one,
-- holds a token; `calls` the calls of all providers, the latest first.
pub record World : Type 0 where
  pub cache : Cache
  pub open cache use *
  pub published : List Event
  pub wakes : List AccountId
  pub calls : List Call

unfoldable pub publish : Event → World → World
publish e w = record w { published = w.published ++ e ∷ [] }

-- `Queue.Wake`: a token that is there already is enough.
unfoldable pub wake : AccountId → World → World
unfolding contains
wake account w = record w {
  wakes = if contains account w.wakes then w.wakes else account ∷ w.wakes;
}
