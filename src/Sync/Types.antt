-- ===== src/Sync/Types.antt =====
-- core/internal/sync/types.go: the operations of the queue. A `time.Time` is a number of
-- nanoseconds since 1970, and nil is `none`.
use dankmail.Base.{ℕ, String, Bool, true, false, List, [], Option, none}
use dankmail.Provider.{ReplyDraft, ComposeDraft}

-- `unknown` stands for any other text: the enum of the schema has the thirteen.
pub data OpType : Type 0 where
  mark_read mark_unread star unstar archive unarchive trash unspam spam snooze snooze_wake : OpType
  send_reply compose unknown : OpType

unfoldable pub op_type_discrete : Discrete OpType
op_type_discrete = hlevel

unfoldable pub batchable : OpType → Bool
batchable send_reply = false
batchable compose = false
batchable _ = true

-- `labels` is nil in operations that were queued before labels were kept.
pub record ThreadState : Type 0 where
  pub labels : Option (List String)
  pub unread : Bool
  pub starred : Bool
  pub in_inbox : Bool
  pub snoozed_until : Option ℕ

pub record SnoozePayload : Type 0 where
  pub until : ℕ
  pub mark_unread : Bool

pub record OpPayload : Type 0 where
  pub reply : Option ReplyDraft
  pub compose : Option ComposeDraft
  pub snooze : Option SnoozePayload
  pub prev : List (String × ThreadState)

abbrev pub no_payload : OpPayload
no_payload = record { reply = none; compose = none; snooze = none; prev = [] }

-- `uuid.UUID`, of which the code only asks whether two are the same.
abbrev pub AccountId : Type 0
AccountId = ℕ

pub record Op : Type 0 where
  pub id : ℕ
  pub account_id : AccountId
  pub type : OpType
  pub thread_ids : List String
  pub payload : OpPayload
  pub attempts : ℕ
