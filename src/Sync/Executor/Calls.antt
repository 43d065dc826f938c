-- ===== src/Sync/Executor/Calls.antt =====
-- executor.go, the provider calls that a batch makes: call and mergeThreadIDs.
use dankmail.Base.{
  String, Bool, false, List, [], ◌∷◌, ◌++◌, Option, none, some, if◌then◌else◌, contains, string_eq,
  nat_eq,
}
use dankmail.Errdefs.{Error, plain, Failure, wrap, permanent}
use dankmail.Provider.{Call, Backend, Flag}
use dankmail.Sync.Types.{
  AccountId, Op, OpType, mark_read, mark_unread, star, unstar, archive, unarchive, trash, unspam,
  spam, snooze, snooze_wake, send_reply, compose, unknown, SnoozePayload,
}

-- Appends the ids that `out` lacks.
unfoldable pub merge_ids : List String → List String → List String
merge_ids out [] = out
merge_ids out (i ∷ ids) = merge_ids (if contains i out then out else out ++ i ∷ []) ids

unfoldable pub merge_from : List String → List Op → List String
unfolding merge_ids
merge_from out [] = out
merge_from out (op ∷ ops) = merge_from (merge_ids out op.thread_ids) ops

unfoldable pub merge_thread_ids : List Op → List String
unfolding merge_from
merge_thread_ids = merge_from []

-- The calls that one batch makes: the second, if any, is made when the first succeeds.
pub data Plan : Type 0 where
  refuse : Plan
  once : Call → Plan
  twice : Call → Call → Plan

abbrev pub wakes_unread : Option SnoozePayload → Bool
wakes_unread none = false
wakes_unread (some s) = s.mark_unread

unfoldable pub plan_reply : Op → Plan
plan_reply op = elim op.payload.reply [
  | none ↦ refuse
  | some r ↦ elim op.thread_ids [ [] ↦ refuse | i ∷ ids ↦ once (Call.send_reply i r) ]
]

unfoldable pub plan_compose : Op → Plan
plan_compose op = elim op.payload.compose [ none ↦ refuse | some d ↦ once (Call.compose d) ]

-- The `switch` of `call`, on the first operation's type.
unfoldable pub plan_as : OpType → Op → List String → Plan
unfolding plan_reply plan_compose
plan_as mark_read op ids = once (Call.modify_flags ids [] (Flag.unread ∷ []))
plan_as mark_unread op ids = once (Call.modify_flags ids (Flag.unread ∷ []) [])
plan_as star op ids = once (Call.modify_flags ids (Flag.starred ∷ []) [])
plan_as unstar op ids = once (Call.modify_flags ids [] (Flag.starred ∷ []))
plan_as archive op ids = once (Call.archive ids)
plan_as snooze op ids = once (Call.archive ids)
plan_as unarchive op ids = once (Call.unarchive ids)
plan_as snooze_wake op ids =
    if wakes_unread op.payload.snooze
    then twice (Call.unarchive ids) (Call.modify_flags ids (Flag.unread ∷ []) [])
    else once (Call.unarchive ids)
plan_as trash op ids = once (Call.trash ids)
plan_as unspam op ids = once (Call.unspam ids)
plan_as spam op ids = once (Call.spam ids)
plan_as send_reply op ids = plan_reply op
plan_as compose op ids = plan_compose op
plan_as unknown op ids = refuse

unfoldable pub plan : Op → List Op → Plan
unfolding plan_as merge_thread_ids
plan op ops = plan_as op.type op (merge_thread_ids (op ∷ ops))

-- `Registry.Provider`.
abbrev pub Registry : Type 0
Registry = AccountId → Option Backend

abbrev pub no_provider : Error
no_provider = plain "sync: no provider registered for account"

abbrev pub bad_payload : Error
bad_payload = plain "sync: op payload is missing or malformed"

unfoldable pub second_call : Backend → Call → List Call → Failure → Failure × List Call
second_call b d calls (some e) = (some e, calls)
second_call b d calls none = (b d calls, d ∷ calls)

unfoldable pub run_plan : Backend → Plan → List Call → Failure × List Call
unfolding second_call
run_plan b refuse calls = (wrap permanent (some bad_payload), calls)
run_plan b (once c) calls = (b c calls, c ∷ calls)
run_plan b (twice c d) calls = second_call b d (c ∷ calls) (b c calls)

unfoldable pub call : Option Backend → Plan → List Call → Failure × List Call
unfolding run_plan
call none p calls = (wrap permanent (some no_provider), calls)
call (some b) p calls = run_plan b p calls
