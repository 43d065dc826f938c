-- ===== src/Microsoft/Sync/Asks.antt =====
-- sync.go, a pass makes a request.
use dankmail.Base.{
  ℕ, suc, ◌+◌, ◌≤◌, ◌<◌, String, Bool, true, false, List, [], ◌∷◌, some, ◌==◌, string_eq, nat_eq,
  ◌≡◌, ◌⊎◌, refl, ◌∙◌, inl, inr, arith, Bool-cases, if◌then◌else◌,
}
use dankmail.Gmail.Sync.Falls.{Result-cases}
use dankmail.Microsoft.Errors.{is_not_found}
use dankmail.Provider.{ThreadDelta}
use dankmail.Microsoft.Message.{MicrosoftProvider, GraphMessage, DeltaPage, thread_delta}
use dankmail.Microsoft.Checkpoint.{
  GraphCheckpoint, GraphResult, Round, Pass, returned, goes_on, add_conversation, take_message,
  take_messages, advance, take_thread, drop_pending, next_link_of, take_removed,
}
use dankmail.Microsoft.Sync.{checkpoint, folder_pass, removed_pass, conversation_pass, threads_pass}

-- How many phases follow this one, of the three that `Sync` lets in.
unfoldable pub later_phases : String → ℕ
later_phases phase = if phase == "delta" then 2 else if phase == "removed" then 1 else 0

pub later_phases_bound : (phase : String) → later_phases phase ≤ 2
unfolding later_phases
later_phases_bound phase = ground arith

abbrev pub IsPhase : String → Type 0
IsPhase phase = (phase ≡ "delta") ⊎ ((phase ≡ "removed") ⊎ (phase ≡ "threads"))

-- Requests are made, or the next phase begins.
abbrev pub MovesOn : Round → Round → Type 0
MovesOn s s' =
    IsPhase s'.st.phase
    × (s.requests + later_phases s'.st.phase < s'.requests + later_phases s.st.phase)

-- What a round keeps when only the list of conversations changes.
abbrev Keeps : Round → Round → Type 0
Keeps s s' = (s'.requests ≡ s.requests) × (s'.st.phase ≡ s.st.phase)

add_conversation-Keeps : (id : String) (s : Round) → Keeps s (add_conversation id s)
unfolding add_conversation
add_conversation-Keeps id s = ground arith

take_message-Keeps : (s : Round) (m : GraphMessage) → Keeps s (take_message s m)
unfolding take_message
take_message-Keeps s m = elim (Bool-cases m.removed) [
  | inl e ↦ rw e (refl, refl)
  | inr e ↦ rw e (add_conversation-Keeps m.conversation_id s)
]

take_messages-Keeps : (s : Round) (ms : List GraphMessage) → Keeps s (take_messages s ms)
unfolding take_messages
take_messages-Keeps s [] = (refl, refl)
take_messages-Keeps s (m ∷ ms) =
    let first = take_message-Keeps s m in
    let later = take_messages-Keeps (take_message s m) ms in (later.0 ∙ first.0, later.1 ∙ first.1)

-- One more request, in the same phase.
abbrev pub Asks : Round → Round → Type 0
Asks s s' = (s'.requests ≡ suc s.requests) × (s'.st.phase ≡ s.st.phase)

module _ (p : MicrosoftProvider) where
  abbrev pub AsksPass : Round → Pass → Type 0
  AsksPass s (returned r) = Unit {0}
  AsksPass s (goes_on s') = Asks s s'

  AsksPass-if :
      (b : Bool) (s : Round) (x : Pass) (r : GraphResult)
      → AsksPass s x
      → AsksPass s (if b then x else returned r)
  AsksPass-if true s x r h = h
  AsksPass-if false s x r h = tt

  advance_phase :
      (folder : String) (page : DeltaPage) (st : GraphCheckpoint)
      → (advance folder page st).phase ≡ st.phase
  unfolding advance
  advance_phase folder page st = ground arith

  pub folder_pass-Asks :
      (folder : String) (i : ℕ) (s : Round) → AsksPass s (folder_pass p folder i s)
  unfolding folder_pass
  folder_pass-Asks folder i s =
      elim (Result-cases (p.api.delta_messages i folder (next_link_of folder s.st))) [
        | inl (e, k) ↦ rw (k, folder_pass) tt
        | inr (page, k) ↦
            let s' = record s { requests = suc s.requests } in
            let keeps = take_messages-Keeps s' page.messages in
            rw (k, folder_pass)
              (keeps.0, advance_phase folder page (take_messages s' page.messages).st ∙ keeps.1)
      ]

  pub removed_pass-Asks :
      (id : String) (rest : List String) (i : ℕ) (s : Round)
      → AsksPass s (removed_pass p (id ∷ rest) i s)
  unfolding removed_pass
  removed_pass-Asks id rest i s = elim (Result-cases (p.api.get_message i id)) [
    | inl (e, k) ↦
        rw (k, removed_pass)
          (AsksPass-if (is_not_found p.as_graph e) s
            (goes_on (record s { requests = suc s.requests; st = record s.st { removed = rest } }))
            (checkpoint p s (some e)) (refl, refl))
    | inr (m, k) ↦
        rw (k, removed_pass)
          (add_conversation-Keeps m.conversation_id
            (record s { requests = suc s.requests; st = record s.st { removed = rest } }))
  ]

  take_thread-Keeps :
      (delta : ThreadDelta) (id : String) (s : Round) → Keeps s (take_thread delta id s)
  unfolding take_thread
  take_thread-Keeps delta id s = ground arith

  conversation_pass-Asks :
      (id : String) (rest : List String) (msgs : List GraphMessage) (i : ℕ) (s : Round)
      → AsksPass s (conversation_pass p id rest msgs i s)
  unfolding conversation_pass drop_pending
  conversation_pass-Asks id rest msgs i s =
      elim (Result-cases (thread_delta p i s.folder_ids id msgs)) [
        | inl (e, k) ↦ rw (k, conversation_pass) tt
        | inr ((delta, ids), k) ↦
            rw (k, conversation_pass)
              (take_thread-Keeps delta id
                (record s { requests = suc s.requests; folder_ids = some ids }))
      ]

  pub threads_pass-Asks :
      (list : List String) (i : ℕ) (s : Round) → AsksPass s (threads_pass p list i s)
  unfolding threads_pass drop_pending
  threads_pass-Asks [] i s = tt
  threads_pass-Asks (id ∷ rest) i s = elim (Result-cases (p.api.list_conversation i id)) [
    | inl (e, k) ↦
        rw (k, threads_pass)
          (AsksPass-if (is_not_found p.as_graph e) s
            (goes_on (
              drop_pending rest
                (record s { requests = suc s.requests; changes = take_removed id s.changes })))
            (checkpoint p s (some e)) (refl, refl))
    | inr ([], k) ↦ rw (k, threads_pass) (refl, refl)
    | inr (m ∷ ms, k) ↦ rw (k, threads_pass) (conversation_pass-Asks id rest (m ∷ ms) i s)
  ]
