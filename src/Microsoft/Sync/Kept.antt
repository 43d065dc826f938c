-- ===== src/Microsoft/Sync/Kept.antt =====
-- sync.go, what the first phases keep of the list of conversations.

use dankmail.Base.{
  Option-cases, ℕ, suc, String, Bool, true, false, List, [], ◌∷◌, ◌++◌, none, some, ◌==◌, ◌&&◌, not,
  string_eq, ◌≡◌, ◌⊎◌, refl, ◌∙◌, ap, inl, inr, arith, Bool-cases, map, if◌then◌else◌, contains,
  contains-append, get_or, All, nat_eq,
}
use dankmail.Errdefs.{err, Error, Failure, ok}
use dankmail.Provider.{Changes}
use dankmail.Gmail.Checkpoint.{contains-sort_strings}
use dankmail.Gmail.Sync.Falls.{Result-cases}
use dankmail.Microsoft.Errors.{GraphError, has_status, is_not_found, is_gone}
use dankmail.Microsoft.Message.{GraphMessage, DeltaPage, MicrosoftProvider}
use dankmail.Microsoft.Checkpoint.{
  GraphCheckpoint, GraphCursor, GraphResult, Round, Pass, returned, goes_on, add_conversation,
  take_message, take_messages, advance, next_link_of, continuation, monitored_folders,
}
use dankmail.Microsoft.Sync.{
  fresh_checkpoint, checkpoint, reset, folder_pass, delta_pass, removed_pass,
}

-- The conversation is in the changes: with its messages, or as removed.
abbrev pub IsReported : String → Changes → Type 0
IsReported id changes =
    (contains id (map (λ d. d.thread_id) changes.upserted) ≡ true)
    ⊎ (contains id changes.removed_thread_ids ≡ true)

pub contains-later :
    (id : String) (xs ys : List String) → contains id xs ≡ true → contains id (xs ++ ys) ≡ true
contains-later id xs ys h = contains-append id xs ys ∙ rw h refl

module _ (p : MicrosoftProvider) where
  -- The conversation has messages and each is a draft.
  unfoldable pub IsBlank : String → Type 0
  IsBlank id =
      (i : ℕ) × (msgs : List GraphMessage) × (p.api.list_conversation i id ≡ ok msgs)
      × All (λ m. m.is_draft ≡ true) msgs

  -- Still on the list, in the changes, or blank.
  abbrev pub Kept : String → Round → Type 0
  Kept id s = (contains id s.st.pending ≡ true) ⊎ (IsReported id s.changes ⊎ IsBlank id)

  abbrev pub pending_after : GraphCursor → List String
  pending_after (continuation (some st)) = st.pending
  pending_after _ = []

  -- The API answered to a link that it is gone: status 410.
  unfoldable pub IsExpired : Type 0
  IsExpired =
      (i : ℕ) × (folder : String) × (link : String) × (e : Error) × (g : GraphError)
      × (p.api.delta_messages i folder link ≡ err e)
      × ((link == "") ≡ false)
      × (p.as_graph e ≡ some g)
      × (g.status ≡ 410)

  -- The result begins the sync again from the start, and a link has expired.
  abbrev pub IsReset : GraphResult → Type 0
  IsReset r = (r.cursor ≡ continuation (some (fresh_checkpoint p))) × (r.failure ≡ none) × IsExpired

  unfoldable pub KeptBy : String → GraphResult → Type 0
  KeptBy id r =
      (contains id (pending_after r.cursor) ≡ true)
      ⊎ (IsReported id r.changes ⊎ (IsBlank id ⊎ IsReset r))

  abbrev pub KeptOn : String → Pass → Type 0
  KeptOn id (returned r) = KeptBy id r
  KeptOn id (goes_on s) = Kept id s

  pub KeptOn-if :
      (b : Bool) (id : String) (x y : Pass)
      → KeptOn id x
      → KeptOn id y
      → KeptOn id (if b then x else y)
  KeptOn-if true id x y h k = h
  KeptOn-if false id x y h k = k

  pub checkpoint-Kept :
      (id : String) (s : Round) (e : Failure) → Kept id s → KeptBy id (checkpoint p s e)
  unfolding checkpoint KeptBy
  checkpoint-Kept id s e (inl h) = inl h
  checkpoint-Kept id s e (inr (inl h)) = inr (inl h)
  checkpoint-Kept id s e (inr (inr h)) = inr (inr (inl h))

  reset-KeptBy : (id : String) (s : Round) → IsExpired → KeptBy id (reset p s)
  unfolding reset checkpoint KeptBy
  reset-KeptBy id s expired = inr (inr (inr (refl, refl, expired)))

  gone-IsExpired :
      (i : ℕ) (folder link : String) (e : Error)
      → p.api.delta_messages i folder link ≡ err e
      → (is_gone p.as_graph e && not (link == "")) ≡ true
      → IsExpired
  unfolding IsExpired is_gone has_status
  gone-IsExpired i folder link e answer gone = elim (Option-cases (p.as_graph e)) [
    | inl k ↦
        let nothing : (false && not (link == "")) ≡ true = rw k at gone in
        absurd (ground (arith, nothing))
    | inr (g, k) ↦
        let known : ((g.status == 410) && not (link == "")) ≡ true = rw k at gone in
        (i, folder, link, e, g, answer, ground (arith, known), k, ground (arith, known))
  ]

  Kept-if :
      (b : Bool) (id : String) (s s' : Round)
      → Kept id s
      → Kept id s'
      → Kept id (if b then s else s')
  Kept-if true id s s' h k = h
  Kept-if false id s s' h k = k

  Kept-more :
      (id other : String) (s : Round)
      → Kept id s
      → (contains id (s.st.pending ++ (other ∷ [])) ≡ true) ⊎ (IsReported id s.changes ⊎ IsBlank id)
  Kept-more id other s (inl h) = inl (contains-later id s.st.pending (other ∷ []) h)
  Kept-more id other s (inr h) = inr h

  add_conversation-Kept :
      (id other : String) (s : Round) → Kept id s → Kept id (add_conversation other s)
  unfolding add_conversation
  add_conversation-Kept id other s h =
      Kept-if (not (other == "") && not (contains other s.affected)) id
        (record s {
          affected = s.affected ++ (other ∷ []);
          st = record s.st { pending = s.st.pending ++ (other ∷ []) };
        })
        s (Kept-more id other s h) h

  take_messages-Kept :
      (id : String) (s : Round) (ms : List GraphMessage) → Kept id s → Kept id (take_messages s ms)
  unfolding take_messages take_message
  take_messages-Kept id s [] h = h
  take_messages-Kept id s (m ∷ ms) h =
      take_messages-Kept id (take_message s m) ms (elim (Bool-cases m.removed) [
        | inl e ↦ rw e h
        | inr e ↦ rw e (add_conversation-Kept id m.conversation_id s h)
      ])

  advance_pending :
      (folder : String) (page : DeltaPage) (st : GraphCheckpoint)
      → (advance folder page st).pending ≡ st.pending
  unfolding advance
  advance_pending folder page st = ground arith

  Kept-advance :
      (id folder : String) (page : DeltaPage) (s : Round)
      → Kept id s
      → Kept id (record s { st = advance folder page s.st })
  Kept-advance id folder page s (inl h) =
      inl (ap (contains id) (advance_pending folder page s.st) ∙ h)
  Kept-advance id folder page s (inr h) = inr h

  KeptBy-if :
      (b : Bool) (id : String) (r r' : GraphResult)
      → (b ≡ true → KeptBy id r)
      → KeptBy id r'
      → KeptBy id (if b then r else r')
  KeptBy-if true id r r' h k = h refl
  KeptBy-if false id r r' h k = k

  folder_pass-Kept :
      (id folder : String) (i : ℕ) (s : Round) → Kept id s → KeptOn id (folder_pass p folder i s)
  unfolding folder_pass
  folder_pass-Kept id folder i s h =
      elim (Result-cases (p.api.delta_messages i folder (next_link_of folder s.st))) [
        | inl (e, k) ↦
            rw (k, folder_pass)
              (KeptBy-if (is_gone p.as_graph e && not (next_link_of folder s.st == "")) id
                (reset p s) (checkpoint p s (some e))
                (λ gone.
                  reset-KeptBy id s (gone-IsExpired i folder (next_link_of folder s.st) e k gone))
                (checkpoint-Kept id s (some e) h))
        | inr (page, k) ↦
            let s' = take_messages (record s { requests = suc s.requests }) page.messages in
            rw (k, folder_pass)
              (Kept-advance id folder page s'
                (take_messages-Kept id (record s { requests = suc s.requests }) page.messages h))
      ]

  pub delta_pass-Kept : (id : String) (i : ℕ) (s : Round) → Kept id s → KeptOn id (delta_pass p i s)
  unfolding delta_pass
  delta_pass-Kept id i s h =
      KeptOn-if (s.st.folder == 2) id _ _ h
        (folder_pass-Kept id (get_or monitored_folders s.st.folder "") i s h)

  pub removed_pass-Kept :
      (id : String) (list : List String) (i : ℕ) (s : Round)
      → Kept id s
      → KeptOn id (removed_pass p list i s)
  unfolding removed_pass
  removed_pass-Kept id [] i s (inl h) = inl (contains-sort_strings id s.st.pending ∙ h)
  removed_pass-Kept id [] i s (inr h) = inr h
  removed_pass-Kept id (m ∷ rest) i s h = elim (Result-cases (p.api.get_message i m)) [
    | inl (e, k) ↦
        rw (k, removed_pass)
          (KeptOn-if (is_not_found p.as_graph e) id
            (goes_on (record s { requests = suc s.requests; st = record s.st { removed = rest } }))
            (returned (checkpoint p s (some e))) h (checkpoint-Kept id s (some e) h))
    | inr (msg, k) ↦
        rw (k, removed_pass)
          (add_conversation-Kept id msg.conversation_id
            (record s { requests = suc s.requests; st = record s.st { removed = rest } }) h)
  ]
