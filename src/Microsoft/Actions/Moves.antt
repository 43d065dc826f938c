-- ===== src/Microsoft/Actions/Moves.antt =====
-- microsoft.go, which calls an action makes.
use dankmail.Base.{
  Bool, not, map, select, Bool-cases, if◌then◌else◌, ◌==◌, string_eq, lookup, ℕ, suc, String, List,
  [], ◌∷◌, ◌++◌, Option, none, some, ◌≡◌, ◌≢◌, refl, sym, ap, ◌∙◌, inl, inr, append_assoc,
  append-nil, Option-cases, arith, subst, string_eq,
}
use dankmail.Errdefs.{Error, Failure, err, ok}
use dankmail.Gmail.Sync.Falls.{Result-cases}
use dankmail.Microsoft.Errors.{classify}
use dankmail.Microsoft.Message.{GraphMessage, Texts, MicrosoftProvider, folders, text_at}
use dankmail.Microsoft.Actions.{
  GraphCall, move_message, Acted, act_on, each_message, move_between, move_into, with_folders,
  move_from_to, archive, unarchive, unspam, trash, spam,
}

-- The calls for all the messages.
unfoldable pub calls_for : (GraphMessage → Option GraphCall) → List GraphMessage → List GraphCall
calls_for act [] = []
calls_for act (m ∷ ms) = elim (act m) [
  | none ↦ calls_for act ms
  | some call ↦ call ∷ calls_for act ms
]

-- The calls are the first of those that are wanted, and all of them if there was no error.
abbrev pub MakesFirst : List GraphCall → Acted → Type 0
MakesFirst wanted acted =
    ((rest : List GraphCall) × (acted.calls ++ rest ≡ wanted))
    × (acted.failure ≡ none → acted.calls ≡ wanted)

module _ (p : MicrosoftProvider) (answer : GraphCall → List GraphCall → Failure) where
  classify-some : (e : Error) → classify p.as_graph (some e) ≢ none
  unfolding classify
  classify-some e h = ground arith

  act_on-MakesFirst :
      (act : GraphMessage → Option GraphCall) (ms : List GraphMessage) (calls : List GraphCall)
      → MakesFirst (calls ++ calls_for act ms) (act_on p answer act ms calls)
  unfolding act_on calls_for
  act_on-MakesFirst act [] calls = (([], refl), λ h. sym (append-nil calls))
  act_on-MakesFirst act (m ∷ ms) calls = elim (Option-cases (act m)) [
    | inl k ↦ rw (k, act_on, calls_for) (act_on-MakesFirst act ms calls)
    | inr (call, k) ↦ elim (Option-cases (answer call calls)) [
      | inl q ↦
          rw (k, act_on, calls_for)
            (rw q (
              subst (λ wanted. MakesFirst wanted (act_on p answer act ms (calls ++ (call ∷ []))))
                (append_assoc calls (call ∷ []) (calls_for act ms))
                (act_on-MakesFirst act ms (calls ++ (call ∷ [])))))
      | inr (e, q) ↦
          rw (k, act_on, calls_for)
            (rw q (
              (calls_for act ms, append_assoc calls (call ∷ []) (calls_for act ms)),
              λ h. absurd (classify-some e h),
            ))
    ]
  ]

  -- The calls for the messages of all the conversations that the API lists.
  unfoldable pub calls_wanted : (GraphMessage → Option GraphCall) → ℕ → List String → List GraphCall
  calls_wanted act i [] = []
  calls_wanted act i (id ∷ ids) =
      let later = calls_wanted act (suc i) ids in
      elim (p.api.list_conversation i id) [ err e ↦ later | ok msgs ↦ calls_for act msgs ++ later ]

  -- What the rest of the loop makes of a conversation that is done.
  go_on-MakesFirst :
      (acted : Acted) (next : Acted) (now later : List GraphCall)
      → MakesFirst now acted
      → ((acted.calls ≡ now) → MakesFirst (now ++ later) next)
      → MakesFirst (now ++ later) (elim acted.failure [ some e ↦ acted | none ↦ next ])
  go_on-MakesFirst acted next now later ((rest, h), all) following =
      elim (Option-cases acted.failure) [
        | inl k ↦ rw k (following (all k))
        | inr (e, k) ↦ rw k (
          (rest ++ later, sym (append_assoc acted.calls rest later) ∙ ap (λ l. l ++ later) h),
          λ q. absurd (ground (arith, q, k)),
        )
      ]

  each_message-MakesFirst :
      (act : GraphMessage → Option GraphCall) (i : ℕ) (ids : List String) (calls : List GraphCall)
      → MakesFirst (calls ++ calls_wanted act i ids) (each_message p answer i ids act calls)
  unfolding each_message calls_wanted
  each_message-MakesFirst act i [] calls = (([], refl), λ h. sym (append-nil calls))
  each_message-MakesFirst act i (id ∷ ids) calls =
      elim (Result-cases (p.api.list_conversation i id)) [
        | inl (e, k) ↦
            rw (k, each_message, calls_wanted)
              ((calls_wanted act (suc i) ids, refl), λ h. absurd (classify-some e h))
        | inr (msgs, k) ↦
            let acted = act_on p answer act msgs calls in
            let later = calls_wanted act (suc i) ids in
            let next = each_message p answer (suc i) ids act acted.calls in
            rw (k, each_message, calls_wanted)
              (subst
                (λ wanted. MakesFirst wanted (elim acted.failure [ some e ↦ acted | none ↦ next ]))
                (append_assoc calls (calls_for act msgs) later)
                (go_on-MakesFirst acted next (calls ++ calls_for act msgs) later
                  (act_on-MakesFirst act msgs calls)
                  (λ all.
                    subst (λ now. MakesFirst (now ++ later) next) all
                      (each_message-MakesFirst act (suc i) ids acted.calls))))
      ]

  -- The messages of the conversations, as the API lists them; those of a conversation that it does not
  -- list are left out.
  unfoldable pub listed_messages : ℕ → List String → List GraphMessage
  listed_messages i [] = []
  listed_messages i (id ∷ ids) =
      let later = listed_messages (suc i) ids in
      elim (p.api.list_conversation i id) [ err e ↦ later | ok msgs ↦ msgs ++ later ]

  calls_for-append :
      (act : GraphMessage → Option GraphCall) (xs ys : List GraphMessage)
      → calls_for act (xs ++ ys) ≡ calls_for act xs ++ calls_for act ys
  unfolding calls_for
  calls_for-append act [] ys = refl
  calls_for-append act (m ∷ ms) ys =
      let later = calls_for-append act ms ys in
      elim (Option-cases (act m)) [
        | inl k ↦ rw (k, calls_for) later
        | inr (call, k) ↦ rw (k, calls_for) (ap (λ l. call ∷ l) later)
      ]

  calls_wanted-listed :
      (act : GraphMessage → Option GraphCall) (i : ℕ) (ids : List String)
      → calls_wanted act i ids ≡ calls_for act (listed_messages i ids)
  unfolding calls_wanted listed_messages calls_for
  calls_wanted-listed act i [] = refl
  calls_wanted-listed act i (id ∷ ids) =
      let later = calls_wanted-listed act (suc i) ids in
      elim (Result-cases (p.api.list_conversation i id)) [
        | inl (e, k) ↦ rw (k, calls_wanted, listed_messages) later
        | inr (msgs, k) ↦
            rw (k, calls_wanted, listed_messages)
              (ap (λ l. calls_for act msgs ++ l) later
                ∙ sym (calls_for-append act msgs (listed_messages (suc i) ids)))
      ]

  -- The moves of the messages for which a test holds.
  unfoldable pub moves : (GraphMessage → Bool) → String → List GraphMessage → List GraphCall
  unfolding select
  moves test folder ms = map (λ m. move_message m.id folder) (select test ms)

  -- Calls that agree with a test move by it.
  calls_for-moves :
      (act : GraphMessage → Option GraphCall) (test : GraphMessage → Bool) (folder : String)
      (ms : List GraphMessage)
      → ((m : GraphMessage) → act m ≡ (if test m then some (move_message m.id folder) else none))
      → calls_for act ms ≡ moves test folder ms
  unfolding calls_for moves select
  calls_for-moves act test folder [] agree = refl
  calls_for-moves act test folder (m ∷ ms) agree =
      let later = calls_for-moves act test folder ms agree in
      elim (Bool-cases (test m)) [
        | inl e ↦
            let here : act m ≡ some (move_message m.id folder) = agree m ∙ rw e refl in
            rw (here, calls_for) (rw e (ap (λ l. move_message m.id folder ∷ l) later))
        | inr e ↦ let here : act m ≡ none = agree m ∙ rw e refl in rw (here, calls_for) (rw e later)
      ]

  -- An action whose folders are known, and whose calls agree with a test.
  with_folders-MakesFirst :
      (cached : Option Texts) (folder_ids : Texts) (ids : List String)
      (act : Texts → GraphMessage → Option GraphCall) (test : GraphMessage → Bool) (folder : String)
      → folders p 0 cached ≡ ok folder_ids
      → ((m : GraphMessage)
          → act folder_ids m ≡ (if test m then some (move_message m.id folder) else none))
      → MakesFirst
          (moves test folder (listed_messages 0 ids))
          (with_folders p answer cached ids act)
  unfolding with_folders
  with_folders-MakesFirst cached folder_ids ids act test folder known agree =
      let made = each_message-MakesFirst (act folder_ids) 0 ids [] in
      rw (known, with_folders)
        (subst (λ wanted. MakesFirst wanted (each_message p answer 0 ids (act folder_ids) []))
          (calls_wanted-listed (act folder_ids) 0 ids
            ∙ calls_for-moves (act folder_ids) test folder (listed_messages 0 ids) agree)
          made)

  text_at-some :
      (key text : String) (texts : Texts) → lookup key texts ≡ some text → text_at key texts ≡ text
  unfolding text_at
  text_at-some key text texts h = rw (h, text_at) refl

  move_between_agrees :
      (folder_ids : Texts) (from_folder at to_folder : String) (m : GraphMessage)
      → lookup from_folder folder_ids ≡ some at
      → move_between p answer folder_ids from_folder to_folder m
        ≡ (if m.parent_folder_id == at then some (move_message m.id to_folder) else none)
  unfolding move_between
  move_between_agrees folder_ids from_folder at to_folder m h =
      ap (λ x. if m.parent_folder_id == x then some (move_message m.id to_folder) else none)
        (text_at-some from_folder at folder_ids h)

  move_into_agrees :
      (folder_ids : Texts) (folder at : String) (m : GraphMessage)
      → lookup folder folder_ids ≡ some at
      → move_into p answer folder_ids folder m
        ≡ (if not (m.parent_folder_id == at) then some (move_message m.id folder) else none)
  unfolding move_into
  move_into_agrees folder_ids folder at m h =
      ap (λ x. if not (m.parent_folder_id == x) then some (move_message m.id folder) else none)
        (text_at-some folder at folder_ids h)

  -- The actions that move messages, where the ids of the folders are known. Archiving moves the messages
  -- in the inbox to the archive, unarchiving those in the archive to the inbox, and unspamming those in
  -- the junk folder to the inbox; trashing and spamming move those outside the deleted items, or
  -- outside the junk folder, into it. Each makes the first of these moves of the listed messages, in
  -- their order, and all of them if it returns no error.
  pub archive-MakesFirst :
      (cached : Option Texts) (folder_ids : Texts) (ids : List String)
      (inbox archived junk deleted : String)
      → folders p 0 cached ≡ ok folder_ids
      → lookup "inbox" folder_ids ≡ some inbox
      → lookup "archive" folder_ids ≡ some archived
      → lookup "junkemail" folder_ids ≡ some junk
      → lookup "deleteditems" folder_ids ≡ some deleted
      → let ms = listed_messages 0 ids in
        MakesFirst
          (moves (λ m. m.parent_folder_id == inbox) "archive" ms)
          (archive p answer cached ids)
        × MakesFirst
            (moves (λ m. m.parent_folder_id == archived) "inbox" ms)
            (unarchive p answer cached ids)
        × MakesFirst
            (moves (λ m. m.parent_folder_id == junk) "inbox" ms)
            (unspam p answer cached ids)
        × MakesFirst
            (moves (λ m. not (m.parent_folder_id == deleted)) "deleteditems" ms)
            (trash p answer cached ids)
        × MakesFirst
            (moves (λ m. not (m.parent_folder_id == junk)) "junkemail" ms)
            (spam p answer cached ids)
  unfolding archive unarchive unspam trash spam move_from_to
  archive-MakesFirst cached folder_ids ids inbox archived junk deleted known i a j d = (
    with_folders-MakesFirst cached folder_ids ids _ _ "archive" known
        (λ m. move_between_agrees folder_ids "inbox" inbox "archive" m i),
    with_folders-MakesFirst cached folder_ids ids _ _ "inbox" known
        (λ m. move_between_agrees folder_ids "archive" archived "inbox" m a),
    with_folders-MakesFirst cached folder_ids ids _ _ "inbox" known
        (λ m. move_between_agrees folder_ids "junkemail" junk "inbox" m j),
    with_folders-MakesFirst cached folder_ids ids _ _ "deleteditems" known
        (λ m. move_into_agrees folder_ids "deleteditems" deleted m d),
    with_folders-MakesFirst cached folder_ids ids _ _ "junkemail" known
        (λ m. move_into_agrees folder_ids "junkemail" junk m j),
  )
