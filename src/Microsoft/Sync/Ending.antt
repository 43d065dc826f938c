-- ===== src/Microsoft/Sync/Ending.antt =====
-- sync.go, the loop of a sync ends.
use dankmail.Base.{
  ℕ, zero, suc, ◌+◌, ◌≤◌, String, true, List, [], ◌∷◌, Option, none, some, leb, ◌==◌, ==→≡,
  string_eq, nat_eq, ap, subst, ◌≡◌, ◌⊎◌, refl, sym, inl, inr, arith, le→leb, Bool-cases,
  Option-cases, get_or,
}
use dankmail.Errdefs.{Failure}
use dankmail.Microsoft.Message.{Texts, MicrosoftProvider}
use dankmail.Microsoft.Checkpoint.{
  GraphCheckpoint, GraphCursor, GraphResult, Round, Pass, returned, goes_on, batch_requests,
  monitored_folders, unset, continuation, delta_links,
}
use dankmail.Microsoft.Sync.{
  checkpoint, folder_pass, delta_pass, removed_pass, threads_pass, sync_pass, sync_loop,
  first_round, resume_sync, is_usable, has_links, starting_point, sync,
}
use dankmail.Microsoft.Sync.Asks.{
  AsksPass, folder_pass-Asks, removed_pass-Asks, threads_pass-Asks, later_phases,
  later_phases_bound, IsPhase, MovesOn,
}

module _ (p : MicrosoftProvider) where
  -- A pass makes a request or begins the next phase, and the phase stays one of the three.
  abbrev Moves : Round → Pass → Type 0
  Moves s (returned r) = Unit {0}
  Moves s (goes_on s') = MovesOn s s'

  AsksPass-Moves : (s : Round) (x : Pass) → IsPhase s.st.phase → AsksPass p s x → Moves s x
  AsksPass-Moves s (returned r) h k = tt
  AsksPass-Moves s (goes_on s') h (one, same) =
      (subst IsPhase (sym same) h, omega (arith, one, ap later_phases same))

  delta_pass-Moves : (i : ℕ) (s : Round) → s.st.phase ≡ "delta" → Moves s (delta_pass p i s)
  unfolding delta_pass later_phases
  delta_pass-Moves i s h = elim (Bool-cases (s.st.folder == 2)) [
    | inl e ↦ rw (e, delta_pass) (inr (inl refl), rw h (omega arith))
    | inr e ↦
        rw (e, delta_pass)
          (AsksPass-Moves s (folder_pass p (get_or monitored_folders s.st.folder "") i s) (inl h)
            (folder_pass-Asks p (get_or monitored_folders s.st.folder "") i s))
  ]

  removed_pass-Moves :
      (list : List String) (i : ℕ) (s : Round)
      → s.st.phase ≡ "removed"
      → Moves s (removed_pass p list i s)
  unfolding removed_pass later_phases
  removed_pass-Moves [] i s h = (inr (inr refl), rw h (omega arith))
  removed_pass-Moves (id ∷ rest) i s h =
      AsksPass-Moves s (removed_pass p (id ∷ rest) i s) (inr (inl h))
        (removed_pass-Asks p id rest i s)

  -- What holds of each branch of a pass holds of the pass.
  pub sync_pass_elim :
      (P : Pass → Type 0) (i : ℕ) (s : Round)
      → IsPhase s.st.phase
      → ((e : Failure) → P (returned (checkpoint p s e)))
      → (s.st.phase ≡ "delta" → P (delta_pass p i s))
      → (s.st.phase ≡ "removed" → P (removed_pass p s.st.removed i s))
      → (s.st.phase ≡ "threads" → P (threads_pass p s.st.pending i s))
      → P (sync_pass p i s)
  unfolding sync_pass
  sync_pass_elim P i s phase stop delta removed threads =
      elim (Option-cases (p.api.context_err i)) [
        | inr (e, c) ↦ rw (c, sync_pass) (stop (some e))
        | inl c ↦ elim (Bool-cases (leb batch_requests s.requests)) [
          | inl b ↦ rw (c, sync_pass) (rw b (stop none))
          | inr b ↦ elim phase [
            | inl q ↦ rw (c, sync_pass) (rw (b, ap (λ x. x == "delta") q) (delta q))
            | inr (inl q) ↦
                rw (c, sync_pass)
                  (rw (b, ap (λ x. x == "delta") q, ap (λ x. x == "removed") q) (removed q))
            | inr (inr q) ↦
                rw (c, sync_pass)
                  (rw
                    (
                      b,
                      ap (λ x. x == "delta") q,
                      ap (λ x. x == "removed") q,
                      ap (λ x. x == "threads") q,
                    )
                    (threads q))
          ]
        ]
      ]

  sync_pass-Moves : (i : ℕ) (s : Round) → IsPhase s.st.phase → Moves s (sync_pass p i s)
  sync_pass-Moves i s h =
      sync_pass_elim (Moves s) i s h (λ e. tt) (delta_pass-Moves i s)
        (removed_pass-Moves s.st.removed i s)
        (λ q.
          AsksPass-Moves s (threads_pass p s.st.pending i s) h
            (threads_pass-Asks p s.st.pending i s))

  abbrev pub PhasePass : Pass → Type 0
  PhasePass (returned r) = Unit {0}
  PhasePass (goes_on s) = IsPhase s.st.phase

  Moves-PhasePass : (s : Round) (x : Pass) → Moves s x → PhasePass x
  Moves-PhasePass s (returned r) h = tt
  Moves-PhasePass s (goes_on s') h = h.0

  pub sync_pass-IsPhase : (i : ℕ) (s : Round) → IsPhase s.st.phase → PhasePass (sync_pass p i s)
  sync_pass-IsPhase i s h = Moves-PhasePass s (sync_pass p i s) (sync_pass-Moves i s h)

  -- A batch is full.
  sync_pass-full :
      (i : ℕ) (s : Round)
      → batch_requests ≤ s.requests
      → (r : GraphResult) × (sync_pass p i s ≡ returned r)
  unfolding sync_pass
  sync_pass-full i s full = elim (Option-cases (p.api.context_err i)) [
    | inr (e, c) ↦ (checkpoint p s (some e), rw (c, sync_pass) refl)
    | inl c ↦
        (checkpoint p s none, rw (c, sync_pass) (rw (le→leb batch_requests s.requests full) refl))
  ]

  abbrev Ends : ℕ → ℕ → Round → Type 0
  Ends fuel i s = (r : GraphResult) × (sync_loop p fuel i s ≡ some r)

  pub Pass-cases :
      (x : Pass) → ((r : GraphResult) × (x ≡ returned r)) ⊎ ((s : Round) × (x ≡ goes_on s))
  Pass-cases (returned r) = inl (r, refl)
  Pass-cases (goes_on s) = inr (s, refl)

  sync_loop-Ends :
      (n i : ℕ) (s : Round)
      → IsPhase s.st.phase
      → batch_requests + later_phases s.st.phase ≤ s.requests + n
      → Ends (suc n) i s
  unfolding sync_loop
  sync_loop-Ends zero i s h enough =
      let (r, k) = sync_pass-full i s (omega (arith, enough)) in (r, rw (k, sync_loop) refl)
  sync_loop-Ends (suc n) i s h enough = elim (Pass-cases (sync_pass p i s)) [
    | inl (r, k) ↦ (r, rw (k, sync_loop) refl)
    | inr (s', k) ↦
        let moves : MovesOn s s' = subst (Moves s) k (sync_pass-Moves i s h) in
        let (r, later) = sync_loop-Ends n (suc i) s' moves.0 (omega (arith, moves.1, enough)) in
        (r, rw (k, sync_loop) later)
  ]

  pub is_usable-IsPhase : (st : GraphCheckpoint) → is_usable p st ≡ true → IsPhase st.phase
  unfolding is_usable
  is_usable-IsPhase st h = elim (Bool-cases (st.phase == "delta")) [
    | inl e ↦ inl (==→≡ st.phase "delta" e)
    | inr e ↦ elim (Bool-cases (st.phase == "removed")) [
      | inl k ↦ inr (inl (==→≡ st.phase "removed" k))
      | inr k ↦ inr (inr (==→≡ st.phase "threads" (ground arith)))
    ]
  ]

  starting_point-IsPhase : (cursor : GraphCursor) → IsPhase (starting_point p cursor).phase
  unfolding starting_point
  starting_point-IsPhase unset = inl refl
  starting_point-IsPhase (continuation none) = inl refl
  starting_point-IsPhase (continuation (some st)) = elim (Bool-cases (is_usable p st)) [
    | inl e ↦ rw (e, starting_point) (is_usable-IsPhase st e)
    | inr e ↦ rw (e, starting_point) (inl refl)
  ]
  starting_point-IsPhase (delta_links none) = inl refl
  starting_point-IsPhase (delta_links (some state)) = elim (Bool-cases (has_links p state)) [
    | inl e ↦ rw (e, starting_point) (inl refl)
    | inr e ↦ rw (e, starting_point) (inl refl)
  ]

  -- A Graph sync returns within 28 passes of its loop, from every cursor and whatever the API answers.
  pub graph_sync-total :
      (fuel : ℕ) (folder_ids : Option Texts) (cursor : GraphCursor)
      → 28 ≤ fuel
      → (r : GraphResult) × (sync p fuel folder_ids cursor ≡ some r)
  unfolding sync resume_sync
  graph_sync-total zero folder_ids cursor enough = absurd (omega (arith, enough))
  graph_sync-total (suc n) folder_ids cursor enough =
      let st = starting_point p cursor in
      sync_loop-Ends n 0 (first_round p folder_ids st) (starting_point-IsPhase cursor)
        (omega (arith, enough, later_phases_bound st.phase))
