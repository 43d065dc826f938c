-- ===== src/Bus/Delivery.antt =====
-- bus.go, what a subscriber gets of the events that are published.
use dankmail.Base.{
  ℕ, ◌+◌, ◌≤◌, ◌<◌, false, List, [], ◌∷◌, ◌++◌, Option, none, some, ltb, if◌then◌else◌, ◌==◌, ==→≡,
  ==-self, length, length-append, lookup, insert, lookup-insert, lookup-insert_self, lookup-remove,
  nat_eq, Sublist, nothing, skip, keep, Sublist-refl, append_assoc, append-nil, ◌≡◌, ◌⊎◌, refl, sym,
  ap, ◌∙◌, subst, inl, inr, arith, Bool-cases, Option-cases,
}
use dankmail.Bus.{
  Subscription, Bus, offer, offer_all, publish_event, subscribe, unsubscribe, receive, Action,
  publishes, subscribes, unsubscribes, receives, act, act_all, capacity_of,
}

module _ {E : Type 0} where
  -- The events that are published, and those that the subscription `k` receives.
  unfoldable pub sent : List (Action E) → List E
  sent [] = []
  sent (publishes ev ∷ more) = ev ∷ sent more
  sent (_ ∷ more) = sent more

  abbrev cons_event : Option E → List E → List E
  cons_event none events = events
  cons_event (some ev) events = ev ∷ events

  unfoldable pub got : ℕ → List (Action E) → Bus E → List E
  unfolding act
  got k [] b = []
  got k (receives id ∷ more) b =
      let rest = got k more (act (receives id) b) in
      if id == k then cons_event (receive id b).0 rest else rest
  got k (a ∷ more) b = got k more (act a b)

  -- The subscription is not ended.
  unfoldable pub Lasts : ℕ → List (Action E) → Type 0
  Lasts k [] = Unit {0}
  Lasts k (unsubscribes id ∷ more) = ((id == k) ≡ false) × Lasts k more
  Lasts k (_ ∷ more) = Lasts k more

  lookup-offer_all :
      (k : ℕ) (ev : E) (subs : List (ℕ × Subscription E)) {s : Subscription E}
      → lookup k subs ≡ some s
      → lookup k (offer_all ev subs) ≡ some (offer ev s)
  unfolding lookup offer_all
  lookup-offer_all k ev [] h = absurd (ground (arith, h))
  lookup-offer_all k ev (entry ∷ rest) {s} h = elim (Bool-cases (entry.0 == k)) [
    | inl e ↦
        let same : entry.1 ≡ s = ground (arith, h, e) in rw (e) (ap (λ x. some (offer ev x)) same)
    | inr e ↦
        let later : lookup k rest ≡ some s = ground (arith, h, e) in
        rw (e) (lookup-offer_all k ev rest later)
  ]

  Sublist-insert :
      (xs ys : List E) (ev : E) {zs : List E} → Sublist zs (xs ++ ys) → Sublist zs (xs ++ (ev ∷ ys))
  Sublist-insert [] ys ev s = skip ev s
  Sublist-insert (x ∷ xs) ys ev nothing = nothing
  Sublist-insert (x ∷ xs) ys ev (skip y s) = skip x (Sublist-insert xs ys ev s)
  Sublist-insert (x ∷ xs) ys ev (keep y s) = keep x (Sublist-insert xs ys ev s)

  Sublist-front : (one : List E) {xs ys : List E} → Sublist xs ys → Sublist (one ++ xs) (one ++ ys)
  Sublist-front [] s = s
  Sublist-front (x ∷ xs) s = keep x (Sublist-front xs s)

  List-cases : (l : List E) → (l ≡ []) ⊎ ((x : E) × (xs : List E) × (l ≡ x ∷ xs))
  List-cases [] = inl refl
  List-cases (x ∷ xs) = inr (x, xs, refl)

  offer-cases :
      (ev : E) (s : Subscription E)
      → ((offer ev s ≡ record s { buffer = s.buffer ++ (ev ∷ []) })
          × (length s.buffer < s.capacity))
        ⊎ ((offer ev s ≡ s) × (s.capacity ≤ length s.buffer))
  unfolding offer
  offer-cases ev s = elim (Bool-cases (ltb (length s.buffer) s.capacity)) [
    | inl e ↦ inl (rw e refl, ground (arith, e))
    | inr e ↦ inr (rw e refl, ground (arith, e))
  ]

  -- What becomes of the subscription `k`, which is `s`.
  abbrev pub Delivers : ℕ → Subscription E → List (Action E) → Bus E → Type 0
  Delivers k s acts b =
      (s' : Subscription E) × (lookup k (act_all acts b).subs ≡ some s')
      × Sublist (got k acts b ++ s'.buffer) (s.buffer ++ sent acts)
      × (length s.buffer + length (sent acts) ≤ s.capacity
          → got k acts b ++ s'.buffer ≡ s.buffer ++ sent acts)

  publishes-Delivers :
      (k : ℕ) (s : Subscription E) (ev : E) (more : List (Action E)) (b : Bus E)
      → Delivers k (offer ev s) more (publish_event ev b)
      → Delivers k s (publishes ev ∷ more) b
  unfolding act_all act got sent
  publishes-Delivers k s ev more b (s', at, part, whole) = elim (offer-cases ev s) [
    | inl (same, room) ↦ (
      s',
      at,
      subst (Sublist (got k more (publish_event ev b) ++ s'.buffer))
          (append_assoc s.buffer (ev ∷ []) (sent more))
          (subst
            (λ x. Sublist (got k more (publish_event ev b) ++ s'.buffer) (x.buffer ++ sent more))
            same part),
      λ few.
          subst
            (λ x.
              length x.buffer + length (sent more) ≤ x.capacity
              → got k more (publish_event ev b) ++ s'.buffer ≡ x.buffer ++ sent more)
            same whole (omega (arith, few, length-append s.buffer (ev ∷ [])))
          ∙ append_assoc s.buffer (ev ∷ []) (sent more),
    )
    | inr (same, full) ↦ (
      s',
      at,
      Sublist-insert s.buffer (sent more) ev (
          subst
            (λ x. Sublist (got k more (publish_event ev b) ++ s'.buffer) (x.buffer ++ sent more))
            same part),
      λ few. absurd (omega (arith, few, full)),
    )
  ]

  receive-other :
      (k id : ℕ) (b : Bus E) → (id == k) ≡ false → lookup k (receive id b).1.subs ≡ lookup k b.subs
  unfolding receive
  receive-other k id b other = elim (Option-cases (lookup id b.subs)) [
    | inl e ↦ rw (e, receive) refl
    | inr (s, e) ↦ elim (List-cases s.buffer) [
      | inl q ↦ rw (e, receive) (rw (q, receive) refl)
      | inr (ev, later, q) ↦
          rw (e, receive)
            (rw (q, receive)
              (lookup-insert id k (record s { buffer = later }) b.subs
                ∙ ap (λ x. if x then some (record s { buffer = later }) else lookup k b.subs)
                    other))
    ]
  ]

  receive-next : (id : ℕ) (b : Bus E) → (receive id b).1.next ≡ b.next
  unfolding receive
  receive-next id b = elim (Option-cases (lookup id b.subs)) [
    | inl e ↦ rw (e, receive) refl
    | inr (s, e) ↦ elim (List-cases s.buffer) [
      | inl q ↦ rw (e, receive) (rw (q, receive) refl)
      | inr (ev, later, q) ↦ rw (e, receive) (rw (q, receive) refl)
    ]
  ]

  receive-empty :
      (k : ℕ) (s : Subscription E) (b : Bus E)
      → lookup k b.subs ≡ some s
      → s.buffer ≡ []
      → receive k b ≡ (none, b)
  unfolding receive
  receive-empty k s b h q = rw (h, receive) (rw (q, receive) refl)

  receive-full :
      (k : ℕ) (s : Subscription E) (b : Bus E) (ev : E) (later : List E)
      → lookup k b.subs ≡ some s
      → s.buffer ≡ ev ∷ later
      → receive k b ≡ (some ev, record b { subs = insert k (record s { buffer = later }) b.subs })
  unfolding receive
  receive-full k s b ev later h q = rw (h, receive) (rw (q, receive) refl)

  got-other :
      (k id : ℕ) (more : List (Action E)) (b : Bus E)
      → (id == k) ≡ false
      → got k (receives id ∷ more) b ≡ got k more (receive id b).1
  unfolding got act
  got-other k id more b other = rw (other) refl

  got-own :
      (k : ℕ) (more : List (Action E)) (b : Bus E)
      → got k (receives k ∷ more) b ≡ cons_event (receive k b).0 (got k more (receive k b).1)
  unfolding got act
  got-own k more b = rw (==-self k) refl

  -- The delivery of what comes after a receive, of which the subscription got `one`.
  after-Delivers :
      (k id : ℕ) (s s₁ : Subscription E) (one : List E) (more : List (Action E)) (b : Bus E)
      → s.buffer ≡ one ++ s₁.buffer
      → s.capacity ≡ s₁.capacity
      → got k (receives id ∷ more) b ≡ one ++ got k more (receive id b).1
      → Delivers k s₁ more (receive id b).1
      → Delivers k s (receives id ∷ more) b
  unfolding act_all act sent
  after-Delivers k id s s₁ one more b was same gets (s', at, part, whole) =
      let rest = got k more (receive id b).1 in
      (
        s',
        at,
        subst (λ g. Sublist (g ++ s'.buffer) (s.buffer ++ sent more)) (sym gets)
            (subst (λ buffer. Sublist ((one ++ rest) ++ s'.buffer) (buffer ++ sent more)) (sym was)
              (subst (λ l. Sublist l ((one ++ s₁.buffer) ++ sent more))
                (sym (append_assoc one rest s'.buffer))
                (subst (Sublist (one ++ (rest ++ s'.buffer)))
                  (sym (append_assoc one s₁.buffer (sent more))) (Sublist-front one part)))),
        λ few.
            ap (λ g. g ++ s'.buffer) gets
            ∙ append_assoc one rest s'.buffer
            ∙ ap (λ l. one ++ l)
                (whole (omega (arith, few, same, ap length was, length-append one s₁.buffer)))
            ∙ sym (append_assoc one s₁.buffer (sent more))
            ∙ ap (λ buffer. buffer ++ sent more) (sym was),
      )

  receives-own :
      (k : ℕ) (s : Subscription E) (more : List (Action E)) (b : Bus E)
      → lookup k b.subs ≡ some s
      → ((s₁ : Subscription E)
          → lookup k (receive k b).1.subs ≡ some s₁
          → Delivers k s₁ more (receive k b).1)
      → Delivers k s (receives k ∷ more) b
  receives-own k s more b h rest = elim (List-cases s.buffer) [
    | inl q ↦
        let same = receive-empty k s b h q in
        after-Delivers k k s s [] more b refl refl
          (got-own k more b ∙ ap (λ r. cons_event r.0 (got k more (receive k b).1)) same)
          (rest s (ap (λ r. lookup k r.1.subs) same ∙ h))
    | inr (ev, later, q) ↦
        let taken = receive-full k s b ev later h q in
        let s₁ = record s { buffer = later } in
        after-Delivers k k s s₁ (ev ∷ []) more b q refl
          (got-own k more b ∙ ap (λ r. cons_event r.0 (got k more (receive k b).1)) taken)
          (rest s₁ (ap (λ r. lookup k r.1.subs) taken ∙ lookup-insert_self k s₁ b.subs))
  ]

  receives-Delivers :
      (k id : ℕ) (s : Subscription E) (more : List (Action E)) (b : Bus E)
      → lookup k b.subs ≡ some s
      → ((s₁ : Subscription E)
          → lookup k (receive id b).1.subs ≡ some s₁
          → Delivers k s₁ more (receive id b).1)
      → Delivers k s (receives id ∷ more) b
  receives-Delivers k id s more b h rest = elim (Bool-cases (id == k)) [
    | inr other ↦
        after-Delivers k id s s [] more b refl refl (got-other k id more b other)
          (rest s (receive-other k id b other ∙ h))
    | inl e ↦
        subst (λ i. Delivers k s (receives i ∷ more) b) (sym (==→≡ id k e))
          (receives-own k s more b h (
            subst
              (λ i.
                (s₁ : Subscription E)
                → lookup k (receive i b).1.subs ≡ some s₁
                → Delivers k s₁ more (receive i b).1)
              (==→≡ id k e) rest))
  ]

  -- A subscriber, until it unsubscribes, gets in order a part of the events that are published, whatever
  -- the other users of the bus do: those that it receives, followed by those that wait in its buffer, are
  -- among those that waited at the start, followed by those that are published. It misses none if all
  -- these fit into its buffer.
  pub act_all-Delivers :
      (k : ℕ) (s : Subscription E) (acts : List (Action E)) (b : Bus E)
      → k < b.next
      → lookup k b.subs ≡ some s
      → Lasts k acts
      → Delivers k s acts b
  unfolding act_all act got sent publish_event subscribe unsubscribe Lasts
  act_all-Delivers k s [] b old h lasts = (
    s,
    h,
    subst (Sublist s.buffer) (sym (append-nil s.buffer)) (Sublist-refl s.buffer),
    λ few. sym (append-nil s.buffer),
  )
  act_all-Delivers k s (publishes ev ∷ more) b old h lasts = publishes-Delivers k s ev more b (
      act_all-Delivers k (offer ev s) more (publish_event ev b) old (lookup-offer_all k ev b.subs h)
        lasts)
  act_all-Delivers k s (subscribes buffer ∷ more) b old h lasts =
      act_all-Delivers k s more (subscribe buffer b).1 (omega (arith, old))
        (lookup-insert b.next k (record { capacity = capacity_of buffer; buffer = [] }) b.subs
          ∙ ground (arith, h, old))
        lasts
  act_all-Delivers k s (unsubscribes id ∷ more) b old h lasts =
      act_all-Delivers k s more (unsubscribe id b) old
        (lookup-remove id k b.subs ∙ ap (λ x. if x then none else lookup k b.subs) lasts.0 ∙ h)
        lasts.1
  act_all-Delivers k s (receives id ∷ more) b old h lasts =
      receives-Delivers k id s more b h (λ s₁ at.
        act_all-Delivers k s₁ more (receive id b).1
          (subst (λ n. k < n) (sym (receive-next id b)) old) at lasts)
