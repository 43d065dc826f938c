-- ===== src/Mime/Reply.antt =====
-- mailmime.go, the recipients of a reply.
use dankmail.Base.{
  String, Bool, true, false, not, ◌&&◌, ◌||◌, List, [], ◌∷◌, ◌++◌, ◌==◌, ==→≡, ==-self, string_eq,
  if◌then◌else◌, contains, contains-append, IsDistinct, select, GoText, ◌≡◌, ◌≢◌, ◌⊎◌, refl, sym,
  ap, ◌∙◌, inl, inr, arith, Bool-cases, subst,
}
use dankmail.Errdefs.{Result, err, ok}
use dankmail.Provider.{MessageDelta}
use dankmail.Mime.{
  addr_email, emails, exclude_self, exclude_all, dedupe, dedupe_from, reply_target, is_own_message,
  first_to, wanted_to, wanted_cc, reply_recipients, err_no_recipients,
}
use dankmail.Mime.Recipients.{
  emails-append, contains-dedupe, dedupe-IsDistinct, contains-exclude_self, contains-exclude_all,
  behind-IsDistinct,
}

List-cases {ℓ} : {A : Type ℓ} (l : List A) → (l ≡ []) ⊎ ((x : A) × (xs : List A) × (l ≡ x ∷ xs))
List-cases [] = inl refl
List-cases (x ∷ xs) = inr (x, xs, refl)

module _ (go : GoText) (orig : MessageDelta) (self : String) (all : Bool) where
  abbrev base_to : List String
  base_to =
      if all then first_to go orig self ++ exclude_self go orig.to self else first_to go orig self

  abbrev base_cc : List String
  base_cc = if all then exclude_self go orig.cc self else []

  self_not_excluded :
      (xs : List String) → contains self (emails go (exclude_self go xs self)) ≡ false
  self_not_excluded xs = contains-exclude_self go self self xs ∙ ground (arith, ==-self self)

  self_not_in_cc : contains self (emails go base_cc) ≡ false
  unfolding contains emails
  self_not_in_cc = elim (Bool-cases all) [
    | inl e ↦ rw (e) (self_not_excluded orig.cc)
    | inr e ↦ rw (e) refl
  ]

  wanted_cc_self :
      (to : List String) → contains self (emails go (wanted_cc go orig self all to)) ≡ false
  unfolding wanted_cc
  wanted_cc_self to =
      contains-dedupe go self (exclude_all go base_cc to)
      ∙ ap (λ b. b && not (self == "")) (contains-exclude_all go self base_cc to)
      ∙ ground (arith, self_not_in_cc)

  -- The target of a message that is not one's own is asked for.
  target_asked_for :
      is_own_message go orig self ≡ false
      → contains (addr_email go (reply_target go orig)) (emails go base_to) ≡ true
  unfolding contains emails first_to
  target_asked_for own = elim (Bool-cases all) [
    | inl e ↦ rw (e, own) (rw (==-self (addr_email go (reply_target go orig))) refl)
    | inr e ↦ rw (e, own) (rw (==-self (addr_email go (reply_target go orig))) refl)
  ]

  own_target :
      is_own_message go orig self ≡ true → (addr_email go (reply_target go orig) == self) ≡ true
  unfolding is_own_message
  own_target own = ground (arith, own)

  first_to_self :
      (is_own_message go orig self ≡ true)
        ⊎ ((addr_email go (reply_target go orig) == self) ≡ false)
      → contains self (emails go (first_to go orig self)) ≡ false
  unfolding first_to emails contains
  first_to_self (inl own) = rw (own) (self_not_excluded orig.to)
  first_to_self (inr other) = elim (Bool-cases (is_own_message go orig self)) [
    | inl own ↦ rw (own) (self_not_excluded orig.to)
    | inr own ↦ rw (own) (rw (other) refl)
  ]

  base_to-clean :
      contains self (emails go (first_to go orig self)) ≡ false
      → contains self (emails go base_to) ≡ false
  base_to-clean h = elim (Bool-cases all) [
    | inl e ↦ rw (e) (
        subst (λ l. contains self l ≡ false)
          (sym (emails-append go (first_to go orig self) (exclude_self go orig.to self)))
          (contains-append self (emails go (first_to go orig self))
              (emails go (exclude_self go orig.to self))
            ∙ ground (arith, h, self_not_excluded orig.to)))
    | inr e ↦ rw (e) h
  ]

  wanted_to-clean :
      contains self (emails go (first_to go orig self)) ≡ false
      → contains self (emails go (wanted_to go orig self all)) ≡ false
  unfolding wanted_to
  wanted_to-clean h =
      contains-dedupe go self base_to ∙ ap (λ b. b && not (self == "")) (base_to-clean h)

  dedupe-one : (r : String) → (dedupe go (r ∷ []) ≡ []) ⊎ (dedupe go (r ∷ []) ≡ r ∷ [])
  unfolding dedupe dedupe_from contains
  dedupe-one r = elim (Bool-cases (addr_email go r == "" || false)) [
    | inl e ↦ inl (rw (e) refl)
    | inr e ↦ inr (rw (e) refl)
  ]

  not_own : orig.to ≡ [] → is_own_message go orig self ≡ false
  unfolding is_own_message
  not_own e = ground (arith, e)

  base_to-alone : orig.to ≡ [] → base_to ≡ reply_target go orig ∷ []
  unfolding first_to exclude_self select
  base_to-alone e =
      let own = not_own e in
      let none_else : exclude_self go orig.to self ≡ [] = ap (λ l. exclude_self go l self) e in
      elim (Bool-cases all) [
        | inl a ↦ rw (a) (rw (own) (ap (λ l. reply_target go orig ∷ l) none_else))
        | inr a ↦ rw (a) (rw (own) refl)
      ]

  -- A message to nobody, from oneself.
  alone :
      orig.to ≡ []
      → (wanted_to go orig self all ≡ []) ⊎ (wanted_to go orig self all ≡ reply_target go orig ∷ [])
  unfolding wanted_to
  alone e = elim (dedupe-one (reply_target go orig)) [
    | inl k ↦ inl (ap (dedupe go) (base_to-alone e) ∙ k)
    | inr k ↦ inr (ap (dedupe go) (base_to-alone e) ∙ k)
  ]

  -- The sender is in the list To only as the target of a message without recipients.
  wanted_to_self :
      (contains self (emails go (wanted_to go orig self all)) ≡ false)
      ⊎ (wanted_to go orig self all ≡ reply_target go orig ∷ [])
  unfolding emails contains is_own_message
  wanted_to_self = elim (Bool-cases (addr_email go (reply_target go orig) == self)) [
    | inr other ↦ inl (wanted_to-clean (first_to_self (inr other)))
    | inl same ↦ elim (List-cases orig.to) [
      | inr (x, xs, e) ↦ inl (wanted_to-clean (first_to_self (inl (rw (same, e) refl))))
      | inl e ↦ elim (alone e) [ inl nobody ↦ inl (rw (nobody) refl) | inr one ↦ inr one ]
    ]
  ]

  -- What holds of the lists To and Cc.
  abbrev IsGood : List String → List String → Type 0
  IsGood to cc =
      (to ≢ [])
      × IsDistinct (emails go (to ++ cc))
      × (contains self (emails go cc) ≡ false)
      × ((contains self (emails go to) ≡ false) ⊎ (to ≡ reply_target go orig ∷ []))

  wanted_cc-empty :
      (t : String) (to : List String)
      → (t == "") ≡ true
      → contains t (emails go (wanted_cc go orig self all to)) ≡ false
  unfolding wanted_cc
  wanted_cc-empty t to h = contains-dedupe go t (exclude_all go base_cc to) ∙ ground (arith, h)

  -- Where nobody is left, the target is not in the list Cc.
  fallback_apart :
      wanted_to go orig self all ≡ []
      → contains (addr_email go (reply_target go orig)) (emails go (wanted_cc go orig self all []))
        ≡ false
  unfolding wanted_to emails contains
  fallback_apart nobody = elim (Bool-cases (is_own_message go orig self)) [
    | inl own ↦
        ap (λ a. contains a (emails go (wanted_cc go orig self all [])))
          (==→≡ (addr_email go (reply_target go orig)) self (own_target own))
        ∙ wanted_cc_self []
    | inr own ↦
        let t = addr_email go (reply_target go orig) in
        let empty : (t == "") ≡ true = ground (
          arith,
          contains-dedupe go t base_to,
          ap (λ l. contains t (emails go l)) nobody,
          target_asked_for own,
        ) in
        wanted_cc-empty t [] empty
  ]

  unfoldable pub IsGoodResult : Result (List String × List String) → Type 0
  IsGoodResult (err e) = e ≡ err_no_recipients
  IsGoodResult (ok (to, cc)) = IsGood to cc

  fallback-IsGoodResult :
      wanted_to go orig self all ≡ []
      → (b : Bool)
      → IsGoodResult (
          if b
          then ok (reply_target go orig ∷ [], wanted_cc go orig self all [])
          else err err_no_recipients)
  unfolding IsGoodResult emails wanted_cc
  fallback-IsGoodResult nobody true = (
    λ k. absurd (ground (arith, k)),
    (fallback_apart nobody, dedupe-IsDistinct go (exclude_all go base_cc [])),
    wanted_cc_self [],
    inr refl,
  )
  fallback-IsGoodResult nobody false = refl

  wanted-IsGood :
      (x : String) (xs : List String)
      → wanted_to go orig self all ≡ x ∷ xs
      → IsGood (x ∷ xs) (wanted_cc go orig self all (x ∷ xs))
  unfolding wanted_cc wanted_to
  wanted-IsGood x xs e = (
    λ k. absurd (ground (arith, k)),
    behind-IsDistinct go (x ∷ xs) base_cc
        (subst (λ to. IsDistinct (emails go to)) e (dedupe-IsDistinct go base_to)),
    wanted_cc_self (x ∷ xs),
    subst (λ to. (contains self (emails go to) ≡ false) ⊎ (to ≡ reply_target go orig ∷ [])) e
        wanted_to_self,
  )

  -- A reply has a recipient, or it fails for want of one. Over its lists To and Cc nobody is addressed
  -- twice; its sender is not in the list Cc, and in the list To only where the one whom the message
  -- answers is all of that list.
  pub reply_recipients_lem : IsGoodResult (reply_recipients go orig self all)
  unfolding reply_recipients IsGoodResult
  reply_recipients_lem = elim (List-cases (wanted_to go orig self all)) [
    | inl e ↦
        rw (e, reply_recipients)
          (subst
            (λ to. IsGoodResult (
              if not (go.trim_space (reply_target go orig) == "")
              then ok (reply_target go orig ∷ [], wanted_cc go orig self all to)
              else err err_no_recipients))
            (sym e) (fallback-IsGoodResult e (not (go.trim_space (reply_target go orig) == ""))))
    | inr (x, xs, e) ↦
        rw (e, reply_recipients)
          (subst (λ to. IsGood (x ∷ xs) (wanted_cc go orig self all to)) (sym e)
            (wanted-IsGood x xs e))
  ]
