-- ===== src/Mime/Recipients.antt =====
-- mailmime.go, nobody is addressed twice, nobody is left out, and a reply does not go to its sender.
use dankmail.Base.{
  String, Bool, true, false, not, ◌&&◌, ◌||◌, List, [], ◌∷◌, ◌++◌, ◌==◌, ==→≡, ==-self, string_eq,
  contains, contains-append, IsDistinct, select, GoText, ◌≡◌, refl, sym, ap, ◌∙◌, inl, inr, arith,
  Bool-cases, subst,
}
use dankmail.Mime.{
  addr_email, emails, exclude_self, exclude_all, dedupe_from, dedupe, compose_recipients,
}

IsDistinct-append :
    (xs ys : List String)
    → IsDistinct xs
    → IsDistinct ys
    → ((e : String) → contains e xs ≡ true → contains e ys ≡ false)
    → IsDistinct (xs ++ ys)
unfolding contains
IsDistinct-append [] ys h k apart = k
IsDistinct-append (x ∷ xs) ys h k apart = (
  contains-append x xs ys ∙ ground (arith, h.0, apart x (rw (==-self x) refl)),
  IsDistinct-append xs ys h.1 k (λ e at. apart e (ground (arith, at))),
)

module _ (go : GoText) where
  pub emails-append : (xs ys : List String) → emails go (xs ++ ys) ≡ emails go xs ++ emails go ys
  unfolding emails
  emails-append [] ys = refl
  emails-append (x ∷ xs) ys = ap (λ l. addr_email go x ∷ l) (emails-append xs ys)

  contains-emails-select :
      (f : String → Bool) (e : String) (xs : List String)
      → contains e (emails go (select (λ r. f (addr_email go r)) xs))
        ≡ (contains e (emails go xs) && f e)
  unfolding emails contains select
  contains-emails-select f e [] = ground arith
  contains-emails-select f e (x ∷ xs) =
      let step = contains-emails-select f e xs in
      elim (Bool-cases (f (addr_email go x))) [
        | inl k ↦
            rw (k, contains)
              (elim (Bool-cases (addr_email go x == e)) [
                | inl q ↦
                    let also : f e ≡ true = ap f (sym (==→≡ (addr_email go x) e q)) ∙ k in
                    ground (arith, q, also)
                | inr q ↦ ground (arith, q, step)
              ])
        | inr k ↦ rw (k) (elim (Bool-cases (addr_email go x == e)) [
          | inl q ↦
              let also : f e ≡ false = ap f (sym (==→≡ (addr_email go x) e q)) ∙ k in
              ground (arith, q, also, step)
          | inr q ↦ ground (arith, q, step)
        ])
      ]

  -- What is left of a list by `dedupe`.
  contains-dedupe_from :
      (e : String) (seen xs : List String)
      → contains e (emails go (dedupe_from go seen xs))
        ≡ (contains e (emails go xs) && not (contains e seen) && not (e == ""))
  unfolding dedupe_from emails contains
  contains-dedupe_from e seen [] = ground arith
  contains-dedupe_from e seen (x ∷ xs) =
      let a = addr_email go x in
      elim (Bool-cases (a == "" || contains a seen)) [
        | inl k ↦ rw (k) (
            contains-dedupe_from e seen xs ∙ elim (Bool-cases (a == e)) [
              | inl q ↦
                  let also : (e == "" || contains e seen) ≡ true =
                    ap (λ s. s == "" || contains s seen) (sym (==→≡ a e q)) ∙ k in
                  ground (arith, q, also)
              | inr q ↦ ground (arith, q)
            ])
        | inr k ↦
            let step = contains-dedupe_from e (a ∷ seen) xs in
            rw (k, contains)
              (elim (Bool-cases (a == e)) [
                | inl q ↦
                    let also : (e == "" || contains e seen) ≡ false =
                      ap (λ s. s == "" || contains s seen) (sym (==→≡ a e q)) ∙ k in
                    ground (arith, q, also)
                | inr q ↦ ground (arith, q, step)
              ])
      ]

  dedupe_from-IsDistinct : (seen xs : List String) → IsDistinct (emails go (dedupe_from go seen xs))
  unfolding dedupe_from emails contains
  dedupe_from-IsDistinct seen [] = tt
  dedupe_from-IsDistinct seen (x ∷ xs) =
      let a = addr_email go x in
      elim (Bool-cases (a == "" || contains a seen)) [
        | inl k ↦ rw (k) (dedupe_from-IsDistinct seen xs)
        | inr k ↦ rw (k) (
          contains-dedupe_from a (a ∷ seen) xs ∙ ground (arith, ==-self a),
          dedupe_from-IsDistinct (a ∷ seen) xs,
        )
      ]

  pub contains-dedupe :
      (e : String) (xs : List String)
      → contains e (emails go (dedupe go xs)) ≡ (contains e (emails go xs) && not (e == ""))
  unfolding dedupe contains
  contains-dedupe e xs = contains-dedupe_from e [] xs ∙ ground arith

  pub dedupe-IsDistinct : (xs : List String) → IsDistinct (emails go (dedupe go xs))
  unfolding dedupe
  dedupe-IsDistinct xs = dedupe_from-IsDistinct [] xs

  pub contains-exclude_all :
      (e : String) (xs taken : List String)
      → contains e (emails go (exclude_all go xs taken))
        ≡ (contains e (emails go xs) && not (contains e (emails go taken)))
  unfolding exclude_all
  contains-exclude_all e xs taken =
      contains-emails-select (λ a. not (contains a (emails go taken))) e xs

  pub contains-exclude_self :
      (e self : String) (xs : List String)
      → contains e (emails go (exclude_self go xs self))
        ≡ (contains e (emails go xs) && not (e == self))
  unfolding exclude_self
  contains-exclude_self e self xs = contains-emails-select (λ a. not (a == self)) e xs

  -- A list without the addresses of another, behind it.
  pub behind-IsDistinct :
      (to cc : List String)
      → IsDistinct (emails go to)
      → IsDistinct (emails go (to ++ dedupe go (exclude_all go cc to)))
  behind-IsDistinct to cc h =
      subst IsDistinct (sym (emails-append to (dedupe go (exclude_all go cc to)))) (
        IsDistinct-append (emails go to) (emails go (dedupe go (exclude_all go cc to))) h
          (dedupe-IsDistinct (exclude_all go cc to))
          (λ e at.
            contains-dedupe e (exclude_all go cc to)
            ∙ ap (λ b. b && not (e == "")) (contains-exclude_all e cc to)
            ∙ ground (arith, at)))

  contains-behind :
      (e : String) (to cc : List String)
      → contains e (emails go (to ++ dedupe go (exclude_all go cc to)))
        ≡ (contains e (emails go to) || (contains e (emails go cc) && not (e == "")))
  contains-behind e to cc =
      ap (contains e) (emails-append to (dedupe go (exclude_all go cc to)))
      ∙ contains-append e (emails go to) (emails go (dedupe go (exclude_all go cc to)))
      ∙ ap (λ b. contains e (emails go to) || b)
          (contains-dedupe e (exclude_all go cc to)
            ∙ ap (λ b. b && not (e == "")) (contains-exclude_all e cc to))
      ∙ ground arith

  -- Over the three lists of a composition nobody is addressed twice, and an address that is not empty is
  -- in one of them exactly if it is in one of the lists that were asked for.
  pub compose_recipients_lem :
      (to cc bcc : List String) (e : String)
      → IsDistinct (
          emails go (
            ((compose_recipients go to cc bcc).0 ++ (compose_recipients go to cc bcc).1)
            ++ (compose_recipients go to cc bcc).2))
        × (contains e (
              emails go (
                ((compose_recipients go to cc bcc).0 ++ (compose_recipients go to cc bcc).1)
                ++ (compose_recipients go to cc bcc).2))
            ≡ ((contains e (emails go to)
                  || contains e (emails go cc)
                  || contains e (emails go bcc))
                && not (e == "")))
  unfolding compose_recipients
  compose_recipients_lem to cc bcc e =
      let to' = dedupe go to in
      let cc' = dedupe go (exclude_all go cc to') in
      (
        behind-IsDistinct (to' ++ cc') bcc (behind-IsDistinct to' cc (dedupe-IsDistinct to)),
        contains-behind e (to' ++ cc') bcc
            ∙ ap (λ b. b || (contains e (emails go bcc) && not (e == "")))
                (contains-behind e to' cc
                  ∙ ap (λ b. b || (contains e (emails go cc) && not (e == "")))
                      (contains-dedupe e to))
            ∙ ground arith,
      )
