-- ===== src/Auth/Filter/Admin.antt =====
-- Who passes the middlewares of the admin group.
use rcp_server.Base.{
  ℕ, ◌≡◌, refl, Bool, true, false, not, ◌==◌, [], ◌∷◌, ◌++◌, Text, text_eq, text_eq_iff, arith,
  Bool-cases, inl, inr, any, all, ap, sym, ◌∙◌, subst, ==_iff,
}
use mathlib.Core.List.{append_assoc, append-nil}
use rcp_server.Auth.{World}
use rcp_server.Auth.Jwt.{Jwt}
use rcp_server.Auth.Filter.{
  Request, Environment, Context, Outcome, aborts, passes, split, split_from, folded, is_admin_email,
  then_admin, admin_required, auth_required, admin_chain,
}

-- a text between two separators, or an end, without a separator of its own
abbrev pub IsItem : ℕ → Text → Text → Type 0
IsItem sep s item =
    (before : Text) × ((after : Text) × (sep ∷ (s ++ (sep ∷ []))
        ≡ before ++ (sep ∷ (item ++ (sep ∷ after))))
      × (all (λ c. not (c == sep)) item ≡ true))

all-append :
    (sep c : ℕ) (s : Text)
    → (c == sep) ≡ false
    → all (λ c. not (c == sep)) s ≡ true
    → all (λ c. not (c == sep)) (s ++ (c ∷ [])) ≡ true
all-append sep c [] h k = ground arith
all-append sep c (d ∷ s) h k = ground (arith, all-append sep c s h)

any-split_from :
    (p : Text → Bool) (sep : ℕ) (part s : Text)
    → all (λ c. not (c == sep)) part ≡ true
    → any p (split_from sep part s) ≡ true
    → (item : Text) × ((p item ≡ true) × IsItem sep (part ++ s) item)
any-split_from p sep part [] a h =
    (part, (ground arith, ([], ([], ap (λ t. sep ∷ (t ++ (sep ∷ []))) (append-nil part), a))))
any-split_from p sep part (c ∷ s) a h = elim (Bool-cases (c == sep)) [
  | inl here ↦ elim (Bool-cases (p part)) [
    | inl found ↦
        (part, (found, ([], (s ++ (sep ∷ []), ap (λ t. sep ∷ t) (opened part c s here), a))))
    | inr other ↦
        let (item, (passed, (before, (after, is, plain)))) =
          any-split_from p sep [] s refl (ground (arith, here, other)) in
        (
          item,
          (
            passed,
            (
              sep ∷ (part ++ before),
              (
                after,
                ap (λ t. sep ∷ t)
                    (opened part c s here
                      ∙ ap (λ t. part ++ t) is
                      ∙ sym (append_assoc part before (sep ∷ (item ++ (sep ∷ after))))),
                plain,
              ),
            ),
          ),
        )
  ]
  | inr more ↦
      let (item, (passed, found)) =
        any-split_from p sep (part ++ (c ∷ [])) s (all-append sep c part more a)
          (ground (arith, more)) in
      (item, (passed, subst (λ t. IsItem sep t item) (append_assoc part (c ∷ []) s) found))
]
  where
    opened :
        (part : Text) (c : ℕ) (s : Text)
        → (c == sep) ≡ true
        → (part ++ (c ∷ s)) ++ (sep ∷ []) ≡ part ++ (sep ∷ (s ++ (sep ∷ [])))
    opened part c s here =
        append_assoc part (c ∷ s) (sep ∷ [])
        ∙ ap (λ d. part ++ (d ∷ (s ++ (sep ∷ [])))) ((==_iff c sep).0 here)

-- The e-mail is an item of RCP_ADMIN_EMAILS, but for the case and for white space around it.
abbrev pub IsListed : Environment → Text → Type 0
IsListed env email =
    (item : Text) × ((folded env item ≡ folded env email) × IsItem b',' env.admin_emails item)

is_admin_email-IsListed :
    (env : Environment) (email : Text) → is_admin_email env email ≡ true → IsListed env email
unfolding is_admin_email split
is_admin_email-IsListed env email h =
    let (item, (same, found)) =
      any-split_from (λ item. text_eq (folded env item) (folded env email)) b',' [] env.admin_emails
        refl (ground arith) in
    (item, ((text_eq_iff (folded env item) (folded env email)).0 same, found))

then_admin-passes :
    (env : Environment) (o : Outcome × World) (context : Context) (w' : World)
    → then_admin env o ≡ (passes context, w')
    → (o ≡ (passes context, w')) × (is_admin_email env context.user.email ≡ true)
unfolding admin_required
then_admin-passes env (aborts status e, w) context w' h = absurd (ground arith)
then_admin-passes env (passes found, w) context w' h = ground arith

module _ (jwt : Jwt) (secret_key : Text) where
  -- A request that passes the middlewares of the admin group has passed AuthRequired, and the e-mail of
  -- its user is an item of RCP_ADMIN_EMAILS, but for the case and for white space around it.
  pub admin_chain-IsListed :
      (env : Environment) (id now : ℕ) (r : Request) (w : World) (context : Context) (w' : World)
      → admin_chain jwt secret_key env id now r w ≡ (passes context, w')
      → (auth_required jwt secret_key env id now r w ≡ (passes context, w'))
        × IsListed env context.user.email
  unfolding admin_chain
  admin_chain-IsListed env id now r w context w' h =
      let (passed, admin) =
        then_admin-passes env (auth_required jwt secret_key env id now r w) context w' h in
      (passed, is_admin_email-IsListed env context.user.email admin)
