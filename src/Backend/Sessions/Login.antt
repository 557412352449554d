-- ===== src/Backend/Sessions/Login.antt =====
-- Who can log in.
use ai_finance_controller.Common.{
  ℕ, ◌≡◌, ◌↔◌, refl, ◌∙◌, inl, inr, true, false, Option, none, some, arith, Option-cases,
}
use ai_finance_controller.Common.Text.{Text, text_eq, text_eq_refl}
use ai_finance_controller.Common.Keys.{text_key}
use ai_finance_controller.Common.Result.{Result, ok, err, is_ok}
use ai_finance_controller.Domain.Enums.{analyst}
use ai_finance_controller.Backend.Errors.{ApiError}
use ai_finance_controller.Backend.Store.{
  User, Accounts, add_audit, norm_email, new_user, create_user, get_user, find_user_by_email,
  store_refresh,
}
use ai_finance_controller.Backend.Store.Dicts.{find-insert}
use ai_finance_controller.Backend.Auth.{Crypto, IsSound, Settings, validate_password}
use ai_finance_controller.Backend.Sessions.{
  Fresh, issue_in, issue, open_account, register_checked, register, sign_in, login_as, login,
}

-- The email is that of a stored account which is active, and the password verifies.
abbrev pub CanLogIn : Crypto → (email password : Text) → Accounts → Type 0
CanLogIn c email password s =
    (u : User) × (find_user_by_email email s ≡ some u)
    × (c.verify u.hashed_password password ≡ true)
    × (u.is_active ≡ true)

module _ (c : Crypto) (settings : Settings) (now : ℕ) (fresh : Fresh) where
  login_as-ok :
      (email password : Text) (o : Option User) (s : Accounts)
      → find_user_by_email email s ≡ o
      → is_ok (login_as c settings now fresh o password s).result ≡ true
      → CanLogIn c email password s
  unfolding login_as
  login_as-ok email password none s f h = cc
  login_as-ok email password (some u) s f h = (u, f, ground (arith, h), ground (arith, h))

  log_in :
      (email password : Text) (s : Accounts)
      → CanLogIn c email password s
      → is_ok (login c settings now fresh email password s).result ≡ true
  unfolding login login_as sign_in issue issue_in
  log_in email password s (u, f, v, a) = rw f (ground (arith, v, a))

  -- A login succeeds exactly where the email is that of a stored account which is active and the
  -- password verifies against its hash.
  pub login-succeeds_iff :
      (email password : Text) (s : Accounts)
      → (is_ok (login c settings now fresh email password s).result ≡ true)
        ↔ CanLogIn c email password s
  unfolding login
  login-succeeds_iff email password s =
      (login_as-ok email password (find_user_by_email email s) s refl, log_in email password s)

  -- The account that a registration with this draw creates.
  abbrev pub opened : (email password full_name : Text) → User
  opened email password full_name =
      new_user fresh.user_id email (c.hash fresh.salt password) full_name analyst now

  created_found :
      (email password full_name : Text) (s : Accounts)
      → get_user fresh.user_id s ≡ none
      → find_user_by_email email s ≡ none
      → find_user_by_email email (create_user (opened email password full_name) s)
        ≡ some (opened email password full_name)
  unfolding find_user_by_email create_user get_user new_user
  created_found email password full_name s n f =
      find-insert (λ u. text_eq u.email (norm_email email)) fresh.user_id _ s.users n f
        (text_eq_refl (norm_email email))

  opened_found :
      (email password full_name : Text) (s : Accounts)
      → find_user_by_email email
          (open_account c settings now fresh email password full_name s).accounts
        ≡ find_user_by_email email (create_user (opened email password full_name) s)
  unfolding open_account issue issue_in store_refresh add_audit find_user_by_email
  opened_found email password full_name s = refl

  register_checked-found :
      (v : Result ApiError (Unit {0})) (email password full_name : Text) (s : Accounts)
      → get_user fresh.user_id s ≡ none
      → is_ok (register_checked c settings now fresh v email password full_name s).result ≡ true
      → find_user_by_email email
          (register_checked c settings now fresh v email password full_name s).accounts
        ≡ some (opened email password full_name)
  unfolding register_checked
  register_checked-found (err e) email password full_name s n h = cc
  register_checked-found (ok _) email password full_name s n h =
      elim (Option-cases (find_user_by_email email s)) [
        | inl f ↦
            rw f (
              opened_found email password full_name s
              ∙ created_found email password full_name s n f)
        | inr (u, f) ↦ let bad : false ≡ true = rw f at h in cc
      ]

  register-found :
      (email password full_name : Text) (s : Accounts)
      → get_user fresh.user_id s ≡ none
      → is_ok (register c settings now fresh email password full_name s).result ≡ true
      → find_user_by_email email (register c settings now fresh email password full_name s).accounts
        ≡ some (opened email password full_name)
  unfolding register
  register-found email password full_name s n h =
      register_checked-found (validate_password password email) email password full_name s n h

opened-CanLogIn :
    (c : Crypto) (settings : Settings) (now : ℕ) (fresh : Fresh) (email password full_name : Text)
    (s : Accounts)
    → IsSound c
    → find_user_by_email email s ≡ some (opened c settings now fresh email password full_name)
    → CanLogIn c email password s
unfolding new_user
opened-CanLogIn c settings now fresh email password full_name s sound f = (
  opened c settings now fresh email password full_name,
  f,
  sound.verify-hash fresh.salt password,
  refl,
)

-- After a registration that succeeds, with an id that is not in use, the email finds the new account,
-- an active analyst, and a login with the same email and password succeeds at any time.
pub login-register :
    (c : Crypto) (settings : Settings) (now later : ℕ) (fresh draws : Fresh)
    (email password full_name : Text) (s : Accounts)
    → IsSound c
    → get_user fresh.user_id s ≡ none
    → is_ok (register c settings now fresh email password full_name s).result ≡ true
    → (find_user_by_email email (register c settings now fresh email password full_name s).accounts
        ≡ some (opened c settings now fresh email password full_name))
      × (is_ok
            (login c settings later draws email password
              (register c settings now fresh email password full_name s).accounts).result
          ≡ true)
login-register c settings now later fresh draws email password full_name s sound n h =
    let found = register-found c settings now fresh email password full_name s n h in
    (
      found,
      log_in c settings later draws email password _
          (opened-CanLogIn c settings now fresh email password full_name _ sound found),
    )
