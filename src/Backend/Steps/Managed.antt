-- ===== src/Backend/Steps/Managed.antt =====
-- That an active admin remains after a registration, a login, a refresh and the creation of a user.
use ai_finance_controller.Common.{ℕ, ◌≡◌, refl, true, ◌&&◌, Option, none, some, is_some, if_elim}
use ai_finance_controller.Common.Text.{Text}
use ai_finance_controller.Common.Result.{Result, ok, err}
use ai_finance_controller.Domain.Enums.{UserRole}
use ai_finance_controller.Backend.Errors.{ApiError}
use ai_finance_controller.Backend.Store.{
  User, Accounts, add_audit, new_user, create_user, get_user, find_user_by_email, store_refresh,
  consume_refresh, revoke_family,
}
use ai_finance_controller.Backend.Auth.{Crypto, Settings, validate_password, needs_rehash}
use ai_finance_controller.Backend.Sessions.{
  Fresh, TokenDto, UserDto, Outcome, issue_in, issue, open_account, register_checked, register,
  rehashed, sign_in, login_as, login, Verdict, no_cookie, unknown, dead, unavailable, reused,
  rotates, verdict, end_family, rotate, act_on, refresh,
}
use ai_finance_controller.Backend.Users.{Reply, add_account, create_checked, create_user_as_admin}
use ai_finance_controller.Backend.Users.Managed.{
  IsIndexed, has_admin, SameUsers, IsIndexed-SameUsers, has_admin-SameUsers, create_user-IsIndexed,
  create_user-has_admin, set_hashed_password-IsIndexed, set_last_login-IsIndexed,
  set_hashed_password-has_admin, set_last_login-has_admin,
}

-- Every user stands at its id, and an active one is an admin.
abbrev pub IsManaged : Accounts → Type 0
IsManaged s = IsIndexed s × (has_admin s ≡ true)

pub IsManaged-same : (s r : Accounts) → SameUsers s r → IsManaged s → IsManaged r
IsManaged-same s r e (i, a) = (IsIndexed-SameUsers s r e i, rw (has_admin-SameUsers s r e) a)

pub IsManaged-new :
    (u : User) (s : Accounts)
    → get_user u.user_id s ≡ none
    → IsManaged s
    → IsManaged (create_user u s)
IsManaged-new u s n (i, a) = (create_user-IsIndexed u s i, create_user-has_admin u s n a)

module _ (c : Crypto) (settings : Settings) (now : ℕ) (fresh : Fresh) where
  issue_in-SameUsers :
      (f : Text) (u : User) (s : Accounts)
      → SameUsers s (issue_in c settings now fresh f u s).accounts
  unfolding issue_in store_refresh
  issue_in-SameUsers f u s = refl

  issue-SameUsers :
      (u : User) (s : Accounts) → SameUsers s (issue c settings now fresh u s).accounts
  unfolding issue
  issue-SameUsers u s = issue_in-SameUsers fresh.family_id u s

  act_on-SameUsers :
      (v : Verdict c settings now fresh) (s : Accounts)
      → SameUsers s (act_on c settings now fresh v s).accounts
  unfolding act_on end_family rotate add_audit revoke_family consume_refresh
  act_on-SameUsers no_cookie s = refl
  act_on-SameUsers unknown s = refl
  act_on-SameUsers dead s = refl
  act_on-SameUsers unavailable s = refl
  act_on-SameUsers (reused t) s = refl
  act_on-SameUsers (rotates t u) s = issue_in-SameUsers t.family_id u (consume_refresh t now s)

  pub refresh-IsManaged :
      (cookie : Option Text) (s : Accounts)
      → IsManaged s
      → IsManaged (refresh c settings now fresh cookie s).accounts
  unfolding refresh
  refresh-IsManaged cookie s h =
      IsManaged-same s _ (act_on-SameUsers (verdict c settings now fresh cookie s) s) h

  open_account-IsManaged :
      (email password full_name : Text) (s : Accounts)
      → get_user fresh.user_id s ≡ none
      → IsManaged s
      → IsManaged (open_account c settings now fresh email password full_name s).accounts
  unfolding open_account new_user add_audit
  open_account-IsManaged email password full_name s n h =
      IsManaged-same _ _ (issue-SameUsers _ _) (IsManaged-new _ s n h)

  register_checked-IsManaged :
      (v : Result ApiError (Unit {0})) (email password full_name : Text) (s : Accounts)
      → get_user fresh.user_id s ≡ none
      → IsManaged s
      → IsManaged (register_checked c settings now fresh v email password full_name s).accounts
  unfolding register_checked
  register_checked-IsManaged (err e) email password full_name s n h = h
  register_checked-IsManaged (ok _) email password full_name s n h =
      if_elim (λ (o : Outcome TokenDto). IsManaged o.accounts)
        (is_some (find_user_by_email email s)) (λ _. h)
        (λ _. open_account-IsManaged email password full_name s n h)

  pub register-IsManaged :
      (email password full_name : Text) (s : Accounts)
      → get_user fresh.user_id s ≡ none
      → IsManaged s
      → IsManaged (register c settings now fresh email password full_name s).accounts
  unfolding register
  register-IsManaged email password full_name s n h =
      register_checked-IsManaged (validate_password password email) email password full_name s n h

  rehashed-IsManaged :
      (u : User) (password : Text) (s : Accounts)
      → IsManaged s
      → IsManaged (rehashed c settings now fresh u password s)
  unfolding rehashed
  rehashed-IsManaged u password s (i, a) =
      if_elim IsManaged (needs_rehash c u.hashed_password)
        (λ _. (
          set_hashed_password-IsIndexed u.user_id _ s i,
          rw (set_hashed_password-has_admin u.user_id (c.hash fresh.salt password) s) a,
        ))
        (λ _. (i, a))

  sign_in-IsManaged :
      (u : User) (password : Text) (s : Accounts)
      → IsManaged s
      → IsManaged (sign_in c settings now fresh u password s).accounts
  unfolding sign_in
  sign_in-IsManaged u password s h =
      let m = rehashed c settings now fresh u password s in
      let (i, a) = rehashed-IsManaged u password s h in
      IsManaged-same _ _ (issue-SameUsers u _) (
        set_last_login-IsIndexed u.user_id now m i,
        rw (set_last_login-has_admin u.user_id now m) a,
      )

  login_as-IsManaged :
      (o : Option User) (password : Text) (s : Accounts)
      → IsManaged s
      → IsManaged (login_as c settings now fresh o password s).accounts
  unfolding login_as
  login_as-IsManaged none password s h = h
  login_as-IsManaged (some u) password s h =
      if_elim (λ (o : Outcome TokenDto). IsManaged o.accounts)
        (c.verify u.hashed_password password && u.is_active) (λ _. sign_in-IsManaged u password s h)
        (λ _. h)

  pub login-IsManaged :
      (email password : Text) (s : Accounts)
      → IsManaged s
      → IsManaged (login c settings now fresh email password s).accounts
  unfolding login
  login-IsManaged email password s h = login_as-IsManaged (find_user_by_email email s) password s h

  create_checked-IsManaged :
      (v : Result ApiError (Unit {0})) (email password full_name : Text) (role : UserRole)
      (u : User) (s : Accounts)
      → get_user fresh.user_id s ≡ none
      → IsManaged s
      → IsManaged (create_checked c now fresh v email password full_name role u s).accounts
  unfolding create_checked add_account new_user add_audit
  create_checked-IsManaged (err e) email password full_name role u s n h = h
  create_checked-IsManaged (ok _) email password full_name role u s n h =
      if_elim (λ (o : Reply UserDto). IsManaged o.accounts) (is_some (find_user_by_email email s))
        (λ _. h) (λ _. IsManaged-same _ _ refl (IsManaged-new _ s n h))

  pub create_user_as_admin-IsManaged :
      (email password full_name : Text) (role : UserRole) (u : User) (s : Accounts)
      → get_user fresh.user_id s ≡ none
      → IsManaged s
      → IsManaged (create_user_as_admin c now fresh email password full_name role u s).accounts
  unfolding create_user_as_admin
  create_user_as_admin-IsManaged email password full_name role u s n h =
      create_checked-IsManaged (validate_password password email) email password full_name role u s
        n h
