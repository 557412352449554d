-- ===== src/Backend/Steps/Tokens.antt =====
-- What each step does to the refresh tokens.
use ai_finance_controller.Common.{
  ℕ, ◌≡◌, refl, ◌⊎◌, inl, inr, Option, none, some, if_elim, is_some, ◌&&◌, not, Bool, is_empty,
}
use ai_finance_controller.Common.Text.{Text, is_blank, or_empty, text_eq, lower, strip}
use ai_finance_controller.Common.Result.{Result, ok, err, ◌>>=◌}
use ai_finance_controller.Domain.Enums.{UserRole, admin}
use ai_finance_controller.Backend.Errors.{ApiError}
use ai_finance_controller.Backend.Store.{
  User, RefreshToken, Accounts, add_audit, create_user, find_user_by_email, set_hashed_password,
  set_last_login, store_refresh, find_refresh, revoke_family, get_user, update_user_role,
  set_user_active,
}
use ai_finance_controller.Backend.Auth.{Crypto, Settings, needs_rehash, validate_password}
use ai_finance_controller.Backend.Access.{same_role, current_user, require_role, can_admin}
use ai_finance_controller.Backend.Sessions.{
  Fresh, UserDto, TokenDto, Outcome, issue, open_account, register_checked, register, rehashed,
  sign_in, login_as, login, family_of, revoke_found, logout,
}
use ai_finance_controller.Backend.Sessions.Rotation.{issued, issue_in-accounts}
use ai_finance_controller.Backend.Users.{
  Reply, Demo, Draw, admit, as_admin, add_account, create_checked, create_user_as_admin,
  change_role, set_found_role, set_user_role, switch_off, deactivate_found, deactivate_user,
  seed_one, promote, bootstrap_admin,
}

-- The tokens of two stores are the same.
abbrev pub SameTokens : (s r : Accounts) → Type 0
SameTokens s r = r.refresh_tokens ≡ s.refresh_tokens

-- The tokens are those of before, or a new family is started.
abbrev pub Starts : (c : Crypto) → Settings → (now : ℕ) → Fresh → (s r : Accounts) → Type 0
Starts c settings now fresh s r =
    SameTokens s r
    ⊎ ((u : User) × SameTokens (store_refresh (issued c settings now fresh fresh.family_id u) s) r)

module _ (c : Crypto) (settings : Settings) (now : ℕ) (fresh : Fresh) where
  issue-accounts :
      (u : User) (s : Accounts)
      → (issue c settings now fresh u s).accounts
        ≡ store_refresh (issued c settings now fresh fresh.family_id u) s
  unfolding issue
  issue-accounts u s = issue_in-accounts c settings now fresh fresh.family_id u s

  issue-Starts :
      (u : User) (m s : Accounts)
      → SameTokens s m
      → Starts c settings now fresh s (issue c settings now fresh u m).accounts
  unfolding store_refresh
  issue-Starts u m s e = inr (u, rw (issue-accounts u m, e) refl)

  register_checked-Starts :
      (v : Result ApiError (Unit {0})) (email password full_name : Text) (s : Accounts)
      → Starts c settings now fresh s
          (register_checked c settings now fresh v email password full_name s).accounts
  unfolding register_checked open_account add_audit create_user
  register_checked-Starts (err e) email password full_name s = inl refl
  register_checked-Starts (ok _) email password full_name s =
      if_elim (λ (o : Outcome TokenDto). Starts c settings now fresh s o.accounts)
        (is_some (find_user_by_email email s)) (λ _. inl refl) (λ _. issue-Starts _ _ s refl)

  pub register-Starts :
      (email password full_name : Text) (s : Accounts)
      → Starts c settings now fresh s
          (register c settings now fresh email password full_name s).accounts
  unfolding register
  register-Starts email password full_name s =
      register_checked-Starts (validate_password password email) email password full_name s

  rehashed-SameTokens :
      (u : User) (password : Text) (s : Accounts)
      → SameTokens s (rehashed c settings now fresh u password s)
  unfolding rehashed set_hashed_password
  rehashed-SameTokens u password s =
      if_elim (SameTokens s) (needs_rehash c u.hashed_password) (λ _. refl) (λ _. refl)

  login_as-Starts :
      (o : Option User) (password : Text) (s : Accounts)
      → Starts c settings now fresh s (login_as c settings now fresh o password s).accounts
  unfolding login_as sign_in set_last_login
  login_as-Starts none password s = inl refl
  login_as-Starts (some u) password s =
      if_elim (λ (o : Outcome TokenDto). Starts c settings now fresh s o.accounts)
        (c.verify u.hashed_password password && u.is_active)
        (λ _. issue-Starts u _ s (rehashed-SameTokens u password s)) (λ _. inl refl)

  pub login-Starts :
      (email password : Text) (s : Accounts)
      → Starts c settings now fresh s (login c settings now fresh email password s).accounts
  unfolding login
  login-Starts email password s = login_as-Starts (find_user_by_email email s) password s

-- A logout changes no token, or revokes a family.
abbrev pub Ends : (now : ℕ) → (s r : Accounts) → Type 0
Ends now s r = SameTokens s r ⊎ ((f : Text) × SameTokens (revoke_family f now s) r)

revoke_found-Ends :
    (o : Option RefreshToken) (now : ℕ) (s : Accounts)
    → Ends now s (revoke_found (family_of o) now s)
revoke_found-Ends none now s = inl refl
revoke_found-Ends (some t) now s = inr (t.family_id, refl)

pub logout-Ends :
    (c : Crypto) (now : ℕ) (cookie : Option Text) (s : Accounts)
    → Ends now s (logout c now cookie s).accounts
unfolding logout
logout-Ends c now cookie s =
    if_elim (Ends now s) (is_blank cookie) (λ _. inl refl)
      (λ _. revoke_found-Ends (find_refresh (c.digest (or_empty cookie)) s) now s)

pub as_admin-SameTokens :
    {A : Type 0} (c : Crypto) (now : ℕ) (handler : User → Accounts → Reply A)
    (authorization : Option Text) (s : Accounts)
    → ((u : User) → SameTokens s (handler u s).accounts)
    → SameTokens s (as_admin c now handler authorization s).accounts
unfolding as_admin admit
as_admin-SameTokens c now handler authorization s h =
    admitted (current_user c now authorization s >>= require_role can_admin)
  where
    admitted : (r : Result ApiError User) → SameTokens s (admit c now handler r s).accounts
    admitted (err e) = refl
    admitted (ok u) = h u

module _ (c : Crypto) (now : ℕ) (fresh : Fresh) where
  create_checked-SameTokens :
      (v : Result ApiError (Unit {0})) (email password full_name : Text) (role : UserRole)
      (u : User) (s : Accounts)
      → SameTokens s (create_checked c now fresh v email password full_name role u s).accounts
  unfolding create_checked add_account add_audit create_user
  create_checked-SameTokens (err e) email password full_name role u s = refl
  create_checked-SameTokens (ok _) email password full_name role u s =
      if_elim (λ (o : Reply UserDto). SameTokens s o.accounts)
        (is_some (find_user_by_email email s)) (λ _. refl) (λ _. refl)

  pub create_user_as_admin-SameTokens :
      (email password full_name : Text) (role : UserRole) (u : User) (s : Accounts)
      → SameTokens s (create_user_as_admin c now fresh email password full_name role u s).accounts
  unfolding create_user_as_admin
  create_user_as_admin-SameTokens email password full_name role u s =
      create_checked-SameTokens (validate_password password email) email password full_name role u s

module _ (now : ℕ) (fresh : Fresh) where
  set_found_role-SameTokens :
      (user_id : Text) (o : Option User) (role : UserRole) (u : User) (s : Accounts)
      → SameTokens s (set_found_role now fresh user_id o role u s).accounts
  unfolding set_found_role change_role add_audit update_user_role
  set_found_role-SameTokens user_id none role u s = refl
  set_found_role-SameTokens user_id (some t) role u s =
      if_elim (λ (o : Reply UserDto). SameTokens s o.accounts)
        (text_eq t.user_id u.user_id && not (same_role role u.role)) (λ _. refl)
        (λ _.
          if_elim (λ (o : Reply UserDto). SameTokens s o.accounts) (same_role t.role role)
            (λ _. refl) (λ _. refl))

  pub set_user_role-SameTokens :
      (user_id : Text) (role : UserRole) (u : User) (s : Accounts)
      → SameTokens s (set_user_role now fresh user_id role u s).accounts
  unfolding set_user_role
  set_user_role-SameTokens user_id role u s =
      set_found_role-SameTokens user_id (get_user user_id s) role u s

  deactivate_found-SameTokens :
      (user_id : Text) (o : Option User) (u : User) (s : Accounts)
      → SameTokens s (deactivate_found now fresh user_id o u s).accounts
  unfolding deactivate_found switch_off add_audit set_user_active
  deactivate_found-SameTokens user_id none u s = refl
  deactivate_found-SameTokens user_id (some t) u s =
      if_elim (λ (o : Reply UserDto). SameTokens s o.accounts) (text_eq t.user_id u.user_id)
        (λ _. refl)
        (λ _.
          if_elim (λ (o : Reply UserDto). SameTokens s o.accounts) (not t.is_active) (λ _. refl)
            (λ _. refl))

  pub deactivate_user-SameTokens :
      (user_id : Text) (u : User) (s : Accounts)
      → SameTokens s (deactivate_user now fresh user_id u s).accounts
  unfolding deactivate_user
  deactivate_user-SameTokens user_id u s =
      deactivate_found-SameTokens user_id (get_user user_id s) u s

module _ (settings : Settings) (now : ℕ) where
  pub seed_one-SameTokens :
      (c : Crypto) (draw : Draw) (d : Demo) (s : Accounts)
      → SameTokens s (seed_one c settings now draw d s).0
  unfolding seed_one create_user
  seed_one-SameTokens c draw d s =
      if_elim (λ (o : Accounts × Bool). SameTokens s o.0) (is_some (find_user_by_email d.email s))
        (λ _. refl) (λ _. refl)

  promote-SameTokens :
      (event_id email : Text) (o : Option User) (s : Accounts)
      → SameTokens s (promote now event_id email o s).0
  unfolding promote add_audit update_user_role
  promote-SameTokens event_id email none s = refl
  promote-SameTokens event_id email (some u) s =
      if_elim (λ (o : Accounts × Option Text). SameTokens s o.0) (same_role u.role admin)
        (λ _. refl) (λ _. refl)

  pub bootstrap_admin-SameTokens :
      (event_id : Text) (s : Accounts) → SameTokens s (bootstrap_admin settings now event_id s).0
  unfolding bootstrap_admin
  bootstrap_admin-SameTokens event_id s =
      if_elim (λ (o : Accounts × Option Text). SameTokens s o.0)
        (is_empty (lower (strip (or_empty settings.bootstrap_admin_email)))) (λ _. refl)
        (λ _. promote-SameTokens event_id _ (find_user_by_email _ s) s)
