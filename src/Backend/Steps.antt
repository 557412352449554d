-- ===== src/Backend/Steps.antt =====
-- The account handlers as steps of the store, in any order and at any instants.
pub mod Tokens
pub mod Families
pub mod Ended
pub mod Managed
pub mod Users
use ai_finance_controller.Common.{ℕ, ◌≡◌, false, Option, none}
use ai_finance_controller.Common.Text.{Text}
use ai_finance_controller.Domain.Enums.{UserRole}
use ai_finance_controller.Backend.Store.{Accounts, get_user, find_refresh}
use ai_finance_controller.Backend.Auth.{Crypto, Settings}
use ai_finance_controller.Backend.Sessions.{Fresh, register, login, refresh, logout}
use ai_finance_controller.Backend.Sessions.Families.{is_in_use}
use ai_finance_controller.Backend.Users.{
  Demo, Draw, as_admin, create_user_as_admin, set_user_role, deactivate_user, seed_one,
  bootstrap_admin,
}

-- What the code draws at random has not been drawn before: the id of a user, the id of a family and
-- the secret of a token, which `digest` keeps apart from the others.
pub record IsFresh (c : Crypto) (fresh : Fresh) (s : Accounts) : Type 0 where
  pub new_id : get_user fresh.user_id s ≡ none
  pub new_family : is_in_use fresh.family_id s ≡ false
  pub new_digest : find_refresh (c.digest fresh.plaintext) s ≡ none

module _ (c : Crypto) (settings : Settings) where
  pub data Step (s r : Accounts) : Type 0 where
    registers :
        (now : ℕ) (fresh : Fresh) (email password full_name : Text)
        → IsFresh c fresh s
        → r ≡ (register c settings now fresh email password full_name s).accounts
        → Step s r
    logs_in :
        (now : ℕ) (fresh : Fresh) (email password : Text)
        → IsFresh c fresh s
        → r ≡ (login c settings now fresh email password s).accounts
        → Step s r
    refreshes :
        (now : ℕ) (fresh : Fresh) (cookie : Option Text)
        → IsFresh c fresh s
        → r ≡ (refresh c settings now fresh cookie s).accounts
        → Step s r
    logs_out : (now : ℕ) (cookie : Option Text) → r ≡ (logout c now cookie s).accounts → Step s r
    creates :
        (now : ℕ) (fresh : Fresh) (email password full_name : Text) (role : UserRole)
        (authorization : Option Text)
        → IsFresh c fresh s
        → r
          ≡ (as_admin c now
              (create_user_as_admin c now fresh email password full_name role)
              authorization
              s).accounts
        → Step s r
    sets_role :
        (now : ℕ) (fresh : Fresh) (user_id : Text) (role : UserRole) (authorization : Option Text)
        → r ≡ (as_admin c now (set_user_role now fresh user_id role) authorization s).accounts
        → Step s r
    deactivates :
        (now : ℕ) (fresh : Fresh) (user_id : Text) (authorization : Option Text)
        → r ≡ (as_admin c now (deactivate_user now fresh user_id) authorization s).accounts
        → Step s r
    seeds :
        (now : ℕ) (draw : Draw) (d : Demo)
        → get_user draw.user_id s ≡ none
        → r ≡ (seed_one c settings now draw d s).0
        → Step s r
    bootstraps :
        (now : ℕ) (event_id : Text) → r ≡ (bootstrap_admin settings now event_id s).0 → Step s r

  -- Any number of steps.
  pub data Reach (s : Accounts) : Accounts → Type 0 where
    here : Reach s s
    after : (m r : Accounts) → Reach s m → Step m r → Reach s r
