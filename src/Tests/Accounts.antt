-- ===== src/Tests/Accounts.antt =====
-- Registrations, sessions and the management of users on a small store.
use ai_finance_controller.Common.{
  ℕ, suc, ◌+◌, ◌*◌, ◌≤◌, ◌≡◌, refl, true, false, Option, none, some, if◌then◌else◌, ltb,
}
use ai_finance_controller.Common.Text.{Text, codes, strip}
use ai_finance_controller.Common.Result.{err, is_ok}
use ai_finance_controller.Domain.Enums.{analyst, admin}
use ai_finance_controller.Backend.Errors.{cannot_change_own_role, token_expired, token_invalid}
use ai_finance_controller.Backend.Store.{
  User, RefreshToken, Accounts, no_accounts, new_user, create_user, get_user, find_user_by_email,
  find_refresh,
}
use ai_finance_controller.Backend.Auth.{mint_access_token}
use ai_finance_controller.Backend.Access.{active_user, current_user}
use ai_finance_controller.Backend.Access.Minted.{bearer, current_user-mint}
use ai_finance_controller.Backend.Sessions.{Fresh, register, login, refresh}
use ai_finance_controller.Backend.Sessions.Families.{open_count}
use ai_finance_controller.Backend.Sessions.Login.{opened, login-register}
use ai_finance_controller.Backend.Users.{as_admin, set_user_role}
use ai_finance_controller.Backend.Users.Managed.{create_user-IsIndexed}
use ai_finance_controller.Backend.Steps.{
  IsFresh, Reach, here, after, registers, refreshes, sets_role,
}
use ai_finance_controller.Backend.Steps.Families.{Reach-has_one_open}
use ai_finance_controller.Backend.Steps.Ended.{refresh-ends_session}
use ai_finance_controller.Backend.Steps.Managed.{IsManaged}
use ai_finance_controller.Backend.Steps.Users.{Reach-IsManaged}
use ai_finance_controller.Tests.Cipher.{crypto, crypto-IsSound, settings}

-- What the first and the second handler draw.
abbrev draws : (name : Text) → Fresh
draws name = record {
  salt = name;
  user_id = name;
  token_id = name;
  event_id = name;
  plaintext = name;
  family_id = name;
}

abbrev first : Fresh
first = draws (codes "one")

abbrev second : Fresh
second = draws (codes "two")

abbrev email : Text
email = codes "Meera@tallyproof.dev"

abbrev password : Text
password = codes "correct horse"

-- The store after a registration, and after a first refresh.
abbrev registered : Accounts
registered = (register crypto settings 0 first email password (codes "Meera") no_accounts).accounts

abbrev refreshed : Accounts
refreshed = (refresh crypto settings 60 second (some (codes "one")) registered).accounts

nothing_drawn : (f : Fresh) → IsFresh crypto f no_accounts
unfolding get_user find_refresh ai_finance_controller.Common.Dict.lookup
    ai_finance_controller.Backend.Sessions.Families.is_in_use
nothing_drawn f = record { new_id = refl; new_family = refl; new_digest = refl }

second-IsFresh : IsFresh crypto second registered
unfolding ai_finance_controller.Backend.Sessions.issue
    ai_finance_controller.Backend.Sessions.open_account
    ai_finance_controller.Backend.Sessions.register ai_finance_controller.Backend.Auth.names_owner
    ai_finance_controller.Backend.Auth.validate_password
    ai_finance_controller.Backend.Auth.new_refresh_token
    ai_finance_controller.Backend.Sessions.Families.is_in_use
    ai_finance_controller.Backend.Store.add_audit ai_finance_controller.Backend.Store.new_user
    ai_finance_controller.Backend.Store.create_user ai_finance_controller.Backend.Store.get_user
    ai_finance_controller.Backend.Store.find_user_by_email
    ai_finance_controller.Backend.Store.new_token ai_finance_controller.Backend.Store.store_refresh
    ai_finance_controller.Backend.Store.find_refresh ai_finance_controller.Common.Dict.lookup
    ai_finance_controller.Common.Dict.insert
second-IsFresh = record { new_id = refl; new_family = refl; new_digest = refl }

registered-Reach : Reach crypto settings no_accounts registered
registered-Reach =
    after no_accounts registered here
      (registers 0 first email password (codes "Meera") (nothing_drawn first) refl)

refreshed-Reach : Reach crypto settings no_accounts refreshed
refreshed-Reach =
    after registered refreshed registered-Reach
      (refreshes 60 second (some (codes "one")) second-IsFresh refl)

-- The first token is used, and the second is of its family.
abbrev used : RefreshToken
used = record {
  token_id = codes "one";
  user_id = codes "one";
  digest = codes "one";
  family_id = codes "one";
  expires_at = 14 * 86_400;
  issued_at = 0;
  consumed_at = some 60;
  revoked_at = none;
}

abbrev revoked : RefreshToken
revoked = record {
  token_id = codes "two";
  user_id = codes "one";
  digest = codes "two";
  family_id = codes "one";
  expires_at = 60 + 14 * 86_400;
  issued_at = 60;
  consumed_at = none;
  revoked_at = some 90;
}

used_found : find_refresh (codes "one") refreshed ≡ some used
unfolding ai_finance_controller.Backend.Store.Dicts.adjust
    ai_finance_controller.Backend.Sessions.issue ai_finance_controller.Backend.Sessions.open_account
    ai_finance_controller.Backend.Sessions.register ai_finance_controller.Backend.Sessions.rotate
    ai_finance_controller.Backend.Sessions.refresh ai_finance_controller.Backend.Auth.names_owner
    ai_finance_controller.Backend.Auth.validate_password
    ai_finance_controller.Backend.Auth.new_refresh_token
    ai_finance_controller.Backend.Auth.refresh_expiry ai_finance_controller.Backend.Store.is_live
    ai_finance_controller.Backend.Store.add_audit ai_finance_controller.Backend.Store.new_user
    ai_finance_controller.Backend.Store.create_user ai_finance_controller.Backend.Store.get_user
    ai_finance_controller.Backend.Store.find_user_by_email
    ai_finance_controller.Backend.Store.new_token ai_finance_controller.Backend.Store.store_refresh
    ai_finance_controller.Backend.Store.find_refresh
    ai_finance_controller.Backend.Store.consume_refresh ai_finance_controller.Common.Dict.lookup
    ai_finance_controller.Common.Dict.insert
used_found = refl

revoked_found :
    find_refresh
      (codes "two")
      (refresh crypto settings 90 second (some (codes "one")) refreshed).accounts
    ≡ some revoked
unfolding ai_finance_controller.Backend.Store.Dicts.adjust
    ai_finance_controller.Backend.Sessions.issue ai_finance_controller.Backend.Sessions.open_account
    ai_finance_controller.Backend.Sessions.register
    ai_finance_controller.Backend.Sessions.end_family ai_finance_controller.Backend.Sessions.rotate
    ai_finance_controller.Backend.Sessions.refresh ai_finance_controller.Backend.Auth.names_owner
    ai_finance_controller.Backend.Auth.validate_password
    ai_finance_controller.Backend.Auth.new_refresh_token
    ai_finance_controller.Backend.Auth.refresh_expiry ai_finance_controller.Backend.Store.is_live
    ai_finance_controller.Backend.Store.add_audit ai_finance_controller.Backend.Store.new_user
    ai_finance_controller.Backend.Store.create_user ai_finance_controller.Backend.Store.get_user
    ai_finance_controller.Backend.Store.find_user_by_email
    ai_finance_controller.Backend.Store.new_token ai_finance_controller.Backend.Store.store_refresh
    ai_finance_controller.Backend.Store.find_refresh
    ai_finance_controller.Backend.Store.consume_refresh
    ai_finance_controller.Backend.Store.revoke_token
    ai_finance_controller.Backend.Store.revoke_family ai_finance_controller.Common.Dict.lookup
    ai_finance_controller.Common.Dict.insert
revoked_found = refl

refresh-ends_session_example :
    is_ok
      (refresh crypto settings 120 second
        (some (codes "two"))
        (refresh crypto settings 90 second (some (codes "one")) refreshed).accounts).result
    ≡ false
refresh-ends_session_example =
    refresh-ends_session crypto settings refreshed
      (refresh crypto settings 90 second (some (codes "one")) refreshed).accounts 90 120 second
      second (some (codes "one")) (some (codes "two")) used revoked refreshed-Reach refl used_found
      refl here revoked_found refl

Reach-has_one_open_example : open_count (codes "one") refreshed ≤ 1
Reach-has_one_open_example =
    Reach-has_one_open crypto settings (codes "one") refreshed refreshed-Reach

token_is_bare :
    strip (mint_access_token crypto settings (codes "one") email analyst 0).0
    ≡ (mint_access_token crypto settings (codes "one") email analyst 0).0
unfolding mint_access_token ai_finance_controller.Common.Text.strip
token_is_bare = refl

registers_one :
    is_ok (register crypto settings 0 first email password (codes "Meera") no_accounts).result
    ≡ true
unfolding ai_finance_controller.Backend.Sessions.issue
    ai_finance_controller.Backend.Sessions.open_account
    ai_finance_controller.Backend.Sessions.register ai_finance_controller.Backend.Auth.names_owner
    ai_finance_controller.Backend.Auth.validate_password
    ai_finance_controller.Backend.Store.find_user_by_email
registers_one = refl

no_user : get_user (codes "one") no_accounts ≡ none
unfolding get_user ai_finance_controller.Common.Dict.lookup
no_user = refl

current_user-mint_example :
    current_user crypto 899
      (some (bearer (mint_access_token crypto settings (codes "one") email analyst 0).0))
      registered
    ≡ (if ltb 899 0
        then err token_invalid
        else if ltb 899 (0 + 15 * 60)
        then active_user (get_user (codes "one") registered)
        else err token_expired)
current_user-mint_example =
    current_user-mint crypto crypto-IsSound settings (codes "one") email analyst 0 899 registered
      token_is_bare

login-register_example :
    (find_user_by_email email registered
      ≡ some (opened crypto settings 0 first email password (codes "Meera")))
    × (is_ok (login crypto settings 5 second email password registered).result ≡ true)
login-register_example =
    login-register crypto settings 0 5 first second email password (codes "Meera") no_accounts
      crypto-IsSound no_user registers_one

-- A store whose one user is an admin, who tries to step down.
abbrev arun : User
arun = new_user (codes "u0") (codes "admin@tallyproof.dev") password (codes "Arun") admin 0

abbrev managed : Accounts
managed = create_user arun no_accounts

abbrev stepped_down : Accounts
stepped_down =
    (as_admin crypto 5 (set_user_role 5 second (codes "u0") analyst)
      (some (bearer (mint_access_token crypto settings (codes "u0") email admin 0).0))
      managed).accounts

no_users : (k : Text) (u : User) → get_user k no_accounts ≡ some u → u.user_id ≡ k
unfolding get_user ai_finance_controller.Common.Dict.lookup
no_users k u e = cc

managed-IsManaged : IsManaged managed
unfolding ai_finance_controller.Backend.Users.Managed.has_admin create_user
    ai_finance_controller.Common.Dict.insert
    ai_finance_controller.Backend.Users.Managed.is_active_admin new_user
managed-IsManaged = (create_user-IsIndexed arun no_accounts no_users, refl)

Reach-IsManaged_example : IsManaged stepped_down
Reach-IsManaged_example =
    Reach-IsManaged crypto settings managed stepped_down
      (after managed stepped_down here (
        sets_role 5 second (codes "u0") analyst
          (some (bearer (mint_access_token crypto settings (codes "u0") email admin 0).0)) refl))
      managed-IsManaged

-- The admin is refused, and remains one.
cannot_step_down :
    (as_admin crypto 5
      (set_user_role 5 second (codes "u0") analyst)
      (some (bearer (mint_access_token crypto settings (codes "u0") email admin 0).0))
      managed).result
    ≡ err cannot_change_own_role
unfolding ai_finance_controller.Backend.Users.as_admin
    ai_finance_controller.Backend.Users.set_user_role
    ai_finance_controller.Backend.Access.has_bearer
    ai_finance_controller.Backend.Access.current_user
    ai_finance_controller.Backend.Access.require_role
    ai_finance_controller.Backend.Auth.mint_access_token
    ai_finance_controller.Backend.Auth.read_access_token
    ai_finance_controller.Backend.Store.new_user ai_finance_controller.Backend.Store.create_user
    ai_finance_controller.Backend.Store.get_user ai_finance_controller.Common.Dict.lookup
    ai_finance_controller.Common.Dict.insert
cannot_step_down = refl
