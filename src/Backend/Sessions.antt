-- ===== src/Backend/Sessions.antt =====
-- Registration, login, refresh and logout, of backend/src/ledgergraph_api/routers/auth.py. A handler
-- runs at one instant; `Fresh` is what it draws at random. The cookie is the one that it puts on
-- its response, also where it then raises.
pub mod Families
pub mod Rotation
pub mod Reuse
pub mod Login
use ai_finance_controller.Common.{
  ℕ, Bool, true, false, not, ◌&&◌, ◌||◌, Option, none, some, List, [], ◌∷◌, if◌then◌else◌, is_some,
  is_empty,
}
use ai_finance_controller.Common.Text.{Text, is_blank, or_empty}
use ai_finance_controller.Common.Result.{Result, ok, err}
use ai_finance_controller.Domain.Enums.{UserRole, analyst}
use ai_finance_controller.Domain.Workflow.{
  ActorType, user, system, DecisionAction, registered, refresh_reuse_detected,
}
use ai_finance_controller.Backend.Errors.{
  ApiError, email_taken, invalid_credentials, no_refresh_cookie, refresh_invalid, refresh_reused,
  refresh_expired, account_unavailable,
}
use ai_finance_controller.Backend.Store.{
  User, RefreshToken, is_live, AuditEntity, AuditEvent, Accounts, add_audit, new_user, create_user,
  get_user, find_user_by_email, set_hashed_password, set_last_login, new_token, store_refresh,
  find_refresh, consume_refresh, revoke_family,
}
use ai_finance_controller.Backend.Auth.{
  Crypto, Settings, needs_rehash, validate_password, mint_access_token, new_refresh_token,
  refresh_expiry,
}

pub record Fresh : Type 0 where
  pub salt : Text
  pub user_id : Text
  pub token_id : Text
  pub event_id : Text
  pub plaintext : Text
  pub family_id : Text

pub data Cookie : Type 0 where
  untouched deleted : Cookie
  planted : Text → Cookie

pub record UserDto : Type 0 where
  pub id : Text
  pub email : Text
  pub full_name : Text
  pub role : UserRole
  pub is_active : Bool

unfoldable pub user_dto : User → UserDto
user_dto u = record {
  id = u.user_id;
  email = u.email;
  full_name = u.full_name;
  role = u.role;
  is_active = u.is_active;
}

pub record TokenDto : Type 0 where
  pub access_token : Text
  pub expires_in : ℕ
  pub user : UserDto

-- The state after a handler, the cookie on its response, and what it returned or raised.
pub record Outcome (A : Type 0) : Type 0 where
  pub accounts : Accounts
  pub cookie : Cookie
  pub result : Result ApiError A

abbrev pub raised : {A : Type 0} → ApiError → Accounts → Outcome A
raised e s = record { accounts = s; cookie = untouched; result = err e }

-- The event of `new_audit`, for a user as the actor.
unfoldable pub user_event :
    (event_id entity_id : Text) → DecisionAction → (actor : User) (now : ℕ) → AuditEvent
user_event event_id entity_id action actor now = record {
  event_id = event_id;
  entity_type = AuditEntity.user;
  entity_id = entity_id;
  action = action;
  actor_type = ActorType.user;
  actor_name = some actor.email;
  actor_role = some actor.role;
  actor_id = some actor.user_id;
  reason_code = none;
  note = [];
  ruleset_version = none;
  created_at = now;
}

unfoldable pub system_event : (event_id entity_id : Text) → DecisionAction → (now : ℕ) → AuditEvent
system_event event_id entity_id action now = record {
  event_id = event_id;
  entity_type = AuditEntity.user;
  entity_id = entity_id;
  action = action;
  actor_type = system;
  actor_name = none;
  actor_role = none;
  actor_id = none;
  reason_code = none;
  note = [];
  ruleset_version = none;
  created_at = now;
}

module _ (c : Crypto) (settings : Settings) (now : ℕ) (fresh : Fresh) where
  -- A new pair of tokens in the family: what `_issue` does, and `refresh` at its end.
  unfoldable pub issue_in : (family_id : Text) → User → Accounts → Outcome TokenDto
  issue_in family_id u s =
      let (access_token, expires_in) = mint_access_token c settings u.user_id u.email u.role now in
      let (plaintext, digest, _) = new_refresh_token c fresh.plaintext fresh.family_id in
      record {
        accounts =
            store_refresh
              (new_token fresh.token_id u.user_id digest family_id (refresh_expiry settings now)
                now)
              s;
        cookie = planted plaintext;
        result =
            ok (record { access_token = access_token; expires_in = expires_in; user = user_dto u });
      }

  -- `_issue`: a login starts a family.
  unfoldable pub issue : User → Accounts → Outcome TokenDto
  unfolding issue_in
  issue = issue_in fresh.family_id

  -- The account that a registration creates; `email` was not taken.
  unfoldable pub open_account : (email password full_name : Text) → Accounts → Outcome TokenDto
  open_account email password full_name s =
      let u = new_user fresh.user_id email (c.hash fresh.salt password) full_name analyst now in
      issue u (add_audit (user_event fresh.event_id u.user_id registered u now) (create_user u s))

  unfoldable pub register_checked :
      Result ApiError (Unit {0}) → (email password full_name : Text) → Accounts → Outcome TokenDto
  register_checked (err e) email password full_name s = raised e s
  register_checked (ok _) email password full_name s =
      if is_some (find_user_by_email email s)
      then raised email_taken s
      else open_account email password full_name s

  unfoldable pub register : (email password full_name : Text) → Accounts → Outcome TokenDto
  unfolding register_checked
  register email password full_name s =
      register_checked (validate_password password email) email password full_name s

  -- The hash is upgraded while the plaintext is at hand.
  unfoldable pub rehashed : User → (password : Text) → Accounts → Accounts
  rehashed u password s =
      if needs_rehash c u.hashed_password
      then set_hashed_password u.user_id (c.hash fresh.salt password) s
      else s

  unfoldable pub sign_in : User → (password : Text) → Accounts → Outcome TokenDto
  sign_in u password s = issue u (set_last_login u.user_id now (rehashed u password s))

  -- The dummy hash of a miss is verified for its time alone.
  unfoldable pub login_as : Option User → (password : Text) → Accounts → Outcome TokenDto
  login_as none password s = raised invalid_credentials s
  login_as (some u) password s =
      if c.verify u.hashed_password password && u.is_active
      then sign_in u password s
      else raised invalid_credentials s

  unfoldable pub login : (email password : Text) → Accounts → Outcome TokenDto
  unfolding login_as
  login email password s = login_as (find_user_by_email email s) password s

  -- What `refresh` finds in its tests, which it makes in this order.
  pub data Verdict : Type 0 where
    no_cookie unknown dead unavailable : Verdict
    reused : RefreshToken → Verdict
    rotates : RefreshToken → User → Verdict

  abbrev pub verdict_of_user : RefreshToken → Option User → Verdict
  verdict_of_user t none = unavailable
  verdict_of_user t (some u) = if u.is_active then rotates t u else unavailable

  abbrev pub verdict_of_token : Option RefreshToken → Accounts → Verdict
  verdict_of_token none s = unknown
  verdict_of_token (some t) s =
      if is_some t.consumed_at
      then reused t
      else if is_live t now
      then verdict_of_user t (get_user t.user_id s)
      else dead

  unfoldable pub verdict : (cookie : Option Text) → Accounts → Verdict
  verdict cookie s =
      if is_blank cookie
      then no_cookie
      else verdict_of_token (find_refresh (c.digest (or_empty cookie)) s) s

  -- The family of a token that comes back after its use is revoked.
  unfoldable pub end_family : RefreshToken → Accounts → Accounts
  end_family t s =
      add_audit (system_event fresh.event_id t.user_id refresh_reuse_detected now)
        (revoke_family t.family_id now s)

  unfoldable pub rotate : RefreshToken → User → Accounts → Outcome TokenDto
  rotate t u s = issue_in t.family_id u (consume_refresh t now s)

  unfoldable pub act_on : Verdict → Accounts → Outcome TokenDto
  act_on no_cookie s = raised no_refresh_cookie s
  act_on unknown s = raised refresh_invalid s
  act_on dead s = raised refresh_expired s
  act_on unavailable s = raised account_unavailable s
  act_on (reused t) s = record {
    accounts = end_family t s;
    cookie = deleted;
    result = err refresh_reused;
  }
  act_on (rotates t u) s = rotate t u s

  unfoldable pub refresh : (cookie : Option Text) → Accounts → Outcome TokenDto
  unfolding act_on verdict
  refresh cookie s = act_on (verdict cookie s) s

abbrev pub family_of : Option RefreshToken → Option Text
family_of none = none
family_of (some t) = some t.family_id

abbrev pub revoke_found : Option Text → (now : ℕ) → Accounts → Accounts
revoke_found none now s = s
revoke_found (some family_id) now s = revoke_family family_id now s

unfoldable pub logout : Crypto → (now : ℕ) (cookie : Option Text) → Accounts → Outcome (Unit {0})
logout c now cookie s = record {
  accounts =
      if is_blank cookie
      then s
      else revoke_found (family_of (find_refresh (c.digest (or_empty cookie)) s)) now s;
  cookie = deleted;
  result = ok tt;
}
