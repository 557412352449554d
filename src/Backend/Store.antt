-- ===== src/Backend/Store.antt =====
-- The records of backend/src/ledgergraph_api/store.py, and the parts of `InMemoryRepository` that
-- hold accounts, refresh tokens and the audit trail. A stored object that a handler mutates is
-- replaced at its key. Times are instants; an id that the code draws at random is an argument.
pub mod Dicts
use ai_finance_controller.Common.{
  ℕ, Bool, true, false, not, ◌&&◌, Option, none, some, List, [], ◌∷◌, if◌then◌else◌, find, filter,
  length, map, is_some, ltb,
}
use ai_finance_controller.Common.Text.{Text, text_eq, strip, lower}
use ai_finance_controller.Common.Dict.{Dict, lookup, insert, push, get_list}
use ai_finance_controller.Common.Keys.{text_key}
use ai_finance_controller.Domain.Enums.{UserRole}
use ai_finance_controller.Domain.Workflow.{ActorType, DecisionAction, ReasonCode}
use Dicts.{values, adjust, map_values}

pub record User : Type 0 where
  pub user_id : Text
  pub email : Text
  pub hashed_password : Text
  pub full_name : Text
  pub role : UserRole
  pub is_active : Bool
  pub is_verified : Bool
  pub created_at : ℕ
  pub last_login_at : Option ℕ

pub record RefreshToken : Type 0 where
  pub token_id : Text
  pub user_id : Text
  pub digest : Text
  pub family_id : Text
  pub expires_at : ℕ
  pub issued_at : ℕ
  pub consumed_at : Option ℕ
  pub revoked_at : Option ℕ

unfoldable pub is_live : RefreshToken → (now : ℕ) → Bool
is_live t now = not (is_some t.consumed_at) && not (is_some t.revoked_at) && ltb now t.expires_at

-- What an audit event is about.
pub data AuditEntity : Type 0 where
  user exception_case import_file run : AuditEntity

-- The sentence of the event is left out, but for the note that a person wrote.
pub record AuditEvent : Type 0 where
  pub event_id : Text
  pub entity_type : AuditEntity
  pub entity_id : Text
  pub action : DecisionAction
  pub actor_type : ActorType
  pub actor_name : Option Text
  pub actor_role : Option UserRole
  pub actor_id : Option Text
  pub reason_code : Option ReasonCode
  pub note : Text
  pub ruleset_version : Option Text
  pub created_at : ℕ

-- `_users`, `_refresh` and `_audit`.
pub record Accounts : Type 0 where
  pub users : Dict Text User
  pub refresh_tokens : Dict Text RefreshToken
  pub audit : Dict Text (List AuditEvent)

abbrev pub no_accounts : Accounts
no_accounts = record { users = []; refresh_tokens = []; audit = [] }

-- The events of a key are appended to, never replaced.
unfoldable pub add_audit : AuditEvent → Accounts → Accounts
add_audit event s = record s { audit = push event.entity_id event s.audit }

unfoldable pub audit_for : Text → Accounts → List AuditEvent
audit_for entity_id s = get_list entity_id s.audit

-- `email.strip().lower()`
unfoldable pub norm_email : Text → Text
unfolding strip lower
norm_email email = lower (strip email)

unfoldable pub new_user :
    (user_id email hashed_password full_name : Text) (role : UserRole) (now : ℕ) → User
new_user user_id email hashed_password full_name role now = record {
  user_id = user_id;
  email = norm_email email;
  hashed_password = hashed_password;
  full_name = full_name;
  role = role;
  is_active = true;
  is_verified = true;
  created_at = now;
  last_login_at = none;
}

-- `create_user`, of a user built by `new_user`.
unfoldable pub create_user : User → Accounts → Accounts
create_user u s = record s { users = insert u.user_id u s.users }

unfoldable pub get_user : Text → Accounts → Option User
get_user user_id s = lookup user_id s.users

unfoldable pub find_user_by_email : Text → Accounts → Option User
find_user_by_email email s = find (λ u. text_eq u.email (norm_email email)) (values s.users)

-- The mutations of a stored user. A key that is missing changes nothing.
unfoldable pub update_user_role : Text → UserRole → Accounts → Accounts
update_user_role user_id role s = record s {
  users = adjust user_id (λ u. record u { role = role }) s.users;
}

unfoldable pub set_user_active : Text → Bool → Accounts → Accounts
set_user_active user_id active s = record s {
  users = adjust user_id (λ u. record u { is_active = active }) s.users;
}

unfoldable pub set_hashed_password : Text → Text → Accounts → Accounts
set_hashed_password user_id hashed s = record s {
  users = adjust user_id (λ u. record u { hashed_password = hashed }) s.users;
}

unfoldable pub set_last_login : Text → ℕ → Accounts → Accounts
set_last_login user_id now s = record s {
  users = adjust user_id (λ u. record u { last_login_at = some now }) s.users;
}

unfoldable pub new_token :
    (token_id user_id digest family_id : Text) (expires_at now : ℕ) → RefreshToken
new_token token_id user_id digest family_id expires_at now = record {
  token_id = token_id;
  user_id = user_id;
  digest = digest;
  family_id = family_id;
  expires_at = expires_at;
  issued_at = now;
  consumed_at = none;
  revoked_at = none;
}

-- `store_refresh`, of a token built by `new_token`.
unfoldable pub store_refresh : RefreshToken → Accounts → Accounts
store_refresh t s = record s { refresh_tokens = insert t.digest t s.refresh_tokens }

unfoldable pub find_refresh : Text → Accounts → Option RefreshToken
find_refresh digest s = lookup digest s.refresh_tokens

unfoldable pub consume_refresh : RefreshToken → (now : ℕ) → Accounts → Accounts
consume_refresh t now s = record s {
  refresh_tokens = adjust t.digest (λ u. record u { consumed_at = some now }) s.refresh_tokens;
}

-- The body of the loop of `revoke_family`.
unfoldable pub is_revocable : Text → RefreshToken → Bool
is_revocable family_id t = text_eq t.family_id family_id && not (is_some t.revoked_at)

unfoldable pub revoke_token : Text → (now : ℕ) → RefreshToken → RefreshToken
unfolding is_revocable
revoke_token family_id now t =
    if is_revocable family_id t then record t { revoked_at = some now } else t

unfoldable pub revoke_family : Text → (now : ℕ) → Accounts → Accounts
revoke_family family_id now s = record s {
  refresh_tokens = map_values (revoke_token family_id now) s.refresh_tokens;
}

-- The number that `revoke_family` returns.
unfoldable pub revoked_count : Text → Accounts → ℕ
revoked_count family_id s = length (filter (is_revocable family_id) (values s.refresh_tokens))
