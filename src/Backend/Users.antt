-- ===== src/Backend/Users.antt =====
-- Managing users: the endpoints for them in backend/src/ledgergraph_api/routers/auth.py, the demo
-- accounts and the first admin. A handler takes the actor that its guard admits.
pub mod Managed
pub mod Admitted
use ai_finance_controller.Common.{
  ℕ, suc, Bool, true, false, not, ◌&&◌, Option, none, some, List, [], ◌∷◌, if◌then◌else◌, is_some,
  is_empty, filter, map, leb,
}
use ai_finance_controller.Common.Text.{Text, text_eq, codes, strip, lower, or_empty}
use ai_finance_controller.Common.Sort.{sort}
use ai_finance_controller.Common.Result.{Result, ok, err, ◌>>=◌}
use ai_finance_controller.Domain.Enums.{UserRole, analyst, reviewer, controller, admin}
use ai_finance_controller.Domain.Workflow.{registered, role_changed, deactivated}
use ai_finance_controller.Backend.Errors.{
  ApiError, email_taken, user_not_found, cannot_change_own_role, cannot_deactivate_self,
}
use ai_finance_controller.Backend.Store.{
  User, Accounts, add_audit, new_user, create_user, get_user, find_user_by_email, update_user_role,
  set_user_active,
}
use ai_finance_controller.Backend.Store.Dicts.{values}
use ai_finance_controller.Backend.Auth.{Crypto, Settings, validate_password}
use ai_finance_controller.Backend.Access.{same_role, current_user, require_role, can_admin}
use ai_finance_controller.Backend.Sessions.{Fresh, UserDto, user_dto, user_event, system_event}

-- The state after a handler, and what it returned or raised.
pub record Reply (A : Type 0) : Type 0 where
  pub accounts : Accounts
  pub result : Result ApiError A

abbrev pub refused : {A : Type 0} → ApiError → Accounts → Reply A
refused e s = record { accounts = s; result = err e }

abbrev pub replied : {A : Type 0} → A → Accounts → Reply A
replied a s = record { accounts = s; result = ok a }

-- `InMemoryRepository.list_users`: the oldest first.
unfoldable pub list_users : Accounts → List User
list_users s = sort (λ a b. leb a.created_at b.created_at) (values s.users)

-- The endpoint of the same name.
unfoldable pub list_active : Accounts → List UserDto
list_active s = map user_dto (filter (λ u. u.is_active) (list_users s))

module _ {A : Type 0} (c : Crypto) (now : ℕ) (handler : User → Accounts → Reply A) where
  unfoldable pub admit : Result ApiError User → Accounts → Reply A
  admit (err e) s = refused e s
  admit (ok actor) s = handler actor s

  -- A handler whose parameter `actor` is a `CanAdmin`.
  unfoldable pub as_admin : (authorization : Option Text) → Accounts → Reply A
  unfolding admit
  as_admin authorization s = admit (current_user c now authorization s >>= require_role can_admin) s

module _ (c : Crypto) (now : ℕ) (fresh : Fresh) where
  unfoldable pub add_account :
      (email password full_name : Text) (role : UserRole)
      → (actor : User) → Accounts
      → Reply UserDto
  add_account email password full_name role actor s =
      let u = new_user fresh.user_id email (c.hash fresh.salt password) full_name role now in
      replied (user_dto u)
        (add_audit (user_event fresh.event_id u.user_id registered actor now) (create_user u s))

  unfoldable pub create_checked :
      Result ApiError (Unit {0})
      → (email password full_name : Text) (role : UserRole) → (actor : User) → Accounts
      → Reply UserDto
  create_checked (err e) email password full_name role actor s = refused e s
  create_checked (ok _) email password full_name role actor s =
      if is_some (find_user_by_email email s)
      then refused email_taken s
      else add_account email password full_name role actor s

  unfoldable pub create_user_as_admin :
      (email password full_name : Text) (role : UserRole)
      → (actor : User) → Accounts
      → Reply UserDto
  unfolding create_checked
  create_user_as_admin email password full_name role actor s =
      create_checked (validate_password password email) email password full_name role actor s

module _ (now : ℕ) (fresh : Fresh) where
  -- `update_user_role` and its event; the stored user then has the role.
  unfoldable pub change_role :
      (user_id : Text) (target : User) → UserRole → (actor : User) → Accounts → Reply UserDto
  change_role user_id target role actor s = replied (user_dto (record target { role = role })) (
      add_audit (user_event fresh.event_id target.user_id role_changed actor now)
        (update_user_role user_id role s))

  unfoldable pub set_found_role :
      (user_id : Text) → Option User → UserRole → (actor : User) → Accounts → Reply UserDto
  set_found_role user_id none role actor s = refused user_not_found s
  set_found_role user_id (some target) role actor s =
      if text_eq target.user_id actor.user_id && not (same_role role actor.role)
      then refused cannot_change_own_role s
      else if same_role target.role role
      then replied (user_dto target) s
      else change_role user_id target role actor s

  unfoldable pub set_user_role :
      (user_id : Text) → UserRole → (actor : User) → Accounts → Reply UserDto
  unfolding set_found_role
  set_user_role user_id role actor s = set_found_role user_id (get_user user_id s) role actor s

  unfoldable pub switch_off : (user_id : Text) (target actor : User) → Accounts → Reply UserDto
  switch_off user_id target actor s = replied (user_dto (record target { is_active = false })) (
      add_audit (user_event fresh.event_id target.user_id deactivated actor now)
        (set_user_active user_id false s))

  unfoldable pub deactivate_found :
      (user_id : Text) → Option User → (actor : User) → Accounts → Reply UserDto
  deactivate_found user_id none actor s = refused user_not_found s
  deactivate_found user_id (some target) actor s =
      if text_eq target.user_id actor.user_id
      then refused cannot_deactivate_self s
      else if not target.is_active
      then replied (user_dto target) s
      else switch_off user_id target actor s

  unfoldable pub deactivate_user : (user_id : Text) → (actor : User) → Accounts → Reply UserDto
  unfolding deactivate_found
  deactivate_user user_id actor s = deactivate_found user_id (get_user user_id s) actor s

pub record Demo : Type 0 where
  pub email : Text
  pub name : Text
  pub role : UserRole

abbrev pub demo : (email name : Text) → UserRole → Demo
demo email name role = record { email = email; name = name; role = role }

abbrev pub demo_users : List Demo
demo_users =
    demo (codes "analyst@tallyproof.dev") (codes "Asha Analyst") analyst
    ∷ demo (codes "reviewer@tallyproof.dev") (codes "Ravi Reviewer") reviewer
    ∷ demo (codes "controller@tallyproof.dev") (codes "Chitra Controller") controller
    ∷ demo (codes "admin@tallyproof.dev") (codes "Arun Admin") admin
    ∷ []

-- What a pass draws at random.
pub record Draw : Type 0 where
  pub salt : Text
  pub user_id : Text

-- One pass of the loop of `seed_demo_users`, and whether it created the account.
unfoldable pub seed_one : Crypto → Settings → (now : ℕ) → Draw → Demo → Accounts → Accounts × Bool
seed_one c settings now draw d s = if is_some (find_user_by_email d.email s) then (s, false) else (
  create_user
      (new_user draw.user_id d.email (c.hash draw.salt settings.demo_password) d.name d.role now) s,
  true,
)

-- The loop, with a draw for each pass, and the number of accounts created. It stops where the draws
-- do.
unfoldable pub seed_all :
    Crypto → Settings → (now : ℕ) → List Draw → List Demo → Accounts → Accounts × ℕ
unfolding seed_one
seed_all c settings now (draw ∷ draws) (d ∷ demos) s =
    let (next, created) = seed_one c settings now draw d s in
    let (last, others) = seed_all c settings now draws demos next in
    (last, if created then suc others else others)
seed_all c settings now _ _ s = (s, 0)

-- `draws` are four.
unfoldable pub seed_demo_users : Crypto → Settings → (now : ℕ) → List Draw → Accounts → Accounts × ℕ
unfolding seed_all
seed_demo_users c settings now draws s =
    if settings.should_seed_demo_users then seed_all c settings now draws demo_users s else (s, 0)

unfoldable pub promote :
    (now : ℕ) (event_id email : Text) → Option User → Accounts → Accounts × Option Text
promote now event_id email none s = (s, none)
promote now event_id email (some u) s = if same_role u.role admin then (s, none) else (
  add_audit (system_event event_id u.user_id role_changed now) (update_user_role u.user_id admin s),
  some email,
)

unfoldable pub bootstrap_admin :
    Settings → (now : ℕ) (event_id : Text) → Accounts → Accounts × Option Text
unfolding promote strip lower
bootstrap_admin settings now event_id s =
    let email = lower (strip (or_empty settings.bootstrap_admin_email)) in
    if is_empty email then (s, none) else promote now event_id email (find_user_by_email email s) s
