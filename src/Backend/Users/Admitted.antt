-- ===== src/Backend/Users/Admitted.antt =====
-- Who the guard of the admin endpoints admits.
use ai_finance_controller.Common.{ℕ, ◌≡◌, refl, true, ◌&&◌, Option, none, some, arith, any, if_elim}
use ai_finance_controller.Common.Text.{Text, strip, or_empty}
use ai_finance_controller.Common.Result.{Result, ok, err, ◌>>=◌, Returns, Returns-bind}
use ai_finance_controller.Domain.Enums.{admin}
use ai_finance_controller.Backend.Errors.{ApiError}
use ai_finance_controller.Backend.Store.{User, Accounts, get_user}
use ai_finance_controller.Backend.Auth.{Crypto, read_access_token}
use ai_finance_controller.Backend.Access.{
  same_role, has_bearer, after_space, active_user, current_user, require_role, can_admin,
}
use ai_finance_controller.Backend.Users.{Reply, admit, as_admin}
use ai_finance_controller.Backend.Users.Managed.{is_active_admin}

-- A stored account which is active.
abbrev pub IsSignedIn : Accounts → User → Type 0
IsSignedIn s u = (k : Text) × (get_user k s ≡ some u) × (u.is_active ≡ true)

active_user-IsSignedIn :
    (k : Text) (s : Accounts) (o : Option User)
    → get_user k s ≡ o
    → Returns (IsSignedIn s) (active_user o)
active_user-IsSignedIn k s none e = tt
active_user-IsSignedIn k s (some u) e =
    if_elim (Returns (IsSignedIn s)) u.is_active (λ a. (k, e, a)) (λ _. tt)

pub current_user-IsSignedIn :
    (c : Crypto) (now : ℕ) (authorization : Option Text) (s : Accounts)
    → Returns (IsSignedIn s) (current_user c now authorization s)
unfolding current_user
current_user-IsSignedIn c now authorization s =
    if_elim (Returns (IsSignedIn s)) (has_bearer authorization)
      (λ _.
        Returns-bind (λ _. Unit {0}) (IsSignedIn s)
          (read_access_token c now (strip (after_space (or_empty authorization)))) _ (returned _)
          (λ claims _. active_user-IsSignedIn claims.user_id s (get_user claims.user_id s) refl))
      (λ _. tt)
  where
    returned : {E A : Type 0} (r : Result E A) → Returns (λ _. Unit {0}) r
    returned (ok a) = tt
    returned (err e) = tt

IsAdmin : Accounts → User → Type 0
IsAdmin s u = IsSignedIn s u × (is_active_admin u ≡ true)

require_role-IsAdmin :
    (s : Accounts) (u : User) → IsSignedIn s u → Returns (IsAdmin s) (require_role can_admin u)
unfolding require_role is_active_admin IsAdmin
require_role-IsAdmin s u h =
    if_elim (Returns (λ v. IsSignedIn s v × ((v.is_active && same_role v.role admin) ≡ true)))
      (any (same_role u.role) can_admin) (λ a. (h, ground (arith, h.2, a))) (λ _. tt)

admitted :
    {A : Type 0} (P : Accounts → Type 0) (c : Crypto) (now : ℕ)
    (handler : User → Accounts → Reply A) (s : Accounts) (r : Result ApiError User)
    → Returns (IsAdmin s) r
    → P s
    → ((u : User) → IsSignedIn s u → is_active_admin u ≡ true → P (handler u s).accounts)
    → P (admit c now handler r s).accounts
unfolding admit IsAdmin
admitted P c now handler s (err e) g h f = h
admitted P c now handler s (ok u) g h f = f u g.0 g.1

-- What a handler keeps when an active admin calls it, its endpoint keeps.
pub as_admin-keeps :
    {A : Type 0} (P : Accounts → Type 0) (c : Crypto) (now : ℕ)
    (handler : User → Accounts → Reply A) (authorization : Option Text) (s : Accounts)
    → P s
    → ((u : User) → IsSignedIn s u → is_active_admin u ≡ true → P (handler u s).accounts)
    → P (as_admin c now handler authorization s).accounts
unfolding as_admin
as_admin-keeps P c now handler authorization s h f =
    admitted P c now handler s (current_user c now authorization s >>= require_role can_admin)
      (Returns-bind (IsSignedIn s) (IsAdmin s) (current_user c now authorization s)
        (require_role can_admin) (current_user-IsSignedIn c now authorization s)
        (require_role-IsAdmin s))
      h f
