-- ===== src/Backend/Access.antt =====
-- Who is calling and what they may do, backend/src/ledgergraph_api/deps.py.
pub mod Minted
use ai_finance_controller.Common.{
  ℕ, Bool, true, false, not, ◌&&◌, ◌||◌, Option, none, some, List, [], ◌∷◌, if◌then◌else◌, is_empty,
  any, ◌==◌,
}
use ai_finance_controller.Common.Text.{Text, codes, lower, strip, starts_with, is_blank, or_empty}
use ai_finance_controller.Common.Result.{Result, ok, err, ◌>>=◌}
use ai_finance_controller.Domain.Enums.{UserRole, analyst, reviewer, controller, admin}
use ai_finance_controller.Backend.Errors.{
  ApiError, missing_token, unknown_subject, account_inactive, insufficient_role,
}
use ai_finance_controller.Backend.Store.{User, Accounts, get_user}
use ai_finance_controller.Backend.Auth.{Crypto, AccessClaims, read_access_token}

abbrev pub role_index : UserRole → ℕ
role_index analyst = 0
role_index reviewer = 1
role_index controller = 2
role_index admin = 3

abbrev pub same_role : UserRole → UserRole → Bool
same_role a b = role_index a == role_index b

-- `authorization.split(" ", 1)[1]`, where a space is there.
abbrev pub after_space : Text → Text
after_space [] = []
after_space (c ∷ t) = if c == 32 then t else after_space t

unfoldable pub has_bearer : Option Text → Bool
unfolding lower starts_with
has_bearer header = not (is_blank header) && starts_with (lower (or_empty header)) (codes "bearer ")

abbrev pub active_user : Option User → Result ApiError User
active_user none = err unknown_subject
active_user (some u) = if u.is_active then ok u else err account_inactive

unfoldable pub current_user :
    Crypto → (now : ℕ) (authorization : Option Text) → Accounts → Result ApiError User
unfolding strip
current_user c now authorization s =
    if has_bearer authorization
    then (do
      claims ← read_access_token c now (strip (after_space (or_empty authorization)))
      active_user (get_user claims.user_id s))
    else err missing_token

-- The dependency that `require_role(*allowed)` returns.
unfoldable pub require_role : List UserRole → User → Result ApiError User
require_role allowed u = if any (same_role u.role) allowed then ok u else err insufficient_role

abbrev pub can_decide : List UserRole
can_decide = reviewer ∷ controller ∷ admin ∷ []

abbrev pub can_control : List UserRole
can_control = controller ∷ admin ∷ []

abbrev pub can_admin : List UserRole
can_admin = admin ∷ []
