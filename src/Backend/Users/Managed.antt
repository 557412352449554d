-- ===== src/Backend/Users/Managed.antt =====
-- That an active admin remains, whatever the handlers do to the users.
use mathlib.Core.Option
use ai_finance_controller.Common.{
  ℕ, ◌≡◌, refl, inl, inr, Bool, true, false, ◌&&◌, none, some, arith, any, if◌then◌else◌,
  Option-cases,
}
use ai_finance_controller.Common.Text.{Text, text_eq}
use ai_finance_controller.Common.Keys.{text_key}
use ai_finance_controller.Common.Dict.{lookup, lookup-insert}
use ai_finance_controller.Domain.Enums.{UserRole, admin}
use ai_finance_controller.Backend.Store.{
  User, Accounts, create_user, get_user, update_user_role, set_user_active, set_hashed_password,
  set_last_login,
}
use ai_finance_controller.Backend.Store.Dicts.{
  values, adjust, lookup-adjust, any-lookup, any-insert, any-adjust, any-adjust_keeps,
}
use ai_finance_controller.Backend.Access.{same_role}

-- Every user stands at its id.
abbrev pub IsIndexed : Accounts → Type 0
IsIndexed s = (k : Text) (u : User) → get_user k s ≡ some u → u.user_id ≡ k

unfoldable pub is_active_admin : User → Bool
is_active_admin u = u.is_active && same_role u.role admin

unfoldable pub has_admin : Accounts → Bool
has_admin s = any is_active_admin (values s.users)

abbrev pub SameUsers : (s r : Accounts) → Type 0
SameUsers s r = r.users ≡ s.users

pub IsIndexed-SameUsers : (s r : Accounts) → SameUsers s r → IsIndexed s → IsIndexed r
unfolding get_user
IsIndexed-SameUsers s r e h k u f = h k u (rw e at f)

pub has_admin-SameUsers : (s r : Accounts) → SameUsers s r → has_admin r ≡ has_admin s
unfolding has_admin
has_admin-SameUsers s r e = rw e refl

pub create_user-IsIndexed : (u : User) (s : Accounts) → IsIndexed s → IsIndexed (create_user u s)
unfolding create_user get_user
create_user-IsIndexed u s h k v e =
    let there : (if text_eq u.user_id k then some u else lookup k s.users) ≡ some v =
      rw (lookup-insert u.user_id k u s.users) at e in
    ground (arith, there, h k v, text_key.beq_iff u.user_id k)

pub create_user-has_admin :
    (u : User) (s : Accounts)
    → get_user u.user_id s ≡ none
    → has_admin s ≡ true
    → has_admin (create_user u s) ≡ true
unfolding create_user get_user has_admin
create_user-has_admin u s n h = rw (any-insert is_active_admin u.user_id u s.users n, h) refl

-- A user who is changed in place keeps the id.
adjust-IsIndexed :
    (i : Text) (f : User → User) (s : Accounts)
    → ((u : User) → (f u).user_id ≡ u.user_id)
    → IsIndexed s
    → (k : Text) (v : User) → lookup k (adjust i f s.users) ≡ some v
    → v.user_id ≡ k
unfolding get_user
adjust-IsIndexed i f s keep h k v e =
    let there : (if text_eq i k then Option.map f (lookup k s.users) else lookup k s.users)
        ≡ some v =
      rw (lookup-adjust i k f s.users) at e in
    elim (Option-cases (lookup k s.users)) [
      | inl n ↦ ground (arith, there, n)
      | inr (w, g) ↦ ground (arith, there, g, h k w g, keep w)
    ]

pub update_user_role-IsIndexed :
    (i : Text) (role : UserRole) (s : Accounts)
    → IsIndexed s
    → IsIndexed (update_user_role i role s)
unfolding update_user_role get_user
update_user_role-IsIndexed i role s h = adjust-IsIndexed i _ s (λ u. refl) h

pub set_user_active-IsIndexed :
    (i : Text) (active : Bool) (s : Accounts) → IsIndexed s → IsIndexed (set_user_active i active s)
unfolding set_user_active get_user
set_user_active-IsIndexed i active s h = adjust-IsIndexed i _ s (λ u. refl) h

pub set_hashed_password-IsIndexed :
    (i hashed : Text) (s : Accounts) → IsIndexed s → IsIndexed (set_hashed_password i hashed s)
unfolding set_hashed_password get_user
set_hashed_password-IsIndexed i hashed s h = adjust-IsIndexed i _ s (λ u. refl) h

pub set_last_login-IsIndexed :
    (i : Text) (now : ℕ) (s : Accounts) → IsIndexed s → IsIndexed (set_last_login i now s)
unfolding set_last_login get_user
set_last_login-IsIndexed i now s h = adjust-IsIndexed i _ s (λ u. refl) h

pub set_hashed_password-has_admin :
    (i hashed : Text) (s : Accounts) → has_admin (set_hashed_password i hashed s) ≡ has_admin s
unfolding set_hashed_password has_admin is_active_admin
set_hashed_password-has_admin i hashed s = any-adjust is_active_admin i _ s.users (λ u. refl)

pub set_last_login-has_admin :
    (i : Text) (now : ℕ) (s : Accounts) → has_admin (set_last_login i now s) ≡ has_admin s
unfolding set_last_login has_admin is_active_admin
set_last_login-has_admin i now s = any-adjust is_active_admin i _ s.users (λ u. refl)

-- A change of one user leaves every other active admin.
adjust_has_admin :
    (i k : Text) (f : User → User) (actor : User) (s : Accounts)
    → text_eq i k ≡ false
    → get_user k s ≡ some actor
    → is_active_admin actor ≡ true
    → any is_active_admin (values (adjust i f s.users)) ≡ true
unfolding get_user
adjust_has_admin i k f actor s d g a =
    any-lookup is_active_admin k actor (adjust i f s.users) (rw (lookup-adjust i k f s.users, d) g)
      a

pub update_user_role-has_admin :
    (i k : Text) (role : UserRole) (actor : User) (s : Accounts)
    → text_eq i k ≡ false
    → get_user k s ≡ some actor
    → is_active_admin actor ≡ true
    → has_admin (update_user_role i role s) ≡ true
unfolding update_user_role has_admin
update_user_role-has_admin i k role actor s d g a = adjust_has_admin i k _ actor s d g a

pub set_user_active-has_admin :
    (i k : Text) (active : Bool) (actor : User) (s : Accounts)
    → text_eq i k ≡ false
    → get_user k s ≡ some actor
    → is_active_admin actor ≡ true
    → has_admin (set_user_active i active s) ≡ true
unfolding set_user_active has_admin
set_user_active-has_admin i k active actor s d g a = adjust_has_admin i k _ actor s d g a

pub promoted-has_admin :
    (i : Text) (s : Accounts) → has_admin s ≡ true → has_admin (update_user_role i admin s) ≡ true
unfolding update_user_role has_admin is_active_admin
promoted-has_admin i s h = any-adjust_keeps is_active_admin i _ s.users (λ u. ground arith) h
