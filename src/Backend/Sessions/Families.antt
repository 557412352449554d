-- ===== src/Backend/Sessions/Families.antt =====
-- Families of refresh tokens: how many tokens of one can still be used, and what each write of the
-- store does to that number.
use mathlib.Core.Option
use ai_finance_controller.Common.{
  ℕ, suc, ◌≤◌, ◌≡◌, refl, Bool, true, false, not, ◌&&◌, ◌||◌, none, some, arith, any, is_some,
  if◌then◌else◌, inl, inr, Option-cases, if_elim,
}
use ai_finance_controller.Common.Text.{Text, text_eq, text_eq_refl}
use ai_finance_controller.Common.Dict.{lookup, lookup-insert}
use ai_finance_controller.Common.Keys.{text_key, text_cases}
use ai_finance_controller.Backend.Store.{
  RefreshToken, Accounts, find_refresh, store_refresh, consume_refresh, is_revocable, revoke_token,
  revoke_family,
}
use ai_finance_controller.Backend.Store.Dicts.{
  values, count, count-any, count-lookup, any-lookup, any-insert, any-adjust, any-map_values,
  count-insert_le, count-insert_fails, count-adjust_le, count-map_values_le, count-map_values,
  count-map_values_none, count-adjust_drops, lookup-adjust, lookup-map_values,
}

-- A token that is neither used nor revoked; its time is left aside.
unfoldable pub is_open : (family_id : Text) → RefreshToken → Bool
is_open family_id t =
    text_eq t.family_id family_id && not (is_some t.consumed_at) && not (is_some t.revoked_at)

unfoldable pub open_count : (family_id : Text) → Accounts → ℕ
open_count family_id s = count (is_open family_id) (values s.refresh_tokens)

unfoldable pub is_in_use : (family_id : Text) → Accounts → Bool
is_in_use family_id s = any (λ t. text_eq t.family_id family_id) (values s.refresh_tokens)

pub open_count-unused : (f : Text) (s : Accounts) → is_in_use f s ≡ false → open_count f s ≡ 0
unfolding is_open open_count is_in_use
open_count-unused f s h =
    count-any (is_open f) (values s.refresh_tokens) (λ t. text_eq t.family_id f) (λ t. ground arith)
      h

-- A token that is stored counts, if it is of the family.
pub open_count-store_le :
    (f : Text) (t : RefreshToken) (s : Accounts)
    → open_count f (store_refresh t s) ≤ suc (open_count f s)
unfolding open_count store_refresh
open_count-store_le f t s = count-insert_le (is_open f) t.digest t s.refresh_tokens

pub open_count-store_other :
    (f : Text) (t : RefreshToken) (s : Accounts)
    → text_eq t.family_id f ≡ false
    → open_count f (store_refresh t s) ≤ open_count f s
unfolding open_count store_refresh is_open
open_count-store_other f t s h =
    count-insert_fails (is_open f) t.digest t s.refresh_tokens (ground (arith, h))

pub is_in_use-store :
    (f : Text) (t : RefreshToken) (s : Accounts)
    → find_refresh t.digest s ≡ none
    → is_in_use f (store_refresh t s) ≡ (is_in_use f s || text_eq t.family_id f)
unfolding is_in_use store_refresh find_refresh
is_in_use-store f t s h = any-insert (λ u. text_eq u.family_id f) t.digest t s.refresh_tokens h

pub open_count-consume_le :
    (f : Text) (t : RefreshToken) (now : ℕ) (s : Accounts)
    → open_count f (consume_refresh t now s) ≤ open_count f s
unfolding open_count consume_refresh is_open
open_count-consume_le f t now s =
    count-adjust_le (is_open f) t.digest _ s.refresh_tokens (λ u. ground arith)

pub open_count-consume_drops :
    (t : RefreshToken) (now : ℕ) (s : Accounts)
    → find_refresh t.digest s ≡ some t
    → is_open t.family_id t ≡ true
    → suc (open_count t.family_id (consume_refresh t now s)) ≡ open_count t.family_id s
unfolding open_count consume_refresh find_refresh is_open
open_count-consume_drops t now s h o =
    count-adjust_drops (is_open t.family_id) t.digest t _ s.refresh_tokens h o (ground arith)

pub is_in_use-consume :
    (f : Text) (t : RefreshToken) (now : ℕ) (s : Accounts)
    → is_in_use f (consume_refresh t now s) ≡ is_in_use f s
unfolding is_in_use consume_refresh
is_in_use-consume f t now s =
    any-adjust (λ u. text_eq u.family_id f) t.digest _ s.refresh_tokens (λ u. refl)

pub open_count-revoke_le :
    (f g : Text) (now : ℕ) (s : Accounts) → open_count f (revoke_family g now s) ≤ open_count f s
unfolding open_count revoke_family revoke_token is_revocable is_open
open_count-revoke_le f g now s =
    count-map_values_le (is_open f) (revoke_token g now) s.refresh_tokens (λ u. ground arith)

pub open_count-revoke_family :
    (f : Text) (now : ℕ) (s : Accounts) → open_count f (revoke_family f now s) ≡ 0
unfolding open_count revoke_family revoke_token is_revocable is_open
open_count-revoke_family f now s =
    count-map_values_none (is_open f) (revoke_token f now) s.refresh_tokens (λ u. ground arith)

revoke_token-is_open :
    (f g : Text) (now : ℕ) (t : RefreshToken)
    → text_eq g f ≡ false
    → is_open f (revoke_token g now t) ≡ is_open f t
unfolding revoke_token is_revocable is_open
revoke_token-is_open f g now t h = elim (text_cases t.family_id g) [
  | inl e ↦ rw e (ground (arith, h))
  | inr e ↦ rw e (ground arith)
]

-- Revoking a family leaves none of it open, and the others as they are.
pub open_count-revoke :
    (f g : Text) (now : ℕ) (s : Accounts)
    → open_count f (revoke_family g now s) ≡ (if text_eq g f then 0 else open_count f s)
unfolding open_count revoke_family
open_count-revoke f g now s = elim (text_cases g f) [
  | inl e ↦ rw (e, text_eq_refl f) (open_count-revoke_family f now s)
  | inr e ↦ rw e (
      count-map_values (is_open f) (revoke_token g now) s.refresh_tokens
        (λ t. revoke_token-is_open f g now t e))
]

pub is_in_use-revoke :
    (f g : Text) (now : ℕ) (s : Accounts) → is_in_use f (revoke_family g now s) ≡ is_in_use f s
unfolding is_in_use revoke_family revoke_token
is_in_use-revoke f g now s =
    any-map_values (λ u. text_eq u.family_id f) (revoke_token g now) s.refresh_tokens
      (λ u. ground arith)

-- Every token stands at its digest.
abbrev pub IsKeyed : Accounts → Type 0
IsKeyed s = (k : Text) (t : RefreshToken) → find_refresh k s ≡ some t → t.digest ≡ k

pub store_refresh-IsKeyed :
    (t : RefreshToken) (s : Accounts) → IsKeyed s → IsKeyed (store_refresh t s)
unfolding store_refresh find_refresh
store_refresh-IsKeyed t s h k u e =
    let there : (if text_eq t.digest k then some t else lookup k s.refresh_tokens) ≡ some u =
      rw (lookup-insert t.digest k t s.refresh_tokens) at e in
    ground (arith, there, h k u, text_key.beq_iff t.digest k)

pub consume_refresh-IsKeyed :
    (t : RefreshToken) (now : ℕ) (s : Accounts) → IsKeyed s → IsKeyed (consume_refresh t now s)
unfolding consume_refresh find_refresh
consume_refresh-IsKeyed t now s h k u e =
    let f : RefreshToken → RefreshToken = λ v. record v { consumed_at = some now } in
    let there : (if text_eq t.digest k
          then Option.map f (lookup k s.refresh_tokens)
          else lookup k s.refresh_tokens)
        ≡ some u =
      rw (lookup-adjust t.digest k f s.refresh_tokens) at e in
    elim (Option-cases (lookup k s.refresh_tokens)) [
      | inl n ↦ ground (arith, there, n)
      | inr (v, g) ↦ ground (arith, there, g, h k v g)
    ]

pub revoke_family-IsKeyed :
    (f : Text) (now : ℕ) (s : Accounts) → IsKeyed s → IsKeyed (revoke_family f now s)
unfolding revoke_family find_refresh revoke_token
revoke_family-IsKeyed f now s h k u e =
    let there : Option.map (revoke_token f now) (lookup k s.refresh_tokens) ≡ some u =
      rw (lookup-map_values k (revoke_token f now) s.refresh_tokens) at e in
    elim (Option-cases (lookup k s.refresh_tokens)) [
      | inl n ↦ ground (arith, there, n)
      | inr (v, g) ↦ ground (arith, there, g, h k v g)
    ]

pub find_refresh-consume_none :
    (k : Text) (t : RefreshToken) (now : ℕ) (s : Accounts)
    → find_refresh k s ≡ none
    → find_refresh k (consume_refresh t now s) ≡ none
unfolding consume_refresh find_refresh
find_refresh-consume_none k t now s h =
    rw (lookup-adjust t.digest k (λ u. record u { consumed_at = some now }) s.refresh_tokens, h)
      (if_elim (λ o. o ≡ none) (text_eq t.digest k) (λ _. refl) (λ _. refl))

pub open_count-found :
    (k : Text) (t : RefreshToken) (s : Accounts)
    → find_refresh k s ≡ some t
    → is_open t.family_id t ≡ true
    → 1 ≤ open_count t.family_id s
unfolding find_refresh open_count
open_count-found k t s h o = count-lookup (is_open t.family_id) k t s.refresh_tokens h o

pub is_in_use-found :
    (k : Text) (t : RefreshToken) (s : Accounts)
    → find_refresh k s ≡ some t
    → is_in_use t.family_id s ≡ true
unfolding find_refresh is_in_use
is_in_use-found k t s h =
    any-lookup (λ u. text_eq u.family_id t.family_id) k t s.refresh_tokens h
      (text_eq_refl t.family_id)
