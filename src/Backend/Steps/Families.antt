-- ===== src/Backend/Steps/Families.antt =====
-- Refresh token families along any sequence of steps.
use mathlib.Core.Path.{subst}
use ai_finance_controller.Common.{ℕ, ◌≤◌, ◌≡◌, refl, sym, inl, inr, Option, arith}
use ai_finance_controller.Common.Text.{Text}
use ai_finance_controller.Common.Keys.{text_cases}
use ai_finance_controller.Common.Dict.{lookup}
use ai_finance_controller.Backend.Store.{
  User, Accounts, no_accounts, store_refresh, find_refresh, revoke_family,
}
use ai_finance_controller.Backend.Auth.{Crypto, Settings}
use ai_finance_controller.Backend.Sessions.{Fresh, refresh}
use ai_finance_controller.Backend.Sessions.Families.{
  IsKeyed, open_count, is_in_use, open_count-unused, open_count-store_le, open_count-store_other,
  store_refresh-IsKeyed, open_count-revoke_le, revoke_family-IsKeyed,
}
use ai_finance_controller.Backend.Sessions.Rotation.{
  issued, issued-family, refresh-open_count_le, refresh-IsKeyed,
}
use ai_finance_controller.Backend.Steps.{
  IsFresh, Step, registers, logs_in, refreshes, logs_out, creates, sets_role, deactivates, seeds,
  bootstraps, Reach, here, after,
}
use ai_finance_controller.Backend.Steps.Tokens.{
  SameTokens, Starts, register-Starts, login-Starts, Ends, logout-Ends, as_admin-SameTokens,
  create_user_as_admin-SameTokens, set_user_role-SameTokens, deactivate_user-SameTokens,
  seed_one-SameTokens, bootstrap_admin-SameTokens,
}

-- What the invariants read of a store.
pub open_count-SameTokens :
    (f : Text) (s r : Accounts) → SameTokens s r → open_count f r ≡ open_count f s
unfolding open_count
open_count-SameTokens f s r e = rw e refl

pub is_in_use-SameTokens :
    (f : Text) (s r : Accounts) → SameTokens s r → is_in_use f r ≡ is_in_use f s
unfolding is_in_use
is_in_use-SameTokens f s r e = rw e refl

IsKeyed-SameTokens : (s r : Accounts) → SameTokens s r → IsKeyed s → IsKeyed r
unfolding find_refresh
IsKeyed-SameTokens s r e h k t f = h k t (rw e at f)

pub no_accounts-IsKeyed : IsKeyed no_accounts
unfolding find_refresh lookup
no_accounts-IsKeyed k t e = cc

no_accounts-open_count : (f : Text) → open_count f no_accounts ≤ 1
unfolding open_count
no_accounts-open_count f = omega arith

module _ (c : Crypto) (settings : Settings) where
  -- The four ways in which a step acts on the tokens.
  pub data Effect (s r : Accounts) : Type 0 where
    keeps : SameTokens s r → Effect s r
    starts :
        (now : ℕ) (fresh : Fresh) (u : User)
        → IsFresh c fresh s
        → SameTokens (store_refresh (issued c settings now fresh fresh.family_id u) s) r
        → Effect s r
    ends : (now : ℕ) (f : Text) → SameTokens (revoke_family f now s) r → Effect s r
    rotates :
        (now : ℕ) (fresh : Fresh) (cookie : Option Text)
        → IsFresh c fresh s
        → r ≡ (refresh c settings now fresh cookie s).accounts
        → Effect s r

  Starts-Effect :
      (now : ℕ) (fresh : Fresh) (s r : Accounts)
      → IsFresh c fresh s
      → Starts c settings now fresh s r
      → Effect s r
  Starts-Effect now fresh s r n (inl e) = keeps e
  Starts-Effect now fresh s r n (inr (u, e)) = starts now fresh u n e

  Ends-Effect : (now : ℕ) (s r : Accounts) → Ends now s r → Effect s r
  Ends-Effect now s r (inl e) = keeps e
  Ends-Effect now s r (inr (f, e)) = ends now f e

  pub Step-Effect : (s r : Accounts) → Step c settings s r → Effect s r
  Step-Effect s r (registers now fresh email password full_name n e) = subst (Effect s) (sym e) (
      Starts-Effect now fresh s _ n
        (register-Starts c settings now fresh email password full_name s))
  Step-Effect s r (logs_in now fresh email password n e) =
      subst (Effect s) (sym e)
        (Starts-Effect now fresh s _ n (login-Starts c settings now fresh email password s))
  Step-Effect s r (refreshes now fresh cookie n e) = rotates now fresh cookie n e
  Step-Effect s r (logs_out now cookie e) =
      subst (Effect s) (sym e) (Ends-Effect now s _ (logout-Ends c now cookie s))
  Step-Effect s r (creates now fresh email password full_name role authorization n e) =
      subst (Effect s) (sym e) (
        keeps (
          as_admin-SameTokens c now _ authorization s
            (λ u. create_user_as_admin-SameTokens c now fresh email password full_name role u s)))
  Step-Effect s r (sets_role now fresh user_id role authorization e) = subst (Effect s) (sym e) (
      keeps (
        as_admin-SameTokens c now _ authorization s
          (λ u. set_user_role-SameTokens now fresh user_id role u s)))
  Step-Effect s r (deactivates now fresh user_id authorization e) = subst (Effect s) (sym e) (
      keeps (
        as_admin-SameTokens c now _ authorization s
          (λ u. deactivate_user-SameTokens now fresh user_id u s)))
  Step-Effect s r (seeds now draw d n e) =
      subst (Effect s) (sym e) (keeps (seed_one-SameTokens settings now c draw d s))
  Step-Effect s r (bootstraps now event_id e) =
      subst (Effect s) (sym e) (keeps (bootstrap_admin-SameTokens settings now event_id s))

  starts-open_count :
      (f : Text) (now : ℕ) (fresh : Fresh) (u : User) (s : Accounts)
      → IsFresh c fresh s
      → open_count f s ≤ 1
      → open_count f (store_refresh (issued c settings now fresh fresh.family_id u) s) ≤ 1
  starts-open_count f now fresh u s n h = elim (text_cases fresh.family_id f) [
    | inl e ↦
        let none_open : open_count f s ≡ 0 = open_count-unused f s (rw⁻¹ e n.new_family) in
        omega (
          arith,
          none_open,
          open_count-store_le f (issued c settings now fresh fresh.family_id u) s,
        )
    | inr e ↦ omega (
      arith,
      h,
      open_count-store_other f (issued c settings now fresh fresh.family_id u) s
          (rw (issued-family c settings now fresh fresh.family_id u) e),
    )
  ]

  Effect-IsKeyed : (s r : Accounts) → Effect s r → IsKeyed s → IsKeyed r
  Effect-IsKeyed s r (keeps e) h = IsKeyed-SameTokens s r e h
  Effect-IsKeyed s r (starts now fresh u n e) h =
      IsKeyed-SameTokens _ r e
        (store_refresh-IsKeyed (issued c settings now fresh fresh.family_id u) s h)
  Effect-IsKeyed s r (ends now f e) h = IsKeyed-SameTokens _ r e (revoke_family-IsKeyed f now s h)
  Effect-IsKeyed s r (rotates now fresh cookie n e) h =
      subst IsKeyed (sym e) (refresh-IsKeyed c settings now fresh cookie s h)

  Effect-open_count :
      (f : Text) (s r : Accounts) → Effect s r → IsKeyed s → open_count f s ≤ 1 → open_count f r ≤ 1
  Effect-open_count f s r (keeps e) k h = rw (open_count-SameTokens f s r e) h
  Effect-open_count f s r (starts now fresh u n e) k h =
      rw
        (open_count-SameTokens f (store_refresh (issued c settings now fresh fresh.family_id u) s) r
          e)
        (starts-open_count f now fresh u s n h)
  Effect-open_count f s r (ends now g e) k h =
      rw (open_count-SameTokens f (revoke_family g now s) r e)
        (omega (arith, h, open_count-revoke_le f g now s))
  Effect-open_count f s r (rotates now fresh cookie n e) k h =
      rw e (omega (arith, h, refresh-open_count_le c settings now fresh f cookie s k))

  -- The tokens of a reachable store stand at their digests.
  pub Reach-IsKeyed : (s r : Accounts) → Reach c settings s r → IsKeyed s → IsKeyed r
  Reach-IsKeyed s _ here h = h
  Reach-IsKeyed s _ (after m r w t) h =
      Effect-IsKeyed m r (Step-Effect m r t) (Reach-IsKeyed s m w h)

  Reach-open_count :
      (f : Text) (s r : Accounts)
      → Reach c settings s r
      → IsKeyed s
      → open_count f s ≤ 1
      → open_count f r ≤ 1
  Reach-open_count f s _ here k h = h
  Reach-open_count f s _ (after m r w t) k h =
      Effect-open_count f m r (Step-Effect m r t) (Reach-IsKeyed s m w k)
        (Reach-open_count f s m w k h)

  -- Whatever registrations, logins, refreshes, logouts and changes of users have happened since the
  -- store was empty, with nothing drawn twice, a family has at most one refresh token that is
  -- neither used nor revoked.
  pub Reach-has_one_open :
      (f : Text) (s : Accounts) → Reach c settings no_accounts s → open_count f s ≤ 1
  Reach-has_one_open f s w =
      Reach-open_count f no_accounts s w no_accounts-IsKeyed (no_accounts-open_count f)
