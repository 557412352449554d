-- ===== src/Backend/Sessions/Reuse.antt =====
-- The refresh endpoint as a whole: when it succeeds, and what the return of a used token does.
use ai_finance_controller.Common.{
  ℕ, ◌≡◌, ◌↔◌, refl, true, false, Option, some, arith, is_some, if◌then◌else◌,
}
use ai_finance_controller.Common.Text.{Text, text_eq, is_blank, or_empty}
use ai_finance_controller.Common.Result.{err, is_ok}
use ai_finance_controller.Backend.Errors.{refresh_reused}
use ai_finance_controller.Backend.Store.{
  User, RefreshToken, is_live, Accounts, add_audit, get_user, find_refresh,
}
use ai_finance_controller.Backend.Auth.{Crypto, Settings}
use ai_finance_controller.Backend.Sessions.{
  Fresh, issue_in, Verdict, no_cookie, unknown, dead, unavailable, reused, rotates, verdict,
  end_family, rotate, act_on, refresh,
}
use ai_finance_controller.Backend.Sessions.Families.{open_count, open_count-revoke}
use ai_finance_controller.Backend.Sessions.Rotation.{Grounds, verdict-Grounds}

-- The cookie is that of a stored token which is live, of an account which is active.
abbrev pub IsRotatable : Crypto → (now : ℕ) (cookie : Option Text) → Accounts → Type 0
IsRotatable c now cookie s =
    (t : RefreshToken) × (u : User) × (find_refresh (c.digest (or_empty cookie)) s ≡ some t)
    × (is_live t now ≡ true)
    × (get_user t.user_id s ≡ some u)
    × (u.is_active ≡ true)
    × (is_blank cookie ≡ false)

module _ (c : Crypto) (settings : Settings) (now : ℕ) (fresh : Fresh) where
  act_on-ok :
      (cookie : Option Text) (v : Verdict c settings now fresh) (s : Accounts)
      → Grounds c settings now fresh cookie s v
      → is_ok (act_on c settings now fresh v s).result ≡ true
      → IsRotatable c now cookie s
  unfolding act_on
  act_on-ok cookie no_cookie s g h = cc
  act_on-ok cookie unknown s g h = cc
  act_on-ok cookie dead s g h = cc
  act_on-ok cookie unavailable s g h = cc
  act_on-ok cookie (reused t) s g h = cc
  act_on-ok cookie (rotates t u) s g h = (t, u, g.0, g.1, g.2, g.3, g.4)

  rotatable-refresh :
      (cookie : Option Text) (s : Accounts)
      → IsRotatable c now cookie s
      → is_ok (refresh c settings now fresh cookie s).result ≡ true
  unfolding refresh verdict act_on rotate issue_in is_live
  rotatable-refresh cookie s (t, u, f, l, g, a, b) = rw (b, f) (ground (arith, l, g, a))

  -- A refresh succeeds exactly where its cookie is that of a stored token which is live and whose
  -- account is stored and active.
  pub refresh-succeeds_iff :
      (cookie : Option Text) (s : Accounts)
      → (is_ok (refresh c settings now fresh cookie s).result ≡ true) ↔ IsRotatable c now cookie s
  unfolding refresh
  refresh-succeeds_iff cookie s = (
    act_on-ok cookie (verdict c settings now fresh cookie s) s
        (verdict-Grounds c settings now fresh cookie s),
    rotatable-refresh cookie s,
  )

  verdict-reused :
      (cookie : Option Text) (t : RefreshToken) (s : Accounts)
      → is_blank cookie ≡ false
      → find_refresh (c.digest (or_empty cookie)) s ≡ some t
      → is_some t.consumed_at ≡ true
      → verdict c settings now fresh cookie s ≡ reused t
  unfolding verdict
  verdict-reused cookie t s b f k = rw (b, f) (ground (arith, k))

  pub end_family-open_count :
      (g : Text) (t : RefreshToken) (s : Accounts)
      → open_count g (end_family c settings now fresh t s)
        ≡ (if text_eq t.family_id g then 0 else open_count g s)
  unfolding end_family add_audit open_count
  end_family-open_count g t s = open_count-revoke g t.family_id now s

  pub refresh-accounts_reused :
      (cookie : Option Text) (t : RefreshToken) (s : Accounts)
      → is_blank cookie ≡ false
      → find_refresh (c.digest (or_empty cookie)) s ≡ some t
      → is_some t.consumed_at ≡ true
      → (refresh c settings now fresh cookie s).accounts ≡ end_family c settings now fresh t s
  unfolding refresh act_on
  refresh-accounts_reused cookie t s b f k = rw (verdict-reused cookie t s b f k) refl

  -- A used refresh token that comes back is refused, and of every family it leaves as many usable
  -- tokens as before, but of its own none.
  pub refresh-ends_reused :
      (cookie : Option Text) (t : RefreshToken) (g : Text) (s : Accounts)
      → is_blank cookie ≡ false
      → find_refresh (c.digest (or_empty cookie)) s ≡ some t
      → is_some t.consumed_at ≡ true
      → ((refresh c settings now fresh cookie s).result ≡ err refresh_reused)
        × (open_count g (refresh c settings now fresh cookie s).accounts
            ≡ (if text_eq t.family_id g then 0 else open_count g s))
  unfolding refresh act_on
  refresh-ends_reused cookie t g s b f k =
      rw (verdict-reused cookie t s b f k) (refl, end_family-open_count g t s)
