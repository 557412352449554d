-- ===== src/Backend/Sessions/Rotation.antt =====
-- What `refresh` establishes before it acts, and what it does to the families.
use mathlib.Core.Path.{subst}
use ai_finance_controller.Common.{
  ℕ, ◌≤◌, ◌≡◌, refl, sym, true, false, Option, none, some, arith, is_some, ◌⊎◌, inl, inr, if_elim,
}
use ai_finance_controller.Common.Text.{Text, text_eq, text_eq_refl, is_blank, or_empty}
use ai_finance_controller.Common.Keys.{text_cases}
use ai_finance_controller.Backend.Store.{
  User, RefreshToken, is_live, Accounts, add_audit, get_user, find_refresh, new_token,
  store_refresh, consume_refresh,
}
use ai_finance_controller.Backend.Auth.{
  Crypto, Settings, refresh_expiry, new_refresh_token, mint_access_token,
}
use ai_finance_controller.Backend.Sessions.{
  Fresh, issue_in, Verdict, no_cookie, unknown, dead, unavailable, reused, rotates, verdict_of_user,
  verdict_of_token, verdict, end_family, rotate, act_on, refresh,
}
use ai_finance_controller.Backend.Sessions.Families.{
  is_open, open_count, is_in_use, is_in_use-store, is_in_use-consume, is_in_use-revoke,
  open_count-revoke_le, open_count-revoke_family, find_refresh-consume_none, open_count-store_le,
  open_count-store_other, open_count-consume_le, open_count-consume_drops, IsKeyed,
  store_refresh-IsKeyed, consume_refresh-IsKeyed, revoke_family-IsKeyed,
}

module _ (c : Crypto) (settings : Settings) (now : ℕ) (fresh : Fresh) where
  abbrev pub issued : (family_id : Text) → User → RefreshToken
  issued family_id u =
      new_token fresh.token_id u.user_id (c.digest fresh.plaintext) family_id
        (refresh_expiry settings now) now

  pub issue_in-accounts :
      (family_id : Text) (u : User) (s : Accounts)
      → (issue_in c settings now fresh family_id u s).accounts
        ≡ store_refresh (issued family_id u) s
  unfolding issue_in new_refresh_token mint_access_token
  issue_in-accounts family_id u s = refl

  -- What holds of the cookie and the store at each verdict.
  abbrev pub Grounds : (cookie : Option Text) → Accounts → Verdict c settings now fresh → Type 0
  Grounds cookie s (reused t) =
      (find_refresh (c.digest (or_empty cookie)) s ≡ some t)
      × (is_some t.consumed_at ≡ true)
      × (is_blank cookie ≡ false)
  Grounds cookie s (rotates t u) =
      (find_refresh (c.digest (or_empty cookie)) s ≡ some t)
      × (is_live t now ≡ true)
      × (get_user t.user_id s ≡ some u)
      × (u.is_active ≡ true)
      × (is_blank cookie ≡ false)
  Grounds cookie s _ = Unit

  verdict_of_user-Grounds :
      (cookie : Option Text) (s : Accounts) (t : RefreshToken) (o : Option User)
      → find_refresh (c.digest (or_empty cookie)) s ≡ some t
      → is_live t now ≡ true
      → get_user t.user_id s ≡ o
      → is_blank cookie ≡ false
      → Grounds cookie s (verdict_of_user c settings now fresh t o)
  verdict_of_user-Grounds cookie s t none f l g b = tt
  verdict_of_user-Grounds cookie s t (some u) f l g b =
      if_elim (Grounds cookie s) u.is_active (λ a. (f, l, g, a, b)) (λ a. tt)

  verdict_of_token-Grounds :
      (cookie : Option Text) (s : Accounts) (o : Option RefreshToken)
      → find_refresh (c.digest (or_empty cookie)) s ≡ o
      → is_blank cookie ≡ false
      → Grounds cookie s (verdict_of_token c settings now fresh o s)
  verdict_of_token-Grounds cookie s none f b = tt
  verdict_of_token-Grounds cookie s (some t) f b =
      if_elim (Grounds cookie s) (is_some t.consumed_at) (λ k. (f, k, b))
        (λ k.
          if_elim (Grounds cookie s) (is_live t now)
            (λ l. verdict_of_user-Grounds cookie s t (get_user t.user_id s) f l refl b) (λ l. tt))

  pub verdict-Grounds :
      (cookie : Option Text) (s : Accounts)
      → Grounds cookie s (verdict c settings now fresh cookie s)
  unfolding verdict
  verdict-Grounds cookie s =
      if_elim (Grounds cookie s) (is_blank cookie) (λ b. tt)
        (λ b.
          verdict_of_token-Grounds cookie s (find_refresh (c.digest (or_empty cookie)) s) refl b)

  -- A live token is open, whatever its family is called.
  pub is_live-is_open : (t : RefreshToken) → is_live t now ≡ true → is_open t.family_id t ≡ true
  unfolding is_live is_open
  is_live-is_open t l = ground (arith, l, text_eq_refl t.family_id)

  pub issued-family : (g : Text) (u : User) → (issued g u).family_id ≡ g
  unfolding new_token
  issued-family g u = refl

  -- Rotation uses one token up and stores one of the same family.
  rotated_le :
      (t : RefreshToken) (u : User) (s : Accounts) (f : Text)
      → find_refresh t.digest s ≡ some t
      → is_live t now ≡ true
      → (t.family_id ≡ f) ⊎ (text_eq t.family_id f ≡ false)
      → open_count f (store_refresh (issued t.family_id u) (consume_refresh t now s))
        ≤ open_count f s
  rotated_le t u s f h l (inl e) =
      subst
        (λ g.
          open_count g (store_refresh (issued t.family_id u) (consume_refresh t now s))
          ≤ open_count g s)
        e
        (omega (
          arith,
          open_count-store_le t.family_id (issued t.family_id u) (consume_refresh t now s),
          open_count-consume_drops t now s h (is_live-is_open t l),
        ))
  rotated_le t u s f h l (inr e) = omega (
    arith,
    open_count-store_other f (issued t.family_id u) (consume_refresh t now s)
        (rw (issued-family t.family_id u) e),
    open_count-consume_le f t now s,
  )

  pub rotate-open_count_le :
      (f : Text) (t : RefreshToken) (u : User) (s : Accounts)
      → find_refresh t.digest s ≡ some t
      → is_live t now ≡ true
      → open_count f (rotate c settings now fresh t u s).accounts ≤ open_count f s
  unfolding rotate
  rotate-open_count_le f t u s h l =
      rw (issue_in-accounts t.family_id u (consume_refresh t now s))
        (rotated_le t u s f h l (text_cases t.family_id f))

  -- The token that is found stands at its own digest.
  found_at_digest :
      (k : Text) (t : RefreshToken) (s : Accounts)
      → IsKeyed s
      → find_refresh k s ≡ some t
      → find_refresh t.digest s ≡ some t
  found_at_digest k t s h f = subst (λ j. find_refresh j s ≡ some t) (sym (h k t f)) f

  end_family-open_count_le :
      (f : Text) (t : RefreshToken) (s : Accounts)
      → open_count f (end_family c settings now fresh t s) ≤ open_count f s
  unfolding end_family add_audit open_count
  end_family-open_count_le f t s = open_count-revoke_le f t.family_id now s

  pub end_family-is_in_use :
      (f : Text) (t : RefreshToken) (s : Accounts)
      → is_in_use f (end_family c settings now fresh t s) ≡ is_in_use f s
  unfolding end_family add_audit is_in_use
  end_family-is_in_use f t s = is_in_use-revoke f t.family_id now s

  end_family-IsKeyed :
      (t : RefreshToken) (s : Accounts) → IsKeyed s → IsKeyed (end_family c settings now fresh t s)
  unfolding end_family add_audit find_refresh
  end_family-IsKeyed t s h = revoke_family-IsKeyed t.family_id now s h

  end_family-open_count :
      (t : RefreshToken) (s : Accounts)
      → open_count t.family_id (end_family c settings now fresh t s) ≡ 0
  unfolding end_family add_audit open_count
  end_family-open_count t s = open_count-revoke_family t.family_id now s

  act_on-open_count_le :
      (f : Text) (cookie : Option Text) (v : Verdict c settings now fresh) (s : Accounts)
      → IsKeyed s
      → Grounds cookie s v
      → open_count f (act_on c settings now fresh v s).accounts ≤ open_count f s
  unfolding act_on
  act_on-open_count_le f cookie no_cookie s h g = omega arith
  act_on-open_count_le f cookie unknown s h g = omega arith
  act_on-open_count_le f cookie dead s h g = omega arith
  act_on-open_count_le f cookie unavailable s h g = omega arith
  act_on-open_count_le f cookie (reused t) s h g = end_family-open_count_le f t s
  act_on-open_count_le f cookie (rotates t u) s h g =
      rotate-open_count_le f t u s (found_at_digest (c.digest (or_empty cookie)) t s h g.0) g.1

  pub refresh-open_count_le :
      (f : Text) (cookie : Option Text) (s : Accounts)
      → IsKeyed s
      → open_count f (refresh c settings now fresh cookie s).accounts ≤ open_count f s
  unfolding refresh
  refresh-open_count_le f cookie s h =
      act_on-open_count_le f cookie (verdict c settings now fresh cookie s) s h
        (verdict-Grounds cookie s)

  act_on-is_in_use :
      (f : Text) (v : Verdict c settings now fresh) (s : Accounts)
      → find_refresh (c.digest fresh.plaintext) s ≡ none
      → is_in_use f s ≡ true
      → is_in_use f (act_on c settings now fresh v s).accounts ≡ true
  unfolding act_on rotate new_token
  act_on-is_in_use f no_cookie s n i = i
  act_on-is_in_use f unknown s n i = i
  act_on-is_in_use f dead s n i = i
  act_on-is_in_use f unavailable s n i = i
  act_on-is_in_use f (reused t) s n i = rw (end_family-is_in_use f t s) i
  act_on-is_in_use f (rotates t u) s n i =
      rw
        (
          issue_in-accounts t.family_id u (consume_refresh t now s),
          is_in_use-store f (issued t.family_id u) (consume_refresh t now s)
              (find_refresh-consume_none (c.digest fresh.plaintext) t now s n),
          is_in_use-consume f t now s,
          i,
        )
        refl

  pub refresh-is_in_use :
      (f : Text) (cookie : Option Text) (s : Accounts)
      → find_refresh (c.digest fresh.plaintext) s ≡ none
      → is_in_use f s ≡ true
      → is_in_use f (refresh c settings now fresh cookie s).accounts ≡ true
  unfolding refresh
  refresh-is_in_use f cookie s n i =
      act_on-is_in_use f (verdict c settings now fresh cookie s) s n i

  act_on-IsKeyed :
      (v : Verdict c settings now fresh) (s : Accounts)
      → IsKeyed s
      → IsKeyed (act_on c settings now fresh v s).accounts
  unfolding act_on rotate
  act_on-IsKeyed no_cookie s h = h
  act_on-IsKeyed unknown s h = h
  act_on-IsKeyed dead s h = h
  act_on-IsKeyed unavailable s h = h
  act_on-IsKeyed (reused t) s h = end_family-IsKeyed t s h
  act_on-IsKeyed (rotates t u) s h =
      rw (issue_in-accounts t.family_id u (consume_refresh t now s)) (
        store_refresh-IsKeyed (issued t.family_id u) (consume_refresh t now s)
          (consume_refresh-IsKeyed t now s h))

  pub refresh-IsKeyed :
      (cookie : Option Text) (s : Accounts)
      → IsKeyed s
      → IsKeyed (refresh c settings now fresh cookie s).accounts
  unfolding refresh
  refresh-IsKeyed cookie s h = act_on-IsKeyed (verdict c settings now fresh cookie s) s h
