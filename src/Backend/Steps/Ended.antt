-- ===== src/Backend/Steps/Ended.antt =====
-- A family that has ended stays ended.
use mathlib.Core.Path.{subst, ◌∙◌}
use mathlib.Core.Option.{some-injective}
use ai_finance_controller.Common.{
  ℕ, ◌≡◌, refl, sym, inl, inr, true, false, Option, none, some, arith, is_some, Bool-cases,
}
use ai_finance_controller.Common.Text.{Text, text_eq, text_eq_refl, is_blank, or_empty}
use ai_finance_controller.Common.Keys.{text_cases}
use ai_finance_controller.Common.Result.{is_ok}
use ai_finance_controller.Backend.Store.{
  User, RefreshToken, Accounts, store_refresh, no_accounts, new_token, find_refresh, revoke_family,
}
use ai_finance_controller.Backend.Auth.{Crypto, Settings}
use ai_finance_controller.Backend.Sessions.{Fresh, end_family, refresh}
use ai_finance_controller.Backend.Sessions.Families.{
  IsKeyed, is_open, open_count, is_in_use, open_count-found, is_in_use-found,
  open_count-store_other, is_in_use-store, open_count-revoke_le, is_in_use-revoke,
}
use ai_finance_controller.Backend.Sessions.Rotation.{
  issued, issued-family, is_live-is_open, end_family-is_in_use, refresh-open_count_le,
  refresh-is_in_use, refresh-IsKeyed,
}
use ai_finance_controller.Backend.Sessions.Reuse.{
  refresh-accounts_reused, end_family-open_count, refresh-succeeds_iff,
}
use ai_finance_controller.Backend.Steps.{IsFresh, Reach, here, after}
use ai_finance_controller.Backend.Steps.Tokens.{SameTokens}
use ai_finance_controller.Backend.Steps.Families.{
  open_count-SameTokens, is_in_use-SameTokens, Effect, keeps, starts, ends, rotates, Step-Effect,
  Reach-IsKeyed, no_accounts-IsKeyed,
}

-- A family that has tokens, none of which can be used.
abbrev pub IsDead : (f : Text) → Accounts → Type 0
IsDead f s = (is_in_use f s ≡ true) × (open_count f s ≡ 0)

-- A family that a new one is not.
other_family :
    (f g : Text) (s : Accounts) → is_in_use f s ≡ true → is_in_use g s ≡ false → text_eq g f ≡ false
other_family f g s h n = elim (text_cases g f) [
  | inl e ↦ let m : is_in_use f s ≡ false = rw⁻¹ e n in absurd (cc)
  | inr e ↦ e
]

IsDead-SameTokens : (f : Text) (s r : Accounts) → SameTokens s r → IsDead f s → IsDead f r
IsDead-SameTokens f s r e (i, o) =
    (rw (is_in_use-SameTokens f s r e) i, rw (open_count-SameTokens f s r e) o)

module _ (c : Crypto) (settings : Settings) where
  issued-new :
      (now : ℕ) (fresh : Fresh) (u : User) (s : Accounts)
      → IsFresh c fresh s
      → find_refresh (issued c settings now fresh fresh.family_id u).digest s ≡ none
  unfolding new_token
  issued-new now fresh u s n = n.new_digest

  issued-IsDead :
      (f : Text) (now : ℕ) (fresh : Fresh) (u : User) (s : Accounts)
      → IsFresh c fresh s
      → IsDead f s
      → IsDead f (store_refresh (issued c settings now fresh fresh.family_id u) s)
  issued-IsDead f now fresh u s n (i, o) =
      let t = issued c settings now fresh fresh.family_id u in
      let apart = other_family f fresh.family_id s i n.new_family in
      (
        rw (is_in_use-store f t s (issued-new now fresh u s n), i) refl,
        omega (
          arith,
          o,
          open_count-store_other f t s
              (rw (issued-family c settings now fresh fresh.family_id u) apart),
        ),
      )

  Effect-IsDead :
      (f : Text) (s r : Accounts) → Effect c settings s r → IsKeyed s → IsDead f s → IsDead f r
  Effect-IsDead f s r (keeps e) k h = IsDead-SameTokens f s r e h
  Effect-IsDead f s r (starts now fresh u n e) k h =
      IsDead-SameTokens f _ r e (issued-IsDead f now fresh u s n h)
  Effect-IsDead f s r (ends now g e) k (i, o) =
      IsDead-SameTokens f (revoke_family g now s) r e
        (rw (is_in_use-revoke f g now s) i, omega (arith, o, open_count-revoke_le f g now s))
  Effect-IsDead f s r (rotates now fresh cookie n e) k (i, o) = subst (IsDead f) (sym e) (
    refresh-is_in_use c settings now fresh f cookie s n.new_digest i,
    omega (arith, o, refresh-open_count_le c settings now fresh f cookie s k),
  )

  Reach-IsDead :
      (f : Text) (s r : Accounts) → Reach c settings s r → IsKeyed s → IsDead f s → IsDead f r
  Reach-IsDead f s _ here k h = h
  Reach-IsDead f s _ (after m r w t) k h =
      Effect-IsDead f m r (Step-Effect c settings m r t) (Reach-IsKeyed c settings s m w k)
        (Reach-IsDead f s m w k h)

  -- No token of a dead family can be refreshed.
  refresh-IsDead :
      (now : ℕ) (fresh : Fresh) (cookie : Option Text) (t : RefreshToken) (s : Accounts)
      → find_refresh (c.digest (or_empty cookie)) s ≡ some t
      → IsDead t.family_id s
      → is_ok (refresh c settings now fresh cookie s).result ≡ false
  refresh-IsDead now fresh cookie t s h (i, o) =
      elim (Bool-cases (is_ok (refresh c settings now fresh cookie s).result)) [
        | inl e ↦
            let (v, u, f, l, _, _, _) = (refresh-succeeds_iff c settings now fresh cookie s).0 e in
            let same : t ≡ v = some-injective _ _ (sym h ∙ f) in
            let open_t : is_open t.family_id t ≡ true =
              is_live-is_open c settings now fresh t (rw same l) in
            absurd (omega (arith, o, open_count-found (c.digest (or_empty cookie)) t s h open_t))
        | inr e ↦ e
      ]

  end_family-IsDead :
      (now : ℕ) (fresh : Fresh) (k : Text) (t : RefreshToken) (s : Accounts)
      → find_refresh k s ≡ some t
      → IsDead t.family_id (end_family c settings now fresh t s)
  end_family-IsDead now fresh k t s h = (
    rw (end_family-is_in_use c settings now fresh t.family_id t s) (is_in_use-found k t s h),
    rw (end_family-open_count c settings now fresh t.family_id t s, text_eq_refl t.family_id) refl,
  )

  -- In a store reached from the empty one, a refresh token that was used is presented again.
  -- From then on, whatever steps follow, no refresh with a token of its family succeeds.
  pub refresh-ends_session :
      (s r : Accounts) (now later : ℕ) (fresh draws : Fresh) (cookie other : Option Text)
      (t u : RefreshToken)
      → Reach c settings no_accounts s
      → is_blank cookie ≡ false
      → find_refresh (c.digest (or_empty cookie)) s ≡ some t
      → is_some t.consumed_at ≡ true
      → Reach c settings (refresh c settings now fresh cookie s).accounts r
      → find_refresh (c.digest (or_empty other)) r ≡ some u
      → u.family_id ≡ t.family_id
      → is_ok (refresh c settings later draws other r).result ≡ false
  refresh-ends_session s r now later fresh draws cookie other t u w b f k v g e =
      let keyed = Reach-IsKeyed c settings no_accounts s w no_accounts-IsKeyed in
      let ended : IsDead t.family_id (refresh c settings now fresh cookie s).accounts =
        rw (refresh-accounts_reused c settings now fresh cookie t s b f k)
          (end_family-IsDead now fresh (c.digest (or_empty cookie)) t s f) in
      let still =
        Reach-IsDead t.family_id (refresh c settings now fresh cookie s).accounts r v
          (refresh-IsKeyed c settings now fresh cookie s keyed) ended in
      refresh-IsDead later draws other u r g (rw e still)
