-- ===== src/Backend/Access/Minted.antt =====
-- The request that carries an access token which was minted.
use ai_finance_controller.Common.{
  ℕ, ◌+◌, ◌*◌, ◌≡◌, refl, true, some, ◌++◌, if◌then◌else◌, ltb, Bool-cases, inl, inr,
}
use ai_finance_controller.Common.Text.{Text, codes, lower, strip, starts_with}
use ai_finance_controller.Common.Result.{err}
use ai_finance_controller.Domain.Enums.{UserRole}
use ai_finance_controller.Backend.Errors.{token_expired, token_invalid}
use ai_finance_controller.Backend.Store.{Accounts, get_user}
use ai_finance_controller.Backend.Auth.{Crypto, IsSound, Settings, mint_access_token}
use ai_finance_controller.Backend.Auth.Tokens.{read-mint}
use ai_finance_controller.Backend.Access.{has_bearer, active_user, current_user}

-- `f"Bearer {token}"`
abbrev pub bearer : Text → Text
bearer token = codes "Bearer " ++ token

bearer-has_bearer : (token : Text) → has_bearer (some (bearer token)) ≡ true
unfolding has_bearer lower starts_with
bearer-has_bearer token = refl

module _ (c : Crypto) (sound : IsSound c) (settings : Settings) where
  -- A request that carries a minted token, which has no white space around it, is made by the stored
  -- user of its subject, whose role counts, if that user is stored and active and the token has not
  -- expired. The role at the time of the minting is not used. At an instant in front of the minting
  -- the token is refused as invalid.
  pub current_user-mint :
      (user_id email : Text) (role : UserRole) (now later : ℕ) (s : Accounts)
      → strip (mint_access_token c settings user_id email role now).0
        ≡ (mint_access_token c settings user_id email role now).0
      → current_user c later
          (some (bearer (mint_access_token c settings user_id email role now).0))
          s
        ≡ (if ltb later now
            then err token_invalid
            else if ltb later (now + settings.access_token_minutes * 60)
            then active_user (get_user user_id s)
            else err token_expired)
  unfolding current_user
  current_user-mint user_id email role now later s bare =
      rw
        (
          bearer-has_bearer (mint_access_token c settings user_id email role now).0,
          bare,
          read-mint c sound settings user_id email role now later,
        )
        (elim (Bool-cases (ltb later now)) [
          | inl b ↦ rw b refl
          | inr b ↦ elim (Bool-cases (ltb later (now + settings.access_token_minutes * 60))) [
            | inl e ↦ rw (b, e) refl
            | inr e ↦ rw (b, e) refl
          ]
        ])
