-- ===== src/Backend/Auth/Tokens.antt =====
-- An access token from its minting to the request that carries it.
use ai_finance_controller.Common.{ℕ, ◌+◌, ◌*◌, ◌≡◌, refl, if◌then◌else◌, ltb, Bool-cases, inl, inr}
use ai_finance_controller.Common.Text.{Text}
use ai_finance_controller.Common.Result.{ok, err}
use ai_finance_controller.Domain.Enums.{UserRole}
use ai_finance_controller.Backend.Errors.{token_expired, token_invalid}
use ai_finance_controller.Backend.Auth.{
  Crypto, IsSound, Settings, mint_access_token, claims_of, read_decoded, read_access_token,
}

module _ (c : Crypto) (sound : IsSound c) (settings : Settings) where
  -- From the instant of its minting until it expires, a token that was minted is read back as the
  -- claims that it was minted for; from then on it is refused as expired, and before as invalid.
  pub read-mint :
      (user_id email : Text) (role : UserRole) (now later : ℕ)
      → read_access_token c later (mint_access_token c settings user_id email role now).0 ≡ (
          if ltb later now
          then err token_invalid
          else if ltb later (now + settings.access_token_minutes * 60)
          then ok (record {
            user_id = user_id;
            email = email;
            role = role;
            expires_at = now + settings.access_token_minutes * 60;
          })
          else err token_expired)
  unfolding read_access_token mint_access_token read_decoded claims_of
  read-mint user_id email role now later =
      rw (sound.decode-encode later _) (elim (Bool-cases (ltb later now)) [
        | inl b ↦ rw b refl
        | inr b ↦ elim (Bool-cases (ltb later (now + settings.access_token_minutes * 60))) [
          | inl e ↦ rw (b, e) refl
          | inr e ↦ rw (b, e) refl
        ]
      ])
