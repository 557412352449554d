-- ===== src/Backend/Auth.antt =====
-- Passwords and tokens, backend/src/ledgergraph_api/auth.py. Argon2, SHA-256 and PyJWT are the record
-- `Crypto`; what they draw at random is an argument. Instants are whole seconds.
pub mod Tokens
use ai_finance_controller.Common.{
  ℕ, ◌+◌, ◌*◌, ◌≡◌, Bool, true, false, not, ◌&&◌, ◌||◌, Option, none, some, List, [], ◌∷◌,
  if◌then◌else◌, is_empty, length, ltb, leb, ◌==◌,
}
use ai_finance_controller.Common.Text.{Text, text_eq, codes, lower, starts_with}
use ai_finance_controller.Common.Result.{Result, ok, err}
use ai_finance_controller.Domain.Enums.{UserRole, analyst}
use ai_finance_controller.Backend.Errors.{ApiError, weak_password, token_expired, token_invalid}

-- The claims of a token. `role` stands for its text; `none` is a claim that is left out.
pub record Payload : Type 0 where
  pub sub : Text
  pub email : Option Text
  pub role : Option UserRole
  pub iat : ℕ
  pub exp : ℕ
  pub typ : Text

-- What `jwt.decode` returns or raises.
pub data Decoded : Type 0 where
  payload : Payload → Decoded
  expired invalid : Decoded

pub record Crypto : Type 0 where
  pub hash : (salt plain : Text) → Text
  -- `false` also where the library raises.
  pub verify : (hashed plain : Text) → Bool
  -- `none` is a raise.
  pub check_needs_rehash : Text → Option Bool
  pub digest : Text → Text
  pub encode : Payload → Text
  pub decode : (now : ℕ) → Text → Decoded

-- The documented behaviour: a hash verifies against what was hashed, and a signed token decodes to
-- its claims from the instant that it was issued at until it expires; before, PyJWT refuses it.
pub record IsSound (c : Crypto) : Type 0 where
  pub verify-hash : (salt plain : Text) → c.verify (c.hash salt plain) plain ≡ true
  pub decode-encode :
      (now : ℕ) (p : Payload)
      → c.decode now (c.encode p)
        ≡ (if ltb now p.iat then invalid else if ltb now p.exp then payload p else expired)

pub record Settings : Type 0 where
  pub access_token_minutes : ℕ
  pub refresh_token_days : ℕ
  pub is_local : Bool
  pub should_seed_demo_users : Bool
  pub demo_password : Text
  pub bootstrap_admin_email : Option Text

unfoldable pub needs_rehash : Crypto → Text → Bool
needs_rehash c hashed = elim (c.check_needs_rehash hashed) [ none ↦ true | some b ↦ b ]

abbrev pub min_password_length : ℕ
min_password_length = 10

-- `email.split("@")[0]`
abbrev pub before_at : Text → Text
before_at [] = []
before_at (c ∷ t) = if c == b'@' then [] else c ∷ before_at t

-- `needle in text`
abbrev pub contains : (text needle : Text) → Bool
contains [] needle = is_empty needle
contains (c ∷ t) needle = starts_with (c ∷ t) needle || contains t needle

-- The name in front of the address, if it is four letters at least, stands in the password.
unfoldable pub names_owner : (plain email : Text) → Bool
unfolding lower starts_with
names_owner plain email =
    not (is_empty (lower (before_at email)))
    && leb 4 (length (lower (before_at email)))
    && contains (lower plain) (lower (before_at email))

unfoldable pub validate_password : (plain email : Text) → Result ApiError (Unit {0})
validate_password plain email =
    if ltb (length plain) min_password_length
    then err weak_password
    else if names_owner plain email
    then err weak_password
    else ok tt

-- The token and the seconds until it expires.
unfoldable pub mint_access_token :
    Crypto → Settings → (user_id email : Text) (role : UserRole) (now : ℕ) → Text × ℕ
mint_access_token c settings user_id email role now = (
  c.encode (record {
    sub = user_id;
    email = some email;
    role = some role;
    iat = now;
    exp = now + settings.access_token_minutes * 60;
    typ = codes "access";
  }),
  settings.access_token_minutes * 60,
)

pub record AccessClaims : Type 0 where
  pub user_id : Text
  pub email : Text
  pub role : UserRole
  pub expires_at : ℕ

abbrev pub get_or {ℓ} : {A : Type ℓ} → A → Option A → A
get_or default none = default
get_or default (some a) = a

unfoldable pub claims_of : Payload → Result ApiError AccessClaims
claims_of p =
    if text_eq p.typ (codes "access")
    then ok (record {
      user_id = p.sub;
      email = get_or [] p.email;
      role = get_or analyst p.role;
      expires_at = p.exp;
    })
    else err token_invalid

unfoldable pub read_decoded : Decoded → Result ApiError AccessClaims
unfolding claims_of
read_decoded (payload p) = claims_of p
read_decoded expired = err token_expired
read_decoded invalid = err token_invalid

unfoldable pub read_access_token : Crypto → (now : ℕ) → Text → Result ApiError AccessClaims
unfolding read_decoded
read_access_token c now token = read_decoded (c.decode now token)

-- `REFRESH_BYTES` of randomness and the family's id are arguments: the plaintext and the digest.
unfoldable pub new_refresh_token : Crypto → (plaintext family_id : Text) → Text × Text × Text
new_refresh_token c plaintext family_id = (plaintext, c.digest plaintext, family_id)

unfoldable pub refresh_expiry : Settings → (now : ℕ) → ℕ
refresh_expiry settings now = now + settings.refresh_token_days * 86_400

pub data SameSite : Type 0 where
  samesite_none samesite_lax : SameSite

pub record CookieParams : Type 0 where
  pub key : Text
  pub httponly : Bool
  pub secure : Bool
  pub samesite : SameSite
  pub path : Text
  pub max_age : ℕ

unfoldable pub refresh_cookie_params : Settings → CookieParams
refresh_cookie_params settings =
    let cross_site = not settings.is_local in
    record {
      key = codes "lg_refresh";
      httponly = true;
      secure = cross_site;
      samesite = if cross_site then samesite_none else samesite_lax;
      path = codes "/v1/auth";
      max_age = settings.refresh_token_days * 24 * 3600;
    }
