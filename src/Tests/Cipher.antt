-- ===== src/Tests/Cipher.antt =====
-- A `Crypto` for the tests, which hides nothing: a password is its own hash, and a token lists its
-- claims, each text behind its length.
use ai_finance_controller.Common.{
  ℕ, zero, suc, ◌≡◌, refl, ap, true, false, Option, none, some, List, [], ◌∷◌, ◌++◌, if◌then◌else◌,
  length, take, ltb,
}
use ai_finance_controller.Common.Text.{Text, text_eq, text_eq_refl, codes}
use ai_finance_controller.Domain.Enums.{UserRole, analyst, reviewer, controller, admin}
use ai_finance_controller.Backend.Auth.{
  Crypto, IsSound, Payload, Decoded, payload, expired, invalid, Settings,
}

abbrev drop : {A : Type 0} → ℕ → List A → List A
drop zero xs = xs
drop (suc n) [] = []
drop (suc n) (x ∷ xs) = drop n xs

take-append : {A : Type 0} (xs ys : List A) → take (length xs) (xs ++ ys) ≡ xs
take-append [] ys = refl
take-append (x ∷ xs) ys = ap (λ r. x ∷ r) (take-append xs ys)

drop-append : {A : Type 0} (xs ys : List A) → drop (length xs) (xs ++ ys) ≡ ys
drop-append [] ys = refl
drop-append (x ∷ xs) ys = drop-append xs ys

-- A text that may be missing, and what follows it.
abbrev write : Option Text → Text → Text
write none rest = 0 ∷ rest
write (some t) rest = suc (length t) ∷ t ++ rest

abbrev read : Text → Option Text × Text
read [] = (none, [])
read (zero ∷ rest) = (none, rest)
read (suc n ∷ rest) = (some (take n rest), drop n rest)

abbrev role_code : Option UserRole → ℕ
role_code none = 0
role_code (some analyst) = 1
role_code (some reviewer) = 2
role_code (some controller) = 3
role_code (some admin) = 4

abbrev role_at : ℕ → Option UserRole
role_at zero = none
role_at (suc zero) = some analyst
role_at (suc (suc zero)) = some reviewer
role_at (suc (suc (suc zero))) = some controller
role_at (suc (suc (suc (suc n)))) = some admin

role_at-code : (o : Option UserRole) → role_at (role_code o) ≡ o
role_at-code none = refl
role_at-code (some analyst) = refl
role_at-code (some reviewer) = refl
role_at-code (some controller) = refl
role_at-code (some admin) = refl

abbrev encode : Payload → Text
encode p =
    200
    ∷ p.iat
    ∷ p.exp
    ∷ role_code p.role
    ∷ write (some p.sub) (write p.email (write (some p.typ) (200 ∷ [])))

abbrev or_nothing : Option Text → Text
or_nothing none = []
or_nothing (some t) = t

abbrev claims : (iat exp role : ℕ) → (sub email typ : Option Text) → Payload
claims iat exp role sub email typ = record {
  sub = or_nothing sub;
  email = email;
  role = role_at role;
  iat = iat;
  exp = exp;
  typ = or_nothing typ;
}

abbrev read_payload : (iat exp role : ℕ) → Text → Payload
read_payload iat exp role rest =
    claims iat exp role (read rest).0 (read (read rest).1).0 (read (read (read rest).1).1).0

abbrev decode : (now : ℕ) → Text → Decoded
decode now (_ ∷ iat ∷ exp ∷ role ∷ rest) =
    if ltb now iat
    then invalid
    else if ltb now exp
    then payload (read_payload iat exp role rest)
    else expired
decode now _ = invalid

-- The claims are read back as they were listed.
read_tail :
    (email : Option Text) (typ : Text)
    → read (write email (write (some typ) (200 ∷ []))) ≡ (email, write (some typ) (200 ∷ []))
read_tail none typ = refl
read_tail (some t) typ =
    rw (take-append t (write (some typ) (200 ∷ [])), drop-append t (write (some typ) (200 ∷ [])))
      refl

read_payload-encode :
    (p : Payload)
    → read_payload p.iat p.exp
        (role_code p.role)
        (write (some p.sub) (write p.email (write (some p.typ) (200 ∷ []))))
      ≡ p
read_payload-encode p =
    rw
      (
        take-append p.sub (write p.email (write (some p.typ) (200 ∷ []))),
        drop-append p.sub (write p.email (write (some p.typ) (200 ∷ []))),
        read_tail p.email p.typ,
        take-append p.typ (200 ∷ []),
        role_at-code p.role,
      )
      refl

abbrev pub crypto : Crypto
crypto = record {
  hash = λ salt plain. plain;
  verify = text_eq;
  check_needs_rehash = λ hashed. some false;
  digest = λ plain. plain;
  encode = encode;
  decode = decode;
}

pub crypto-IsSound : IsSound crypto
crypto-IsSound = record {
  verify-hash = λ salt plain. text_eq_refl plain;
  decode-encode = λ now p. rw (read_payload-encode p) refl;
}

abbrev pub settings : Settings
settings = record {
  access_token_minutes = 15;
  refresh_token_days = 14;
  is_local = true;
  should_seed_demo_users = true;
  demo_password = codes "demo-password";
  bootstrap_admin_email = none;
}
