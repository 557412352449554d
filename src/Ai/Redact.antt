-- ===== src/Ai/Redact.antt =====
-- Stable pseudonyms, `Redactor` of packages/ai_investigation/ledgergraph_ai/redact.py. SHA-256, of the
-- UTF-8 of a text, is the parameter `sha256`. The patterns that find personal data are left out.
pub mod Decimal
pub mod Fresh
pub mod Resolve
pub mod Faithful
use ai_finance_controller.Common.{
  ℕ, zero, suc, ◌+◌, ◌/◌, ◌%◌, Bool, true, false, not, Option, none, some, List, [], ◌∷◌, ◌++◌, map,
  if◌then◌else◌, length, take, ltb,
}
use ai_finance_controller.Common.Text.{Text, text_eq, codes}
use ai_finance_controller.Common.Dict.{Dict, lookup, insert}
use ai_finance_controller.Common.Keys.{text_key}

pub record Redactor : Type 0 where
  pub seed : Text
  pub forward : Dict Text Text
  pub reverse : Dict Text Text

abbrev pub alphabet : Text
alphabet = codes "ABCDEFGHJKLMNPQRSTUVWXYZ23456789"

-- `text[n]` of an index in range.
abbrev pub char_at : Text → ℕ → ℕ
char_at [] n = 0
char_at (c ∷ t) zero = c
char_at (c ∷ t) (suc n) = char_at t n

-- `str(n)`, on fuel: `suc n` is enough, as ten divides off a digit.
unfoldable pub digits_from : (fuel n : ℕ) → Text
digits_from zero n = []
digits_from (suc fuel) n =
    let front = digits_from fuel (n / 10) in
    if ltb n 10 then (b'0' + n) ∷ [] else front ++ (b'0' + n % 10) ∷ []

unfoldable pub digits : ℕ → Text
unfolding digits_from
digits n = digits_from (suc n) n

-- `f"{kind}:{value}"`
abbrev pub key_of : (kind value : Text) → Text
key_of kind value = kind ++ b':' ∷ value

-- The name without a suffix, and with one from the first retry on.
abbrev pub candidate : (stem : Text) → ℕ → Text
candidate stem zero = stem
candidate stem (suc n) = stem ++ digits (suc n)

abbrev pub other_than : (value : Text) → Option Text → Bool
other_than value none = false
other_than value (some held) = not (text_eq held value)

-- The name stands for another value.
unfoldable pub is_taken : (name value : Text) → Dict Text Text → Bool
is_taken name value reverse = other_than value (lookup name reverse)

-- The loop over the suffixes, on fuel.
unfoldable pub resolve : (fuel suffix : ℕ) → (stem value : Text) → Dict Text Text → Option Text
unfolding is_taken
resolve zero suffix stem value reverse = none
resolve (suc fuel) suffix stem value reverse =
    let rest = resolve fuel (suc suffix) stem value reverse in
    if is_taken (candidate stem suffix) value reverse then rest else some (candidate stem suffix)

module _ (sha256 : Text → List ℕ) where
  unfoldable pub stem_of : (kind value : Text) → Redactor → Text
  stem_of kind value r =
      let digest = sha256 (r.seed ++ b':' ∷ key_of kind value) in
      kind ++ b'_' ∷ map (λ b. char_at alphabet (b % 32)) (take 4 digest)

  abbrev pub remember : (key value : Text) → Redactor → Option Text → Option (Text × Redactor)
  remember key value r none = none
  remember key value r (some name) = some (
    name,
    record r { forward = insert key name r.forward; reverse = insert name value r.reverse },
  )

  -- One suffix more than there are names is enough.
  abbrev pub name_for : (kind value : Text) → Redactor → Option Text → Option (Text × Redactor)
  name_for kind value r (some name) = some (name, r)
  name_for kind value r none =
      remember (key_of kind value) value r
        (resolve (suc (length r.reverse)) 0 (stem_of kind value r) value r.reverse)

  -- The pseudonym and the redactor after it; `none` would be a loop that runs out of fuel.
  unfoldable pub pseudonym : (kind value : Text) → Redactor → Option (Text × Redactor)
  pseudonym kind value r = name_for kind value r (lookup (key_of kind value) r.forward)

unfoldable pub reveal : (name : Text) → Redactor → Option Text
reveal name r = lookup name r.reverse
