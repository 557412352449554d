-- ===== src/Ai/Redact/Faithful.antt =====
-- A pseudonym is always found, stands for its value alone, and stays.
use mathlib.Core.Path.{subst}
use mathlib.Core.Option.{some-injective}
use ai_finance_controller.Common.{
  ℕ, suc, ◌+◌, ◌≡◌, refl, sym, ap, ◌∙◌, inl, inr, Bool, false, not, ◌==◌, Option, none, some, List,
  [], ◌∷◌, arith, any, length, if◌then◌else◌,
}
use ai_finance_controller.Common.Text.{Text, text_eq, text_eq_refl, eq_of_text_eq}
use ai_finance_controller.Common.Keys.{text_key, text_cases}
use ai_finance_controller.Common.Dict.{Dict, lookup, insert, lookup-insert}
use ai_finance_controller.Ai.Redact.{
  Redactor, key_of, candidate, is_taken, resolve, stem_of, remember, name_for, pseudonym, reveal,
}
use ai_finance_controller.Ai.Redact.Fresh.{free_name}
use ai_finance_controller.Ai.Redact.Resolve.{candidate-IsInjective, resolve-some, resolve_free}

-- The kinds have no colon, which ends them in a key.
abbrev pub has_colon : Text → Bool
has_colon = any (λ c. c == b':')

key_of-value :
    (kind kind' value value' : Text)
    → has_colon kind ≡ false
    → has_colon kind' ≡ false
    → key_of kind value ≡ key_of kind' value'
    → value ≡ value'
key_of-value [] [] value value' h h' e = cc
key_of-value [] (c ∷ kind') value value' h h' e =
    let same : b':' ≡ c = cc in ground (arith, h', same)
key_of-value (c ∷ kind) [] value value' h h' e = let same : c ≡ b':' = cc in ground (arith, h, same)
key_of-value (c ∷ kind) (d ∷ kind') value value' h h' e =
    key_of-value kind kind' value value' (ground (arith, h)) (ground (arith, h')) (cc)

-- What was asked for stands for its value.
abbrev pub IsConsistent : Redactor → Type 0
IsConsistent r =
    (kind value name : Text)
    → has_colon kind ≡ false
    → lookup (key_of kind value) r.forward ≡ some name
    → reveal name r ≡ some value

untaken_before :
    (name value held : Text) (m : Dict Text Text)
    → is_taken name value m ≡ false
    → lookup name m ≡ some held
    → held ≡ value
unfolding is_taken
untaken_before name value held m n h =
    let free : not (text_eq held value) ≡ false = rw h at n in
    eq_of_text_eq held value (ground (arith, free))

abbrev pub remembered : (kind value name : Text) → Redactor → Redactor
remembered kind value name r = record r {
  forward = insert (key_of kind value) name r.forward;
  reverse = insert name value r.reverse;
}

remembered-reveal :
    (kind value name q : Text) (r : Redactor)
    → reveal q (remembered kind value name r) ≡ (if text_eq name q then some value else reveal q r)
unfolding reveal
remembered-reveal kind value name q r = lookup-insert name q value r.reverse

reveal_looks_up : (q : Text) (r : Redactor) → reveal q r ≡ lookup q r.reverse
unfolding reveal
reveal_looks_up q r = refl

-- A name that stood for a value stands for it still.
remembered_keeps :
    (kind value name q held : Text) (r : Redactor)
    → is_taken name value r.reverse ≡ false
    → reveal q r ≡ some held
    → reveal q (remembered kind value name r) ≡ some held
remembered_keeps kind value name q held r n h = elim (text_cases name q) [
  | inl e ↦
      let same : held ≡ value =
        untaken_before name value held r.reverse n (rw e (sym (reveal_looks_up q r) ∙ h)) in
      remembered-reveal kind value name q r ∙ rw (e, text_eq_refl q) (ap some (sym same))
  | inr e ↦ remembered-reveal kind value name q r ∙ rw e h
]

pub remembered-IsConsistent :
    (kind value name : Text) (r : Redactor)
    → has_colon kind ≡ false
    → is_taken name value r.reverse ≡ false
    → IsConsistent r
    → IsConsistent (remembered kind value name r)
remembered-IsConsistent kind value name r c n h kind' value' name' c' f =
    elim (text_cases (key_of kind value) (key_of kind' value')) [
      | inl e ↦
          let same : name ≡ name' = some-injective _ _ (
            sym (
              lookup-insert (key_of kind value) (key_of kind' value') name r.forward
              ∙ rw (e, text_eq_refl (key_of kind' value')) refl)
            ∙ f) in
          let v : value ≡ value' = key_of-value kind kind' value value' c c' e in
          remembered-reveal kind value name name' r ∙ rw (same, text_eq_refl name') (ap some v)
      | inr e ↦
          let g : lookup (key_of kind' value') r.forward ≡ some name' =
            sym (lookup-insert (key_of kind value) (key_of kind' value') name r.forward ∙ rw e refl)
            ∙ f in
          remembered_keeps kind value name name' value' r n (h kind' value' name' c' g)
    ]

-- Every name of the first stands for the same value with the second.
abbrev pub Keeps : (r next : Redactor) → Type 0
Keeps r next = (q held : Text) → reveal q r ≡ some held → reveal q next ≡ some held

abbrev pub IsNamed : (value : Text) → Redactor → Option (Text × Redactor) → Type 0
IsNamed value r o =
    (name : Text) × (next : Redactor) × (o ≡ some (name, next))
    × (reveal name next ≡ some value)
    × IsConsistent next
    × Keeps r next

module _ (sha256 : Text → List ℕ) (kind value : Text) (r : Redactor)
    (plain : has_colon kind ≡ false) (sound : IsConsistent r) where
  remember-IsNamed :
      (o : Option Text)
      → ((name : Text) × (o ≡ some name) × (is_taken name value r.reverse ≡ false))
      → IsNamed value r (remember sha256 (key_of kind value) value r o)
  remember-IsNamed none (name, e, n) = cc
  remember-IsNamed (some x) (name, e, n) =
      let free : is_taken x value r.reverse ≡ false =
        subst (λ (y : Text). is_taken y value r.reverse ≡ false) (sym (some-injective _ _ e)) n in
      (
        x,
        remembered kind value x r,
        refl,
        remembered-reveal kind value x x r ∙ rw (text_eq_refl x) refl,
        remembered-IsConsistent kind value x r plain free sound,
        λ q held h. remembered_keeps kind value x q held r free h,
      )

  resolved :
      (name : Text) × (resolve
          (suc (length r.reverse))
          0
          (stem_of sha256 kind value r)
          value
          r.reverse
        ≡ some name)
      × (is_taken name value r.reverse ≡ false)
  resolved =
      let stem = stem_of sha256 kind value r in
      let (i, le, free) = free_name r.reverse (candidate stem) (candidate-IsInjective stem) in
      let first : lookup (candidate stem (0 + i)) r.reverse ≡ none =
        subst (λ n. lookup (candidate stem n) r.reverse ≡ none) (omega arith) free in
      let (name, e) =
        resolve-some (suc (length r.reverse)) 0 stem value r.reverse i (omega (arith, le)) first in
      (name, e, resolve_free (suc (length r.reverse)) 0 stem value name r.reverse e)

  name_for-IsNamed :
      (o : Option Text)
      → lookup (key_of kind value) r.forward ≡ o
      → IsNamed value r (name_for sha256 kind value r o)
  name_for-IsNamed none e = remember-IsNamed _ resolved
  name_for-IsNamed (some name) e =
      (name, r, refl, sound kind value name plain e, sound, λ q held h. h)

  -- Of a kind without a colon, and in a redactor where what was asked for stands for its value, the
  -- loop over the suffixes ends, its name stands for the value that was asked for, no earlier name
  -- stands for another value afterwards, and the redactor is again such a one.
  pub pseudonym-stands_for : IsNamed value r (pseudonym sha256 kind value r)
  unfolding pseudonym
  pseudonym-stands_for = name_for-IsNamed (lookup (key_of kind value) r.forward) refl
