-- ===== src/Tests/Redaction.antt =====
-- Two customers whose digests collide.
use ai_finance_controller.Common.{ℕ, ◌≡◌, refl, false, some, List, [], ◌∷◌}
use ai_finance_controller.Common.Text.{Text, codes}
use ai_finance_controller.Ai.Redact.{Redactor, pseudonym}
use ai_finance_controller.Ai.Redact.Faithful.{
  IsConsistent, remembered, remembered-IsConsistent, IsNamed, pseudonym-stands_for,
}

abbrev sha256 : Text → List ℕ
sha256 t = 1 ∷ 2 ∷ 3 ∷ 36 ∷ []

abbrev customer : Text
customer = codes "CUSTOMER"

abbrev empty : Redactor
empty = record { seed = codes "run"; forward = []; reverse = [] }

abbrev one : Redactor
one = remembered customer (codes "cust_1") (codes "CUSTOMER_BCDE") empty

empty-IsConsistent : IsConsistent empty
unfolding ai_finance_controller.Common.Dict.lookup
empty-IsConsistent kind value name c f = cc

one-IsConsistent : IsConsistent one
unfolding ai_finance_controller.Ai.Redact.is_taken ai_finance_controller.Common.Dict.lookup
one-IsConsistent =
    remembered-IsConsistent customer (codes "cust_1") (codes "CUSTOMER_BCDE") empty refl refl
      empty-IsConsistent

-- The second gets a suffix.
second_name :
    pseudonym sha256 customer (codes "cust_2") one
    ≡ some
        (codes "CUSTOMER_BCDE1", remembered customer (codes "cust_2") (codes "CUSTOMER_BCDE1") one)
unfolding pseudonym ai_finance_controller.Ai.Redact.resolve ai_finance_controller.Ai.Redact.is_taken
    ai_finance_controller.Ai.Redact.stem_of ai_finance_controller.Ai.Redact.digits
    ai_finance_controller.Ai.Redact.digits_from ai_finance_controller.Common.Dict.lookup
    ai_finance_controller.Common.Dict.insert
second_name = refl

pseudonym-stands_for_example :
    IsNamed (codes "cust_2") one (pseudonym sha256 customer (codes "cust_2") one)
pseudonym-stands_for_example =
    pseudonym-stands_for sha256 customer (codes "cust_2") one refl one-IsConsistent
