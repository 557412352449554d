-- ===== src/Backend/Decision/Guarded.antt =====
-- Who can record a decision, from the request's token to the stored case.
use ai_finance_controller.Common.{length, ◌≤◌, ℕ, ◌≡◌, true, Option, any}
use ai_finance_controller.Common.Text.{Text}
use ai_finance_controller.Common.Result.{Result, ok}
use ai_finance_controller.Double.{Double}
use ai_finance_controller.Backend.Store.{User}
use ai_finance_controller.Backend.Auth.{Crypto}
use ai_finance_controller.Backend.Access.{same_role, current_user, can_decide}
use ai_finance_controller.Backend.Books.{Repository}
use ai_finance_controller.Backend.Decision.{DecisionRequest, max_note_length}
use ai_finance_controller.Backend.Decision.Recorded.{IsDecidable}

-- The token is of an active user who is a reviewer at least, and who may decide the case; the note
-- has the length that is allowed.
abbrev pub IsAuthorised :
    (W : Type 0) ⦃d : Double W⦄
    → Crypto
    → (now : ℕ) (authorization : Option Text) (case_id : Text) → DecisionRequest
    → Repository W
    → Type 0
IsAuthorised W c now authorization case_id body s =
    (u : User) × (current_user c now authorization s.accounts ≡ ok u)
    × (any (same_role u.role) can_decide ≡ true)
    × (length body.note ≤ max_note_length)
    × IsDecidable W case_id body u s
