-- ===== src/Backend/Queue.antt =====
-- The exception queue page by page, `list_exceptions` of
-- backend/src/ledgergraph_api/routers/exceptions.py. A filter that names no type or severity, which
-- selects nothing, is left out, and so is a cursor that a client made up with a negative offset.
pub mod Pages
use ai_finance_controller.Common.{
  ℕ, zero, suc, ◌+◌, ◌≡◌, Bool, true, false, Option, none, some, List, [], ◌∷◌, if◌then◌else◌,
  filter, length, take, map, ltb, ◌==◌, is_empty,
}
use ai_finance_controller.Common.Int.{ℤ, leb_ℤ}
use ai_finance_controller.Common.Text.{Text, is_blank, or_empty}
use ai_finance_controller.Common.Result.{Result, ok, err, ◌>>=◌}
use ai_finance_controller.Domain.Enums.{
  ExceptionType, ExceptionSeverity, critical, high, medium, low, same_exception,
}
use ai_finance_controller.Recon.Models.{ExceptionCase, RunResult}
use ai_finance_controller.Backend.Errors.{ApiError, not_found, invalid_cursor}
use ai_finance_controller.Backend.Books.{
  CaseDecision, RunRecord, Repository, get_run, latest_run, get_decision,
}

-- Base64 and JSON: a cursor holds an offset.
pub record CursorCodec : Type 0 where
  pub encode : ℕ → Text
  pub decode : Text → Option ℕ

-- A cursor that was encoded is read back, and is not empty.
pub record IsFaithful (codec : CursorCodec) : Type 0 where
  pub decode-encode : (n : ℕ) → codec.decode (codec.encode n) ≡ some n
  pub encode_nonempty : (n : ℕ) → is_empty (codec.encode n) ≡ false

abbrev pub or_invalid : Option ℕ → Result ApiError ℕ
or_invalid none = err invalid_cursor
or_invalid (some n) = ok n

unfoldable pub decode_cursor : CursorCodec → Option Text → Result ApiError ℕ
decode_cursor codec cursor =
    if is_blank cursor then ok 0 else or_invalid (codec.decode (or_empty cursor))

pub record Page (A : Type 0) : Type 0 where
  pub items : List A
  pub next_cursor : Option Text
  pub total : ℕ

abbrev pub drop : {A : Type 0} → ℕ → List A → List A
drop zero xs = xs
drop (suc n) [] = []
drop (suc n) (x ∷ xs) = drop n xs

-- `cases[offset: offset + limit]` with the cursor behind it.
unfoldable pub page_at : {A : Type 0} → CursorCodec → (limit : ℕ) → List A → (offset : ℕ) → Page A
page_at codec limit cases offset = record {
  items = take limit (drop offset cases);
  next_cursor =
      if ltb (offset + limit) (length cases) then some (codec.encode (offset + limit)) else none;
  total = length cases;
}

abbrev pub severity_index : ExceptionSeverity → ℕ
severity_index critical = 0
severity_index high = 1
severity_index medium = 2
severity_index low = 3

pub record Filters : Type 0 where
  pub case_type : Option ExceptionType
  pub severity : Option ExceptionSeverity
  pub min_amount_minor : Option ℤ

module _ {W : Type 0} where
  abbrev pub of_case_type : Option ExceptionType → ExceptionCase W → Bool
  of_case_type none x = true
  of_case_type (some t) x = same_exception x.case_type t

  abbrev pub of_severity : Option ExceptionSeverity → ExceptionCase W → Bool
  of_severity none x = true
  of_severity (some v) x = severity_index x.severity == severity_index v

  abbrev pub of_amount : Option ℤ → ExceptionCase W → Bool
  of_amount none x = true
  of_amount (some n) x = leb_ℤ n x.amount_at_risk_minor

  unfoldable pub select : Filters → List (ExceptionCase W) → List (ExceptionCase W)
  select f cases =
      filter (of_amount f.min_amount_minor)
        (filter (of_severity f.severity) (filter (of_case_type f.case_type) cases))

  abbrev pub with_result : Option (RunRecord W) → Result ApiError (RunResult W)
  with_result none = err not_found
  with_result (some r) = elim r.result [ none ↦ err not_found | some x ↦ ok x ]

  -- The result of `_current_run`.
  unfoldable pub current_run : (run_id : Option Text) → Repository W → Result ApiError (RunResult W)
  current_run run_id s =
      with_result (if is_blank run_id then latest_run s else get_run (or_empty run_id) s)

  -- Each case with its decision.
  abbrev pub with_decision : Repository W → ExceptionCase W → ExceptionCase W × Option CaseDecision
  with_decision s x = (x, get_decision x.case_id s)

  abbrev pub show_page :
      Repository W → Page (ExceptionCase W) → Page (ExceptionCase W × Option CaseDecision)
  show_page s p = record {
    items = map (with_decision s) p.items;
    next_cursor = p.next_cursor;
    total = p.total;
  }

  unfoldable pub list_exceptions :
      CursorCodec
      → (run_id : Option Text) → Filters
      → (cursor : Option Text) (limit : ℕ) → Repository W
      → Result ApiError (Page (ExceptionCase W × Option CaseDecision))
  list_exceptions codec run_id f cursor limit s = do
    result ← current_run run_id s
    offset ← decode_cursor codec cursor
    ok (show_page s (page_at codec limit (select f result.cases) offset))
