-- ===== src/Backend/Runs/Settles.antt =====
-- A run from its start to its result, or to its failure.
use ai_finance_controller.Common.{ℕ}
use ai_finance_controller.Common.Text.{Text}
use ai_finance_controller.Common.Keys.{text_key}
use ai_finance_controller.Common.Result.{Result, ok, err}
use ai_finance_controller.Double.{Double}
use ai_finance_controller.Recon.Models.{RunResult}
use ai_finance_controller.Backend.Books.{RunRecord}
use ai_finance_controller.Backend.Runs.{done, broken}

module _ {W : Type 0} ⦃d : Double W⦄ (now : ℕ) (event_id : Text) where
  -- The record of a run whose engine is done.
  abbrev pub ended : Result Text (RunResult W) → RunRecord W → RunRecord W
  ended (ok result) r = done now event_id result r
  ended (err raised) r = broken now event_id raised r
