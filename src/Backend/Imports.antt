-- ===== src/Backend/Imports.antt =====
-- Uploading a source file, `create_import` of backend/src/ledgergraph_api/routers/imports.py. Decoding
-- and splitting a file into rows, and turning a row into a transaction, are the record `Reader`. A row
-- that raises anything but a `RejectionError`, which ends the request, is left out.
pub mod Once
pub mod Replay
use ai_finance_controller.Common.{
  ℕ, suc, ◌+◌, ◌*◌, Bool, true, false, not, Option, none, some, List, [], ◌∷◌, if◌then◌else◌, any,
  filter, is_empty, length, ltb,
}
use ai_finance_controller.Common.Text.{Text, text_eq, codes, is_blank, or_empty}
use ai_finance_controller.Common.Result.{Result, ok, err}
use ai_finance_controller.Domain.Workflow.{
  ActorType, DecisionAction, imported, ImportStatus, completed, failed, duplicate,
}
use ai_finance_controller.Domain.Canonical.{CanonicalTransaction}
use ai_finance_controller.Backend.Errors.{ApiError, unknown_dataset, file_too_large}
use ai_finance_controller.Backend.Store.{User, AuditEntity, AuditEvent}
use ai_finance_controller.Backend.Books.{
  Rejection, ImportError, no_header_row, missing_columns, identical_to, ImportRecord, Repository,
  Answer, rejected, new_import, save_import, find_import_by_key, find_import_by_hash,
  add_transactions, audited,
}

-- `rows` is the header, if there is one, and the rows below it; `normalise` is that of the dataset's
-- normalizer, with the `RejectionError` that it raises.
pub record Reader : Type 1 where
  pub Row : Type 0
  pub is_known : (dataset : Text) → Bool
  pub required_columns : (dataset : Text) → List Text
  pub sha256 : (raw : Text) → Text
  pub header : (raw : Text) → Option (List Text)
  pub rows : (raw : Text) → List Row
  pub normalise : (dataset : Text) → Row → Result Rejection CanonicalTransaction

abbrev pub max_upload_bytes : ℕ
max_upload_bytes = 20 * 1024 * 1024

pub record Upload : Type 0 where
  pub dataset : Text
  pub filename : Text
  pub raw : Text
  pub idempotency_key : Option Text

-- `file.filename or "upload.csv"`
abbrev pub upload_name : Text → Text
upload_name filename = if is_empty filename then codes "upload.csv" else filename

-- What the loop over the rows has gathered.
pub record Rows : Type 0 where
  pub accepted : List CanonicalTransaction
  pub rejections : List (ℕ × Rejection)

abbrev pub put_row : (line : ℕ) → Result Rejection CanonicalTransaction → Rows → Rows
put_row line (ok t) r = record r { accepted = t ∷ r.accepted }
put_row line (err e) r = record r { rejections = (line, e) ∷ r.rejections }

module _ (reader : Reader) where
  unfoldable pub read_rows : (dataset : Text) (line : ℕ) → List reader.Row → Rows
  read_rows dataset line [] = record { accepted = []; rejections = [] }
  read_rows dataset line (row ∷ rows) =
      let rest = read_rows dataset (suc line) rows in
      put_row line (reader.normalise dataset row) rest

  unfoldable pub missing : (dataset : Text) → (fieldnames : List Text) → List Text
  missing dataset fieldnames =
      filter (λ column. not (any (text_eq column) fieldnames)) (reader.required_columns dataset)

unfoldable pub import_event : (event_id import_id : Text) → User → (now : ℕ) → AuditEvent
import_event event_id import_id u now = record {
  event_id = event_id;
  entity_type = AuditEntity.import_file;
  entity_id = import_id;
  action = imported;
  actor_type = ActorType.user;
  actor_name = some u.full_name;
  actor_role = some u.role;
  actor_id = some u.user_id;
  reason_code = none;
  note = [];
  ruleset_version = none;
  created_at = now;
}

unfoldable pub started : Reader → (now : ℕ) (import_id : Text) → Upload → ImportRecord
started reader now import_id up =
    new_import import_id up.dataset (upload_name up.filename) up.idempotency_key
      (reader.sha256 up.raw) now

unfoldable pub finished : ImportRecord → Rows → (total : ℕ) → ImportRecord
finished i r total = record i {
  status = completed;
  rows_total = total;
  rows_accepted = length r.accepted;
  rows_rejected = length r.rejections;
  rejections = r.rejections;
}

-- The import of an earlier request with the same key.
abbrev pub replayed : {W : Type 0} → Option Text → Repository W → Option ImportRecord
replayed key s = if is_blank key then none else find_import_by_key (or_empty key) s

module _ {W : Type 0} (reader : Reader) (now : ℕ) (import_id event_id : Text) (u : User) where
  -- A record that ends without rows.
  unfoldable pub ended :
      ImportRecord → ImportStatus → ImportError → Repository W → Answer W ImportRecord
  ended i status error s =
      let last = record i { status = status; error = some error } in
      record { repository = save_import last s; result = ok last }

  unfoldable pub load : ImportRecord → Rows → (total : ℕ) → Repository W → Answer W ImportRecord
  load i r total s =
      let last = finished i r total in
      record {
        repository =
            audited (import_event event_id i.import_id u now)
              (save_import last (add_transactions i.import_id r.accepted s));
        result = ok last;
      }

  unfoldable pub import_columns :
      ImportRecord → Upload → Option (List Text) → Repository W → Answer W ImportRecord
  import_columns i up none s = ended i failed no_header_row s
  import_columns i up (some fieldnames) s =
      let absent = missing reader up.dataset fieldnames in
      if not (is_empty absent)
      then ended i failed (missing_columns absent) s
      else load i (read_rows reader up.dataset 2 (reader.rows up.raw)) (length (reader.rows up.raw))
          s

  unfoldable pub import_content :
      Upload → Option ImportRecord → Repository W → Answer W ImportRecord
  import_content up (some other) s =
      ended (started reader now import_id up) duplicate
        (identical_to other.import_id other.filename) s
  import_content up none s =
      import_columns (started reader now import_id up) up (reader.header up.raw) s

  unfoldable pub import_sized : Upload → Repository W → Answer W ImportRecord
  unfolding import_content
  import_sized up s =
      if ltb max_upload_bytes (length up.raw)
      then rejected file_too_large s
      else import_content up (find_import_by_hash (reader.sha256 up.raw) s) s

  unfoldable pub import_unless : Option ImportRecord → Upload → Repository W → Answer W ImportRecord
  import_unless (some existing) up s = record { repository = s; result = ok existing }
  import_unless none up s = import_sized up s

  unfoldable pub create_import : Upload → Repository W → Answer W ImportRecord
  unfolding import_unless
  create_import up s =
      if not (reader.is_known up.dataset)
      then rejected unknown_dataset s
      else import_unless (replayed up.idempotency_key s) up s
