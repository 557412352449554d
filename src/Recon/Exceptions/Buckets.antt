-- ===== src/Recon/Exceptions/Buckets.antt =====
-- The buckets of the duplicate detector of
-- packages/reconciliation/ledgergraph_reconciliation/exceptions.py.
use mathlib.Core.List.{append-nil}
use ai_finance_controller.Common.{
  ◌≡◌, sym, ap, ◌∙◌, Bool, not, ◌&&◌, List, [], ◌∷◌, ◌++◌, if◌then◌else◌, filter, snoc_if,
  Bool-cases, inl, inr,
}
use ai_finance_controller.Common.Dict.{Dict, get_list, get_list-push}
use ai_finance_controller.Domain.Canonical.{CanonicalTransaction, is_zero_amount}
use ai_finance_controller.Recon.Exceptions.Standalone.{
  ContentKey, content_key, same_content, content_eq, add_to_bucket, fill_buckets,
}

-- The record is not of zero amount and has the content `key`.
abbrev pub belongs : ContentKey → CanonicalTransaction → Bool
belongs key t = not (is_zero_amount t) && same_content (content_key t) key

get_list-add_to_bucket :
    (key : ContentKey) (buckets : Dict ContentKey (List CanonicalTransaction))
    (t : CanonicalTransaction)
    → get_list key (add_to_bucket buckets t)
      ≡ (if belongs key t then get_list key buckets ++ t ∷ [] else get_list key buckets)
unfolding add_to_bucket
get_list-add_to_bucket key buckets t = elim (Bool-cases (is_zero_amount t)) [
  | inl e ↦ rw e
  | inr e ↦ rw e (get_list-push (content_key t) key t buckets)
]

get_list-fill_buckets :
    (key : ContentKey) (buckets : Dict ContentKey (List CanonicalTransaction))
    (ts : List CanonicalTransaction)
    → get_list key (fill_buckets buckets ts) ≡ get_list key buckets ++ filter (belongs key) ts
unfolding fill_buckets
get_list-fill_buckets key buckets [] = sym (append-nil _)
get_list-fill_buckets key buckets (t ∷ ts) =
    get_list-fill_buckets key (add_to_bucket buckets t) ts
    ∙ ap (λ xs. xs ++ filter (belongs key) ts) (get_list-add_to_bucket key buckets t)
    ∙ snoc_if (belongs key t) (get_list key buckets) (filter (belongs key) ts) t

-- After the scan the bucket of a content key holds exactly the records of that content whose
-- amount is not zero, in the order of the run.
pub fill_buckets_lem :
    (key : ContentKey) (ts : List CanonicalTransaction)
    → get_list key (fill_buckets [] ts) ≡ filter (belongs key) ts
unfolding get_list
fill_buckets_lem key ts = get_list-fill_buckets key [] ts
