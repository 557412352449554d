-- ===== src/Common/Dict.antt =====
-- A Python dict, in insertion order. Keys are compared by an instance of `Eq`.
use mathlib.Core.Path.{◌≡◌}
use mathlib.Core.Option.{Option, none, some}
use mathlib.Core.List.{List, [], ◌∷◌, ◌++◌}
use native.Mathlib.Omega.{arith}
use ai_finance_controller.Common.Tests.{if◌then◌else◌}
use ai_finance_controller.Common.Eq.{Eq}

abbrev pub Dict {ℓ} : Type 0 → Type ℓ → Type ℓ
Dict K V = List (K × V)

module _ {ℓ} {K : Type 0} {V : Type ℓ} ⦃e : Eq K⦄ where
  unfoldable pub lookup : K → Dict K V → Option V
  lookup k [] = none
  lookup k ((j, v) ∷ m) = if e.beq j k then some v else lookup k m

  -- `m[k] = v`
  unfoldable pub insert : K → V → Dict K V → Dict K V
  insert k v [] = (k, v) ∷ []
  insert k v ((j, w) ∷ m) = if e.beq j k then (j, v) ∷ m else (j, w) ∷ insert k v m

  -- `m.setdefault(k, v)`: the first write wins.
  unfoldable pub set_default : K → V → Dict K V → Dict K V
  set_default k v [] = (k, v) ∷ []
  set_default k v ((j, w) ∷ m) = if e.beq j k then (j, w) ∷ m else (j, w) ∷ set_default k v m

  -- `m[k].append(v)` of a `defaultdict(list)`.
  unfoldable pub push : K → V → Dict K (List V) → Dict K (List V)
  push k v [] = (k, v ∷ []) ∷ []
  push k v ((j, vs) ∷ m) = if e.beq j k then (j, vs ++ v ∷ []) ∷ m else (j, vs) ∷ push k v m

  -- `m.get(k, ())`
  unfoldable pub get_list : K → Dict K (List V) → List V
  get_list k [] = []
  get_list k ((j, vs) ∷ m) = if e.beq j k then vs else get_list k m

  pub get_list-push :
      (k j : K) (v : V) (m : Dict K (List V))
      → get_list j (push k v m) ≡ (if e.beq k j then get_list j m ++ v ∷ [] else get_list j m)
  unfolding get_list push
  get_list-push k j v [] = ground arith
  get_list-push k j v ((i, vs) ∷ m) =
      ground (arith, e.beq_iff k j, e.beq_iff i k, e.beq_iff i j, get_list-push k j v m)

  pub lookup-set_default :
      (k j : K) (v : V) (m : Dict K V)
      → lookup j (set_default k v m)
        ≡ (elim (lookup j m) [ some w ↦ some w | none ↦ if e.beq k j then some v else none ])
  unfolding lookup set_default
  lookup-set_default k j v [] = ground arith
  lookup-set_default k j v ((i, w) ∷ m) =
      ground (arith, e.beq_iff k j, e.beq_iff i k, e.beq_iff i j, lookup-set_default k j v m)

  pub lookup-insert :
      (k j : K) (v : V) (m : Dict K V)
      → lookup j (insert k v m) ≡ (if e.beq k j then some v else lookup j m)
  unfolding lookup insert
  lookup-insert k j v [] = ground arith
  lookup-insert k j v ((i, w) ∷ m) =
      ground (arith, e.beq_iff k j, e.beq_iff i k, e.beq_iff i j, lookup-insert k j v m)
