-- ===== src/GoatOutcomes/Completion.antt =====
-- When `classify_goat` (src/inference_grid/goat_outcomes.py) calls a run complete.
use inference_grid.Prelude.{
  String, true, false, not, ◌≡◌, refl, sym, subst, some, List, [], ◌∷◌, All, inl, inr, Bool-cases,
  Option-cases, arith, is_empty, any, length, where_rows,
}
use inference_grid.Value.{Value, Dict, as_dict, as_list, is_str, get_value}
use inference_grid.Result.{
  Result, ok, raised, refused, Ensures, Ensures-ok, gives, then_read, then_unless,
}
use inference_grid.GoatOutcomes.{
  GoatProgress, native_complete, GoatReceipt, GoatResult, rows_of, request_ends, progress_of,
  is_zero, is_terminal, last_terminal, as_model, as_final_text, receipt_of, judge, judged,
  classify_rows, classify_goat, is_budget_reason,
}

all_models :
    (model : String) (mres : List Dict)
    → any (λ event. not (is_str model (get_value "model" event))) mres ≡ false
    → All (λ event. is_str model (get_value "model" event) ≡ true) mres
all_models model [] h = tt
all_models model (event ∷ mres) h = (ground arith, all_models model mres (ground arith))

-- A run that is complete, and its receipt.
pub record IsCompleted (rows mres : List Dict) (supervisor : Dict) (expected_model : Value)
    (receipt : GoatReceipt) : Type 0 where
  pub exited : is_str "process_exited" (get_value "reason" supervisor) ≡ true
  pub succeeded : is_zero (get_value "returncode" supervisor) ≡ true
  pub one_terminal : length (where_rows is_terminal rows) ≡ 1
  pub final : Dict
  pub at_the_end : last_terminal rows ≡ some final
  pub ended :
      (is_str "success" (get_value "subtype" final) ≡ true)
      × (is_str "end_turn" (get_value "stopReason" final) ≡ true)
  pub model : String
  pub expected : as_model expected_model ≡ some model
  pub requested : is_empty mres ≡ false
  pub same_model : All (λ event. is_str model (get_value "model" event) ≡ true) mres
  pub text : String
  pub final_text : as_final_text (get_value "finalText" final) ≡ some text
  pub receipt_is : receipt ≡ receipt_of model text mres final

judge-IsCompleted :
    (rows mres : List Dict) (supervisor : Dict) (expected_model : Value)
    → Ensures
        (IsCompleted rows mres supervisor expected_model)
        (judge rows mres supervisor expected_model)
unfolding judge
judge-IsCompleted rows mres supervisor expected_model = then_unless _ _ λ exited.
    then_unless _ _ λ succeeded. then_unless _ _ λ one_terminal. then_read _ _ λ final at_the_end.
      then_unless _ _ λ ended. then_read _ _ λ model expected. then_unless _ _ λ requests.
        then_read _ _ λ text final_text. gives (record {
          exited = ground arith;
          succeeded = ground arith;
          one_terminal = ground arith;
          final = final;
          at_the_end = at_the_end;
          ended = (ground arith, ground arith);
          model = model;
          expected = expected;
          requested = ground arith;
          same_model = all_models model mres (ground arith);
          text = text;
          final_text = final_text;
          receipt_is = refl;
        })

judged_complete :
    (progress : GoatProgress) (m : Result GoatReceipt)
    → (judged progress m).outcome ≡ native_complete
    → (receipt : GoatReceipt) × (m ≡ ok receipt) × ((judged progress m).receipt ≡ some receipt)
judged_complete progress (ok receipt) h = (receipt, refl, refl)
judged_complete progress (raised (refused reason)) h = cc
judged_complete progress (raised _) h = cc

pub record IsNativeComplete (events supervisor expected_model : Value) (r : GoatResult)
    : Type 0 where
  pub values : List Value
  pub listed : as_list events ≡ some values
  pub rows : List Dict
  pub objects : rows_of values ≡ some rows
  pub supervised : Dict
  pub supervisor_of : as_dict supervisor ≡ some supervised
  pub receipt : GoatReceipt
  pub receipt_of : r.receipt ≡ some receipt
  pub completed : IsCompleted rows (request_ends rows) supervised expected_model receipt

module _ (events supervisor expected_model : Value) (values : List Value) (rows : List Dict) where
  rows-IsNativeComplete :
      as_list events ≡ some values
      → rows_of values ≡ some rows
      → (classify_rows rows supervisor expected_model).outcome ≡ native_complete
      → IsNativeComplete events supervisor expected_model
          (classify_rows rows supervisor expected_model)
  unfolding classify_rows
  rows-IsNativeComplete listed objects h = elim (Option-cases (as_dict supervisor)) [
    | inl absent ↦ absurd (ground arith)
    | inr (d, supervisor_of) ↦ elim (Bool-cases (is_budget_reason (get_value "reason" d))) [
      | inl budget ↦ absurd (ground arith)
      | inr within ↦
          let progress = progress_of (request_ends rows) in
          let verdict = judge rows (request_ends rows) d expected_model in
          let same : classify_rows rows supervisor expected_model ≡ judged progress verdict =
            rw (supervisor_of, classify_rows) (rw within refl) in
          let (receipt, e, given) =
            judged_complete progress verdict (subst (λ r. r.outcome ≡ native_complete) same h) in
          record {
            values = values;
            listed = listed;
            rows = rows;
            objects = objects;
            supervised = d;
            supervisor_of = supervisor_of;
            receipt = receipt;
            receipt_of = rw same given;
            completed = Ensures-ok (judge-IsCompleted rows (request_ends rows) d expected_model) e;
          }
    ]
  ]

-- A run is called complete only where every row is an object, the supervisor saw the process exit by
-- itself with code 0, exactly one row is terminal, and it is the last and ends the turn with success
-- and a text that is not blank, at least one model request ended, and every one of them was of the
-- expected model, which the receipt then names.
pub classify_goat-IsNativeComplete :
    (events supervisor expected_model : Value)
    → (classify_goat events supervisor expected_model).outcome ≡ native_complete
    → IsNativeComplete events supervisor expected_model
        (classify_goat events supervisor expected_model)
unfolding classify_goat
classify_goat-IsNativeComplete events supervisor expected_model h =
    elim (Option-cases (as_list events)) [
      | inl absent ↦ absurd (ground arith)
      | inr (values, listed) ↦ elim (Option-cases (rows_of values)) [
        | inl no_rows ↦ absurd (ground arith)
        | inr (rows, objects) ↦
            let same : classify_goat events supervisor expected_model
                ≡ classify_rows rows supervisor expected_model =
              rw (listed, classify_goat) (rw objects refl) in
            subst (IsNativeComplete events supervisor expected_model) (sym same) (
              rows-IsNativeComplete events supervisor expected_model values rows listed objects
                (subst (λ r. r.outcome ≡ native_complete) same h))
      ]
    ]
