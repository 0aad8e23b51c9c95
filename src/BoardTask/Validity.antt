-- ===== src/BoardTask/Validity.antt =====
-- What a task is that `validate_task` (src/inference_grid/board/task.py) returns.
use inference_grid.Prelude.{
  ℕ, String, Bool, true, false, ◌≡◌, refl, sym, ap, subst, ◌∙◌, ◌≤◌, some, List, [], ◌∷◌, map, All,
  inl, inr, Bool-cases, arith, is_empty,
}
use inference_grid.Prelude.Int.{pos}
use inference_grid.Value.{
  Value, str, num, int, obj, of_dict, dict, null, Dict, as_dict, as_list, is_str, get_value,
  has_name,
}
use inference_grid.Prelude.Text.{is_text, text_length}
use inference_grid.Result.{
  ok, Error, Ensures, Ensures-map, Ensures-ok, gives, raises, then_bind, then_check, then_read,
  then_unless, chain, raise_if,
}
use inference_grid.BoardTask.{
  TaskFields, read_fields, write_fields, is_safe, distinct, text_where, texts_where, path_list,
  bounded_int, check_budget, check_reason, is_reason, is_id, is_brief, check_fields, validate_task,
  is_one_of, task_states, has_exactly, task_keys, is_thinking, categories, lane_list, lanes_message,
  is_lane_id, is_family,
}

text_where-str :
    (p : String → Bool) (v : Value) (s : String)
    → text_where p v ≡ some s
    → (v ≡ str s) × (p s ≡ true)
text_where-str p (str t) s h = elim (Bool-cases (p t)) [
  | inl holds ↦ let same : t ≡ s = ground arith in (ap str same, subst (λ x. p x ≡ true) same holds)
  | inr fails ↦ absurd (ground arith)
]
text_where-str p _ s h = cc

-- A list of texts that pass a test.
pub record AreTexts (p : String → Bool) (vs : List Value) (names : List String) : Type 0 where
  pub values : vs ≡ map str names
  pub passed : All (λ s. p s ≡ true) names

pub texts_where-AreTexts :
    (p : String → Bool) (message : String) (vs : List Value)
    → Ensures (AreTexts p vs) (texts_where p message vs)
unfolding texts_where
texts_where-AreTexts p message [] = gives (record { values = refl; passed = tt })
texts_where-AreTexts p message (v ∷ vs) = then_read _ _ λ s first. then_bind _ λ rest others.
    let h = Ensures-ok (texts_where-AreTexts p message vs) others in
    let (value, passed) = text_where-str p v s first in
    gives (record { values = rw (value, h.values) refl; passed = (passed, h.passed) })

-- What the copy of a valid task is: a valid task again, and its own copy.
read-write : (f : TaskFields) → read_fields (write_fields f) ≡ f
read-write f = refl

pub dict-of_dict : (d : Dict) → dict (of_dict d) ≡ d
dict-of_dict [] = refl
dict-of_dict ((k, v) ∷ d) = rw (dict-of_dict d) refl

record IsChecked (raw : Value) (out : Dict) : Type 0 where
  given : Dict
  object : as_dict raw ≡ some given
  keyed : has_exactly task_keys given ≡ true
  fields : TaskFields
  read : fields ≡ read_fields given
  written : out ≡ write_fields fields
  checked : check_fields fields ≡ ok tt

validate_task-IsChecked : (raw : Value) → Ensures (IsChecked raw) (validate_task raw)
unfolding validate_task
validate_task-IsChecked raw = then_read _ _ λ d object. then_unless _ _ λ keys.
    then_check _ λ checked. gives (record {
      given = d;
      object = object;
      keyed = ground arith;
      fields = read_fields d;
      read = refl;
      written = refl;
      checked = checked;
    })

-- The fields that are written are those that are read.
pub validate_task-read_fields :
    (d : Dict) (f : TaskFields)
    → validate_task (obj (of_dict d)) ≡ ok (write_fields f)
    → f ≡ read_fields d
validate_task-read_fields d f e =
    let h = Ensures-ok (validate_task-IsChecked (obj (of_dict d))) e in
    let same : d ≡ h.given = cc (h.object, dict-of_dict d) in
    ap read_fields h.written ∙ (h.read ∙ ap read_fields (sym same))

-- Validation is stable: what `validate_task` returns is valid, and is returned as it is.
pub validate_task_stable :
    (raw : Value) (out : Dict)
    → validate_task raw ≡ ok out
    → validate_task (obj (of_dict out)) ≡ ok out
unfolding validate_task chain
validate_task_stable raw out e =
    let h = Ensures-ok (validate_task-IsChecked raw) e in rw h.written (rw h.checked refl)

-- A key whose list is of safe paths, which differ.
pub record IsPathList (v : Value) (names : List String) : Type 0 where
  pub items : List Value
  pub listed : as_list v ≡ some items
  pub texts : AreTexts is_safe items names
  pub differ : distinct names ≡ true

record Listed (v : Value) (names : List String) : Type 0 where
  items : List Value
  listed : as_list v ≡ some items
  texts : AreTexts is_safe items names

path_list-Listed : (key : String) (v : Value) → Ensures (Listed v) (path_list key v)
unfolding path_list
path_list-Listed key v = then_read _ _ λ vs listed.
    Ensures-map (λ names t. record { items = vs; listed = listed; texts = t })
      (texts_where-AreTexts _ _ vs)

listed_paths :
    {v : Value} {names : List String} (key : String)
    → path_list key v ≡ ok names
    → distinct names ≡ true
    → IsPathList v names
listed_paths {v} key e differ =
    let h = Ensures-ok (path_list-Listed key v) e in
    record { items = h.items; listed = h.listed; texts = h.texts; differ = differ }

-- A bounded int of a budget.
pub record IsBounded (lo hi : ℕ) (v : Value) : Type 0 where
  pub n : ℕ
  pub value : v ≡ num (int (pos n))
  pub bounds : (lo ≤ n) × (n ≤ hi)

pub bounded_int-IsBounded :
    (lo hi : ℕ) (v : Value) (n : ℕ) → bounded_int lo hi v ≡ some n → IsBounded lo hi v
unfolding bounded_int
bounded_int-IsBounded lo hi (num (int (pos m))) n h = record {
  n = m;
  value = refl;
  bounds = (ground arith, ground arith);
}
bounded_int-IsBounded lo hi _ n h = cc

-- The thinking tokens of a budget, where they are limited.
pub data IsThinking : Value → Type 0 where
  unlimited : IsThinking null
  limited_to : (n : ℕ) → n ≤ 100_000 → IsThinking (num (int (pos n)))

is_thinking-IsThinking : (v : Value) → is_thinking v ≡ true → IsThinking v
unfolding is_thinking
is_thinking-IsThinking null h = unlimited
is_thinking-IsThinking (num (int (pos n))) h = limited_to n (ground arith)
is_thinking-IsThinking _ h = cc

pub record IsBudget (v : Value) : Type 0 where
  pub fields : Dict
  pub object : as_dict v ≡ some fields
  pub wall_seconds : IsBounded 30 3600 (get_value "wall_seconds" fields)
  pub output_bytes : IsBounded 1 10_000_000 (get_value "output_bytes" fields)
  pub thinking_tokens : IsThinking (get_value "thinking_tokens" fields)

record Budgeted (v : Value) (u : Unit {0}) : Type 0 where
  budget : IsBudget v

pub last_check {ℓ} :
    {P : Unit {0} → Type ℓ} (b : Bool) (e : Error) → (b ≡ false → P tt) → Ensures P (raise_if b e)
unfolding chain
last_check true e h = raises
last_check false e h = gives (h refl)

check_budget-Budgeted : (v : Value) → Ensures (Budgeted v) (check_budget v)
unfolding check_budget
check_budget-Budgeted v = then_read _ _ λ b object. then_unless _ _ λ keys.
    then_read _ _ λ wall wall_of. then_read _ _ λ bytes bytes_of. last_check _ _ λ thinking.
      record {
        budget = record {
          fields = b;
          object = object;
          wall_seconds = bounded_int-IsBounded 30 3600 _ wall wall_of;
          output_bytes = bounded_int-IsBounded 1 10_000_000 _ bytes bytes_of;
          thinking_tokens = is_thinking-IsThinking (get_value "thinking_tokens" b) (ground arith);
        };
      }

-- The lanes: at least one, and no lane twice.
pub record AreLaneIds (v : Value) (names : List String) : Type 0 where
  pub items : List Value
  pub listed : as_list v ≡ some items
  pub texts : AreTexts is_lane_id items names
  pub some_lane : is_empty items ≡ false
  pub differ : distinct names ≡ true

lane_list-AreLaneIds : (v : Value) → Ensures (AreLaneIds v) (lane_list v)
unfolding lane_list
lane_list-AreLaneIds v = then_read _ _ λ vs listed. then_unless _ _ λ some_lane.
    then_unless _ _ λ hashable. then_bind _ λ names named. then_unless _ _ λ differ. gives (record {
      items = vs;
      listed = listed;
      texts = Ensures-ok (texts_where-AreTexts is_lane_id lanes_message vs) named;
      some_lane = some_lane;
      differ = ground arith;
    })

-- The author's family, where one is named.
pub data IsFamily : Value → Type 0 where
  no_family : IsFamily null
  of_family : (s : String) → is_text s ≡ true → text_length s ≤ 40 → IsFamily (str s)

is_family-IsFamily : (v : Value) → is_family v ≡ true → IsFamily v
unfolding is_family
is_family-IsFamily null h = no_family
is_family-IsFamily (str s) h = of_family s (ground arith) (ground arith)
is_family-IsFamily _ h = cc

-- The reason of a blocked task, and of another one.
pub data IsReasoned : Bool → Value → Type 0 where
  blocked_for : (s : String) → is_reason s ≡ true → IsReasoned true (str s)
  unblocked : IsReasoned false null

record Reasoned (blocked : Bool) (reason : Value) (u : Unit {0}) : Type 0 where
  reasoned : IsReasoned blocked reason

check_reason-Reasoned :
    (b : Bool) (reason : Value) → Ensures (Reasoned b reason) (check_reason b reason)
unfolding check_reason
check_reason-Reasoned true reason = then_read _ _ λ s given.
    let (value, fits) = text_where-str is_reason reason s given in
    gives (record { reasoned = subst (IsReasoned true) (sym value) (blocked_for s fits) })
check_reason-Reasoned false null = gives (record { reasoned = unblocked })
check_reason-Reasoned false _ = raises

pub record IsTask (f : TaskFields) : Type 0 where
  pub id : (s : String) × (f.id ≡ str s) × (is_id s ≡ true)
  pub category : is_one_of categories f.category ≡ true
  pub lanes : (names : List String) × AreLaneIds f.lanes names
  pub family : IsFamily f.author_family
  pub brief : String
  pub brief_of : (f.brief ≡ str brief) × (is_brief brief ≡ true)
  pub inputs : (names : List String) × IsPathList f.inputs names × (has_name brief names ≡ true)
  pub tests : (names : List String) × IsPathList f.tests names
  pub artifacts : (names : List String) × IsPathList f.artifacts names × (is_empty names ≡ false)
  pub budget : IsBudget f.budget
  pub state : is_one_of task_states f.state ≡ true
  pub reason : IsReasoned (is_str "blocked" f.state) f.blocked_reason

record Tasked (f : TaskFields) (u : Unit {0}) : Type 0 where
  task : IsTask f

check_fields-Tasked : (f : TaskFields) → Ensures (Tasked f) (check_fields f)
unfolding check_fields
check_fields-Tasked f = then_read _ _ λ id id_of. then_unless _ _ λ category.
    then_read _ _ λ brief brief_of. then_bind _ λ inputs inputs_of. then_bind _ λ tests tests_of.
      then_bind _ λ artifacts artifacts_of. then_unless _ _ λ some_inputs.
        then_unless _ _ λ some_tests. then_unless _ _ λ some_artifacts.
          then_bind _ λ lanes lanes_of. then_unless _ _ λ family. then_check _ λ budget_of.
            then_unless _ _ λ state_of. then_check _ λ reason_of. last_check _ _ λ listed.
              let (id_text, id_fits) = text_where-str is_id f.id id id_of in
              record {
                task = record {
                  id = (id, id_text, id_fits);
                  category = ground arith;
                  lanes = (lanes, Ensures-ok (lane_list-AreLaneIds f.lanes) lanes_of);
                  family = is_family-IsFamily f.author_family (ground arith);
                  brief = brief;
                  brief_of = text_where-str is_brief f.brief brief brief_of;
                  inputs = (inputs, listed_paths "inputs" inputs_of (ground arith), ground arith);
                  tests = (tests, listed_paths "tests" tests_of (ground arith));
                  artifacts = (
                    artifacts,
                    listed_paths "artifacts" artifacts_of (ground arith),
                    ground arith,
                  );
                  budget = (Ensures-ok (check_budget-Budgeted f.budget) budget_of).budget;
                  state = ground arith;
                  reason =
                      (Ensures-ok
                        (check_reason-Reasoned (is_str "blocked" f.state) f.blocked_reason)
                        reason_of).reasoned;
                };
              }

-- A value that `validate_task` takes is a dictionary with exactly the eleven keys of a task, and what
-- it returns has these keys with the values of the given one. They are well formed: the id is of 1 to
-- 60 lower-case letters, digits and dashes; the category is one of the five; the brief ends in ".txt"
-- and is among the inputs; inputs and artifacts are not empty, and the inputs, tests and artifacts are
-- safe paths that differ; there is at least one lane, and the lanes are ids that differ; the author's
-- family is None or of 1 to 40 characters; the budget has 30 to 3600 seconds, 1 to 10000000 bytes and
-- None or at most 100000 thinking tokens; the state is one of the six; and there is a reason, of 1 to
-- 300 characters, exactly where the state is blocked.
pub validate_task-IsTask :
    (raw : Value) (out : Dict)
    → validate_task raw ≡ ok out
    → (given : Dict) × (as_dict raw ≡ some given)
      × (has_exactly task_keys given ≡ true)
      × (out ≡ write_fields (read_fields given))
      × IsTask (read_fields given)
validate_task-IsTask raw out e =
    let h = Ensures-ok (validate_task-IsChecked raw) e in
    (
      h.given,
      h.object,
      h.keyed,
      h.written ∙ ap write_fields h.read,
      subst IsTask h.read (Ensures-ok (check_fields-Tasked h.fields) h.checked).task,
    )
