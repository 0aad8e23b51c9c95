-- ===== src/Observation.antt =====
-- src/inference_grid/observation.py: `normalize_observation`, the strict reading of a quota report.
use inference_grid.Prelude.{
  ℕ, ◌+◌, ◌*◌, String, Bool, true, false, not, ◌||◌, Option, none, some, List, [], ◌∷◌, leb, eqb,
  if◌then◌else◌, length, is_empty, ◌==◌,
}
use inference_grid.Prelude.Int.{ℤ, pos, ltb_ℤ}
use Prim.Native.Char.{code}
use inference_grid.Value.{
  Value, Number, null, as_dict, as_list, as_str, as_number, get_value, has_key, has_name, is_finite,
  amount, one,
}
use inference_grid.Result.{Result, ok, value_error, overflow_error, ◌>>=◌, ◌>>◌, raise_if, or_raise}

abbrev pub providers : List String
providers = "codex" ∷ "claude" ∷ "clinepass" ∷ "command-code" ∷ "opencode" ∷ []

abbrev pub window_ids : List String
window_ids = "five_hour" ∷ "weekly" ∷ "monthly" ∷ []

pub record WindowUse : Type 0 where
  pub window_id : String
  -- None where the use is not known.
  pub used_percent : Option Number
  pub resets_at : Value

pub record Observed : Type 0 where
  pub observed_by : String
  pub observed_at : String
  pub observed_ts : ℤ
  pub uses : List WindowUse

-- `s[:-1] + "+00:00" if s.endswith("Z") else s`.
abbrev pub with_offset : String → String
with_offset String.[] = String.[]
with_offset (String.◌∷◌ c String.[]) =
    if eqb (code c) b'Z' then "+00:00" else String.◌∷◌ c String.[]
with_offset (String.◌∷◌ c (String.◌∷◌ d s)) = String.◌∷◌ c (with_offset (String.◌∷◌ d s))

abbrev pub rank : String → ℕ
rank id = if id == "five_hour" then 0 else (if id == "weekly" then 1 else 2)

-- `out.sort(key=...)`, as an insertion sort: the ids differ.
abbrev pub insert_window : WindowUse → List WindowUse → List WindowUse
insert_window w [] = w ∷ []
insert_window w (x ∷ xs) =
    let rest = insert_window w xs in
    if leb (rank w.window_id) (rank x.window_id) then w ∷ x ∷ xs else x ∷ rest

abbrev pub sort_windows : List WindowUse → List WindowUse
sort_windows [] = []
sort_windows (w ∷ ws) = insert_window w (sort_windows ws)

abbrev is_absent : Value → Bool
is_absent null = true
is_absent _ = false

unfoldable pub read_percent : Value → Result (Option Number)
unfolding is_finite amount one
read_percent v = if is_absent v then ok none else (do
  n ← or_raise (as_number v) (value_error "used_percent must be number or None")
  usable ← or_raise (is_finite n) overflow_error
  q ← or_raise (if usable then amount n else none) (value_error "used_percent out of range")
  raise_if (ltb_ℤ q (pos 0) || ltb_ℤ (pos (100 * one)) q) (value_error "used_percent out of range")
  ok (some n))

-- `iso` is `datetime.fromisoformat` and the timestamp of an aware result: none where it raises, and
-- `some none` where the result is naive.
module _ (iso : String → Option (Option ℤ)) where
  unfoldable pub parse_ts : Value → Result ℤ
  parse_ts v = do
    s ← or_raise (as_str v) (value_error "timestamp must be str")
    parsed ← or_raise (iso (with_offset s)) (value_error "Invalid isoformat string")
    or_raise parsed (value_error "naive timestamp not allowed")

  unfoldable pub read_window : ℤ → List String → Value → Result WindowUse
  unfolding read_percent parse_ts
  read_window observed seen v = do
    w ← or_raise (as_dict v) (value_error "bad or duplicate window id")
    id ← or_raise (as_str (get_value "id" w)) (value_error "bad or duplicate window id")
    raise_if (not (has_name id window_ids) || has_name id seen)
        (value_error "bad or duplicate window id")
    raise_if (not (has_key "used_percent" w)) (value_error "missing used_percent")
    used ← read_percent (get_value "used_percent" w)
    resets ←
        if is_absent (get_value "resets_at" w)
        then ok observed
        else parse_ts (get_value "resets_at" w)
    raise_if (ltb_ℤ resets observed) (value_error "resets_at before observed_at")
    ok (record { window_id = id; used_percent = used; resets_at = get_value "resets_at" w })

  unfoldable pub read_windows : ℤ → List String → List Value → Result (List WindowUse)
  unfolding read_window
  read_windows observed seen [] = ok []
  read_windows observed seen (v ∷ vs) = do
    w ← read_window observed seen v
    rest ← read_windows observed (w.window_id ∷ seen) vs
    ok (w ∷ rest)

  unfoldable pub normalize_observation : Value → ℕ → Result Observed
  unfolding parse_ts read_windows one
  normalize_observation v now = do
    raw ← or_raise (as_dict v) (value_error "raw must be dict")
    provider ← or_raise (as_str (get_value "provider" raw)) (value_error "invalid provider")
    raise_if (not (has_name provider providers)) (value_error "invalid provider")
    at ← or_raise (as_str (get_value "observed_at" raw)) (value_error "observed_at must be str")
    observed ← parse_ts (get_value "observed_at" raw)
    raise_if (ltb_ℤ (pos (now + 60 * one)) observed) (value_error "observed_at too far in future")
    windows ←
        or_raise (as_list (get_value "windows" raw)) (value_error "windows must be list of 1..12")
    raise_if (is_empty windows || not (leb (length windows) 12))
        (value_error "windows must be list of 1..12")
    uses ← read_windows observed [] windows
    ok (record {
      observed_by = provider;
      observed_at = at;
      observed_ts = observed;
      uses = sort_windows uses;
    })
