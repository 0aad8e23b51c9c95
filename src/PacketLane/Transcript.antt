-- ===== src/PacketLane/Transcript.antt =====
-- src/inference_grid/lanes/packet.py: what is kept and what is read of an agent's transcript. A line is
-- its code points, and a transcript that cannot be read is `none`.
use inference_grid.Prelude.{
  ℕ, zero, suc, String, Bool, false, ◌&&◌, ◌||◌, Option, none, some, List, [], ◌∷◌, any, eqb, leb,
  is_empty, if◌then◌else◌,
}
use inference_grid.Prelude.Text.{codes, strip, has_prefix}
use inference_grid.Value.{Value, null, Dict, as_dict, as_str, is_str, get_value, has_key, truthy}
use inference_grid.Result.{Result, ok, raised, other_error, ◌>>=◌, or_raise}
use inference_grid.Routing.Route.{has_part}

abbrev pub Line : Type 0
Line = List ℕ

abbrev pub delta_events : List String
delta_events = "\"thinking_delta\"" ∷ "\"text_delta\"" ∷ "\"content_delta\"" ∷ []

unfoldable pub is_delta_line : Line → Bool
unfolding has_part
is_delta_line raw = any (λ kind. has_part (codes kind) raw) delta_events

-- What the filter writes, and how many lines it drops.
unfoldable pub stream_transcript : List Line → List Line × ℕ
unfolding is_delta_line
stream_transcript [] = ([], 0)
stream_transcript (raw ∷ stream) =
    let rest : List Line × ℕ = stream_transcript stream in
    if is_delta_line raw then (rest.0, suc rest.1) else (raw ∷ rest.0, rest.1)

-- One transcript of `compact_transcripts`: the file that is left, and what was dropped.
unfoldable pub compact_transcript : List Line → List Line × ℕ
unfolding stream_transcript
compact_transcript native =
    if eqb (stream_transcript native).1 0 then (native, 0) else stream_transcript native

-- `find` is `re.search` with the pattern's one group.
unfoldable pub first_match : (Line → Option String) → Option (List Line) → Option String
first_match find none = none
first_match find (some []) = none
first_match find (some (raw ∷ rest)) = elim (find raw) [
  | none ↦ first_match find (some rest)
  | some found ↦ some found
]

-- The codes at which `splitlines` ends a line.
abbrev pub ends_line : ℕ → Bool
ends_line c =
    (leb 10 c && leb c 13) || ((leb 28 c && leb c 30) || (eqb c 133 || (eqb c 8232 || eqb c 8233)))

-- `[:n]` of the first line.
abbrev pub first_line : ℕ → List ℕ → List ℕ
first_line zero s = []
first_line (suc n) [] = []
first_line (suc n) (c ∷ s) = if ends_line c then [] else c ∷ first_line n s

-- `row.get("subtype", "").startswith("error")`.
unfoldable pub is_error_result : Dict → Result Bool
is_error_result row =
    if has_key "subtype" row
    then (do
      subtype ← or_raise (as_str (get_value "subtype" row)) (other_error "AttributeError")
      ok (has_prefix (codes subtype) (codes "error")))
    else ok false

-- The text in which an error row may name a limit.
unfoldable pub limit_text : Dict → Result Value
unfolding is_error_result
limit_text row =
    if is_str "error" (get_value "type" row)
    then ok (get_value "message" row)
    else if is_str "run_result" (get_value "type" row)
        && is_str "error" (get_value "finishReason" row)
    then ok (get_value "text" row)
    else if is_str "result" (get_value "type" row)
    then (is_error_result row >>= λ failed. ok (
        if failed
        then if truthy (get_value "result" row)
          then get_value "result" row
          else get_value "error" row
        else null))
    else ok null

-- What a terminal row says of its own ending.
pub record Terminal : Type 0 where
  pub subtype : Value
  pub stop_reason : Value

-- `parse` is `json.loads` of a line, and `matches` whether one of the provider's patterns is found.
module _ (parse : List ℕ → Option Value) where
  -- The object in a line that opens one.
  unfoldable pub row_of : Line → Option Dict
  unfolding strip
  row_of raw =
      if has_prefix (strip raw) (codes "{")
      then elim (parse (strip raw)) [ none ↦ none | some v ↦ as_dict v ]
      else none

  -- The last terminal row wins.
  unfoldable pub last_result_row : List Line → Option Terminal → Option Terminal
  unfolding row_of
  last_result_row [] found = found
  last_result_row (raw ∷ rest) found = last_result_row rest (elim (row_of raw) [
    | none ↦ found
    | some row ↦
        if is_str "result" (get_value "type" row)
        then some
            (record { subtype = get_value "subtype" row; stop_reason = get_value "stopReason" row })
        else found
  ])

  unfoldable pub terminal_corroboration : Option (List Line) → Option Terminal
  unfolding last_result_row
  terminal_corroboration none = none
  terminal_corroboration (some native) = last_result_row native none

module _ (parse : List ℕ → Option Value) (matches : String → Bool) where
  -- The message in one text: its first line, cut.
  unfoldable pub limit_in : Value → Result (Option (List ℕ))
  unfolding strip
  limit_in v = elim (as_str v) [
    | none ↦ ok none
    | some text ↦
        if matches text
        then if is_empty (strip (codes text))
          then raised (other_error "IndexError")
          else ok (some (first_line 200 (strip (codes text))))
        else ok none
  ]

  unfoldable pub limit_in_row : Option Dict → Result (Option (List ℕ))
  unfolding limit_text limit_in
  limit_in_row none = ok none
  limit_in_row (some row) = limit_text row >>= limit_in

  unfoldable pub limit_in_lines : List Line → Result (Option (List ℕ))
  unfolding row_of limit_in_row
  limit_in_lines [] = ok none
  limit_in_lines (raw ∷ rest) = limit_in_row (row_of parse raw) >>= λ found. elim found [
    | none ↦ limit_in_lines rest
    | some message ↦ ok (some message)
  ]

  unfoldable pub provider_limit_message : Option (List Line) → Result (Option (List ℕ))
  unfolding limit_in_lines
  provider_limit_message none = ok none
  provider_limit_message (some native) = limit_in_lines native
