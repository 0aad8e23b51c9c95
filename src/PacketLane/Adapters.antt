-- ===== src/PacketLane/Adapters.antt =====
-- src/inference_grid/lanes/packet.py: how an agent's command line starts a session and enters it again.
use inference_grid.Prelude.{
  ℕ, String, Bool, ◌++◌, Option, none, some, List, [], ◌∷◌, eqb, if◌then◌else◌,
}
use inference_grid.Prelude.Text.{is_text}
use inference_grid.Value.{Value, as_dict, as_str, get_value}
use inference_grid.PacketLane.Transcript.{Line, first_match}

pub record Adapter : Type 0 where
  pub name : String
  pub first : String → List String
  pub resume : String → String → List String
  pub session_id : Option (List Line) → Option String

-- `if option: argv += [flag, option]` of a text, and the same of any value but None.
abbrev pub flag_text : String → Option String → List String
flag_text flag none = []
flag_text flag (some s) = if is_text s then flag ∷ s ∷ [] else []

abbrev pub flag_path : String → Option String → List String
flag_path flag none = []
flag_path flag (some s) = flag ∷ s ∷ []

pub record CommandCode : Type 0 where
  pub model : String
  pub mod_path : Option String
  pub binary : String
  -- `str` of the number.
  pub max_turns : String
  pub session_name : Option String

abbrev pub command_code_tail : CommandCode → List String
command_code_tail c =
    ("--model" ∷ c.model ∷ "--max-turns" ∷ c.max_turns ∷ "--output-format" ∷ "json"
      ∷ "--skip-onboarding" ∷ "--no-auto-update" ∷ "--no-skills" ∷ "--yolo" ∷ "--tools-all" ∷ [])
    ++ flag_path "--mod" c.mod_path

-- `find` is the search of a line for the adapter's pattern.
unfoldable pub command_code_adapter : (Line → Option String) → CommandCode → Adapter
unfolding first_match
command_code_adapter find c = record {
  name = "command_code";
  first = λ prompt.
      (c.binary ∷ "--print" ∷ prompt ∷ [])
      ++ (command_code_tail c ++ flag_text "--name" c.session_name);
  resume = λ session prompt.
      (c.binary ∷ "--print" ∷ prompt ∷ "--session" ∷ session ∷ []) ++ command_code_tail c;
  session_id = first_match find;
}

pub record Zcode : Type 0 where
  pub zcode_work : Option String
  pub zcode_binary : String
  pub wrapper : Option String
  pub mode : String

abbrev pub zcode_head : Zcode → List String
zcode_head z = elim (z.wrapper) [
  | none ↦ z.zcode_binary ∷ []
  | some w ↦ if is_text w then w ∷ z.zcode_binary ∷ [] else z.zcode_binary ∷ []
]

abbrev pub zcode_tail : Zcode → String → List String
zcode_tail z prompt =
    ("--prompt" ∷ prompt ∷ "--mode" ∷ z.mode ∷ "--json" ∷ "--no-color" ∷ [])
    ++ flag_path "--cwd" z.zcode_work

-- From the first brace on, where there is one.
abbrev pub from_brace : List ℕ → Option (List ℕ)
from_brace [] = none
from_brace (c ∷ s) = let rest = from_brace s in if eqb c b'{' then some (c ∷ s) else rest

abbrev pub whole_text : List Line → List ℕ
whole_text [] = []
whole_text (raw ∷ rest) = raw ++ whole_text rest

-- `parse` is `json.loads`.
unfoldable pub zcode_session : (List ℕ → Option Value) → Option (List Line) → Option String
zcode_session parse none = none
zcode_session parse (some native) = elim (from_brace (whole_text native)) [
  | none ↦ none
  | some text ↦ elim (parse text) [
    | none ↦ none
    | some v ↦ elim (as_dict v) [
      | none ↦ none
      | some document ↦ as_str (get_value "sessionId" document)
    ]
  ]
]

unfoldable pub zcode_adapter : (List ℕ → Option Value) → Zcode → Adapter
unfolding zcode_session
zcode_adapter parse z = record {
  name = "zcode";
  first = λ prompt. zcode_head z ++ zcode_tail z prompt;
  resume = λ session prompt. zcode_head z ++ ("--resume" ∷ session ∷ zcode_tail z prompt);
  session_id = zcode_session parse;
}

pub record Opencode : Type 0 where
  pub opencode_model : String
  pub directory : String
  pub opencode_binary : String
  pub title : Option String
  pub debug : Bool

abbrev pub opencode_tail : Opencode → String → List String
opencode_tail o prompt =
    ("--model" ∷ o.opencode_model ∷ "--format" ∷ "json" ∷ "--auto" ∷ [])
    ++ ((if o.debug then "--print-logs" ∷ "--log-level" ∷ "DEBUG" ∷ [] else [])
        ++ (flag_text "--title" o.title ++ ("--dir" ∷ o.directory ∷ prompt ∷ [])))

unfoldable pub opencode_adapter : (Line → Option String) → Opencode → Adapter
unfolding first_match
opencode_adapter find o = record {
  name = "opencode";
  first = λ prompt. o.opencode_binary ∷ "run" ∷ opencode_tail o prompt;
  resume =
      λ session prompt. o.opencode_binary ∷ "run" ∷ "--session" ∷ session ∷ opencode_tail o prompt;
  session_id = first_match find;
}
