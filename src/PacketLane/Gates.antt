-- ===== src/PacketLane/Gates.antt =====
-- src/inference_grid/lanes/packet.py: the gates that run after an agent, and the prompt that their
-- failures make.
use inference_grid.Prelude.{
  ℕ, zero, suc, ◌+◌, ◌-◌, ◌/◌, String, Bool, true, false, not, ◌&&◌, ◌==◌, Option, none, some, List,
  [], ◌∷◌, ◌++◌, all, length, eqb, ltb, leb, where_rows, if◌then◌else◌,
}
use inference_grid.Prelude.Int.{ℤ, pos, eqb_ℤ}
use inference_grid.Prelude.Text.{is_space, text_length, join}
use Prim.Native.Char.{code}
use Prim.Native.Nat.{◌%◌}
use Prim.Native.String.{◌++◌ as ◌~◌}

pub record Gate : Type 0 where
  pub name : String
  pub argv : List String
  pub cwd : String
  pub timeout : ℕ
  pub env : List (String × String)

pub record GateResult : Type 0 where
  pub gate_name : String
  pub is_ok : Bool
  pub returncode : Option ℤ
  pub tail : String
  -- In hundredths of a second.
  pub elapsed : ℕ
  pub gate_reason : String

-- How the run of a gate's command ended.
pub data Ran : Type 0 where
  exited : ℤ → Ran
  timed_out : Ran
  -- The operating system's refusal.
  refused_start : Ran

-- One run: how it ended, what is at the end of its log, and how long it took.
pub record GateRun : Type 0 where
  pub ran : Ran
  pub log_tail : String
  pub lasted : ℕ

abbrev pub code_of : Ran → Option ℤ
code_of (exited c) = some c
code_of timed_out = none
code_of refused_start = none

abbrev pub reason_of : Ran → String
reason_of (exited c) = "exited"
reason_of timed_out = "timeout"
reason_of refused_start = "could_not_start"

-- `code == 0`.
abbrev pub is_zero_code : Option ℤ → Bool
is_zero_code none = false
is_zero_code (some c) = eqb_ℤ c (pos 0)

unfoldable pub run_gate : Gate → GateRun → GateResult
run_gate gate r = record {
  gate_name = gate.name;
  is_ok = is_zero_code (code_of r.ran);
  returncode = code_of r.ran;
  tail = r.log_tail;
  elapsed = r.lasted;
  gate_reason = reason_of r.ran;
}

-- The gates in their order; `world` answers for each gate at its place.
unfoldable pub run_gates : (ℕ → Gate → GateRun) → ℕ → List Gate → List GateResult
unfolding run_gate
run_gates world i [] = []
run_gates world i (gate ∷ gates) = run_gate gate (world i gate) ∷ run_gates world (suc i) gates

-- `all(r.ok for r in results)`.
abbrev pub all_ok : List GateResult → Bool
all_ok results = all (λ r. r.is_ok) results

abbrev pub same_bool : Bool → Bool → Bool
same_bool true b = b
same_bool false b = not b

abbrev pub same_code : Option ℤ → Option ℤ → Bool
same_code none none = true
same_code (some a) (some b) = eqb_ℤ a b
same_code _ _ = false

-- `_gate_mark(a) == _gate_mark(b)`.
abbrev pub same_mark : GateResult → GateResult → Bool
same_mark a b =
    (a.gate_name == b.gate_name)
    && (same_bool a.is_ok b.is_ok
        && ((a.gate_reason == b.gate_reason) && same_code a.returncode b.returncode))

unfoldable pub same_marks : List GateResult → List GateResult → Bool
same_marks [] [] = true
same_marks (a ∷ as_) (b ∷ bs) = same_mark a b && same_marks as_ bs
same_marks _ _ = false

unfoldable pub gates_unchanged : Option (List GateResult) → List GateResult → Bool
unfolding same_marks
gates_unchanged none results = true
gates_unchanged (some previous) results = same_marks previous results

-- `int(round(n / 60.0))`, which rounds a half to the even number.
abbrev pub rounded_minutes : ℕ → ℕ
rounded_minutes n =
    if ltb (n % 60) 30
    then n / 60
    else (if eqb (n % 60) 30 && eqb ((n / 60) % 2) 0 then n / 60 else (n / 60) + 1)

unfoldable pub idle_minutes : ℕ → ℕ
idle_minutes seconds = if leb 1 (rounded_minutes seconds) then rounded_minutes seconds else 1

-- `s.strip()` of a text.
abbrev pub blank_text : String → Bool
blank_text String.[] = true
blank_text (String.◌∷◌ c s) = is_space (code c) && blank_text s

abbrev pub without_front : String → String
without_front String.[] = String.[]
without_front (String.◌∷◌ c s) =
    let rest = without_front s in if is_space (code c) then rest else String.◌∷◌ c s

abbrev pub without_back : String → String
without_back String.[] = String.[]
without_back (String.◌∷◌ c s) =
    if blank_text (String.◌∷◌ c s) then String.[] else String.◌∷◌ c (without_back s)

-- `s[-n:]`, for n > 0.
abbrev pub drop_codes : ℕ → String → String
drop_codes zero s = s
drop_codes (suc n) String.[] = String.[]
drop_codes (suc n) (String.◌∷◌ c s) = drop_codes n s

abbrev pub last_codes : ℕ → String → String
last_codes n s = drop_codes (text_length s - n) s

abbrev pub tail_chars : ℕ
tail_chars = 6000

-- `show` is Python's `str` of an integer.
module _ (show : ℤ → String) where
  -- The first lines: what the round before did not do.
  unfoldable pub opening : Bool → Option ℕ → List String
  opening stopped_early (some minutes) =
      ("the previous round produced no change in "
        ~ (show (pos minutes)
            ~ (" "
                ~ ((if eqb minutes 1 then "minute" else "minutes")
                    ~ "; commit what you have or say why. The worktree and the transcript both stood still, so the harness cut the round short — finish the packet in this session, on this branch."))))
      ∷ ""
      ∷ []
  opening true none =
      "your previous session ended without changing anything: the worktree and every gate result are identical to the round before, so that round was not the work. Make the change now, in this session, and leave it on the branch."
      ∷ "" ∷ []
  opening false none = []

  abbrev pub instruction : ℕ → ℕ → ℕ → String
  instruction round_no max_rounds failed =
      "The harness ran the gates after your last turn (round "
      ~ (show (pos round_no)
          ~ (" of "
              ~ (show (pos max_rounds)
                  ~ ("). "
                      ~ (show (pos failed)
                          ~ " failed. Fix them on the branch you are on, with a NEW commit (never amend, rebase or squash), same trailer as before. Do not weaken, skip or delete a test to make a gate pass; if a gate fails for a reason outside your packet, say so in the report and leave it. Run the failing gate yourself before you finish. Then update the report file and its copy in the working directory.")))))

  abbrev pub exit_text : Option ℤ → String
  exit_text none = ""
  exit_text (some c) = ", exit " ~ show c

  -- The lines on one gate that failed.
  abbrev pub failure_lines : GateResult → List String
  failure_lines r =
      ("### " ~ (r.gate_name ~ (" — " ~ (r.gate_reason ~ exit_text r.returncode))))
      ∷ "```"
      ∷ last_codes tail_chars (without_back (without_front r.tail))
      ∷ "```"
      ∷ ""
      ∷ []

  abbrev pub all_failure_lines : List GateResult → List String
  all_failure_lines [] = []
  all_failure_lines (r ∷ rs) = failure_lines r ++ all_failure_lines rs

  abbrev pub failed_gates : List GateResult → List GateResult
  failed_gates results = where_rows (λ r. not r.is_ok) results

  unfoldable pub fix_prompt : List GateResult → ℕ → ℕ → Bool → Option ℕ → String
  unfolding opening
  fix_prompt results round_no max_rounds stopped_early minutes = join "\n" (
      opening stopped_early minutes
      ++ ((instruction round_no max_rounds (length (failed_gates results)) ∷ "" ∷ [])
          ++ all_failure_lines (failed_gates results)))
