-- ===== src/Receipts.antt =====
-- src/inference_grid/receipts.py: the shape of a terminal adapter receipt.
pub mod Laws
use inference_grid.Prelude.{
  ℕ, String, Bool, true, false, not, ◌&&◌, ◌||◌, List, [], ◌∷◌, ◌++◌, Option, none, some, ◌==◌, eqb,
  leb, if◌then◌else◌, all, any, length, is_empty,
}
use inference_grid.Prelude.Text.{codes, is_text, has_code, has_prefix, split_on, codes_eq}
use inference_grid.Value.{Value, str, Dict, as_str, as_dict, as_list, get_value, value_eq, has_name}

-- `re.match(r"^[A-Za-z]:", value)`.
abbrev is_letter : ℕ → Bool
is_letter c = (leb b'A' c && leb c b'Z') || (leb b'a' c && leb c b'z')

unfoldable pub has_drive : List ℕ → Bool
has_drive (c ∷ d ∷ s) = is_letter c && eqb d b':'
has_drive _ = false

-- `part not in ("", ".", "..")`.
unfoldable pub is_plain_part : List ℕ → Bool
is_plain_part part =
    not (codes_eq part [] || (codes_eq part (codes ".") || codes_eq part (codes "..")))

unfoldable pub safe_codes : List ℕ → Bool
unfolding has_drive is_plain_part
safe_codes s =
    not (is_empty s)
    && (not (has_code 92 s)
        && (not (has_code 0 s)
            && (not (has_drive s)
                && (not (has_prefix s (codes "/")) && all is_plain_part (split_on 47 s)))))

unfoldable pub safe_path : Value → Bool
unfolding safe_codes
safe_path (str s) = safe_codes (codes s)
safe_path _ = false

abbrev is_hex : ℕ → Bool
is_hex c = (leb b'a' c && leb c b'f') || (leb b'0' c && leb c b'9')

unfoldable pub sha256 : Value → Bool
sha256 (str s) = eqb (length (codes s)) 64 && all is_hex (codes s)
sha256 _ = false

abbrev pub error_if : Bool → String → List String
error_if true message = message ∷ []
error_if false message = []

-- One turn of the artifact loop: what it appends to `errors`, and `seen` behind it.
abbrev unseen_path : Bool → List String → List String → String → List String × List String
unseen_path true seen errors path = (errors ++ "duplicate artifact path" ∷ [], seen)
unseen_path false seen errors path = (errors, path ∷ seen)

-- The `if not safe_path(path) ... elif path in seen ... else seen.add(path)`.
unfoldable pub check_path : Value → List String → List String × List String
unfolding safe_codes
check_path (str path) seen =
    if safe_codes (codes path)
    then unseen_path (has_name path seen) seen [] path
    else ("unsafe artifact path" ∷ [], seen)
check_path _ seen = ("unsafe artifact path" ∷ [], seen)

unfoldable pub artifact_errors : List String → List Value → List String
unfolding check_path sha256
artifact_errors seen [] = []
artifact_errors seen (v ∷ vs) = elim (as_dict v) [
  | none ↦ "invalid artifact" ∷ artifact_errors seen vs
  | some item ↦
      let (errors, seen') = check_path (get_value "path" item) seen in
      errors
      ++ (error_if (not (sha256 (get_value "sha256" item))) "invalid artifact digest"
          ++ artifact_errors seen' vs)
]

unfoldable pub header_errors : Dict → Value → Value → List String
unfolding value_eq sha256
header_errors receipt expected_model expected_manifest_sha256 =
    error_if (not (value_eq (get_value "status" receipt) (str "completed"))) "status mismatch"
    ++ (error_if (not (value_eq (get_value "finish_reason" receipt) (str "stop")))
          "finish_reason mismatch"
        ++ (error_if (not (value_eq (get_value "actual_model" receipt) expected_model))
              "actual_model mismatch"
            ++ (error_if
                  (not (value_eq (get_value "manifest_sha256" receipt) expected_manifest_sha256))
                  "manifest_sha256 mismatch"
                ++ error_if (not (sha256 (get_value "manifest_sha256" receipt)))
                    "invalid manifest digest")))

-- The artifact list, unless it is missing, empty or no list.
abbrev pub artifact_list : Dict → Option (List Value)
artifact_list receipt = elim (as_list (get_value "artifacts" receipt)) [
  | none ↦ none
  | some [] ↦ none
  | some (v ∷ vs) ↦ some (v ∷ vs)
]

unfoldable pub validate_receipt : Value → Value → Value → List String
unfolding header_errors artifact_errors
validate_receipt receipt expected_model expected_manifest_sha256 = elim (as_dict receipt) [
  | none ↦ "receipt must be an object" ∷ []
  | some fields ↦
      header_errors fields expected_model expected_manifest_sha256 ++ elim (artifact_list fields) [
        | none ↦ "nonempty artifact list required" ∷ []
        | some artifacts ↦ artifact_errors [] artifacts
      ]
]
