-- ===== src/Receipts/Laws.antt =====
-- The errors of a receipt (src/inference_grid/receipts.py) against what a receipt is to be.
use inference_grid.Prelude.{
  String, Bool, true, false, not, ◌≡◌, refl, sym, subst, ◌∙◌, none, some, List, [], ◌∷◌, ◌++◌, inl,
  inr, Option-cases, Bool-cases, arith,
}
use inference_grid.Prelude.Text.{codes}
use inference_grid.Value.{Value, Dict, str, as_dict, get_value, value_eq, has_name}
use inference_grid.Receipts.{
  safe_codes, sha256, check_path, artifact_errors, header_errors, artifact_list, error_if,
  validate_receipt,
}

pub record IsArtifact (seen : List String) (path : String) (v : Value) : Type 0 where
  pub item : Dict
  pub fields : as_dict v ≡ some item
  pub path_of : get_value "path" item ≡ str path
  pub safe : safe_codes (codes path) ≡ true
  pub new : has_name path seen ≡ false
  pub digest : sha256 (get_value "sha256" item) ≡ true

-- Artifacts whose paths are safe and differ, from each other and from those seen.
pub data AreArtifacts : List String → List Value → Type 0 where
  no_more : {seen : List String} → AreArtifacts seen []
  and_one :
      {seen : List String} {v : Value} {vs : List Value} {path : String}
      → IsArtifact seen path v
      → AreArtifacts (path ∷ seen) vs
      → AreArtifacts seen (v ∷ vs)

append_empty : (xs ys : List String) → xs ++ ys ≡ [] → (xs ≡ []) × (ys ≡ [])
append_empty [] ys h = (refl, h)
append_empty (x ∷ xs) ys h = cc

-- A path that the loop takes without an error, and the paths seen behind it.
check_path-clean :
    (v : Value) (seen : List String)
    → (check_path v seen).0 ≡ []
    → (path : String) × (v ≡ str path)
      × (safe_codes (codes path) ≡ true)
      × (has_name path seen ≡ false)
      × ((check_path v seen).1 ≡ path ∷ seen)
unfolding check_path
check_path-clean (str path) seen h = elim (Bool-cases (safe_codes (codes path))) [
  | inr unsafe ↦ absurd (ground arith)
  | inl safe ↦ elim (Bool-cases (has_name path seen)) [
    | inl again ↦ absurd (ground arith)
    | inr new ↦ (path, refl, safe, new, ground arith)
  ]
]
check_path-clean _ seen h = cc

-- The errors of one artifact, and then those of the others.
artifact_errors-item :
    (seen : List String) (v : Value) (vs : List Value) (item : Dict)
    → as_dict v ≡ some item
    → artifact_errors seen (v ∷ vs)
      ≡ (check_path (get_value "path" item) seen).0
        ++ (error_if (not (sha256 (get_value "sha256" item))) "invalid artifact digest"
            ++ artifact_errors (check_path (get_value "path" item) seen).1 vs)
unfolding artifact_errors
artifact_errors-item seen v vs item fields = rw (fields, artifact_errors) refl

error_if-none : (b : Bool) (m : String) → error_if (not b) m ≡ [] → b ≡ true
error_if-none true m h = refl
error_if-none false m h = cc

artifact_errors-AreArtifacts :
    (vs : List Value) (seen : List String) → artifact_errors seen vs ≡ [] → AreArtifacts seen vs
unfolding artifact_errors
artifact_errors-AreArtifacts [] seen h = no_more
artifact_errors-AreArtifacts (v ∷ vs) seen h = elim (Option-cases (as_dict v)) [
  | inl none_there ↦ absurd (ground arith)
  | inr (item, fields) ↦
      let parts =
        append_empty (check_path (get_value "path" item) seen).0
          (error_if (not (sha256 (get_value "sha256" item))) "invalid artifact digest"
            ++ artifact_errors (check_path (get_value "path" item) seen).1 vs)
          (sym (artifact_errors-item seen v vs item fields) ∙ h) in
      let others =
        append_empty (error_if (not (sha256 (get_value "sha256" item))) "invalid artifact digest")
          (artifact_errors (check_path (get_value "path" item) seen).1 vs) parts.1 in
      let (path, path_of, safe, new, behind) =
        check_path-clean (get_value "path" item) seen parts.0 in
      and_one
        (record {
          item = item;
          fields = fields;
          path_of = path_of;
          safe = safe;
          new = new;
          digest = error_if-none _ _ others.0;
        })
        (artifact_errors-AreArtifacts vs (path ∷ seen)
          (subst (λ x. artifact_errors x vs ≡ []) behind others.1))
]

AreArtifacts-clean :
    {vs : List Value} {seen : List String} → AreArtifacts seen vs → artifact_errors seen vs ≡ []
unfolding artifact_errors check_path
AreArtifacts-clean no_more = refl
AreArtifacts-clean (and_one {seen} {v} {vs} {path} a rest) =
    artifact_errors-item seen v vs a.item a.fields
    ∙ rw (a.path_of, a.safe, a.new, a.digest) (AreArtifacts-clean rest)

-- A receipt that is what it is to be.
pub record IsReceipt (receipt expected_model expected_manifest : Value) : Type 0 where
  pub fields : Dict
  pub object : as_dict receipt ≡ some fields
  pub status : value_eq (get_value "status" fields) (str "completed") ≡ true
  pub finish_reason : value_eq (get_value "finish_reason" fields) (str "stop") ≡ true
  pub model : value_eq (get_value "actual_model" fields) expected_model ≡ true
  pub manifest : value_eq (get_value "manifest_sha256" fields) expected_manifest ≡ true
  pub manifest_digest : sha256 (get_value "manifest_sha256" fields) ≡ true
  pub artifacts : List Value
  pub listed : artifact_list fields ≡ some artifacts
  pub each : AreArtifacts [] artifacts

header_errors-none :
    (d : Dict) (m n : Value)
    → header_errors d m n ≡ []
    → (value_eq (get_value "status" d) (str "completed") ≡ true)
      × (value_eq (get_value "finish_reason" d) (str "stop") ≡ true)
      × (value_eq (get_value "actual_model" d) m ≡ true)
      × (value_eq (get_value "manifest_sha256" d) n ≡ true)
      × (sha256 (get_value "manifest_sha256" d) ≡ true)
unfolding header_errors
header_errors-none d m n h =
    let a =
      append_empty
        (error_if (not (value_eq (get_value "status" d) (str "completed"))) "status mismatch") _
        h in
    let b =
      append_empty
        (error_if (not (value_eq (get_value "finish_reason" d) (str "stop")))
          "finish_reason mismatch")
        _ a.1 in
    let c =
      append_empty
        (error_if (not (value_eq (get_value "actual_model" d) m)) "actual_model mismatch") _ b.1 in
    let e =
      append_empty
        (error_if (not (value_eq (get_value "manifest_sha256" d) n)) "manifest_sha256 mismatch") _
        c.1 in
    (
      error_if-none _ _ a.0,
      error_if-none _ _ b.0,
      error_if-none _ _ c.0,
      error_if-none _ _ e.0,
      error_if-none _ _ e.1,
    )

module _ (receipt m n : Value) where
  receipt_errors-listed :
      (fields : Dict) (artifacts : List Value)
      → as_dict receipt ≡ some fields
      → artifact_list fields ≡ some artifacts
      → validate_receipt receipt m n ≡ header_errors fields m n ++ artifact_errors [] artifacts
  unfolding validate_receipt
  receipt_errors-listed fields artifacts object listed =
      rw (object, validate_receipt) (rw listed refl)

  receipt_errors-unlisted :
      (fields : Dict)
      → as_dict receipt ≡ some fields
      → artifact_list fields ≡ none
      → validate_receipt receipt m n
        ≡ header_errors fields m n ++ "nonempty artifact list required" ∷ []
  unfolding validate_receipt
  receipt_errors-unlisted fields object listed = rw (object, validate_receipt) (rw listed refl)

  clean-IsReceipt : validate_receipt receipt m n ≡ [] → IsReceipt receipt m n
  unfolding validate_receipt
  clean-IsReceipt h = elim (Option-cases (as_dict receipt)) [
    | inl none_there ↦ absurd (ground arith)
    | inr (fields, object) ↦ elim (Option-cases (artifact_list fields)) [
      | inl unlisted ↦ absurd (
          cc (
            (append_empty (header_errors fields m n) ("nonempty artifact list required" ∷ [])
              (sym (receipt_errors-unlisted fields object unlisted) ∙ h)).1))
      | inr (artifacts, listed) ↦
          let parts =
            append_empty (header_errors fields m n) (artifact_errors [] artifacts)
              (sym (receipt_errors-listed fields artifacts object listed) ∙ h) in
          let (status, finish_reason, model, manifest, digest) =
            header_errors-none fields m n parts.0 in
          record {
            fields = fields;
            object = object;
            status = status;
            finish_reason = finish_reason;
            model = model;
            manifest = manifest;
            manifest_digest = digest;
            artifacts = artifacts;
            listed = listed;
            each = artifact_errors-AreArtifacts artifacts [] parts.1;
          }
    ]
  ]

  IsReceipt-clean : IsReceipt receipt m n → validate_receipt receipt m n ≡ []
  unfolding header_errors
  IsReceipt-clean r =
      receipt_errors-listed r.fields r.artifacts r.object r.listed
      ∙ rw (r.status, r.finish_reason, r.model, r.manifest, r.manifest_digest)
          (AreArtifacts-clean r.each)

-- A receipt has no errors exactly when it is an object whose status, finish reason, model and manifest
-- digest are the expected ones, the digest is well formed, and its list of artifacts is not empty, with
-- every artifact an object that has a safe path, which differs from the others, and a well-formed digest.
pub validate_receipt_iff :
    (receipt m n : Value)
    → (validate_receipt receipt m n ≡ [] → IsReceipt receipt m n)
      × (IsReceipt receipt m n → validate_receipt receipt m n ≡ [])
validate_receipt_iff receipt m n = (clean-IsReceipt receipt m n, IsReceipt-clean receipt m n)
