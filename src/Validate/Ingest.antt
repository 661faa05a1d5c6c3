-- ===== src/Validate/Ingest.antt =====
-- `validate_ingest_contract` of src/model/knowledge.rs: what a knowledge entry declares of itself. An
-- error is named where the source words a message.
pub mod Kinds
pub mod Contract
mod Tests
use evorule_rule.Prelude.{
  String, Bool, true, false, not, ◌&&◌, ◌||◌, Option, none, some, is_none, List, [], ◌∷◌, Text,
  codes, Result, ok, ◌>>◌, guard, str_eq, opt_eq, any, drop, length, is_empty, if◌then◌else◌,
}
use evorule_rule.External.{Externals}
use evorule_rule.Model.Entry.{KnowledgeEntry}
use evorule_rule.Chars.{starts_with, text_eq}

pub data IngestError : Type 0 where
  unknown_kind verdict_needs_llm schema_mismatch invalid_trust license_missing : IngestError
  empty_pathway invalid_pathway empty_allowlist : IngestError

abbrev pub knowledge_kinds : List String
knowledge_kinds =
    "fact" ∷ "procedure" ∷ "heuristic" ∷ "narrative" ∷ "model" ∷ "verdict" ∷ "preference" ∷ []

abbrev pub strip_prefix : Text → Text → Option Text
strip_prefix s p = if starts_with s p then some (drop (length p) s) else none

abbrev pub is_some_text : Option Text → Bool
is_some_text none = false
is_some_text (some s) = not (is_empty s)

unfoldable pub is_valid_trust_level : String → Bool
is_valid_trust_level level =
    str_eq level "human"
    || str_eq level "llm"
    || is_some_text (strip_prefix (codes level) (codes "external:"))

unfoldable pub known_kind : String → Bool
known_kind kind =
    any (λ k. str_eq k kind) knowledge_kinds
    || is_some_text (strip_prefix (codes kind) (codes "custom:"))

unfoldable pub fits_schema : String → Option Text → Bool
fits_schema kind none = true
fits_schema kind (some builtin) = text_eq builtin (codes kind)

unfoldable pub is_external : String → Bool
is_external level = starts_with (codes level) (codes "external:")

unfoldable pub check_kind :
    Option String → (trust : Option String) → (schema_ref : String) → Result IngestError (Unit {0})
unfolding known_kind fits_schema
check_kind none trust schema_ref = ok tt
check_kind (some kind) trust schema_ref = do
  guard (known_kind kind) unknown_kind
  guard (not (str_eq kind "verdict" && not (opt_eq trust (some "llm")))) verdict_needs_llm
  guard (fits_schema kind (strip_prefix (codes schema_ref) (codes "builtin:knowledge/")))
      schema_mismatch

unfoldable pub check_trust :
    Option String → (license : Option String) → Result IngestError (Unit {0})
unfolding is_valid_trust_level is_external
check_trust none license = ok tt
check_trust (some level) license = do
  guard (is_valid_trust_level level) invalid_trust
  guard (not (is_external level && is_none license)) license_missing

module _ (x : Externals) where
  unfoldable pub check_contract : Option x.ExecutionContract → Result IngestError (Unit {0})
  check_contract none = ok tt
  check_contract (some c) = do
    guard (not (str_eq (x.pathway c) "")) empty_pathway
    guard
        (str_eq (x.pathway c) "direct"
          || str_eq (x.pathway c) "injection"
          || str_eq (x.pathway c) "criterion")
        invalid_pathway
    guard (not (is_empty (x.consumer_allowlist c))) empty_allowlist

  unfoldable pub validate_ingest_contract : KnowledgeEntry x → Result IngestError (Unit {0})
  unfolding check_kind check_trust check_contract
  validate_ingest_contract e =
      check_kind e.knowledge_kind e.trust_level e.schema_ref
      >> check_trust e.trust_level e.license_ref
      >> check_contract e.execution_contract
