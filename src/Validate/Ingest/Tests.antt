-- ===== src/Validate/Ingest/Tests.antt =====
-- Tests and instances of the ingest contract.
use evorule_rule.Prelude.{◌≡◌, refl, ◌↔◌, none, some, ok, err, []}
use evorule_rule.Demo.{demo}
use evorule_rule.Model.Entry.{KnowledgeEntry}
use evorule_rule.Validate.Ingest.{validate_ingest_contract, license_missing}
use evorule_rule.Validate.Ingest.Contract.{Declares, validate_ingest_contract_iff}

-- A fact from an external source that names no licence.
abbrev fact : KnowledgeEntry demo
fact = record {
  entry_id = "k";
  dataset_id = "kd";
  version = 1;
  status = none;
  provenance = "p";
  domain = "d";
  tags = [];
  payload = "b";
  schema_ref = "builtin:knowledge/fact";
  governance = none;
  knowledge_kind = some "fact";
  trust_level = some "external:press";
  license_ref = none;
  execution_contract = none;
}

unlicensed_refused : validate_ingest_contract demo fact ≡ err license_missing
unfolding validate_ingest_contract
unlicensed_refused = refl

validate_ingest_contract_iff_example :
    (validate_ingest_contract demo (record fact { license_ref = some "cc" }) ≡ ok tt)
    ↔ Declares demo (record fact { license_ref = some "cc" })
validate_ingest_contract_iff_example =
    validate_ingest_contract_iff demo (record fact { license_ref = some "cc" })
