-- ===== src/Conclusions/Samples.antt =====
-- The evidence of one alert: a record of version 1, and one of version 2 with a slow-query unit and the unit
-- of its plan; and what the main agent concludes from it.
use database_alert_agent.Prelude.{String, Bool, true, false, none, some, List, [], ◌∷◌}
use database_alert_agent.Conclusions.{
  text, number, HistoryRow, TextMethods, ToolStatus, UnitStatus, EvidenceUnit, EvidenceRecord,
}
use database_alert_agent.Conclusions.Policy.{CauseStatus, RootCause, Recommendation}

abbrev pub python : TextMethods
python = record {
  casefold = λ s. s;
  strip = λ s. s;
  shown = λ v. elim v [ text s ↦ s | _ ↦ "7" ];
  decimal = λ _. none;
  characters = λ _. 8;
  utf8_bytes = λ _. 8;
}

abbrev pub is_collection : String → Bool
is_collection _ = false

abbrev pub row : HistoryRow
row = ("id", number 7) ∷ ("sample", text "select 1") ∷ []

abbrev pub history_unit : EvidenceUnit
history_unit = record {
  id = 5;
  parent_evidence_id = 8;
  stage = "history";
  status = UnitStatus.success;
  root_cause_eligible = true;
  source_artifact_id = 3;
  rows = some (some row ∷ none ∷ []);
  source_history_row = none;
}

abbrev pub plan_unit : EvidenceUnit
plan_unit = record history_unit {
  id = 6;
  stage = "explain";
  rows = none;
  source_history_row = some row;
}

abbrev pub archery : EvidenceRecord
archery = record {
  id = 8;
  is_v2 = true;
  status = ToolStatus.success;
  source_system = "archery";
  tool_name = "query_sql";
  partial = none;
  root_cause_eligible = none;
  truncated = false;
  source_artifact_id = some 3;
  evidence_units = history_unit ∷ plan_unit ∷ [];
}

abbrev pub prometheus : EvidenceRecord
prometheus = record archery {
  id = 9;
  is_v2 = false;
  source_system = "prometheus";
  source_artifact_id = none;
  evidence_units = [];
}

abbrev pub evidence : List EvidenceRecord
evidence = prometheus ∷ archery ∷ []

abbrev pub slow_query : RootCause
slow_query = record {
  cause = "full scan";
  analysis_process = (5 ∷ []) ∷ (6 ∷ 5 ∷ []) ∷ [];
  problem_sql =
      some (record { statement = some "select 1"; sample_id = some "7"; evidence_ref = 5 });
  explain_ref = some 6;
  hypothesis_id = none;
  status = CauseStatus.supported;
  evidence_refs = 5 ∷ 6 ∷ 9 ∷ [];
  verified = true;
  next_probe = none;
}

-- It is not verified, and cites a record of version 2 and evidence that is missing too.
abbrev pub claimed : RootCause
claimed = record slow_query {
  evidence_refs = 5 ∷ 6 ∷ 8 ∷ 4 ∷ 5 ∷ 9 ∷ [];
  verified = false;
  next_probe = some "again";
}

abbrev pub unknown_cause : RootCause
unknown_cause = record slow_query { cause = "the disk"; evidence_refs = 8 ∷ [] }

abbrev pub recommendation : Recommendation
recommendation = record {
  summary = "an index is missing";
  likely_causes = "full scan" ∷ [];
  temporary_solutions = 1 ∷ 2 ∷ [];
  long_term_optimizations = 1 ∷ [];
  confidence = 80;
  root_causes = claimed ∷ unknown_cause ∷ [];
  has_ai_basis = true;
}

abbrev pub accepted : Recommendation
accepted = record recommendation { root_causes = slow_query ∷ [] }
