-- ===== src/Conclusions/Policy.antt =====
-- `enforce_post_evidence_root_cause_policy`: of the causes that the main agent gives, those that cite
-- eligible evidence are kept.
use database_alert_agent.Prelude.{
  ℕ, String, Bool, true, false, not, ◌&&◌, ◌||◌, Option, none, some, List, [], ◌∷◌, ◌==◌, str_eq,
  is_none, if◌then◌else◌, holds,
}
use database_alert_agent.Conclusions.{
  HistoryRow, TextMethods, EvidenceRecord, record_is_eligible, unit_is_eligible, find_unit,
  find_record,
}
use database_alert_agent.Conclusions.History.{
  keep, BindingIssue, is_nonblank, is_history, complete_history_statement,
  resolve_problem_history_row,
}

pub data CauseStatus : Type 0 where
  support supported contradicted unknown : CauseStatus

abbrev pub is_supported : CauseStatus → Bool
is_supported CauseStatus.supported = true
is_supported _ = false

pub record ProblemSql : Type 0 where
  pub statement : Option String
  pub sample_id : Option String
  pub evidence_ref : ℕ

pub record RootCause : Type 0 where
  pub cause : String
  pub analysis_process : List (List ℕ)
  pub problem_sql : Option ProblemSql
  pub explain_ref : Option ℕ
  pub hypothesis_id : Option String
  pub status : CauseStatus
  pub evidence_refs : List ℕ
  pub verified : Bool
  pub next_probe : Option String

-- A step of a recommendation is its order; `has_ai_basis` and the sources stand for the analysis bases.
pub record Recommendation : Type 0 where
  pub summary : String
  pub likely_causes : List String
  pub temporary_solutions : List ℕ
  pub long_term_optimizations : List ℕ
  pub confidence : ℕ
  pub root_causes : List RootCause
  pub has_ai_basis : Bool

abbrev pub contains : ℕ → List ℕ → Bool
contains n [] = false
contains n (m ∷ ms) = n == m || contains n ms

-- `list(dict.fromkeys(refs))`, where `seen` holds what came before
unfoldable pub distinct_after : (seen refs : List ℕ) → List ℕ
distinct_after seen [] = []
distinct_after seen (r ∷ rs) =
    if contains r seen then distinct_after seen rs else r ∷ distinct_after (r ∷ seen) rs

abbrev pub distinct : List ℕ → List ℕ
distinct refs = distinct_after [] refs

abbrev pub inconclusive_summary : String
inconclusive_summary = "现有结果无法得出根因"

-- The recommendation that names no root cause.
abbrev pub without_causes : Recommendation → Recommendation
without_causes r = record r {
  summary = inconclusive_summary;
  likely_causes = [];
  root_causes = [];
  temporary_solutions = [];
  long_term_optimizations = [];
  confidence = 0;
}

abbrev pub causes_of : List RootCause → List String
causes_of [] = []
causes_of (c ∷ cs) = c.cause ∷ causes_of cs

abbrev pub is_empty : List ℕ → Bool
is_empty [] = true
is_empty (_ ∷ _) = false

-- `alert.reason`, and whether the alert has the note that management SQL was filtered
pub record AlertView : Type 0 where
  pub reason : String
  pub is_filtered : Bool

module _ (python : TextMethods) (is_collection_cause : String → Bool)
    (evidence : List EvidenceRecord) where
  -- A reference that qualifies a cause: to an eligible unit, or to an eligible record of version 1.
  unfoldable pub is_qualified : ℕ → Bool
  unfolding find_unit find_record record_is_eligible unit_is_eligible
  is_qualified ref =
      elim (find_unit ref evidence) [
        | some (parent, unit) ↦ unit_is_eligible python parent unit
        | none ↦ false
      ]
      || holds (λ r. not r.is_v2 && record_is_eligible python r) (find_record ref evidence)

  abbrev pub with_statement_of : ProblemSql → Option HistoryRow × Option BindingIssue → ProblemSql
  with_statement_of p (some row, none) = record p {
    statement = complete_history_statement python row;
  }
  with_statement_of p _ = p

  -- `_project_history_problem_statement`, of the problem SQL
  unfoldable pub project_statement : (eligible : List ℕ) → ProblemSql → ProblemSql
  unfolding find_unit resolve_problem_history_row complete_history_statement
  project_statement eligible p =
      if is_none p.sample_id || not (contains p.evidence_ref eligible)
      then p
      else elim (find_unit p.evidence_ref evidence) [
        | none ↦ p
        | some (parent, unit) ↦
            if is_history python unit
            then with_statement_of p (resolve_problem_history_row python unit p.sample_id none)
            else p
      ]

  abbrev pub project : (eligible : List ℕ) → Option ProblemSql → Option ProblemSql
  project eligible none = none
  project eligible (some p) = some (project_statement eligible p)

  -- The causes that are passed over before their references are read.
  unfoldable pub is_considered : Option AlertView → RootCause → Bool
  is_considered alert c =
      not (holds (λ a. a.is_filtered) alert && is_collection_cause c.cause)
      && is_nonblank python c.cause
      && is_supported c.status
      && not (
          holds
            (λ a.
              not (str_eq (python.casefold (python.strip a.reason)) "")
              && str_eq (python.casefold (python.strip c.cause))
                  (python.casefold (python.strip a.reason)))
            alert)

  abbrev pub qualified_refs : RootCause → List ℕ
  qualified_refs c = keep is_qualified (distinct c.evidence_refs)

  abbrev pub supported_cause : RootCause → RootCause
  supported_cause c = record c {
    problem_sql = project (qualified_refs c) c.problem_sql;
    hypothesis_id = none;
    status = CauseStatus.supported;
    evidence_refs = qualified_refs c;
    verified = true;
    next_probe = none;
  }

  unfoldable pub supported_causes : Option AlertView → List RootCause → List RootCause
  unfolding is_qualified project_statement is_considered distinct_after
  supported_causes alert [] = []
  supported_causes alert (c ∷ cs) =
      let rest : List RootCause = supported_causes alert cs in
      if is_considered alert c && not (is_empty (qualified_refs c))
      then supported_cause c ∷ rest
      else rest

  abbrev pub concluded : Recommendation → List RootCause → Recommendation
  concluded r [] = without_causes r
  concluded r (c ∷ cs) = record r { root_causes = c ∷ cs; likely_causes = causes_of (c ∷ cs) }

  unfoldable pub enforce_post_evidence_root_cause_policy :
      Recommendation → Option AlertView → Recommendation
  unfolding supported_causes
  enforce_post_evidence_root_cause_policy r alert =
      concluded r (supported_causes alert r.root_causes)
