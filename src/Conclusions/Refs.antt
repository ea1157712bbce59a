-- ===== src/Conclusions/Refs.antt =====
-- What the validator says of each reference of a cause. An issue stands for its message.
use database_alert_agent.Prelude.{
  ℕ, Bool, true, false, not, ◌&&◌, none, some, List, [], ◌∷◌, ◌++◌, if◌then◌else◌, holds,
}
use database_alert_agent.Conclusions.{
  TextMethods, EvidenceUnit, EvidenceRecord, record_is_eligible, unit_is_eligible, find_unit,
  find_record, is_success, unit_is_success, is_true, is_false,
}
use database_alert_agent.Conclusions.History.{
  keep, BindingIssue, is_history, unit_contains_sql_sample,
}
use database_alert_agent.Conclusions.Policy.{RootCause, distinct}

pub data Issue : Type 0 where
  summary_not_fixed causes_not_empty steps_not_empty no_steps wrong_order no_ai_basis : Issue
  not_supported no_cause has_hypothesis no_process not_verified has_next_probe no_evidence : Issue
  unit_not_success unit_ineligible missing_evidence parent_of_v2 record_not_success : ℕ → Issue
  partial_evidence ineligible_evidence unverified_problem unverified_explain no_explain_unit :
      ℕ → Issue
  unqualified_step : List ℕ → Issue
  no_problem_sql no_history_unit no_explain_result unbound_explain other_explain : Issue
  wrong_binding : BindingIssue → Issue

-- What a reference of a cause is worth.
pub data RefCheck : Type 0 where
  usable : RefCheck
  silent : RefCheck
  refused : Issue → RefCheck

abbrev pub is_live : RefCheck → Bool
is_live usable = true
is_live _ = false

abbrev pub issue_of : RefCheck → List Issue
issue_of (refused i) = i ∷ []
issue_of _ = []

abbrev pub when : Bool → Issue → List Issue
when true i = i ∷ []
when false i = []

module _ (python : TextMethods) (evidence : List EvidenceRecord) where
  abbrev pub check_unit : ℕ → EvidenceRecord → EvidenceUnit → RefCheck
  check_unit ref parent unit =
      if not (unit_is_success unit.status)
      then refused (unit_not_success ref)
      else if unit_is_eligible python parent unit
      then usable
      else refused (unit_ineligible ref)

  abbrev pub check_record : ℕ → EvidenceRecord → RefCheck
  check_record ref r =
      if r.is_v2
      then refused (parent_of_v2 ref)
      else if not (is_success r.status)
      then refused (record_not_success ref)
      else if record_is_eligible python r
      then usable
      else if is_true r.partial
      then refused (partial_evidence ref)
      else if is_false r.root_cause_eligible
      then refused (ineligible_evidence ref)
      else silent

  unfoldable pub check_ref : ℕ → RefCheck
  unfolding find_unit find_record record_is_eligible unit_is_eligible
  check_ref ref = elim (find_unit ref evidence) [
    | some (parent, unit) ↦ check_unit ref parent unit
    | none ↦ elim (find_record ref evidence) [
      | none ↦ refused (missing_evidence ref)
      | some r ↦ check_record ref r
    ]
  ]

  abbrev pub ref_issues : List ℕ → List Issue
  ref_issues [] = []
  ref_issues (ref ∷ refs) = issue_of (check_ref ref) ++ ref_issues refs

  -- `live_successful_refs` and `has_sql_sample`
  abbrev pub live_refs : RootCause → List ℕ
  live_refs c = keep (λ ref. is_live (check_ref ref)) (distinct c.evidence_refs)

  abbrev pub is_sql_sample : ℕ → Bool
  is_sql_sample ref =
      holds
        (λ (e : EvidenceRecord × EvidenceUnit).
          is_history python e.1 && unit_contains_sql_sample python e.1)
        (find_unit ref evidence)
