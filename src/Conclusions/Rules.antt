-- ===== src/Conclusions/Rules.antt =====
-- `RuleConclusionValidator.validate`. The warnings about knowledge,
-- which only go into the metadata of the validation record, are left out.
use database_alert_agent.Prelude.{
  ℕ, suc, String, Bool, true, false, not, ◌&&◌, Option, none, some, List, [], ◌∷◌, ◌++◌, ◌==◌,
  str_eq, is_some, if◌then◌else◌, holds,
}
use database_alert_agent.Conclusions.{
  HistoryRow, TextMethods, EvidenceUnit, EvidenceRecord, find_unit,
}
use database_alert_agent.Conclusions.History.{
  keep, any_of, BindingIssue, is_nonblank, is_history, is_explain, resolve_problem_history_row,
  successful_explain_refs_for_history,
}
use database_alert_agent.Conclusions.Refs.{
  Issue, summary_not_fixed, causes_not_empty, steps_not_empty, no_steps, wrong_order, no_ai_basis,
  not_supported, no_cause, has_hypothesis, no_process, not_verified, has_next_probe, no_evidence,
  unverified_problem, unverified_explain, no_explain_unit, unqualified_step, no_problem_sql,
  no_history_unit, no_explain_result, unbound_explain, other_explain, wrong_binding, when,
  check_ref, ref_issues, live_refs, is_sql_sample,
}
use database_alert_agent.Conclusions.Policy.{
  RootCause, ProblemSql, Recommendation, is_supported, contains, distinct_after, distinct, is_empty,
  inconclusive_summary,
}

-- `list(range(1, n + 1))`
abbrev pub is_numbered : ℕ → List ℕ → Bool
is_numbered n [] = true
is_numbered n (order ∷ orders) = order == n && is_numbered (suc n) orders

abbrev pub no_texts : List String → Bool
no_texts [] = true
no_texts (_ ∷ _) = false

abbrev pub no_causes : List RootCause → Bool
no_causes [] = true
no_causes (_ ∷ _) = false

abbrev pub has_no_steps : Recommendation → Bool
has_no_steps r = is_empty r.temporary_solutions && is_empty r.long_term_optimizations

abbrev pub inconclusive_issues : Recommendation → List Issue
inconclusive_issues r =
    when (not (str_eq r.summary inconclusive_summary)) summary_not_fixed
    ++ when (not (no_texts r.likely_causes)) causes_not_empty
    ++ when (not (has_no_steps r)) steps_not_empty

-- The checks of the recommendation as a whole.
unfoldable pub shape_issues : Recommendation → List Issue
shape_issues r =
    (if no_causes r.root_causes then inconclusive_issues r else when (has_no_steps r) no_steps)
    ++ when (not (is_numbered 1 r.temporary_solutions)) wrong_order
    ++ when (not (is_numbered 1 r.long_term_optimizations)) wrong_order

-- The issues of a check, and whether they withdraw the support of the cause.
abbrev pub Checked : Type 0
Checked = List Issue × Bool

abbrev pub withdrawing : List Issue → Checked
withdrawing [] = ([], true)
withdrawing (i ∷ is) = (i ∷ is, false)

abbrev pub both : Checked → Checked → Checked
both a b = (a.0 ++ b.0, a.1 && b.1)

abbrev pub no_issues : List Issue → Bool
no_issues [] = true
no_issues (_ ∷ _) = false

unfoldable pub step_issues : (live : List ℕ) → List (List ℕ) → List Issue
unfolding distinct_after
step_issues live [] = []
step_issues live (refs ∷ steps) =
    let unqualified : List ℕ = keep (λ ref. not (contains ref live)) (distinct refs) in
    when (not (is_empty unqualified)) (unqualified_step unqualified) ++ step_issues live steps

-- The problem SQL: its issues; the parent and the row that it is bound to; whether the binding fails.
pub record Problem : Type 0 where
  pub issues : List Issue
  pub parent : Option EvidenceRecord
  pub row : Option HistoryRow
  pub is_invalid : Bool

abbrev pub no_problem : List Issue → Problem
no_problem is = record { issues = is; parent = none; row = none; is_invalid = false }

abbrev pub bound : EvidenceRecord → Option HistoryRow × Option BindingIssue → Problem
bound parent (row, none) = record {
  issues = [];
  parent = some parent;
  row = row;
  is_invalid = false;
}
bound parent (row, some i) = record {
  issues = wrong_binding i ∷ [];
  parent = some parent;
  row = row;
  is_invalid = true;
}

pub record Validation : Type 0 where
  pub passed : Bool
  pub evidence_sufficient : Bool
  pub issues : List Issue

abbrev pub process_issues : (live : List ℕ) → List (List ℕ) → List Issue
process_issues live [] = no_process ∷ []
process_issues live (step ∷ steps) = step_issues live (step ∷ steps)

module _ (python : TextMethods) (evidence : List EvidenceRecord) where
  abbrev pub bind_problem : ProblemSql → EvidenceRecord → EvidenceUnit → Problem
  bind_problem p parent unit =
      if is_history python unit
      then bound parent (resolve_problem_history_row python unit p.sample_id p.statement)
      else record {
        issues = no_history_unit ∷ [];
        parent = some parent;
        row = none;
        is_invalid = true;
      }

  unfoldable pub check_problem : (live : List ℕ) (has_sample : Bool) → Option ProblemSql → Problem
  unfolding resolve_problem_history_row find_unit
  check_problem live has_sample none = no_problem (when has_sample no_problem_sql)
  check_problem live has_sample (some p) =
      if not (contains p.evidence_ref live)
      then no_problem (unverified_problem p.evidence_ref ∷ [])
      else elim (find_unit p.evidence_ref evidence) [
        | none ↦ no_problem []
        | some (parent, unit) ↦ bind_problem p parent unit
      ]

  -- `available_explain_refs`
  abbrev pub explain_refs : Problem → List ℕ
  explain_refs q = elim q.parent [
    | none ↦ []
    | some parent ↦ elim q.row [
      | none ↦ []
      | some row ↦ successful_explain_refs_for_history python parent row
    ]
  ]

  abbrev pub unbound_issues : Problem → ℕ → List Issue
  unbound_issues q ref = elim q.parent [
    | none ↦ []
    | some parent ↦ elim q.row [
      | none ↦ when (not q.is_invalid) unbound_explain
      | some row ↦ when (not (contains ref (explain_refs q))) other_explain
    ]
  ]

  unfoldable pub check_explain : (live : List ℕ) → Problem → Option ℕ → List Issue
  unfolding successful_explain_refs_for_history find_unit
  check_explain live q none = when (not (is_empty (explain_refs q))) no_explain_result
  check_explain live q (some ref) =
      if not (contains ref live)
      then unverified_explain ref ∷ []
      else if holds (λ (e : EvidenceRecord × EvidenceUnit). is_explain python e.1)
          (find_unit ref evidence)
      then unbound_issues q ref
      else no_explain_unit ref ∷ []

  abbrev pub claim_issues : RootCause → List Issue
  claim_issues c =
      when (not (is_nonblank python c.cause)) no_cause
      ++ when (is_some c.hypothesis_id) has_hypothesis
      ++ ref_issues python evidence (distinct c.evidence_refs)

  abbrev pub problem_of : RootCause → Problem
  problem_of c =
      let live : List ℕ = live_refs python evidence c in
      check_problem live (any_of (is_sql_sample python evidence) live) c.problem_sql

  -- Those that withdraw the support of the cause; a next probe does not.
  abbrev pub support_issues : RootCause → List Issue
  support_issues c =
      let live : List ℕ = live_refs python evidence c in
      process_issues live c.analysis_process
      ++ (problem_of c).issues
      ++ check_explain live (problem_of c) c.explain_ref
      ++ when (is_empty live) no_evidence
      ++ when (not c.verified) not_verified

  unfoldable pub check_cause : RootCause → Checked
  unfolding check_ref step_issues check_problem check_explain distinct_after
  check_cause c =
      both
        (both (withdrawing (when (not (is_supported c.status)) not_supported))
          (both (claim_issues c, true) (withdrawing (support_issues c))))
        (when (is_some c.next_probe) has_next_probe, true)

  unfoldable pub check_causes : List RootCause → Checked
  unfolding check_cause
  check_causes [] = ([], true)
  check_causes (c ∷ cs) = both (check_cause c) (check_causes cs)

  unfoldable pub validate : Recommendation → Validation
  unfolding shape_issues check_causes
  validate r =
      let checked : Checked = check_causes r.root_causes in
      let issues : List Issue =
        shape_issues r ++ checked.0 ++ when (not r.has_ai_basis) no_ai_basis in
      record {
        passed = no_issues issues;
        evidence_sufficient = checked.1 && not (no_causes r.root_causes);
        issues = issues;
      }
