-- ===== src/Conclusions/Sound.antt =====
-- What a validation that passes says of the causes.
use database_alert_agent.Prelude.{
  ℕ, ◌≡◌, ◌≢◌, refl, sym, ap, ◌∙◌, subst, inl, inr, Bool, true, false, not, Option, none, some,
  List, [], ◌∷◌, arith, is_some, Bool-cases, In,
}
use database_alert_agent.Conclusions.{TextMethods, EvidenceRecord, EvidenceUnit, find_unit}
use database_alert_agent.Conclusions.History.{
  all_of, any_of, is_nonblank, is_history, BindingIssue, resolve_problem_history_row,
}
use database_alert_agent.Conclusions.Policy.{
  is_supported, RootCause, ProblemSql, Recommendation, contains, distinct, is_empty,
}
use database_alert_agent.Conclusions.Refs.{
  no_process, no_cause, no_evidence, not_verified, has_next_probe, not_supported, no_ai_basis,
  issue_of, when, check_ref, ref_issues, live_refs, is_sql_sample,
}
use database_alert_agent.Conclusions.Rules.{
  shape_issues, withdrawing, Problem, check_problem, check_explain, check_cause, check_causes,
  no_issues, validate, explain_refs, bound, bind_problem, problem_of, claim_issues, support_issues,
  process_issues,
}
use database_alert_agent.Conclusions.Shape.{
  appended, when_empty_lem, when_lem, withdrawing_issues, process_steps, IsValidShape,
  shape_issues_lem,
}

module _ (python : TextMethods) (evidence : List EvidenceRecord) where
  abbrev lives : RootCause → List ℕ
  lives = live_refs python evidence

  -- A problem SQL that is bound: to a unit that is live, and to the one row there that its sample names,
  -- whose complete statement it gives, if it gives one.
  pub record IsBound (live : List ℕ) (p : ProblemSql) : Type 0 where
    pub is_in_live : contains p.evidence_ref live ≡ true
    pub to_history :
        (parent : EvidenceRecord) (unit : EvidenceUnit)
        → find_unit p.evidence_ref evidence ≡ some (parent, unit)
        → is_history python unit ≡ true
    pub to_row :
        (parent : EvidenceRecord) (unit : EvidenceUnit)
        → find_unit p.evidence_ref evidence ≡ some (parent, unit)
        → (resolve_problem_history_row python unit p.sample_id p.statement).1 ≡ none

  bound_lem :
      (parent : EvidenceRecord) (x : Option _ × Option BindingIssue)
      → no_issues (bound parent x).issues ≡ true
      → x.1 ≡ none
  bound_lem parent (row, none) h = refl
  bound_lem parent (row, some i) h = cc

  check_history :
      (live : List ℕ) (has_sample : Bool) (p : ProblemSql) (parent : EvidenceRecord)
      (unit : EvidenceUnit)
      → no_issues (check_problem python evidence live has_sample (some p)).issues ≡ true
      → contains p.evidence_ref live ≡ true
      → find_unit p.evidence_ref evidence ≡ some (parent, unit)
      → no_issues (bind_problem python evidence p parent unit).issues ≡ true
  unfolding check_problem
  check_history live has_sample p parent unit h c f =
      let e : check_problem python evidence live has_sample (some p)
          ≡ bind_problem python evidence p parent unit =
        rw (c, f) in
      ap (λ q. no_issues q.issues) (sym e) ∙ h

  check_problem_lem :
      (live : List ℕ) (has_sample : Bool) (p : ProblemSql)
      → no_issues (check_problem python evidence live has_sample (some p)).issues ≡ true
      → IsBound live p
  unfolding check_problem
  check_problem_lem live has_sample p h = elim (Bool-cases (contains p.evidence_ref live)) [
    | inr c ↦ let no : ⊥ = ground (arith, h, c) in absurd no
    | inl c ↦ record {
      is_in_live = c;
      to_history =
          λ parent unit f. ground (arith, check_history live has_sample p parent unit h c f);
      to_row = λ parent unit f.
          let g = check_history live has_sample p parent unit h c f in
          let t : is_history python unit ≡ true = ground (arith, g) in
          let e : bind_problem python evidence p parent unit
              ≡ bound parent (resolve_problem_history_row python unit p.sample_id p.statement) =
            rw t in
          bound_lem parent _ (ap (λ q. no_issues q.issues) (sym e) ∙ g);
    }
  ]

  check_explain_lem :
      (live : List ℕ) (q : Problem) (ref : ℕ)
      → no_issues (check_explain python evidence live q (some ref)) ≡ true
      → contains ref live ≡ true
  unfolding check_explain
  check_explain_lem live q ref h = ground (arith, h)

  plan_lem :
      (live : List ℕ) (q : Problem)
      → no_issues (check_explain python evidence live q none) ≡ true
      → is_empty (explain_refs python evidence q) ≡ true
  unfolding check_explain
  plan_lem live q h = when_empty_lem (is_empty (explain_refs python evidence q)) _ h

  ref_issues_lem :
      (refs : List ℕ)
      → no_issues (ref_issues python evidence refs) ≡ true
      → all_of (λ ref. no_issues (issue_of (check_ref python evidence ref))) refs ≡ true
  ref_issues_lem [] h = refl
  ref_issues_lem (ref ∷ refs) h =
      let q =
        appended (issue_of (check_ref python evidence ref)) (ref_issues python evidence refs) h in
      let rest = ref_issues_lem refs q.1 in rw (q.0, rest)

  -- What the validator asks of a cause: it says something; it is supported and verified, with neither a
  -- hypothesis nor a next probe; no reference is refused and one is live; the steps cite live references;
  -- the problem SQL is bound, and there is one if a live unit has a sample; the reference to a plan is live,
  -- and there is one if a plan of that SQL is there.
  pub record IsValidCause (c : RootCause) : Type 0 where
    pub status : is_supported c.status ≡ true
    pub cause : is_nonblank python c.cause ≡ true
    pub hypothesis : is_some c.hypothesis_id ≡ false
    pub verified : c.verified ≡ true
    pub probe : is_some c.next_probe ≡ false
    pub refs :
        all_of
          (λ ref. no_issues (issue_of (check_ref python evidence ref)))
          (distinct c.evidence_refs)
        ≡ true
    pub cites : is_empty (lives c) ≡ false
    pub process : c.analysis_process ≢ []
    pub steps : all_of (all_of (λ ref. contains ref (lives c))) c.analysis_process ≡ true
    pub problem : (p : ProblemSql) → c.problem_sql ≡ some p → IsBound (lives c) p
    pub sample : c.problem_sql ≡ none → any_of (is_sql_sample python evidence) (lives c) ≡ false
    pub explain : (ref : ℕ) → c.explain_ref ≡ some ref → contains ref (lives c) ≡ true
    pub plan :
        c.explain_ref ≡ none
        → is_empty (explain_refs python evidence (problem_of python evidence c)) ≡ true

  check_cause_lem :
      (c : RootCause) → no_issues (check_cause python evidence c).0 ≡ true → IsValidCause c
  unfolding check_cause
  check_cause_lem c h =
      let live = lives c in
      let q : Problem = problem_of python evidence c in
      let o = appended _ (when (is_some c.next_probe) has_next_probe) h in
      let a = appended (withdrawing (when (not (is_supported c.status)) not_supported)).0 _ o.0 in
      let b =
        appended (claim_issues python evidence c) (withdrawing (support_issues python evidence c)).0
          a.1 in
      let claim = appended _ (ref_issues python evidence (distinct c.evidence_refs)) b.0 in
      let claim' = appended (when (not (is_nonblank python c.cause)) no_cause) _ claim.0 in
      let s1 = appended _ (when (not c.verified) not_verified) (
        subst (λ is. no_issues is ≡ true) (withdrawing_issues (support_issues python evidence c))
          b.1) in
      let s2 = appended _ (when (is_empty live) no_evidence) s1.0 in
      let s3 = appended _ (check_explain python evidence live q c.explain_ref) s2.0 in
      let s4 = appended (process_issues live c.analysis_process) q.issues s3.0 in
      let problem_ok : Option ProblemSql → Type 0 = λ o.
        no_issues
          (check_problem python evidence live (any_of (is_sql_sample python evidence) live)
            o).issues
        ≡ true in
      let explain_ok : Option ℕ → Type 0 =
        λ o. no_issues (check_explain python evidence live q o) ≡ true in
      record {
        status = when_empty_lem (is_supported c.status) _ (
            subst (λ is. no_issues is ≡ true)
              (withdrawing_issues (when (not (is_supported c.status)) not_supported)) a.0);
        cause = when_empty_lem (is_nonblank python c.cause) _ claim'.0;
        hypothesis = when_lem (is_some c.hypothesis_id) _ claim'.1;
        verified = when_empty_lem c.verified _ s1.1;
        probe = when_lem (is_some c.next_probe) _ o.1;
        refs = ref_issues_lem (distinct c.evidence_refs) claim.1;
        cites = when_lem (is_empty live) _ s2.1;
        process = λ e.
            let no : no_issues (no_process ∷ []) ≡ true =
              subst (λ steps. no_issues (process_issues live steps) ≡ true) e s4.0 in
            cc;
        steps = process_steps live c.analysis_process s4.0;
        problem = λ p e.
            check_problem_lem live (any_of (is_sql_sample python evidence) live) p
              (subst problem_ok e s4.1);
        sample =
            λ e. when_lem (any_of (is_sql_sample python evidence) live) _ (subst problem_ok e s4.1);
        explain = λ ref e. check_explain_lem live q ref (subst explain_ok e s3.1);
        plan = λ e. plan_lem live q (subst explain_ok e s3.1);
      }

  check_causes_lem :
      (cs : List RootCause) (c : RootCause)
      → no_issues (check_causes python evidence cs).0 ≡ true
      → In c cs
      → IsValidCause c
  unfolding check_causes
  check_causes_lem [] c h i = absurd i
  check_causes_lem (d ∷ cs) c h i =
      let q = appended (check_cause python evidence d).0 (check_causes python evidence cs).0 h in
      elim i [
        | inl e ↦ subst IsValidCause (sym e) (check_cause_lem d q.0)
        | inr j ↦ check_causes_lem cs c q.1 j
      ]

  -- A validation that passes says: the recommendation has an AI basis, its solutions are numbered, it has
  -- solutions exactly if it names a cause, and one without a cause is the fixed inconclusive one; and each
  -- cause is supported, its references are accepted, and its problem SQL and its plan are bound to evidence
  -- that is live.
  pub validate-IsValid :
      (r : Recommendation)
      → (validate python evidence r).passed ≡ true
      → IsValidShape r × ((c : RootCause) → In c r.root_causes → IsValidCause c)
  unfolding validate
  validate-IsValid r h =
      let a = appended _ (when (not r.has_ai_basis) no_ai_basis) h in
      let b = appended (shape_issues r) (check_causes python evidence r.root_causes).0 a.0 in
      (
        shape_issues_lem r (when_empty_lem r.has_ai_basis _ a.1) b.0,
        λ c. check_causes_lem r.root_causes c b.1,
      )
