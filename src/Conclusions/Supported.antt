-- ===== src/Conclusions/Supported.antt =====
-- What `enforce_post_evidence_root_cause_policy` leaves of a recommendation.
use database_alert_agent.Prelude.{
  ℕ, String, ◌≡◌, refl, sym, ap, ◌∙◌, subst, inl, inr, Bool, true, false, not, ◌&&◌, Option, none,
  some, List, [], ◌∷◌, arith, if_split, Bool-cases, In,
}
use database_alert_agent.Conclusions.{TextMethods, EvidenceRecord, HistoryRow}
use database_alert_agent.Conclusions.History.{all_of, BindingIssue, is_nonblank}
use database_alert_agent.Conclusions.Policy.{
  CauseStatus, is_supported, ProblemSql, RootCause, Recommendation, distinct, is_empty,
  without_causes, causes_of, AlertView, is_qualified, with_statement_of, project_statement, project,
  is_considered, qualified_refs, supported_cause, supported_causes, concluded,
  enforce_post_evidence_root_cause_policy,
}
use database_alert_agent.Conclusions.Distinct.{all_of-keep, keep-distinct}

module _ (python : TextMethods) (is_collection_cause : String → Bool)
    (evidence : List EvidenceRecord) where
  with_statement_of_again :
      (p : ProblemSql) (x : Option HistoryRow × Option BindingIssue)
      → with_statement_of python is_collection_cause evidence
          (with_statement_of python is_collection_cause evidence p x)
          x
        ≡ with_statement_of python is_collection_cause evidence p x
  with_statement_of_again p (some row, none) = refl
  with_statement_of_again p (some row, some i) = refl
  with_statement_of_again p (none, i) = refl

  project_statement_again :
      (eligible : List ℕ) (p : ProblemSql)
      → project_statement python is_collection_cause evidence eligible
          (project_statement python is_collection_cause evidence eligible p)
        ≡ project_statement python is_collection_cause evidence eligible p
  unfolding project_statement
  project_statement_again eligible p = ground arith

  project_again :
      (eligible : List ℕ) (p : Option ProblemSql)
      → project python is_collection_cause evidence eligible
          (project python is_collection_cause evidence eligible p)
        ≡ project python is_collection_cause evidence eligible p
  project_again eligible none = refl
  project_again eligible (some p) = ap some (project_statement_again eligible p)

  abbrev pub enforced : Recommendation → Option AlertView → Recommendation
  enforced = enforce_post_evidence_root_cause_policy python is_collection_cause evidence

  abbrev refs : RootCause → List ℕ
  refs = qualified_refs python is_collection_cause evidence

  -- A cause that the policy lets stand: it says something, is marked as supported and verified, and cites
  -- evidence, all of it eligible.
  pub record IsSupportedCause (c : RootCause) : Type 0 where
    pub cause : is_nonblank python c.cause ≡ true
    pub status : is_supported c.status ≡ true
    pub verified : c.verified ≡ true
    pub cites : is_empty c.evidence_refs ≡ false
    pub eligible : all_of (is_qualified python is_collection_cause evidence) c.evidence_refs ≡ true
    pub hypothesis : c.hypothesis_id ≡ none
    pub probe : c.next_probe ≡ none

  supported_cause-IsSupportedCause :
      (alert : Option AlertView) (c : RootCause)
      → is_considered python is_collection_cause evidence alert c ≡ true
      → is_empty (refs c) ≡ false
      → IsSupportedCause (supported_cause python is_collection_cause evidence c)
  unfolding is_considered
  supported_cause-IsSupportedCause alert c h k = record {
    cause = ground arith;
    status = refl;
    verified = refl;
    cites = k;
    eligible =
        all_of-keep (is_qualified python is_collection_cause evidence) (distinct c.evidence_refs);
    hypothesis = refl;
    probe = refl;
  }

  supported_causes-IsSupportedCause :
      (alert : Option AlertView) (cs : List RootCause) (c : RootCause)
      → In c (supported_causes python is_collection_cause evidence alert cs)
      → IsSupportedCause c
  unfolding supported_causes
  supported_causes-IsSupportedCause alert [] c i = absurd i
  supported_causes-IsSupportedCause alert (d ∷ cs) c i =
      let rest = supported_causes-IsSupportedCause alert cs c in
      if_split (λ (l : List RootCause). In c l → IsSupportedCause c)
        (is_considered python is_collection_cause evidence alert d && not (is_empty (refs d))) _ _
        (λ h j. elim j [
          | inl e ↦
              subst IsSupportedCause (sym e)
                (supported_cause-IsSupportedCause alert d (ground arith) (ground arith))
          | inr k ↦ rest k
        ])
        (λ _ j. rest j) i

  -- The recommendation that the policy returns.
  pub record IsConcluded (r : Recommendation) : Type 0 where
    pub causes : (c : RootCause) → In c r.root_causes → IsSupportedCause c
    pub likely : r.likely_causes ≡ causes_of r.root_causes
    pub inconclusive : r.root_causes ≡ [] → r ≡ without_causes r

  concluded-IsConcluded :
      (r : Recommendation) (cs : List RootCause)
      → ((c : RootCause) → In c cs → IsSupportedCause c)
      → IsConcluded (concluded python is_collection_cause evidence r cs)
  concluded-IsConcluded r [] h = record {
    causes = λ c i. absurd i;
    likely = refl;
    inconclusive = λ _. refl;
  }
  concluded-IsConcluded r (c ∷ cs) h = record {
    causes = h;
    likely = refl;
    inconclusive = λ e. let no : ⊥ = cc in absurd no;
  }

  -- Every cause that the policy leaves says something, is supported and verified, and cites evidence, and
  -- each reference is to an eligible unit or record; the likely causes are these. Where it leaves none, the
  -- recommendation is the inconclusive one: the fixed summary, no solutions and no confidence.
  pub enforce_post_evidence_root_cause_policy-IsConcluded :
      (r : Recommendation) (alert : Option AlertView) → IsConcluded (enforced r alert)
  unfolding enforce_post_evidence_root_cause_policy
  enforce_post_evidence_root_cause_policy-IsConcluded r alert =
      concluded-IsConcluded r
        (supported_causes python is_collection_cause evidence alert r.root_causes)
        (λ c. supported_causes-IsSupportedCause alert r.root_causes c)

  supported_cause_again :
      (c : RootCause)
      → supported_cause python is_collection_cause evidence
          (supported_cause python is_collection_cause evidence c)
        ≡ supported_cause python is_collection_cause evidence c
  supported_cause_again c =
      let q : refs (supported_cause python is_collection_cause evidence c) ≡ refs c =
        keep-distinct (is_qualified python is_collection_cause evidence) c.evidence_refs in
      let with : List ℕ → Option ProblemSql → RootCause = λ e p. record c {
        problem_sql = p;
        hypothesis_id = none;
        status = CauseStatus.supported;
        evidence_refs = e;
        verified = true;
        next_probe = none;
      } in
      ap
        (λ e. with e (
          project python is_collection_cause evidence e
            (project python is_collection_cause evidence (refs c) c.problem_sql)))
        q
      ∙ ap (with (refs c)) (project_again (refs c) c.problem_sql)

  is_kept : Option AlertView → RootCause → Bool
  is_kept alert c =
      is_considered python is_collection_cause evidence alert c && not (is_empty (refs c))

  kept :
      (alert : Option AlertView) (c : RootCause) (cs : List RootCause)
      → is_kept alert c ≡ true
      → supported_causes python is_collection_cause evidence alert (c ∷ cs)
        ≡ supported_cause python is_collection_cause evidence c
          ∷ supported_causes python is_collection_cause evidence alert cs
  unfolding supported_causes is_kept
  kept alert c cs h = rw h

  not_kept :
      (alert : Option AlertView) (c : RootCause) (cs : List RootCause)
      → is_kept alert c ≡ false
      → supported_causes python is_collection_cause evidence alert (c ∷ cs)
        ≡ supported_causes python is_collection_cause evidence alert cs
  unfolding supported_causes is_kept
  not_kept alert c cs h = rw h

  considered_again :
      (alert : Option AlertView) (c : RootCause)
      → is_considered python is_collection_cause evidence alert c ≡ true
      → is_considered python is_collection_cause evidence alert
          (supported_cause python is_collection_cause evidence c)
        ≡ true
  unfolding is_considered
  considered_again alert c h = ground (arith, h)

  supported_causes_again :
      (alert : Option AlertView) (cs : List RootCause)
      → supported_causes python is_collection_cause evidence alert
          (supported_causes python is_collection_cause evidence alert cs)
        ≡ supported_causes python is_collection_cause evidence alert cs
  unfolding supported_causes is_kept
  supported_causes_again alert [] = refl
  supported_causes_again alert (c ∷ cs) =
      let again = supported_causes_again alert cs in
      let all : List RootCause → List RootCause =
        supported_causes python is_collection_cause evidence alert in
      let c' : RootCause = supported_cause python is_collection_cause evidence c in
      elim (Bool-cases (is_kept alert c)) [
        | inl t ↦
            let q : refs c' ≡ refs c =
              keep-distinct (is_qualified python is_collection_cause evidence) c.evidence_refs in
            let e : is_empty (refs c') ≡ false = ap is_empty q ∙ ground (arith, t) in
            let k = considered_again alert c (ground (arith, t)) in
            let t' : is_kept alert c' ≡ true = rw (is_kept, k, e) in
            ap all (kept alert c cs t)
            ∙ kept alert c' (all cs) t'
            ∙ ap (λ x. x ∷ all (all cs)) (supported_cause_again c)
            ∙ ap (λ l. c' ∷ l) again
            ∙ sym (kept alert c cs t)
        | inr t ↦ ap all (not_kept alert c cs t) ∙ again ∙ sym (not_kept alert c cs t)
      ]

  -- A second application of the policy changes nothing.
  pub enforce-enforce :
      (r : Recommendation) (alert : Option AlertView)
      → enforced (enforced r alert) alert ≡ enforced r alert
  unfolding enforce_post_evidence_root_cause_policy
  enforce-enforce r alert =
      let all : List RootCause → List RootCause =
        supported_causes python is_collection_cause evidence alert in
      let conclude : Recommendation → List RootCause → Recommendation =
        concluded python is_collection_cause evidence in
      go (all r.root_causes) (supported_causes_again alert r.root_causes)
    where
      go :
          (cs : List RootCause)
          → supported_causes python is_collection_cause evidence alert cs ≡ cs
          → concluded python is_collection_cause evidence
              (concluded python is_collection_cause evidence r cs)
              (supported_causes python is_collection_cause evidence alert
                (concluded python is_collection_cause evidence r cs).root_causes)
            ≡ concluded python is_collection_cause evidence r cs
      go [] h = ap (concluded python is_collection_cause evidence (without_causes r)) h
      go (c ∷ cs) h =
          ap
            (concluded python is_collection_cause evidence
              (concluded python is_collection_cause evidence r (c ∷ cs)))
            h
