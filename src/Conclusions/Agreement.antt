-- ===== src/Conclusions/Agreement.antt =====
-- The validator and the policy judge references alike.
use database_alert_agent.Prelude.{
  ℕ, String, ◌≡◌, refl, ap, ◌∙◌, ◌⊎◌, inl, inr, Bool, true, false, not, ◌&&◌, Option, none, some,
  List, [], ◌∷◌, arith, Bool-cases, In, holds,
}
use database_alert_agent.Conclusions.{
  TextMethods, EvidenceRecord, EvidenceUnit, find_unit, find_record, unit_is_eligible,
  record_is_eligible, is_success,
}
use database_alert_agent.Conclusions.History.{keep, all_of}
use database_alert_agent.Conclusions.Policy.{
  RootCause, Recommendation, contains, distinct_after, distinct, is_empty, is_qualified, AlertView,
  enforce_post_evidence_root_cause_policy,
}
use database_alert_agent.Conclusions.Refs.{
  RefCheck, refused, usable, silent, missing_evidence, is_live, issue_of, check_unit, check_record,
  check_ref, ref_issues, live_refs,
}
use database_alert_agent.Conclusions.Rules.{no_issues}
use database_alert_agent.Conclusions.Shape.{append_nil}
use database_alert_agent.Conclusions.Supported.{enforce_post_evidence_root_cause_policy-IsConcluded}

two_of :
    (v s c d e f g : Bool) → (not v && s && c && d && e && f && g) ≡ true → (v ≡ false) × (s ≡ true)
two_of true s c d e f g h = ground (arith, h)
two_of false s c d e f g h = ground (arith, h)

distinct_cites : (refs : List ℕ) → is_empty refs ≡ false → is_empty (distinct refs) ≡ false
unfolding distinct_after
distinct_cites [] h = h
distinct_cites (ref ∷ refs) h = refl

module _ (python : TextMethods) (is_collection_cause : String → Bool)
    (evidence : List EvidenceRecord) where
  check_unit_live :
      (ref : ℕ) (parent : EvidenceRecord) (unit : EvidenceUnit)
      → is_live (check_unit python evidence ref parent unit) ≡ unit_is_eligible python parent unit
  unfolding unit_is_eligible
  check_unit_live ref parent unit = ground arith

  eligible_success :
      (r : EvidenceRecord)
      → record_is_eligible python r ≡ true
      → (r.is_v2 ≡ false) × (is_success r.status ≡ true)
  unfolding record_is_eligible
  eligible_success r h = two_of r.is_v2 (is_success r.status) _ _ _ _ _ h

  check_record_live :
      (ref : ℕ) (r : EvidenceRecord)
      → is_live (check_record python evidence ref r) ≡ (not r.is_v2 && record_is_eligible python r)
  check_record_live ref r = elim (Bool-cases (record_is_eligible python r)) [
    | inl e ↦ let h = eligible_success r e in ground (arith, h.0, h.1, e)
    | inr e ↦ ground (arith, e)
  ]

  by_unit :
      (ref : ℕ) (found : Option (EvidenceRecord × EvidenceUnit))
      → is_live (elim found [
        | some (parent, unit) ↦ check_unit python evidence ref parent unit
        | none ↦ refused (missing_evidence ref)
      ])
        ≡ elim found [ some (parent, unit) ↦ unit_is_eligible python parent unit | none ↦ false ]
  by_unit ref none = refl
  by_unit ref (some (parent, unit)) = check_unit_live ref parent unit

  by_record :
      (ref : ℕ) (found : Option EvidenceRecord)
      → is_live (elim found [
        | none ↦ refused (missing_evidence ref)
        | some r ↦ check_record python evidence ref r
      ])
        ≡ holds (λ r. not r.is_v2 && record_is_eligible python r) found
  by_record ref none = refl
  by_record ref (some r) = check_record_live ref r

  -- Of an id that no unit or no record has, the validator accepts the reference as live exactly if it
  -- qualifies a cause for the policy.
  pub check_ref-is_qualified :
      (ref : ℕ)
      → (find_unit ref evidence ≡ none) ⊎ (find_record ref evidence ≡ none)
      → is_live (check_ref python evidence ref)
        ≡ is_qualified python is_collection_cause evidence ref
  unfolding check_ref is_qualified
  check_ref-is_qualified ref (inl u) =
      rw (check_ref, is_qualified, u) (by_record ref (find_record ref evidence))
  check_ref-is_qualified ref (inr r) = go (find_unit ref evidence) refl
    where
      go :
          (found : Option (EvidenceRecord × EvidenceUnit))
          → find_unit ref evidence ≡ found
          → is_live (check_ref python evidence ref)
            ≡ is_qualified python is_collection_cause evidence ref
      go none u = rw (check_ref, is_qualified, u, r) refl
      go (some (parent, unit)) u =
          let live = check_unit_live ref parent unit in
          rw (check_ref, is_qualified, u, r) ground (arith, live)

  no_issues_live :
      (ref : ℕ)
      → is_live (check_ref python evidence ref) ≡ true
      → no_issues (issue_of (check_ref python evidence ref)) ≡ true
  no_issues_live ref h = go (check_ref python evidence ref) h
    where
      go : (k : RefCheck) → is_live k ≡ true → no_issues (issue_of k) ≡ true
      go usable h = refl
      go silent h = cc
      go (refused i) h = cc

  abbrev is_live_ref : ℕ → Bool
  is_live_ref ref = is_live (check_ref python evidence ref)

  all_live :
      (refs : List ℕ)
      → all_of is_live_ref refs ≡ true
      → (no_issues (ref_issues python evidence refs) ≡ true) × (keep is_live_ref refs ≡ refs)
  all_live [] h = (refl, refl)
  all_live (ref ∷ refs) h = elim (Bool-cases (is_live_ref ref)) [
    | inr e ↦ ground (arith, h, e)
    | inl e ↦
        let rest = all_live refs (ground (arith, h, e)) in
        (
          append_nil (issue_of (check_ref python evidence ref)) (ref_issues python evidence refs)
              (no_issues_live ref e) rest.0,
          rw (e, rest.1),
        )
  ]

  all_qualified :
      ((ref : ℕ) → (find_unit ref evidence ≡ none) ⊎ (find_record ref evidence ≡ none))
      → (seen refs : List ℕ) → all_of (is_qualified python is_collection_cause evidence) refs ≡ true
      → all_of is_live_ref (distinct_after seen refs) ≡ true
  unfolding distinct_after
  all_qualified apart seen [] h = refl
  all_qualified apart seen (ref ∷ refs) h = elim (Bool-cases (contains ref seen)) [
    | inl e ↦ rw e (all_qualified apart seen refs (ground (arith, h)))
    | inr e ↦
        let here : is_live_ref ref ≡ true =
          check_ref-is_qualified ref (apart ref) ∙ ground (arith, h) in
        let rest = all_qualified apart (ref ∷ seen) refs (ground (arith, h)) in rw (e, here, rest)
  ]

  -- Where no id is that of a unit and of a record, the validator has no issue with a reference of a cause
  -- that the policy leaves: each is live, and there is one.
  pub enforce-ref_issues :
      ((ref : ℕ) → (find_unit ref evidence ≡ none) ⊎ (find_record ref evidence ≡ none))
      → (r : Recommendation) (alert : Option AlertView) (c : RootCause)
      → In c
          (enforce_post_evidence_root_cause_policy python is_collection_cause evidence r
            alert).root_causes
      → (no_issues (ref_issues python evidence (distinct c.evidence_refs)) ≡ true)
        × (live_refs python evidence c ≡ distinct c.evidence_refs)
        × (is_empty (live_refs python evidence c) ≡ false)
  enforce-ref_issues apart r alert c i =
      let left =
        enforce_post_evidence_root_cause_policy-IsConcluded python is_collection_cause evidence r
          alert in
      let supported = left.causes c i in
      let live =
        all_live (distinct c.evidence_refs)
          (all_qualified apart [] c.evidence_refs supported.eligible) in
      (live.0, live.1, ap is_empty live.1 ∙ distinct_cites c.evidence_refs supported.cites)
