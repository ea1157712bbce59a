-- ===== src/Conclusions/Examples.antt =====
-- Runs of the policy and of the validator on the samples.
use database_alert_agent.Prelude.{
  ℕ, ◌≡◌, refl, sym, subst, ◌⊎◌, inl, inr, true, false, none, ◌==◌, ==→≡, arith, Bool-cases, In,
}
use database_alert_agent.Conclusions.{find_unit, find_record}
use database_alert_agent.Conclusions.Policy.{
  RootCause, distinct, is_empty, enforce_post_evidence_root_cause_policy,
}
use database_alert_agent.Conclusions.Refs.{ref_issues, live_refs}
use database_alert_agent.Conclusions.Rules.{validate, no_issues}
use database_alert_agent.Conclusions.Supported.{
  IsConcluded, enforced, enforce_post_evidence_root_cause_policy-IsConcluded,
}
use database_alert_agent.Conclusions.Shape.{IsValidShape}
use database_alert_agent.Conclusions.Sound.{IsValidCause, validate-IsValid}
use database_alert_agent.Conclusions.Agreement.{enforce-ref_issues}
use database_alert_agent.Conclusions.Samples.{
  python, is_collection, evidence, slow_query, recommendation, accepted,
}

-- The policy leaves the first cause, without the two references; that passes the validation.
claimed-enforced : enforced python is_collection evidence recommendation none ≡ accepted
unfolding enforce_post_evidence_root_cause_policy
claimed-enforced = refl

accepted-passes : (validate python evidence accepted).passed ≡ true
unfolding validate
accepted-passes = refl

claimed-fails : (validate python evidence recommendation).passed ≡ false
unfolding validate
claimed-fails = refl

units_apart : (ref : ℕ) → (find_unit ref evidence ≡ none) ⊎ (find_record ref evidence ≡ none)
unfolding find_unit find_record
units_apart ref = elim (Bool-cases (5 == ref)) [
  | inl e ↦ inr (subst (λ n. find_record n evidence ≡ none) (==→≡ 5 ref e) refl)
  | inr e ↦ elim (Bool-cases (6 == ref)) [
    | inl f ↦ inr (subst (λ n. find_record n evidence ≡ none) (==→≡ 6 ref f) refl)
    | inr f ↦ inl (ground (arith, e, f))
  ]
]

enforce_post_evidence_root_cause_policy-IsConcluded_example :
    IsConcluded python is_collection evidence
      (enforced python is_collection evidence recommendation none)
enforce_post_evidence_root_cause_policy-IsConcluded_example =
    enforce_post_evidence_root_cause_policy-IsConcluded python is_collection evidence recommendation
      none

validate-IsValid_example :
    IsValidShape accepted
    × ((c : RootCause) → In c accepted.root_causes → IsValidCause python evidence c)
validate-IsValid_example = validate-IsValid python evidence accepted accepted-passes

enforce-ref_issues_example :
    (no_issues (ref_issues python evidence (distinct slow_query.evidence_refs)) ≡ true)
    × (live_refs python evidence slow_query ≡ distinct slow_query.evidence_refs)
    × (is_empty (live_refs python evidence slow_query) ≡ false)
enforce-ref_issues_example =
    enforce-ref_issues python is_collection evidence units_apart recommendation none slow_query
      (subst (λ r. In slow_query r.root_causes) (sym claimed-enforced) (inl refl))
