-- ===== src/Conclusions/Shape.antt =====
-- Empty lists of issues, and what the checks of the whole recommendation and of the steps say.
use database_alert_agent.Prelude.{
  ℕ, ◌≡◌, refl, sym, ap, ◌∙◌, subst, inl, inr, Bool, true, false, not, List, [], ◌∷◌, ◌++◌, ◌==◌,
  ==→≡, arith, if◌then◌else◌, Bool-cases, str_eq,
}
use database_alert_agent.Conclusions.History.{keep, all_of}
use database_alert_agent.Conclusions.Policy.{
  Recommendation, inconclusive_summary, contains, distinct_after, distinct, is_empty,
}
use database_alert_agent.Conclusions.Refs.{
  Issue, summary_not_fixed, steps_not_empty, no_steps, wrong_order, when,
}
use database_alert_agent.Conclusions.Rules.{
  shape_issues, has_no_steps, inconclusive_issues, no_texts, is_numbered, withdrawing, step_issues,
  no_issues, no_causes, process_issues,
}

pub appended :
    (a b : List Issue) → no_issues (a ++ b) ≡ true → (no_issues a ≡ true) × (no_issues b ≡ true)
appended [] b h = (refl, h)
appended (i ∷ a) b h = cc

pub append_nil :
    (a b : List Issue) → no_issues a ≡ true → no_issues b ≡ true → no_issues (a ++ b) ≡ true
append_nil [] b h k = k
append_nil (i ∷ a) b h k = cc

pub when_empty_lem : (b : Bool) (i : Issue) → no_issues (when (not b) i) ≡ true → b ≡ true
when_empty_lem true i h = refl
when_empty_lem false i h = cc

pub when_lem : (b : Bool) (i : Issue) → no_issues (when b i) ≡ true → b ≡ false
when_lem true i h = cc
when_lem false i h = refl

pub withdrawing_issues : (is : List Issue) → (withdrawing is).0 ≡ is
withdrawing_issues [] = refl
withdrawing_issues (i ∷ is) = refl

contained :
    (p : ℕ → Bool) (x : ℕ) (xs : List ℕ) → all_of p xs ≡ true → contains x xs ≡ true → p x ≡ true
contained p x [] h c = cc
contained p x (y ∷ ys) h c = elim (Bool-cases (x == y)) [
  | inl e ↦ ap p (==→≡ x y e) ∙ ground (arith, h)
  | inr e ↦ contained p x ys (ground (arith, h)) (ground (arith, c, e))
]

-- What fails in a list fails in its distinct items.
none_fails :
    (p : ℕ → Bool) (seen xs : List ℕ)
    → all_of p seen ≡ true
    → is_empty (keep (λ x. not (p x)) (distinct_after seen xs)) ≡ true
    → all_of p xs ≡ true
unfolding distinct_after
none_fails p seen [] h k = refl
none_fails p seen (x ∷ xs) h k = elim (Bool-cases (contains x seen)) [
  | inl c ↦
      let px = contained p x seen h c in
      let r = none_fails p seen xs h (ground (arith, k, c)) in ground (arith, px, r)
  | inr c ↦ elim (Bool-cases (p x)) [
    | inl px ↦
        let r = none_fails p (x ∷ seen) xs (ground (arith, px, h)) (ground (arith, k, c, px)) in
        ground (arith, px, r)
    | inr px ↦ ground (arith, k, c, px)
  ]
]

step_issues_lem :
    (live : List ℕ) (steps : List (List ℕ))
    → no_issues (step_issues live steps) ≡ true
    → all_of (all_of (λ ref. contains ref live)) steps ≡ true
unfolding step_issues
step_issues_lem live [] h = refl
step_issues_lem live (refs ∷ steps) h =
    let p : ℕ → Bool = λ ref. contains ref live in
    let q = appended _ (step_issues live steps) h in
    let e = when_empty_lem (is_empty (keep (λ ref. not (p ref)) (distinct refs))) _ q.0 in
    let here = none_fails p [] refs refl e in
    let rest = step_issues_lem live steps q.1 in rw (here, rest)

pub process_steps :
    (live : List ℕ) (steps : List (List ℕ))
    → no_issues (process_issues live steps) ≡ true
    → all_of (all_of (λ ref. contains ref live)) steps ≡ true
process_steps live [] h = cc
process_steps live (step ∷ steps) h = step_issues_lem live (step ∷ steps) h

-- The recommendation as a whole: it has an AI basis; one that names no cause has the fixed summary and no
-- likely causes, and whether it has solutions is whether it names a cause; they are numbered from 1.
pub record IsValidShape (r : Recommendation) : Type 0 where
  pub basis : r.has_ai_basis ≡ true
  pub summary : no_causes r.root_causes ≡ true → str_eq r.summary inconclusive_summary ≡ true
  pub likely : no_causes r.root_causes ≡ true → no_texts r.likely_causes ≡ true
  pub solutions : has_no_steps r ≡ no_causes r.root_causes
  pub temporary : is_numbered 1 r.temporary_solutions ≡ true
  pub long_term : is_numbered 1 r.long_term_optimizations ≡ true

pub shape_issues_lem :
    (r : Recommendation)
    → r.has_ai_basis ≡ true
    → no_issues (shape_issues r) ≡ true
    → IsValidShape r
unfolding shape_issues
shape_issues_lem r basis h =
    let a = appended _ (when (not (is_numbered 1 r.long_term_optimizations)) wrong_order) h in
    let b = appended _ (when (not (is_numbered 1 r.temporary_solutions)) wrong_order) a.0 in
    let ok : Bool → Type 0 =
      λ t. no_issues (if t then inconclusive_issues r else when (has_no_steps r) no_steps) ≡ true in
    elim (Bool-cases (no_causes r.root_causes)) [
      | inl n ↦
          let c = appended _ (when (not (has_no_steps r)) steps_not_empty) (subst ok n b.0) in
          let d =
            appended (when (not (str_eq r.summary inconclusive_summary)) summary_not_fixed) _ c.0 in
          record {
            basis = basis;
            summary = λ _. when_empty_lem (str_eq r.summary inconclusive_summary) _ d.0;
            likely = λ _. when_empty_lem (no_texts r.likely_causes) _ d.1;
            solutions = when_empty_lem (has_no_steps r) _ c.1 ∙ sym n;
            temporary = when_empty_lem (is_numbered 1 r.temporary_solutions) _ b.1;
            long_term = when_empty_lem (is_numbered 1 r.long_term_optimizations) _ a.1;
          }
      | inr n ↦ record {
        basis = basis;
        summary = λ e. cc;
        likely = λ e. cc;
        solutions = when_lem (has_no_steps r) _ (subst ok n b.0) ∙ sym n;
        temporary = when_empty_lem (is_numbered 1 r.temporary_solutions) _ b.1;
        long_term = when_empty_lem (is_numbered 1 r.long_term_optimizations) _ a.1;
      }
    ]
