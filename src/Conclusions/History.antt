-- ===== src/Conclusions/History.antt =====
-- The rows of slow-query history that a conclusion may show: `_complete_history_statement`,
-- `_resolve_problem_history_row`, `_same_history_identity` and their helpers.
use database_alert_agent.Prelude.{
  ℕ, String, Bool, true, false, not, ◌&&◌, ◌||◌, Option, none, some, List, [], ◌∷◌, ◌==◌, leb, ltb,
  str_eq, if◌then◌else◌, holds,
}
use database_alert_agent.Conclusions.{
  Value, text, number, boolean, null, HistoryRow, TextMethods, EvidenceUnit, EvidenceRecord,
  unit_is_eligible,
}

abbrev pub all_of : {A : Type 0} → (A → Bool) → List A → Bool
all_of p [] = true
all_of p (x ∷ xs) = p x && all_of p xs

abbrev pub any_of : {A : Type 0} → (A → Bool) → List A → Bool
any_of p [] = false
any_of p (x ∷ xs) = p x || any_of p xs

abbrev pub keep : {A : Type 0} → (A → Bool) → List A → List A
keep p [] = []
keep p (x ∷ xs) = if p x then x ∷ keep p xs else keep p xs

-- The items of a list of rows that are objects.
abbrev pub objects : List (Option HistoryRow) → List HistoryRow
objects [] = []
objects (none ∷ rows) = objects rows
objects (some row ∷ rows) = row ∷ objects rows

-- What `_resolve_problem_history_row` finds wrong.
pub data BindingIssue : Type 0 where
  no_sample_id not_found ambiguous incomplete_sample statement_differs : BindingIssue

module _ (python : TextMethods) where
  abbrev pub is_nonblank : String → Bool
  is_nonblank s = not (str_eq (python.strip s) "")

  -- `_casefolded_value`
  unfoldable pub casefolded_value : HistoryRow → String → Option Value
  casefolded_value [] key = none
  casefolded_value (entry ∷ row) key =
      if str_eq (python.casefold entry.0) (python.casefold key)
      then some entry.1
      else casefolded_value row key

  abbrev pub nonempty : String → Option String
  nonempty s = if str_eq s "" then none else some s

  -- `_identity_text`
  unfoldable pub identity_text : Option Value → Option String
  identity_text none = none
  identity_text (some null) = none
  identity_text (some (boolean b)) = none
  identity_text (some v) = nonempty (python.strip (python.shown v))

  abbrev pub is_history : EvidenceUnit → Bool
  is_history u = str_eq (python.casefold u.stage) "history"

  -- `_history_rows`
  unfoldable pub history_rows : EvidenceUnit → List HistoryRow
  history_rows u = if is_history u then elim u.rows [ none ↦ [] | some rows ↦ objects rows ] else []

  abbrev pub is_sample : String × Value → Bool
  is_sample entry =
      str_eq (python.casefold entry.0) "sample"
      && elim entry.1 [ text s ↦ is_nonblank s | _ ↦ false ]

  -- `_unit_contains_sql_sample`
  unfoldable pub unit_contains_sql_sample : EvidenceUnit → Bool
  unfolding history_rows
  unit_contains_sql_sample u = any_of (any_of is_sample) (history_rows u)

  -- `full_length` of the marker, if it is a number
  abbrev pub marked_length : Value → Option ℕ
  marked_length (number n) = some n
  marked_length (text s) = python.decimal (python.strip s)
  marked_length _ = none

  abbrev pub length_agrees : String → Option Value → Bool
  length_agrees sample none = true
  length_agrees sample (some marker) =
      holds (λ n. ltb 0 n && n == python.utf8_bytes sample) (marked_length marker)

  abbrev pub representation_is_full : Option String → Bool
  representation_is_full none = true
  representation_is_full (some s) = str_eq (python.casefold s) "full"

  -- `_complete_history_statement`
  unfoldable pub complete_history_statement : HistoryRow → Option String
  unfolding casefolded_value identity_text
  complete_history_statement row = elim (casefolded_value row "sample") [
    | some (text sample) ↦
        if is_nonblank sample
          && leb (python.characters sample) 4000
          && representation_is_full (identity_text (casefolded_value row "sample_representation"))
          && length_agrees sample (casefolded_value row "sample_full_length")
        then some sample
        else none
    | _ ↦ none
  ]

  abbrev pub same_id : String → HistoryRow → Bool
  same_id id row = holds (str_eq id) (identity_text (casefolded_value row "id"))

  abbrev pub statement_issue : Option String → HistoryRow → Option BindingIssue
  statement_issue none row = none
  statement_issue (some statement) row = elim (complete_history_statement row) [
    | none ↦ some incomplete_sample
    | some sample ↦ if str_eq statement sample then none else some statement_differs
  ]

  -- one match, none, or more
  abbrev pub resolve_among :
      List HistoryRow → Option String → Option HistoryRow × Option BindingIssue
  resolve_among [] statement = (none, some not_found)
  resolve_among (row ∷ []) statement = (some row, statement_issue statement row)
  resolve_among (row ∷ row' ∷ rows) statement = (none, some ambiguous)

  -- `_resolve_problem_history_row`
  unfoldable pub resolve_problem_history_row :
      EvidenceUnit → (sample_id statement : Option String) → Option HistoryRow × Option BindingIssue
  unfolding history_rows casefolded_value identity_text complete_history_statement
  resolve_problem_history_row u none statement = (none, some no_sample_id)
  resolve_problem_history_row u (some sample_id) statement =
      elim (nonempty (python.strip sample_id)) [
        | none ↦ (none, some no_sample_id)
        | some id ↦ resolve_among (keep (same_id id) (history_rows u)) statement
      ]

  abbrev pub agrees_on : String → HistoryRow → HistoryRow → Bool
  agrees_on key row source = elim (identity_text (casefolded_value row key)) [
    | none ↦ true
    | some expected ↦
        holds (λ actual. str_eq (python.casefold actual) (python.casefold expected))
          (identity_text (casefolded_value source key))
  ]

  abbrev pub samples_differ : Option Value → Option Value → Bool
  samples_differ (some (text s)) (some (text t)) = not (str_eq s t)
  samples_differ _ _ = false

  -- `_same_history_identity`
  unfoldable pub same_history_identity : HistoryRow → HistoryRow → Bool
  unfolding casefolded_value identity_text
  same_history_identity row source =
      elim (identity_text (casefolded_value row "id")) [
        | none ↦ false
        | some id ↦ holds (str_eq id) (identity_text (casefolded_value source "id"))
      ]
      && agrees_on "checksum" row source
      && agrees_on "sample_sha256" row source
      && not (samples_differ (casefolded_value row "sample") (casefolded_value source "sample"))

  abbrev pub is_explain : EvidenceUnit → Bool
  is_explain u = str_eq (python.casefold u.stage) "explain"

  -- `_successful_explain_refs_for_history`: the test of one unit
  unfoldable pub explains : EvidenceRecord → HistoryRow → EvidenceUnit → Bool
  unfolding unit_is_eligible same_history_identity
  explains parent row u =
      is_explain u
      && unit_is_eligible python parent u
      && holds (same_history_identity row) u.source_history_row

  abbrev pub unit_ids : List EvidenceUnit → List ℕ
  unit_ids [] = []
  unit_ids (u ∷ us) = u.id ∷ unit_ids us

  unfoldable pub successful_explain_refs_for_history : EvidenceRecord → HistoryRow → List ℕ
  unfolding explains
  successful_explain_refs_for_history parent row =
      unit_ids (keep (explains parent row) parent.evidence_units)
