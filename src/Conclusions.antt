-- ===== src/Conclusions.antt =====
-- What an investigation may conclude: evidence and its eligibility (app/domain/models.py), and the
-- checks of app/application/validation.py in the children. What Python's text methods do is given.
pub mod History
pub mod Policy
pub mod Refs
pub mod Rules
pub mod Distinct
pub mod Supported
pub mod Shape
pub mod Sound
pub mod Agreement
pub mod Samples
mod Examples
use database_alert_agent.Prelude.{
  ℕ, String, Bool, true, false, not, ◌&&◌, ◌||◌, Option, none, some, List, [], ◌∷◌, ◌==◌, str_eq,
  is_some, if◌then◌else◌, holds,
}

-- A value in the data of an evidence unit.
pub data Value : Type 0 where
  text : String → Value
  number : ℕ → Value
  boolean : Bool → Value
  null : Value
  other : (shown : String) → Value

abbrev pub HistoryRow : Type 0
HistoryRow = List (String × Value)

-- `str.casefold`, `str.strip`, `str(value)`, the number of a text of decimal digits, the length of a
-- text and of its encoding in UTF-8.
pub record TextMethods : Type 0 where
  pub casefold : String → String
  pub strip : String → String
  pub shown : Value → String
  pub decimal : String → Option ℕ
  pub characters : String → ℕ
  pub utf8_bytes : String → ℕ

pub data ToolStatus : Type 0 where
  success no_data timeout failed skipped : ToolStatus

abbrev pub is_success : ToolStatus → Bool
is_success ToolStatus.success = true
is_success _ = false

pub data UnitStatus : Type 0 where
  success partial failed no_data recovered unavailable not_applicable : UnitStatus

abbrev pub unit_is_success : UnitStatus → Bool
unit_is_success UnitStatus.success = true
unit_is_success _ = false

-- `data["rows"]`: `none` where it is no list; in it, `none` for an item that is no object.
pub record EvidenceUnit : Type 0 where
  pub id : ℕ
  pub parent_evidence_id : ℕ
  pub stage : String
  pub status : UnitStatus
  pub root_cause_eligible : Bool
  pub source_artifact_id : ℕ
  pub rows : Option (List (Option HistoryRow))
  pub source_history_row : Option HistoryRow

-- `partial` and `root_cause_eligible` of `structured_data`: `none` where they are no booleans.
pub record EvidenceRecord : Type 0 where
  pub id : ℕ
  pub is_v2 : Bool
  pub status : ToolStatus
  pub source_system : String
  pub tool_name : String
  pub partial : Option Bool
  pub root_cause_eligible : Option Bool
  pub truncated : Bool
  pub source_artifact_id : Option ℕ
  pub evidence_units : List EvidenceUnit

abbrev pub is_true : Option Bool → Bool
is_true (some true) = true
is_true _ = false

abbrev pub is_false : Option Bool → Bool
is_false (some false) = true
is_false _ = false

abbrev pub one_of : List String → String → Bool
one_of [] s = false
one_of (t ∷ ts) s = str_eq t s || one_of ts s

abbrev pub has_unit : ℕ → List EvidenceUnit → Bool
has_unit id [] = false
has_unit id (u ∷ us) = u.id == id || has_unit id us

module _ (python : TextMethods) where
  unfoldable pub is_context_only : EvidenceRecord → Bool
  is_context_only r =
      str_eq (python.casefold r.source_system) "flashduty_similar"
      || (one_of
            ("alert_platform" ∷ "flashduty" ∷ "flashduty_api" ∷ "flashduty_alert"
              ∷ "flashduty_alert_detail" ∷ "flashduty_monitors" ∷ [])
            (python.casefold r.source_system)
          && one_of ("query_similar_incidents" ∷ "flashduty_similar" ∷ [])
              (python.casefold r.tool_name))

  -- `is_root_cause_support_eligible` of a record
  unfoldable pub record_is_eligible : EvidenceRecord → Bool
  unfolding is_context_only
  record_is_eligible r =
      not r.is_v2
      && is_success r.status
      && not (str_eq (python.casefold r.source_system) "alert_platform")
      && not (is_context_only r)
      && not (is_true r.partial)
      && (not r.truncated || is_true r.root_cause_eligible)
      && not (is_false r.root_cause_eligible)

  -- `is_evidence_unit_root_cause_support_eligible`, with that of the unit
  unfoldable pub unit_is_eligible : EvidenceRecord → EvidenceUnit → Bool
  unfolding is_context_only
  unit_is_eligible r u =
      r.is_v2
      && is_success r.status
      && not (str_eq (python.casefold r.source_system) "alert_platform")
      && not (is_context_only r)
      && u.parent_evidence_id == r.id
      && holds (λ artifact. u.source_artifact_id == artifact) r.source_artifact_id
      && has_unit u.id r.evidence_units
      && unit_is_success u.status
      && u.root_cause_eligible

-- `_evidence_units_by_id` and `evidence_by_id`: of equal keys the last one counts.
unfoldable pub last_unit :
    ℕ → EvidenceRecord → List EvidenceUnit → Option (EvidenceRecord × EvidenceUnit)
last_unit id r [] = none
last_unit id r (u ∷ us) = elim (last_unit id r us) [
  | some found ↦ some found
  | none ↦ if u.id == id then some (r, u) else none
]

unfoldable pub find_unit : ℕ → List EvidenceRecord → Option (EvidenceRecord × EvidenceUnit)
unfolding last_unit
find_unit id [] = none
find_unit id (r ∷ rs) = elim (find_unit id rs) [
  | some found ↦ some found
  | none ↦ last_unit id r r.evidence_units
]

unfoldable pub find_record : ℕ → List EvidenceRecord → Option EvidenceRecord
find_record id [] = none
find_record id (r ∷ rs) = elim (find_record id rs) [
  | some found ↦ some found
  | none ↦ if r.id == id then some r else none
]
