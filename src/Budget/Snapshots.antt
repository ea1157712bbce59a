-- ===== src/Budget/Snapshots.antt =====
-- `snapshot` and `from_snapshot` of app/agent_runtime/budgets.py.
use database_alert_agent.Prelude.{
  ℕ, ◌≡◌, refl, sym, ap, ◌∙◌, Bool, true, false, ◌&&◌, Option, none, some, [], Result, ok, guard,
  ◌>>◌, value_error, arith, ◌==◌, ==_refl,
}
use database_alert_agent.Budget.{
  Dimension, Amounts, nothing, for_all, is_empty, Ledger, Chain, root, under, ledger, remaining,
}
use database_alert_agent.Budget.Limits.{total, IsSound}

pub record BudgetSnapshot : Type 0 where
  pub ledger_id : ℕ
  pub parent_ledger_id : Option ℕ
  pub limit : Option ℕ
  pub consumed : Amounts
  pub reserved : Amounts
  pub remaining : Option ℕ

-- A ledger with its parent, if it has one.
abbrev pub attach : Ledger → Option Chain → Chain
attach l none = root l
attach l (some c) = under l c

abbrev pub parent_id : Option Chain → Option ℕ
parent_id none = none
parent_id (some c) = some (ledger c).ledger_id

unfoldable pub snapshot : Ledger → Option Chain → BudgetSnapshot
snapshot l parent = record {
  ledger_id = l.ledger_id;
  parent_ledger_id = parent_id parent;
  limit = l.limit;
  consumed = l.consumed;
  reserved = l.reserved;
  remaining = remaining l;
}

abbrev pub same_option : Option ℕ → Option ℕ → Bool
same_option none none = true
same_option (some m) (some n) = m == n
same_option _ _ = false

abbrev pub same_amounts : Amounts → Amounts → Bool
same_amounts a b = for_all (λ d. a d == b d)

unfoldable pub same_snapshot : BudgetSnapshot → BudgetSnapshot → Bool
same_snapshot s t =
    s.ledger_id == t.ledger_id
    && same_option s.parent_ledger_id t.parent_ledger_id
    && same_option s.limit t.limit
    && same_amounts s.consumed t.consumed
    && same_amounts s.reserved t.reserved
    && same_option s.remaining t.remaining

unfoldable pub from_snapshot : BudgetSnapshot → Option Chain → Result Chain
unfolding snapshot same_snapshot
from_snapshot s parent = do
  guard (is_empty s.reserved) value_error
  guard (same_option s.parent_ledger_id (parent_id parent)) value_error
  let l : Ledger = record {
    ledger_id = s.ledger_id;
    limit = s.limit;
    consumed = s.consumed;
    reserved = nothing;
    held = [];
  }
  guard (same_snapshot (snapshot l parent) s) value_error
  ok (attach l parent)

same_option_refl : (o : Option ℕ) → same_option o o ≡ true
same_option_refl none = refl
same_option_refl (some n) = ==_refl n

same_amounts_refl : (a : Amounts) → same_amounts a a ≡ true
unfolding for_all
same_amounts_refl a = ground arith

settled : Ledger → Ledger
settled l = record l { reserved = nothing; held = [] }

settled-restores :
    (l : Ledger) (parent : Option Chain)
    → from_snapshot (snapshot (settled l) parent) parent ≡ ok (attach (settled l) parent)
unfolding from_snapshot snapshot settled
settled-restores l parent = rw (
  same_amounts_refl nothing,
  same_option_refl (parent_id parent),
  ==_refl l.ledger_id,
  same_option_refl l.limit,
  same_amounts_refl l.consumed,
  same_option_refl (remaining (settled l)),
)

-- Where all wall times are whole numbers of seconds: a sound ledger without open reservations, whatever it
-- has consumed, is restored from its snapshot as it was, under the same parent.
pub from_snapshot-snapshot :
    (l : Ledger) (parent : Option Chain)
    → IsSound l
    → l.held ≡ []
    → from_snapshot (snapshot l parent) parent ≡ ok (attach l parent)
unfolding settled
from_snapshot-snapshot l parent s h =
    ap (λ x. from_snapshot (snapshot x parent) parent) (sym same)
    ∙ settled-restores l parent
    ∙ ap (λ x. ok (attach x parent)) same
  where
    empty : (d : Dimension) → 0 ≡ l.reserved d
    empty d = sym (s.exact d ∙ ap (total d) h)

    same : settled l ≡ l
    same i = record l { reserved = λ d. empty d i; held = sym h i }
