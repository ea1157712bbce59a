-- ===== src/Streams/Loading.antt =====
-- Reading checkpoints: `load_checkpoint`, `load_checkpoint_by_id` and `list_checkpoints` of
-- app/adapters/persistence.py.
use database_alert_agent.Prelude.{
  ℕ, String, ◌≡◌, refl, ap, ◌∙◌, Bool, true, ◌&&◌, ◌||◌, Option, none, some, List, [], ◌∷◌, Result,
  ok, err, guard, ◌>>=◌, ◌>>◌, value_error, runtime_error, ◌==◌, ltb, str_eq, holds, if◌then◌else◌,
  is_none, take, find, arith, Bool-cases, inl, inr,
}
use database_alert_agent.Database.{Checkpoint, Run, Db}
use database_alert_agent.Runs.{get_run}
use database_alert_agent.Runs.Claims.Reclaim.{newer, latest_checkpoint, checkpoint_error}
use database_alert_agent.Streams.{run_digest}

-- `_decode_checkpoint_row`
abbrev pub decode_checkpoint : Run → Checkpoint → Result Checkpoint
decode_checkpoint run c = elim (checkpoint_error run c) [ some e ↦ err runtime_error | none ↦ ok c ]

-- The run of a checkpoint that was found, and its manifest.
unfoldable pub decode_row : ℕ → Db → Checkpoint → Result Checkpoint
decode_row run_id db c = elim (get_run db run_id) [
  | none ↦ err runtime_error
  | some run ↦ run_digest run >>= λ digest. decode_checkpoint run c
]

abbrev pub decode_found : ℕ → Db → Option Checkpoint → Result (Option Checkpoint)
decode_found run_id db none = ok none
decode_found run_id db (some c) = decode_row run_id db c >>= λ d. ok (some d)

unfoldable pub load_checkpoint : ℕ → String → Db → Result (Option Checkpoint)
unfolding latest_checkpoint decode_row
load_checkpoint run_id namespace db =
    decode_found run_id db (latest_checkpoint run_id namespace db.checkpoints)

abbrev pub in_stream : ℕ → String → Checkpoint → Bool
in_stream run_id namespace c = c.run_id == run_id && str_eq c.namespace namespace

abbrev pub only : (Checkpoint → Bool) → Option Checkpoint → Option Checkpoint
only p none = none
only p (some c) = if p c then some c else none

unfoldable pub load_checkpoint_by_id : ℕ → ℕ → String → Db → Result (Option Checkpoint)
unfolding find decode_row
load_checkpoint_by_id run_id checkpoint_id namespace db =
    decode_found run_id db
      (only (in_stream run_id namespace) (find (λ c. c.checkpoint_id) checkpoint_id db.checkpoints))

-- `order_by(desc(version))`
unfoldable pub insert_by_version : Checkpoint → List Checkpoint → List Checkpoint
insert_by_version c [] = c ∷ []
insert_by_version c (d ∷ ds) =
    if ltb c.version d.version then d ∷ insert_by_version c ds else c ∷ d ∷ ds

abbrev pub is_before : Option ℕ → Checkpoint → Bool
is_before none c = true
is_before (some version) c = ltb c.version version

-- `where(run_id, namespace, version < before_version).order_by(desc(version))`
unfoldable pub checkpoints_before : ℕ → String → Option ℕ → List Checkpoint → List Checkpoint
checkpoints_before run_id namespace before [] = []
checkpoints_before run_id namespace before (c ∷ cs) =
    let rest = checkpoints_before run_id namespace before cs in
    if in_stream run_id namespace c && is_before before c then insert_by_version c rest else rest

abbrev pub limited : Option ℕ → List Checkpoint → List Checkpoint
limited none cs = cs
limited (some limit) cs = take limit cs

abbrev pub decode_all : Run → List Checkpoint → Result (List Checkpoint)
decode_all run [] = ok []
decode_all run (c ∷ cs) = decode_checkpoint run c >>= λ d. decode_all run cs >>= λ ds. ok (d ∷ ds)

abbrev pub decode_rows : ℕ → Db → List Checkpoint → Result (List Checkpoint)
decode_rows run_id db [] = ok []
decode_rows run_id db (c ∷ cs) = elim (get_run db run_id) [
  | none ↦ err runtime_error
  | some run ↦ run_digest run >>= λ digest. decode_all run (c ∷ cs)
]

unfoldable pub list_checkpoints : ℕ → String → Option ℕ → Option ℕ → Db → Result (List Checkpoint)
unfolding checkpoints_before take
list_checkpoints run_id namespace before_version limit db = do
  guard (is_none before_version || holds (ltb 0) before_version) value_error
  decode_rows run_id db
      (limited limit (checkpoints_before run_id namespace before_version db.checkpoints))

-- The first of the ordered rows is the latest.
abbrev head : List Checkpoint → Option Checkpoint
head [] = none
head (c ∷ cs) = some c

head-insert_by_version :
    (c : Checkpoint) (cs : List Checkpoint)
    → head (insert_by_version c cs) ≡ some (newer c (head cs))
unfolding insert_by_version
head-insert_by_version c [] = refl
head-insert_by_version c (d ∷ ds) = ground arith

head-checkpoints_before :
    (run_id : ℕ) (namespace : String) (cs : List Checkpoint)
    → head (checkpoints_before run_id namespace none cs) ≡ latest_checkpoint run_id namespace cs
unfolding checkpoints_before latest_checkpoint
head-checkpoints_before run_id namespace [] = refl
head-checkpoints_before run_id namespace (c ∷ cs) =
    let rest = head-checkpoints_before run_id namespace cs in
    let first = head-insert_by_version c (checkpoints_before run_id namespace none cs) in
    elim (Bool-cases (in_stream run_id namespace c)) [
      | inl t ↦ ground (arith, t, first, ap (newer c) rest)
      | inr t ↦ ground (arith, t, rest)
    ]

abbrev pub listed : Option Checkpoint → List Checkpoint
listed none = []
listed (some c) = c ∷ []

-- `xs >>= f`, where `f` only makes a value of what it is given
module _ {A B : Type 0} (f : A → B) where
  abbrev pub mapped : Result A → Result B
  mapped r = r >>= λ a. ok (f a)

one_row :
    (run_id : ℕ) (db : Db) (cs : List Checkpoint)
    → decode_rows run_id db (take 1 cs) ≡ mapped listed (decode_found run_id db (head cs))
unfolding take decode_row
one_row run_id db [] = refl
one_row run_id db (c ∷ cs) = ground arith

-- A listing of at most one checkpoint, of any version, is what a load gives: the latest one, none, or the
-- error.
pub list-load :
    (run_id : ℕ) (namespace : String) (db : Db)
    → list_checkpoints run_id namespace none (some 1) db
      ≡ mapped listed (load_checkpoint run_id namespace db)
unfolding list_checkpoints load_checkpoint
list-load run_id namespace db =
    one_row run_id db (checkpoints_before run_id namespace none db.checkpoints)
    ∙ ap (λ o. mapped listed (decode_found run_id db o))
        (head-checkpoints_before run_id namespace db.checkpoints)
