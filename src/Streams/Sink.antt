-- ===== src/Streams/Sink.antt =====
-- `InMemoryEventSink` of app/agent_runtime/events.py, and `RepositoryEventSink` as its refinement.
use database_alert_agent.Prelude.{
  ℕ, ◌+◌, String, ◌≡◌, refl, sym, ap, ◌∙◌, subst, Bool, true, false, not, ◌&&◌, ◌||◌, inl, inr,
  Option, List, [], ◌∷◌, ◌++◌, Result, ok, guard, ◌>>◌, value_error, runtime_error, arith, Ensures,
  Ensures-ok, Ensures-guard, Ensures-bind, ◌==◌, ltb, if◌then◌else◌, In, Bool-cases,
}
use database_alert_agent.Database.{Event, Run, Db}
use database_alert_agent.Runs.{require_active_run_lease}
use database_alert_agent.Streams.{
  latest_sequence, check_events, has_event, add_events, last_sequence, events_after, expects,
  committed, append_agent_events, list_agent_events, get_agent_event_sequence, find_event,
  sanitized, sink_append,
}
use database_alert_agent.Streams.Order.{latest-first, latest-other, events_after-latest}
use database_alert_agent.Streams.Append.{IsStreams, read_one, not_read, one_more}

-- The streams, oldest event first, and the ids of all events.
pub record Memory : Type 0 where
  pub streams : ℕ → List Event
  pub event_ids : List ℕ

-- `stream[-1].version if stream else 0`
unfoldable pub last_version : List Event → ℕ
last_version [] = 0
last_version (e ∷ []) = e.version
last_version (e ∷ f ∷ es) = last_version (f ∷ es)

unfoldable pub is_listed : ℕ → List ℕ → Bool
is_listed id [] = false
is_listed id (x ∷ xs) = x == id || is_listed id xs

unfoldable pub memory_append : Event → Option ℕ → Memory → Result (Event × Memory)
memory_append e expected_version m = do
  let actual = last_version (m.streams e.run_id)
  expects expected_version actual
  guard (not (is_listed e.event_id m.event_ids)) runtime_error
  guard (e.sequence == 0 && e.version == 0) value_error
  let c = committed (actual + 1) e
  ok (
    c,
    record {
      streams =
          λ run_id. if e.run_id == run_id then m.streams e.run_id ++ c ∷ [] else m.streams run_id;
      event_ids = e.event_id ∷ m.event_ids;
    },
  )

unfoldable pub memory_read : ℕ → ℕ → Memory → List Event
memory_read run_id after m = newer (m.streams run_id)
  where
    newer : List Event → List Event
    newer [] = []
    newer (e ∷ es) = let rest = newer es in if ltb after e.sequence then e ∷ rest else rest

-- The database holds what the memory holds.
pub record Refines (m : Memory) (db : Db) : Type 0 where
  pub contiguous : IsStreams db.events
  pub versions : (e : Event) → In e db.events → e.version ≡ e.sequence
  pub streams : (run_id : ℕ) → m.streams run_id ≡ events_after run_id 0 db.events
  pub event_ids : (id : ℕ) → is_listed id m.event_ids ≡ has_event id db.events

last_version-append : (xs : List Event) (e : Event) → last_version (xs ++ e ∷ []) ≡ e.version
unfolding last_version
last_version-append [] e = refl
last_version-append (x ∷ []) e = refl
last_version-append (x ∷ y ∷ ys) e = last_version-append (y ∷ ys) e

-- The version of the last event is the latest sequence.
last_version-events_after :
    (run_id : ℕ) (rows : List Event)
    → IsStreams rows
    → ((e : Event) → In e rows → e.version ≡ e.sequence)
    → last_version (events_after run_id 0 rows) ≡ latest_sequence run_id rows
unfolding last_version events_after latest_sequence
last_version-events_after run_id [] k v = refl
last_version-events_after run_id (e ∷ es) k v = elim (Bool-cases (e.run_id == run_id)) [
  | inl t ↦
      let h : e.run_id ≡ run_id = ground arith in
      ap last_version (read_one run_id 0 e es (k run_id) h (omega (arith, (k run_id).0 h)))
      ∙ last_version-append (events_after run_id 0 es) e
      ∙ v e (inl refl)
      ∙ sym (latest-first run_id e es (k run_id) h)
  | inr t ↦
      ap last_version (not_read run_id 0 e es t)
      ∙ last_version-events_after run_id es (λ r. (k r).1) (λ x i. v x (inr i))
      ∙ sym (latest-other run_id e es t)
]

module _ (safe : String → String) (raw : Event) (m : Memory) (db : Db) (f : Refines m db) where
  -- The event as it is sanitized.
  abbrev e : Event
  e = sanitized safe raw

  abbrev stored : Event
  stored = committed (latest_sequence e.run_id db.events + 1) e

  fresh_number : IsStreams (stored ∷ db.events)
  fresh_number = one_more e.run_id stored db.events f.contiguous refl refl

  abbrev after : Memory
  after = record {
    streams = λ run_id.
        if e.run_id == run_id then m.streams e.run_id ++ stored ∷ [] else m.streams run_id;
    event_ids = e.event_id ∷ m.event_ids;
  }

  after-Refines : Refines after (record db { events = stored ∷ db.events })
  unfolding is_listed has_event
  after-Refines = record {
    contiguous = fresh_number;
    versions = λ x i. elim i [
      | inl p ↦ ap (λ z. z.version) p ∙ sym (ap (λ z. z.sequence) p)
      | inr j ↦ f.versions x j
    ];
    streams = λ run_id. elim (Bool-cases (e.run_id == run_id)) [
      | inl t ↦
          let h : e.run_id ≡ run_id = ground arith in
          rw t (
            ap (λ n. m.streams n ++ stored ∷ []) h
            ∙ ap (λ xs. xs ++ stored ∷ []) (f.streams run_id)
            ∙ sym (read_one run_id 0 stored db.events (fresh_number run_id) h (omega arith)))
      | inr t ↦ rw t (f.streams run_id ∙ sym (not_read run_id 0 stored db.events t))
    ];
    event_ids = λ id. ap (λ b. e.event_id == id || b) (f.event_ids id);
  }

  latest-memory : last_version (m.streams e.run_id) ≡ latest_sequence e.run_id db.events
  latest-memory =
      ap last_version (f.streams e.run_id)
      ∙ last_version-events_after e.run_id db.events f.contiguous f.versions

  memory_append-writes :
      (expected_version : Option ℕ)
      → Ensures
          (λ out.
            (expects expected_version (latest_sequence e.run_id db.events) ≡ ok tt)
            × (is_listed e.event_id m.event_ids ≡ false)
            × ((e.sequence == 0 && e.version == 0) ≡ true)
            × ((stored, after) ≡ out))
          (memory_append e expected_version m)
  unfolding memory_append
  memory_append-writes expected_version =
      Ensures-bind Q (expects expected_version (last_version (m.streams e.run_id))) _ λ u p.
        Ensures-guard Q (not (is_listed e.event_id m.event_ids)) runtime_error _ λ fresh.
          Ensures-guard Q (e.sequence == 0 && e.version == 0) value_error _ λ uncommitted.
            Ensures-ok Q _ (
              subst (λ n. expects expected_version n ≡ ok tt) latest-memory p,
              ground arith,
              uncommitted,
              ap grown (sym latest-memory),
            )
    where
      grown : ℕ → Event × Memory
      grown n = (
        committed (n + 1) e,
        record {
          streams = λ run_id.
              if e.run_id == run_id
              then m.streams e.run_id ++ committed (n + 1) e ∷ []
              else m.streams run_id;
          event_ids = e.event_id ∷ m.event_ids;
        },
      )

      Q : Event × Memory → Type 0
      Q out =
          (expects expected_version (latest_sequence e.run_id db.events) ≡ ok tt)
          × (is_listed e.event_id m.event_ids ≡ false)
          × ((e.sequence == 0 && e.version == 0) ≡ true)
          × ((stored, after) ≡ out)

  sink_takes :
      (expected_version : Option ℕ) (owner : Option String) (token : Option ℕ) (now : ℕ) (r : Run)
      → expects expected_version (latest_sequence e.run_id db.events) ≡ ok tt
      → is_listed e.event_id m.event_ids ≡ false
      → (e.sequence == 0 && e.version == 0) ≡ true
      → require_active_run_lease db e.run_id owner token false now ≡ ok r
      → sink_append safe raw expected_version owner token now db
        ≡ ok (stored, record db { events = stored ∷ db.events })
  unfolding sink_append append_agent_events list_agent_events get_agent_event_sequence check_events
      add_events find_event last_sequence
  sink_takes expected_version owner token now r tested fresh uncommitted l = ground (
    arith,
    f.event_ids e.event_id,
    read_one e.run_id (latest_sequence e.run_id db.events) stored db.events (fresh_number e.run_id)
        refl (omega arith),
    events_after-latest e.run_id (latest_sequence e.run_id db.events) db.events
        (f.contiguous e.run_id) (omega arith),
  )

  -- Where the database holds what the memory holds and the lease test of the run passes: an event whose
  -- sanitized form the memory takes, the sink takes too, with the same number. It reads back from the
  -- database what the memory returns for the sanitized form, and the database then holds what the memory
  -- holds.
  pub sink_append-memory_append :
      (expected_version : Option ℕ) (owner : Option String) (token : Option ℕ) (now : ℕ) (r : Run)
      (c : Event) (m' : Memory)
      → memory_append e expected_version m ≡ ok (c, m')
      → require_active_run_lease db e.run_id owner token false now ≡ ok r
      → (db' : Db) × (sink_append safe raw expected_version owner token now db ≡ ok (c, db'))
        × Refines m' db'
  sink_append-memory_append expected_version owner token now r c m' h l =
      let (tested, fresh, uncommitted, q) = (memory_append-writes expected_version).at (c, m') h in
      let same : stored ≡ c = ap (λ p. p.0) q in
      let same' : after ≡ m' = ap (λ p. p.1) q in
      (
        record db { events = stored ∷ db.events },
        sink_takes expected_version owner token now r tested fresh uncommitted l
            ∙ ap (λ x. ok (x, record db { events = stored ∷ db.events })) same,
        subst (λ x. Refines x (record db { events = stored ∷ db.events })) same' after-Refines,
      )
