-- ===== src/Streams/Append.antt =====
-- What an append does to the stream of its run, and to the others.
use database_alert_agent.Prelude.{
  ℕ, suc, map, ◌+◌, ◌<◌, ◌≤◌, String, ◌≡◌, refl, sym, ap, ◌∙◌, subst, true, false, ◌&&◌, Option,
  none, some, List, [], ◌∷◌, ◌++◌, ok, err, sequence_conflict, value_error, arith, ◌==◌, ltb,
  length, Ensures, Ensures-ok, Ensures-err, Ensures-guard, Ensures-bind, Ensures-option,
}
use database_alert_agent.Database.{Event, Run, Db}
use database_alert_agent.Runs.{require_active_run_lease}
use database_alert_agent.Streams.{
  latest_sequence, check_events, add_events, last_sequence, events_after, append_agent_events,
  list_agent_events, get_agent_event_sequence, sanitized,
}
use database_alert_agent.Streams.Order.{
  IsContiguous, latest-first, events_after-first, events_after-latest, added, append_none,
}

-- The invariant of the table of events.
abbrev pub IsStreams : List Event → Type 0
IsStreams rows = (run_id : ℕ) → IsContiguous run_id rows

append_assoc : (xs : List Event) (e : Event) (ys : List Event) → (xs ++ e ∷ []) ++ ys ≡ xs ++ e ∷ ys
append_assoc [] e ys = refl
append_assoc (x ∷ xs) e ys = ap (λ zs. x ∷ zs) (append_assoc xs e ys)

-- The run's stream after rows that fit it are added.
pub record Extended (run_id : ℕ) (events rows rows' : List Event) : Type 0 where
  pub contiguous : IsStreams rows'
  pub latest : latest_sequence run_id rows' ≡ latest_sequence run_id rows + length events
  pub last : last_sequence (latest_sequence run_id rows) events ≡ latest_sequence run_id rows'
  pub read :
      (after : ℕ)
      → after ≤ latest_sequence run_id rows
      → events_after run_id after rows' ≡ events_after run_id after rows ++ events
  pub others :
      (other after : ℕ)
      → (run_id == other) ≡ false
      → events_after other after rows' ≡ events_after other after rows

pub one_more :
    (run_id : ℕ) (e : Event) (rows : List Event)
    → IsStreams rows
    → e.run_id ≡ run_id
    → e.sequence ≡ latest_sequence run_id rows + 1
    → IsStreams (e ∷ rows)
one_more run_id e rows k h q other =
    (λ p. q ∙ ap (λ n. latest_sequence n rows + 1) (sym h ∙ p), k other)

pub read_one :
    (run_id after : ℕ) (e : Event) (rows : List Event)
    → IsContiguous run_id (e ∷ rows)
    → e.run_id ≡ run_id
    → after < e.sequence
    → events_after run_id after (e ∷ rows) ≡ events_after run_id after rows ++ e ∷ []
read_one run_id after e rows k h l =
    let t : (e.run_id == run_id && ltb after e.sequence) ≡ true = ground arith in
    events_after-first run_id after e rows k
    ∙ ap (λ b. events_after run_id after rows ++ added b e) t

pub not_read :
    (other after : ℕ) (e : Event) (rows : List Event)
    → (e.run_id == other) ≡ false
    → events_after other after (e ∷ rows) ≡ events_after other after rows
unfolding events_after
not_read other after e rows h = ground arith

add_events-Extended :
    (run_id : ℕ) (events rows rows' : List Event)
    → IsStreams rows
    → check_events run_id (latest_sequence run_id rows) events ≡ true
    → add_events events rows ≡ some rows'
    → Extended run_id events rows rows'
unfolding check_events add_events last_sequence
add_events-Extended run_id [] rows rows' k h p =
    let same : rows ≡ rows' = cc in
    subst (Extended run_id [] rows) same (record {
      contiguous = k;
      latest = omega arith;
      last = refl;
      read = λ after l. sym (append_none (events_after run_id after rows));
      others = λ other after n. refl;
    })
add_events-Extended run_id (e ∷ es) rows rows' k h p =
    let of_run : e.run_id ≡ run_id = ground arith in
    let number : e.sequence ≡ latest_sequence run_id rows + 1 = ground arith in
    let k' = one_more run_id e rows k of_run number in
    let top = latest-first run_id e rows (k' run_id) of_run in
    let z =
      add_events-Extended run_id es (e ∷ rows) rows' k' (ground (arith, top)) (ground arith) in
    record {
      contiguous = z.contiguous;
      latest = omega (arith, z.latest, top, number);
      last = ap (λ n. last_sequence n es) (sym top) ∙ z.last;
      read = λ after l.
          z.read after (omega (arith, top, number))
          ∙ ap (λ xs. xs ++ es)
              (read_one run_id after e rows (k' run_id) of_run (omega (arith, number)))
          ∙ append_assoc (events_after run_id after rows) e es;
      others = λ other after n. z.others other after n ∙ not_read other after e rows (ground arith);
    }

-- Sanitization changes no number.
check_events-sanitized :
    (safe : String → String) (run_id n : ℕ) (events : List Event)
    → check_events run_id n (map (sanitized safe) events) ≡ check_events run_id n events
unfolding check_events
check_events-sanitized safe run_id n [] = refl
check_events-sanitized safe run_id n (e ∷ es) =
    ap (λ b. e.run_id == run_id && e.sequence == n + 1 && e.version == n + 1 && b)
      (check_events-sanitized safe run_id (n + 1) es)

last_sequence-sanitized :
    (safe : String → String) (n : ℕ) (events : List Event)
    → last_sequence n (map (sanitized safe) events) ≡ last_sequence n events
unfolding last_sequence
last_sequence-sanitized safe n [] = refl
last_sequence-sanitized safe n (e ∷ es) = last_sequence-sanitized safe e.sequence es

length-sanitized :
    (safe : String → String) (events : List Event)
    → length (map (sanitized safe) events) ≡ length events
length-sanitized safe [] = refl
length-sanitized safe (e ∷ es) = ap suc (length-sanitized safe es)

-- What an append that returns has done.
append_agent_events-Extended :
    (safe : String → String) (run_id : ℕ) (events : List Event) (expected : ℕ)
    (owner : Option String) (token : Option ℕ) (now : ℕ) (db : Db)
    → IsStreams db.events
    → Ensures
        (λ out.
          (latest_sequence run_id db.events ≡ expected)
          × (out.0 ≡ latest_sequence run_id out.1.events)
          × Extended run_id (map (sanitized safe) events) db.events out.1.events)
        (append_agent_events safe run_id events expected owner token now db)
unfolding append_agent_events
append_agent_events-Extended safe run_id events expected owner token now db k =
    Ensures-guard Q (check_events run_id expected events) value_error _ λ h.
      Ensures-bind Q (require_active_run_lease db run_id owner token false now) _ λ run _.
        Ensures-guard Q (latest_sequence run_id db.events == expected)
          (sequence_conflict expected (latest_sequence run_id db.events)) _
          λ e.
            Ensures-option Q (add_events (map (sanitized safe) events) db.events) _ _
              (λ _. Ensures-err Q _)
              λ rows p.
                let same : latest_sequence run_id db.events ≡ expected = ground arith in
                let z =
                  add_events-Extended run_id (map (sanitized safe) events) db.events rows k
                    (check_events-sanitized safe run_id (latest_sequence run_id db.events) events
                      ∙ subst (λ n. check_events run_id n events ≡ true) (sym same) h)
                    p in
                Ensures-ok Q _ (
                  same,
                  sym (last_sequence-sanitized safe (latest_sequence run_id db.events) events)
                      ∙ z.last,
                  z,
                )
  where
    Q : ℕ × Db → Type 0
    Q out =
        (latest_sequence run_id db.events ≡ expected)
        × (out.0 ≡ latest_sequence run_id out.1.events)
        × Extended run_id (map (sanitized safe) events) db.events out.1.events

-- An append to contiguous streams that returns keeps every stream contiguous and returns the new
-- end of its own. A reader who read up to the old end reads next exactly the appended events, in
-- their order and with sanitized payloads; the streams of the other runs read as before.
pub append-list :
    (safe : String → String) (run_id : ℕ) (events : List Event) (expected : ℕ)
    (owner : Option String) (token : Option ℕ) (now n : ℕ) (db db' : Db)
    → IsStreams db.events
    → append_agent_events safe run_id events expected owner token now db ≡ ok (n, db')
    → IsStreams db'.events
      × (n ≡ expected + length events)
      × (get_agent_event_sequence run_id db' ≡ n)
      × (list_agent_events run_id expected none db' ≡ ok (map (sanitized safe) events))
      × ((other after : ℕ)
          → (run_id == other) ≡ false
          → list_agent_events other after none db' ≡ list_agent_events other after none db)
unfolding get_agent_event_sequence list_agent_events
append-list safe run_id events expected owner token now n db db' k h =
    let (e, m, z) =
      (append_agent_events-Extended safe run_id events expected owner token now db k).at _ h in
    (
      z.contiguous,
      omega (arith, m, e, z.latest, length-sanitized safe events),
      sym m,
      ap ok (
          z.read expected (omega (arith, e))
          ∙ ap (λ xs. xs ++ map (sanitized safe) events)
              (events_after-latest run_id expected db.events (k run_id) (omega (arith, e)))),
      λ other after q. ap ok (z.others other after q),
    )

-- Once an append of at least one event to a contiguous stream has returned: a second append, next in the
-- database and of events that are numbered from the same end, by any writer that passes the lease test,
-- raises the conflict, with the end that it did not know. It is refused although its events are well
-- formed for the end that it read.
pub second_writer_conflicts :
    (safe : String → String) (run_id : ℕ) (events events' : List Event) (expected : ℕ)
    (owner owner' : Option String) (token token' : Option ℕ) (now now' n : ℕ) (db db' : Db)
    (r : Run)
    → IsStreams db.events
    → append_agent_events safe run_id events expected owner token now db ≡ ok (n, db')
    → 0 < length events
    → check_events run_id expected events' ≡ true
    → require_active_run_lease db' run_id owner' token' false now' ≡ ok r
    → append_agent_events safe run_id events' expected owner' token' now' db'
      ≡ err (sequence_conflict expected (expected + length events))
unfolding append_agent_events
second_writer_conflicts safe run_id events events' expected owner owner' token token' now now' n db
      db' r k h l c q =
    let (e, m, z) =
      (append_agent_events-Extended safe run_id events expected owner token now db k).at _ h in
    ground (arith, z.latest, length-sanitized safe events)
