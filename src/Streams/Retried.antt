-- ===== src/Streams/Retried.antt =====
-- The writes of a checkpoint that are put again.
use database_alert_agent.Prelude.{
  ℕ, String, ◌≡◌, refl, sym, ap, ◌∙◌, subst, Bool, true, false, ◌||◌, some, List, [], ◌∷◌, ok,
  value_error, str_eq_refl, ==_refl, if_split, In, inl, inr, arith, Ensures, Ensures-guard,
  Ensures-bind, Ensures-ok,
}
use database_alert_agent.Database.{Run, Db}
use database_alert_agent.Runs.{require_active_run_lease}
use database_alert_agent.Streams.Writes.{
  WriteIndex, regular, special, CheckpointWrite, WriteRow, same_index, is_regular, has_key,
  put_write, put_writes, is_valid_write, all_writes, put_checkpoint_writes,
}

same_regular : (i j : WriteIndex) → same_index i j ≡ true → is_regular i ≡ is_regular j
same_regular (regular n) (regular m) h = refl
same_regular (special n) (special m) h = refl
same_regular (regular n) (special m) h = cc
same_regular (special n) (regular m) h = cc

module _ (run_id checkpoint_id : ℕ) where
  -- A row of the table has the key of the write.
  abbrev is_stored : CheckpointWrite → List WriteRow → Bool
  is_stored w [] = false
  is_stored w (r ∷ rs) = has_key run_id checkpoint_id w r || is_stored w rs

  same_index_refl : (i : WriteIndex) → same_index i i ≡ true
  same_index_refl (regular n) = ==_refl n
  same_index_refl (special n) = ==_refl n

  -- A write that is put is stored, and what was stored stays stored.
  put_write_stores :
      (now : ℕ) (w : CheckpointWrite) (rows : List WriteRow)
      → is_stored w (put_write run_id checkpoint_id now w rows) ≡ true
  unfolding put_write
  put_write_stores now w [] =
      rw
        (
          ==_refl run_id,
          ==_refl checkpoint_id,
          str_eq_refl w.task_id,
          same_index_refl w.write_index,
        )
        refl
  put_write_stores now w (r ∷ rs) = ground (arith, put_write_stores now w rs)

  put_write_keeps :
      (now : ℕ) (v w : CheckpointWrite) (rows : List WriteRow)
      → is_stored v rows ≡ true
      → is_stored v (put_write run_id checkpoint_id now w rows) ≡ true
  unfolding put_write
  put_write_keeps now v w [] h = cc
  put_write_keeps now v w (r ∷ rs) h = ground (arith, h, put_write_keeps now v w rs)

  put_writes_keep :
      (now : ℕ) (v : CheckpointWrite) (ws : List CheckpointWrite) (rows : List WriteRow)
      → is_stored v rows ≡ true
      → is_stored v (put_writes run_id checkpoint_id now ws rows) ≡ true
  unfolding put_writes
  put_writes_keep now v [] rows h = h
  put_writes_keep now v (w ∷ ws) rows h =
      put_writes_keep now v ws (put_write run_id checkpoint_id now w rows)
        (put_write_keeps now v w rows h)

  put_writes_store :
      (now : ℕ) (ws : List CheckpointWrite) (rows : List WriteRow)
      → all_writes (λ w. is_stored w (put_writes run_id checkpoint_id now ws rows)) ws ≡ true
  unfolding put_writes
  put_writes_store now [] rows = refl
  put_writes_store now (w ∷ ws) rows =
      let rows' = put_write run_id checkpoint_id now w rows in
      let here = put_writes_keep now w ws rows' (put_write_stores now w rows) in
      let rest = put_writes_store now ws rows' in rw (here, rest) refl

  -- A stored regular write is not put again.
  put_write_again :
      (now : ℕ) (w : CheckpointWrite) (rows : List WriteRow)
      → is_regular w.write_index ≡ true
      → is_stored w rows ≡ true
      → put_write run_id checkpoint_id now w rows ≡ rows
  unfolding put_write
  put_write_again now w [] h k = cc
  put_write_again now w (r ∷ rs) h k = ground (arith, h, k, put_write_again now w rs h)

  put_writes_again :
      (now : ℕ) (ws : List CheckpointWrite) (rows : List WriteRow)
      → all_writes (λ w. is_regular w.write_index) ws ≡ true
      → all_writes (λ w. is_stored w rows) ws ≡ true
      → put_writes run_id checkpoint_id now ws rows ≡ rows
  unfolding put_writes
  put_writes_again now [] rows h k = refl
  put_writes_again now (w ∷ ws) rows h k =
      let first = put_write_again now w rows (ground (arith, h)) (ground (arith, k)) in
      ap (put_writes run_id checkpoint_id now ws) first
      ∙ put_writes_again now ws rows (ground (arith, h)) (ground (arith, k))

  -- A stored regular write stays as it is, whatever is put.
  In-put_write :
      (now : ℕ) (w : CheckpointWrite) (rows : List WriteRow) (r : WriteRow)
      → is_regular r.write.write_index ≡ true
      → In r rows
      → In r (put_write run_id checkpoint_id now w rows)
  unfolding put_write
  In-put_write now w [] r h i = absurd i
  In-put_write now w (x ∷ xs) r h i =
      let In_r : List WriteRow → Type 0 = λ l. In r l in
      if_split In_r (has_key run_id checkpoint_id w x) _ _
        (λ k. elim i [
          | inr j ↦ inr j
          | inl e ↦
              let same : is_regular r.write.write_index ≡ is_regular w.write_index =
                ap (λ z. is_regular z.write.write_index) e
                ∙ same_regular x.write.write_index w.write_index (ground (arith, k)) in
              if_split (λ y. In r (y ∷ xs)) (is_regular w.write_index) _ _ (λ _. inl e)
                (λ g. let no : true ≡ false = sym h ∙ same ∙ g in cc)
        ])
        (λ _. elim i [ inl e ↦ inl e | inr j ↦ inr (In-put_write now w xs r h j) ])

  In-put_writes :
      (now : ℕ) (ws : List CheckpointWrite) (rows : List WriteRow) (r : WriteRow)
      → is_regular r.write.write_index ≡ true
      → In r rows
      → In r (put_writes run_id checkpoint_id now ws rows)
  unfolding put_writes
  In-put_writes now [] rows r h i = i
  In-put_writes now (w ∷ ws) rows r h i =
      In-put_writes now ws (put_write run_id checkpoint_id now w rows) r h
        (In-put_write now w rows r h i)

-- What a put of writes that returns has tested and written.
record Put (is_base64 : String → Bool) (run_id checkpoint_id : ℕ) (ws : List CheckpointWrite)
    (now : ℕ) (rows rows' : List WriteRow) : Type 0 where
  valid : all_writes (is_valid_write is_base64) ws ≡ true
  written : rows' ≡ put_writes run_id checkpoint_id now ws rows

put_checkpoint_writes-Put :
    (is_base64 : String → Bool) (run_id checkpoint_id : ℕ) (ws : List CheckpointWrite)
    (owner : String) (token now : ℕ) (db : Db) (rows : List WriteRow)
    → Ensures
        (Put is_base64 run_id checkpoint_id ws now rows)
        (put_checkpoint_writes is_base64 run_id checkpoint_id ws owner token now db rows)
unfolding put_checkpoint_writes
put_checkpoint_writes-Put is_base64 run_id checkpoint_id ws owner token now db rows =
    let Q : List WriteRow → Type 0 = Put is_base64 run_id checkpoint_id ws now rows in
    Ensures-guard Q (all_writes (is_valid_write is_base64) ws) value_error _ λ v.
      Ensures-bind Q (require_active_run_lease db run_id (some owner) (some token) false now) _
        λ r l.
          Ensures-ok Q (put_writes run_id checkpoint_id now ws rows)
            (record { valid = v; written = refl })

-- What other puts, of any runs and checkpoints, make of the table, one after another.
pub data Puts (is_base64 : String → Bool) (rows : List WriteRow) : List WriteRow → Type 0 where
  here : Puts is_base64 rows rows
  next :
      {rows' rows'' : List WriteRow} (run_id checkpoint_id : ℕ) (ws : List CheckpointWrite)
      (owner : String) (token now : ℕ) (db : Db)
      → Puts is_base64 rows rows'
      → put_checkpoint_writes is_base64 run_id checkpoint_id ws owner token now db rows' ≡ ok rows''
      → Puts is_base64 rows rows''

-- What is stored stays stored, whatever is put for whichever run and checkpoint.
put_write_elsewhere :
    (run_id checkpoint_id run_id' checkpoint_id' now : ℕ) (v w : CheckpointWrite)
    (rows : List WriteRow)
    → is_stored run_id checkpoint_id v rows ≡ true
    → is_stored run_id checkpoint_id v (put_write run_id' checkpoint_id' now w rows) ≡ true
unfolding put_write
put_write_elsewhere run_id checkpoint_id run_id' checkpoint_id' now v w [] h = cc
put_write_elsewhere run_id checkpoint_id run_id' checkpoint_id' now v w (r ∷ rs) h =
    ground (arith, h, put_write_elsewhere run_id checkpoint_id run_id' checkpoint_id' now v w rs)

put_writes_elsewhere :
    (run_id checkpoint_id run_id' checkpoint_id' now : ℕ) (v : CheckpointWrite)
    (ws : List CheckpointWrite) (rows : List WriteRow)
    → is_stored run_id checkpoint_id v rows ≡ true
    → is_stored run_id checkpoint_id v (put_writes run_id' checkpoint_id' now ws rows) ≡ true
unfolding put_writes
put_writes_elsewhere run_id checkpoint_id run_id' checkpoint_id' now v [] rows h = h
put_writes_elsewhere run_id checkpoint_id run_id' checkpoint_id' now v (w ∷ ws) rows h =
    put_writes_elsewhere run_id checkpoint_id run_id' checkpoint_id' now v ws
      (put_write run_id' checkpoint_id' now w rows)
      (put_write_elsewhere run_id checkpoint_id run_id' checkpoint_id' now v w rows h)

all_writes_mono :
    (p q : CheckpointWrite → Bool) (ws : List CheckpointWrite)
    → ((w : CheckpointWrite) → p w ≡ true → q w ≡ true)
    → all_writes p ws ≡ true
    → all_writes q ws ≡ true
all_writes_mono p q [] h a = refl
all_writes_mono p q (w ∷ ws) h a =
    let first : q w ≡ true = h w (ground (arith, a)) in
    let rest : all_writes q ws ≡ true = all_writes_mono p q ws h (ground (arith, a)) in
    rw (first, rest) refl

Puts-stored :
    (is_base64 : String → Bool) (run_id checkpoint_id : ℕ) (v : CheckpointWrite)
    (rows rows' : List WriteRow)
    → Puts is_base64 rows rows'
    → is_stored run_id checkpoint_id v rows ≡ true
    → is_stored run_id checkpoint_id v rows' ≡ true
Puts-stored is_base64 run_id checkpoint_id v rows rows' here h = h
Puts-stored is_base64 run_id checkpoint_id v rows rows'
      (next {rows' = mid} i c ws owner token now db s e) h =
    let z = (put_checkpoint_writes-Put is_base64 i c ws owner token now db mid).at rows' e in
    let k = Puts-stored is_base64 run_id checkpoint_id v rows mid s h in
    ap (is_stored run_id checkpoint_id v) z.written
    ∙ put_writes_elsewhere run_id checkpoint_id i c now v ws mid k

-- Where a put of regular writes has returned, and whatever other puts follow it: the same writes, put again
-- at any later time by a worker that then holds the run, return and change nothing. So a task that is
-- run again after a crash does not replace its results.
pub put_checkpoint_writes_again :
    (is_base64 : String → Bool) (run_id checkpoint_id : ℕ) (ws : List CheckpointWrite)
    (owner owner' : String) (token token' now now' : ℕ) (db db' : Db)
    (rows rows' rows'' : List WriteRow) (run : Run)
    → put_checkpoint_writes is_base64 run_id checkpoint_id ws owner token now db rows ≡ ok rows'
    → Puts is_base64 rows' rows''
    → require_active_run_lease db' run_id (some owner') (some token') false now' ≡ ok run
    → all_writes (λ w. is_regular w.write_index) ws ≡ true
    → put_checkpoint_writes is_base64 run_id checkpoint_id ws owner' token' now' db' rows''
      ≡ ok rows''
unfolding put_checkpoint_writes
put_checkpoint_writes_again is_base64 run_id checkpoint_id ws owner owner' token token' now now' db
      db' rows rows' rows'' run h s l g =
    let z =
      (put_checkpoint_writes-Put is_base64 run_id checkpoint_id ws owner token now db rows).at rows'
        h in
    let stored : all_writes (λ w. is_stored run_id checkpoint_id w rows') ws ≡ true =
      ap (λ x. all_writes (λ w. is_stored run_id checkpoint_id w x) ws) z.written
      ∙ put_writes_store run_id checkpoint_id now ws rows in
    let kept : all_writes (λ w. is_stored run_id checkpoint_id w rows'') ws ≡ true =
      all_writes_mono (λ w. is_stored run_id checkpoint_id w rows')
        (λ w. is_stored run_id checkpoint_id w rows'') ws
        (λ w. Puts-stored is_base64 run_id checkpoint_id w rows' rows'' s) stored in
    let same = put_writes_again run_id checkpoint_id now' ws rows'' g kept in
    rw (z.valid, l, same) refl

-- A regular write that is stored stays as it was, whatever a put that returns writes.
put_checkpoint_writes-In :
    (is_base64 : String → Bool) (run_id checkpoint_id : ℕ) (ws : List CheckpointWrite)
    (owner : String) (token now : ℕ) (db : Db) (rows rows' : List WriteRow) (r : WriteRow)
    → put_checkpoint_writes is_base64 run_id checkpoint_id ws owner token now db rows ≡ ok rows'
    → is_regular r.write.write_index ≡ true
    → In r rows
    → In r rows'
put_checkpoint_writes-In is_base64 run_id checkpoint_id ws owner token now db rows rows' r h g i =
    let z =
      (put_checkpoint_writes-Put is_base64 run_id checkpoint_id ws owner token now db rows).at rows'
        h in
    subst (In r) (sym z.written) (In-put_writes run_id checkpoint_id now ws rows r g i)
