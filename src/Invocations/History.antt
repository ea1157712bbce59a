-- ===== src/Invocations/History.antt =====
-- The history of one invocation in the table, over the saves of any number of workers.
use database_alert_agent.Prelude.{
  ℕ, String, ◌≡◌, refl, sym, subst, ◌∙◌, true, false, Option, none, some, List, [], ◌∷◌, arith, ok,
  ◌==◌, ==→≡, find, modify, find-key, if◌then◌else◌, Bool-cases, inl, inr,
}
use database_alert_agent.Database.{Db}
use database_alert_agent.Invocations.{Invocation, Status, is_pending, is_started, is_terminal}
use database_alert_agent.Invocations.Repository.{Row, row_key, with_update}
use database_alert_agent.Invocations.Store.{allowed, save}
use database_alert_agent.Invocations.Transitions.{
  Transition, unchanged, created, moved, IsMove, save-Transition, same_identity→≡, same_epoch→≡,
}

-- Saves of any workers. A save reads the table; other saves take it to `meanwhile`; then it writes.
pub data Saves (digest : String → String → String) : List Row → List Row → Type 0 where
  here : {rows : List Row} → Saves digest rows rows
  next :
      {rows read meanwhile rows' : List Row} (lease_owner : Option String)
      (fencing_token : Option ℕ) (v : Invocation) (now : ℕ) (db : Db)
      → Saves digest rows read
      → Saves digest read meanwhile
      → save digest lease_owner fencing_token (λ _. meanwhile) v now db read ≡ ok rows'
      → Saves digest rows rows'

-- What later states of a row keep: the identity; the epoch, once it is claimed; the whole row, once
-- the invocation has ended.
pub record IsLater (r s : Row) : Type 0 where
  pub identity : r.invocation.identity ≡ s.invocation.identity
  pub epoch :
      is_pending r.invocation.status ≡ false → r.invocation.execution ≡ s.invocation.execution
  pub claimed : is_pending r.invocation.status ≡ false → is_pending s.invocation.status ≡ false
  pub ended : is_terminal r.invocation.status ≡ true → r ≡ s

IsLater-refl : (r : Row) → IsLater r r
IsLater-refl r = record { identity = refl; epoch = λ h. refl; claimed = λ h. h; ended = λ h. refl }

IsLater-trans : (r s t : Row) → IsLater r s → IsLater s t → IsLater r t
IsLater-trans r s t a b = record {
  identity = a.identity ∙ b.identity;
  epoch = λ h. a.epoch h ∙ b.epoch (a.claimed h);
  claimed = λ h. b.claimed (a.claimed h);
  ended = λ h.
      let p : r ≡ s = a.ended h in
      p ∙ b.ended (subst (λ x. is_terminal x.invocation.status ≡ true) p h);
}

-- What the table of allowed moves excludes.
claimed_is_started :
    (s t : Status) → is_pending s ≡ false → allowed s t ≡ true → is_started s ≡ true
claimed_is_started s t h a = ground arith

claimed_stays : (s t : Status) → is_pending s ≡ false → allowed s t ≡ true → is_pending t ≡ false
claimed_stays s t h a = ground arith

ended_stays : (s t : Status) → is_terminal s ≡ true → ¬ (allowed s t ≡ true)
ended_stays s t h a = ground arith

-- A legal move leads to a later state.
IsMove-IsLater :
    (r : Row) (v : Invocation) (result : Option String)
    → IsMove r v
    → IsLater r (with_update v result r)
IsMove-IsLater r v result m = record {
  identity = same_identity→≡ _ _ m.identity;
  epoch =
      λ h. same_epoch→≡ _ _ (m.epoch (claimed_is_started r.invocation.status v.status h m.legal));
  claimed = λ h. claimed_stays r.invocation.status v.status h m.legal;
  ended = λ h. absurd (ended_stays r.invocation.status v.status h m.legal);
}

module _ {A : Type 0} (key : A → ℕ) (k : ℕ) (f : A → A) (keeps : (x : A) → key (f x) ≡ k) where
  find-modify_at :
      (j : ℕ) (xs : List A) (x : A)
      → find key j xs ≡ some x
      → find key j (modify key k f xs) ≡ some (if key x == k then f x else x)
  unfolding find modify
  find-modify_at j [] x h = cc
  find-modify_at j (y ∷ ys) x h = ground (arith, find-modify_at j ys x, keeps y)

-- One save leads every row of the table to a later state.
Transition-IsLater :
    {rows rows' : List Row} (id : ℕ) (r : Row)
    → find row_key id rows ≡ some r
    → Transition rows rows'
    → (r' : Row) × (find row_key id rows' ≡ some r') × IsLater r r'
unfolding find
Transition-IsLater id r h unchanged = (r, h, IsLater-refl r)
Transition-IsLater {rows = rows} id r h (created v p e) =
    elim (Bool-cases (v.identity.invocation_id == id)) [
      | inl t ↦
          let q : v.identity.invocation_id ≡ id = ==→≡ _ _ t in
          let n : find row_key id rows ≡ none = subst (λ k. find row_key k rows ≡ none) q e in
          let no : ⊥ = cc in absurd no
      | inr t ↦ (r, rw t h, IsLater-refl r)
    ]
Transition-IsLater {rows = rows} id r h (moved v result row e m) =
    let k : ℕ = v.identity.invocation_id in
    let g : find row_key id (modify row_key k (with_update v result) rows)
        ≡ some (if row_key r == k then with_update v result r else r) =
      find-modify_at row_key k (with_update v result) (λ x. refl) id rows r h in
    elim (Bool-cases (row_key r == k)) [
      | inl t ↦
          let q : row ≡ r =
            let a : row_key r ≡ k = ==→≡ _ _ t in
            let b : row_key r ≡ id = find-key row_key id rows r h in
            let c : find row_key k rows ≡ some r =
              subst (λ j. find row_key j rows ≡ some r) (sym b ∙ a) h in
            cc in
          (
            with_update v result r,
            g ∙ rw t,
            IsMove-IsLater r v result (subst (λ x. IsMove x v) q m),
          )
      | inr t ↦ (r, g ∙ rw t, IsLater-refl r)
    ]

-- Whatever saves follow, made by whichever workers and interleaved in whichever way, an invocation in
-- the table stays there: it keeps its identity; once it is claimed it keeps the epoch that claimed it
-- and is never pending again; and once it has ended, its whole row stays as it is.
pub Saves-IsLater :
    {digest : String → String → String} {rows rows' : List Row} (id : ℕ) (r : Row)
    → find row_key id rows ≡ some r
    → Saves digest rows rows'
    → (r' : Row) × (find row_key id rows' ≡ some r') × IsLater r r'
Saves-IsLater id r h here = (r, h, IsLater-refl r)
Saves-IsLater id r h (next lease_owner fencing_token v now db before during e) =
    let (q, g, a) = Saves-IsLater id r h before in
    let (q', g', b) = Saves-IsLater id q g during in
    let t = save-Transition _ lease_owner fencing_token _ v now db _ _ e in
    let (q'', g'', c) = Transition-IsLater id q' g' t in
    (q'', g'', IsLater-trans r q' q'' (IsLater-trans r q q' a b) c)
