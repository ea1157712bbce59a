-- ===== src/Runs/Changes.antt =====
-- A transaction changes the table of runs by updates of single rows and insertions in front. What
-- that keeps, whatever the transaction.
use database_alert_agent.Prelude.{
  ℕ, ◌≤◌, ◌≡◌, ◌≢◌, sym, ap, ◌∙◌, subst, inl, inr, true, false, some, List, ◌∷◌, ◌==◌, is_some, In,
  find, modify, find-In, find-key, find-modify, ==→≡, Bool-cases,
}
use database_alert_agent.Database.{Run}
use database_alert_agent.Runs.{run_key}
use database_alert_agent.Runs.Consistency.{
  IsConsistent, Later, Later-refl, Later-trans, EndedBelow, modify-IsConsistent,
  insert-IsConsistent,
}

pub data Change : List Run → List Run → Type 0 where
  same : (runs : List Run) → Change runs runs
  update :
      (runs : List Run) (k : ℕ) (f : Run → Run) (r : Run)
      → ((x : Run) → (f x).id ≡ x.id)
      → find run_key k runs ≡ some r
      → Later r (f r)
      → Change runs (modify run_key k f runs)
  insert :
      (runs : List Run) (n : Run)
      → ((r : Run) → In r runs → r.id ≢ n.id)
      → EndedBelow n.alert_id n.attempt runs
      → n.attempt ≤ n.fencing_token
      → (is_some n.lease_owner ≡ true) × (is_some n.lease_expires_at ≡ true)
      → Change runs (n ∷ runs)
  both : {xs ys zs : List Run} → Change xs ys → Change ys zs → Change xs zs

-- A change keeps the table consistent.
pub Change-IsConsistent : {xs ys : List Run} → Change xs ys → IsConsistent xs → IsConsistent ys
Change-IsConsistent (same runs) c = c
Change-IsConsistent (update runs k f r keeps found l) c = modify-IsConsistent k f runs c r found l
Change-IsConsistent (insert runs n new below tok lease) c =
    insert-IsConsistent n runs c new below tok lease
Change-IsConsistent (both p q) c = Change-IsConsistent q (Change-IsConsistent p c)

-- After a change each run is still there, and only later.
pub Change-find :
    {xs ys : List Run} (k : ℕ) (r : Run)
    → Change xs ys
    → find run_key k xs ≡ some r
    → (r' : Run) × (find run_key k ys ≡ some r') × Later r r'
Change-find k r (same runs) e = (r, e, Later-refl r)
Change-find k r (update runs j f s keeps found l) e = elim (Bool-cases (run_key r == j)) [
  | inl t ↦
      let k≡j : k ≡ j = sym (find-key run_key k runs r e) ∙ ==→≡ _ _ t in
      let same : s ≡ r =
        let p : some s ≡ some r = sym found ∙ ap (λ x. find run_key x runs) (sym k≡j) ∙ e in cc in
      (f r, find-modify run_key j f keeps k runs r e ∙ rw t, subst (λ x. Later x (f x)) same l)
  | inr t ↦ (r, find-modify run_key j f keeps k runs r e ∙ rw t, Later-refl r)
]
Change-find k r (insert runs n new below tok lease) e = (r, unfold find in rw other e, Later-refl r)
  where
    other : (run_key n == k) ≡ false
    other = elim (Bool-cases (run_key n == k)) [
      | inl t ↦
          absurd
            (new r (find-In run_key k runs r e) (find-key run_key k runs r e ∙ sym (==→≡ _ _ t)))
      | inr f ↦ f
    ]
Change-find k r (both p q) e =
    let (s, f, l) = Change-find k r p e in
    let (t, g, m) = Change-find k s q f in (t, g, Later-trans l m)
