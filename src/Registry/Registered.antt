-- ===== src/Registry/Registered.antt =====
-- Every running task is the one of the dictionary: what the operations of the registry keep.
use database_alert_agent.Prelude.{
  ℕ, ◌≡◌, refl, sym, ap, ◌∙◌, subst, inl, inr, Bool, true, false, some, List, [], ◌∷◌, ◌==◌, ==→≡,
  arith, Bool-cases, if◌then◌else◌, ok, holds, modify, In, modify-map, if_split, option_split,
  In-map, map,
}
use database_alert_agent.Registry.{
  Task, Registry, is_running_task, set_task, start, discard, task_key, cancel,
}

-- A running task is the one that the dictionary has for its run.
pub record IsRegistered (r : Registry) : Type 0 where
  pub at : (t : Task) → In t r.created → t.done ≡ false → r.tasks t.run_id ≡ some t.task_id

pub running_task :
    (ts : List Task) (t : Task) → In t ts → t.done ≡ false → is_running_task ts t.task_id ≡ true
unfolding is_running_task
running_task [] t i d = absurd i
running_task (u ∷ ts) t (inl e) d =
    let p : u.task_id ≡ t.task_id = ap task_key (sym e) in
    let q : u.done ≡ false = ap (λ (x : Task). x.done) (sym e) ∙ d in ground (arith, p, q)
running_task (u ∷ ts) t (inr i) d = ground (arith, running_task ts t i d)

pub start-IsRegistered :
    (run_id task_id : ℕ) (r r' : Registry)
    → IsRegistered r
    → start run_id task_id r ≡ ok r'
    → IsRegistered r'
unfolding start
start-IsRegistered run_id task_id r r' g h =
    elim (Bool-cases (holds (is_running_task r.created) (r.tasks run_id))) [
      | inl t ↦ let no : ⊥ = ground (arith, t) in absurd no
      | inr t ↦
          let r1 : Registry = record {
            created =
                record {
                  task_id = task_id;
                  run_id = run_id;
                  done = false;
                  cancel_requested = false;
                }
                ∷ r.created;
            tasks = set_task run_id (some task_id) r.tasks;
          } in
          let e : start run_id task_id r ≡ ok r1 = rw (start, t) in
          let q : ok r1 ≡ ok r' = sym e ∙ h in
          let q' : r1 ≡ r' = cc in
          subst IsRegistered q' (record {
            at = λ u i d. elim i [
              | inl n ↦
                  let a : u.run_id ≡ run_id = ap (λ (x : Task). x.run_id) n in
                  let b : u.task_id ≡ task_id = ap task_key n in ground (arith, a, b)
              | inr j ↦
                  let f : r.tasks u.run_id ≡ some u.task_id = g.at u j d in
                  let k : is_running_task r.created u.task_id ≡ true =
                    running_task r.created u j d in
                  elim (Bool-cases (u.run_id == run_id)) [
                    | inl m ↦
                        let f' : r.tasks run_id ≡ some u.task_id =
                          subst (λ x. r.tasks x ≡ some u.task_id) (==→≡ _ _ m) f in
                        let v : holds (is_running_task r.created) (r.tasks run_id) ≡ true =
                          ap (holds (is_running_task r.created)) f' ∙ k in
                        let no : ⊥ = cc in absurd no
                    | inr m ↦ rw m f
                  ]
            ];
          })
    ]

-- New values for one task, or for each, that start none and keep its identity and its run.
pub record IsUpdate (f : Task → Task) : Type 0 where
  pub key : (t : Task) → (f t).task_id ≡ t.task_id
  pub run : (t : Task) → (f t).run_id ≡ t.run_id
  pub ended : (t : Task) → (f t).done ≡ false → t.done ≡ false

pub map-IsRegistered :
    (f : Task → Task) (r : Registry)
    → IsUpdate f
    → IsRegistered r
    → IsRegistered (record r { created = map f r.created })
map-IsRegistered f r w g = record {
  at = λ t i d.
      let (u, j, e) = In-map f r.created t i in
      let d' : u.done ≡ false = w.ended u (ap (λ (x : Task). x.done) (sym e) ∙ d) in
      ap r.tasks (ap (λ (x : Task). x.run_id) e ∙ w.run u)
      ∙ g.at u j d'
      ∙ ap some (sym (ap task_key e ∙ w.key u));
}

-- The update of one task.
pub one_of-IsUpdate :
    (k : ℕ) (f : Task → Task) → IsUpdate f → IsUpdate (λ t. if task_key t == k then f t else t)
one_of-IsUpdate k f w = record {
  key = λ t.
      if_split (λ (x : Task). x.task_id ≡ t.task_id) (task_key t == k) (f t) t (λ _. w.key t)
        (λ _. refl);
  run = λ t.
      if_split (λ (x : Task). x.run_id ≡ t.run_id) (task_key t == k) (f t) t (λ _. w.run t)
        (λ _. refl);
  ended = λ t.
      if_split (λ (x : Task). x.done ≡ false → t.done ≡ false) (task_key t == k) (f t) t
        (λ _. w.ended t) (λ _ d. d);
}

pub end-IsUpdate : IsUpdate (λ t. record t { done = true })
end-IsUpdate = record {
  key = λ t. refl;
  run = λ t. refl;
  ended = λ t d. let no : ⊥ = cc in absurd no;
}

pub cancellation-IsUpdate : IsUpdate (λ t. record t { cancel_requested = true })
cancellation-IsUpdate = record { key = λ t. refl; run = λ t. refl; ended = λ t d. d }

pub modify-IsRegistered :
    (k : ℕ) (f : Task → Task) (r : Registry)
    → IsUpdate f
    → IsRegistered r
    → IsRegistered (record r { created = modify task_key k f r.created })
modify-IsRegistered k f r w g =
    subst (λ ts. IsRegistered (record r { created = ts })) (sym (modify-map task_key k f r.created))
      (map-IsRegistered (λ t. if task_key t == k then f t else t) r (one_of-IsUpdate k f w) g)

pub discard-IsRegistered :
    (run_id task_id : ℕ) (r : Registry)
    → is_running_task r.created task_id ≡ false
    → IsRegistered r
    → IsRegistered (discard run_id task_id r)
unfolding discard
discard-IsRegistered run_id task_id r n g =
    if_split IsRegistered (holds (λ k. k == task_id) (r.tasks run_id)) _ r
      (λ h. record {
        at = λ t i d.
            let f : r.tasks t.run_id ≡ some t.task_id = g.at t i d in
            let k : is_running_task r.created t.task_id ≡ true = running_task r.created t i d in
            elim (Bool-cases (t.run_id == run_id)) [
              | inl m ↦
                  let f' : r.tasks run_id ≡ some t.task_id =
                    subst (λ x. r.tasks x ≡ some t.task_id) (==→≡ _ _ m) f in
                  let s : (t.task_id == task_id) ≡ true =
                    sym (ap (holds (λ k. k == task_id)) f') ∙ h in
                  let k' : is_running_task r.created task_id ≡ true =
                    subst (λ x. is_running_task r.created x ≡ true) (==→≡ _ _ s) k in
                  let no : ⊥ = cc in absurd no
              | inr m ↦ rw m f
            ];
      })
      (λ _. g)

pub cancel-IsRegistered :
    (run_id : ℕ) (r : Registry) → IsRegistered r → IsRegistered (cancel run_id r).1
unfolding cancel
cancel-IsRegistered run_id r g =
    option_split Q (r.tasks run_id) (false, r) _ (λ _. g)
      λ task_id _.
        if_split Q (is_running_task r.created task_id) _ (false, r)
          (λ _.
            modify-IsRegistered task_id (λ t. record t { cancel_requested = true }) r
              cancellation-IsUpdate g)
          (λ _. g)
  where
    Q : Bool × Registry → Type 0
    Q x = IsRegistered x.1
