-- ===== src/Registry/Exclusive.antt =====
-- At most one task runs for a run, whatever the order of calls, ends and callbacks.
use database_alert_agent.Prelude.{
  ℕ, ◌≡◌, refl, sym, ap, ◌∙◌, subst, inl, inr, Bool, true, false, not, ◌&&◌, Option, none, some,
  List, [], ◌∷◌, ◌==◌, ==_refl, arith, Bool-cases, if◌then◌else◌, ok, holds, modify, In, modify-map,
  if_split, option_split, In-map, map,
}
use database_alert_agent.Registry.{
  Task, Registry, new_registry, is_running_task, start, discard, task_key, cancel, is_active,
  finish, cancelled_by, waited_for, cancel_all, clear,
}
use database_alert_agent.Registry.Registered.{
  IsRegistered, running_task, start-IsRegistered, IsUpdate, map-IsRegistered, one_of-IsUpdate,
  end-IsUpdate, cancellation-IsUpdate, modify-IsRegistered, discard-IsRegistered,
  cancel-IsRegistered,
}

-- What happens in the process, one event after another, and the tasks for which `close` waits, where it
-- does. A callback runs after the end of its task; the dictionary is cleared when the tasks that `close`
-- cancelled have ended. No analysis is started while `close` waits: the code does not refuse that, and
-- the clearing then forgets the new task.
pub data Events : Option (List Task) → Registry → Type 0 where
  new : Events none new_registry
  starts :
      {r r' : Registry} (run_id task_id : ℕ)
      → Events none r
      → start run_id task_id r ≡ ok r'
      → Events none r'
  finishes :
      {w : Option (List Task)} {r : Registry} (task_id : ℕ)
      → Events w r
      → Events w (finish task_id r)
  discards :
      {w : Option (List Task)} {r : Registry} (run_id task_id : ℕ)
      → Events w r
      → is_running_task r.created task_id ≡ false
      → Events w (discard run_id task_id r)
  cancels :
      {w : Option (List Task)} {r : Registry} (run_id : ℕ)
      → Events w r
      → Events w (cancel run_id r).1
  closes : {r : Registry} → Events none r → Events (some (waited_for r r.created)) (cancel_all r)
  clears :
      {ts : List Task} {r : Registry}
      → Events (some ts) r
      → ((t : Task) → In t ts → is_running_task r.created t.task_id ≡ false)
      → Events none (clear r)

-- While `close` waits, it waits for every task that runs.
abbrev Waits : Option (List Task) → Registry → Type 0
Waits none r = Unit {0}
Waits (some ts) r =
    (t : Task) → In t r.created → t.done ≡ false → (u : Task) × In u ts × (u.task_id ≡ t.task_id)

waited_for-In :
    (r : Registry) (ts : List Task) (t : Task)
    → In t ts
    → t.done ≡ false
    → r.tasks t.run_id ≡ some t.task_id
    → In t (waited_for r ts)
waited_for-In r [] t i d f = absurd i
waited_for-In r (u ∷ ts) t (inl e) d f =
    let d' : u.done ≡ false = ap (λ (x : Task). x.done) (sym e) ∙ d in
    let f' : r.tasks u.run_id ≡ some u.task_id =
      subst (λ (x : Task). r.tasks x.run_id ≡ some x.task_id) e f in
    let k : holds (λ k. k == u.task_id) (r.tasks u.run_id) ≡ true =
      ap (holds (λ k. k == u.task_id)) f' ∙ ==_refl u.task_id in
    let c : (holds (λ k. k == u.task_id) (r.tasks u.run_id) && not u.done) ≡ true =
      ap (λ b. b && not u.done) k ∙ ap not d' in
    subst (λ b. In t (if b then u ∷ waited_for r ts else waited_for r ts)) (sym c) (inl e)
waited_for-In r (u ∷ ts) t (inr i) d f =
    if_split (In t) (holds (λ k. k == u.task_id) (r.tasks u.run_id) && not u.done) _ _
      (λ _. inr (waited_for-In r ts t i d f)) (λ _. waited_for-In r ts t i d f)

map-Waits :
    (f : Task → Task) (w : Option (List Task)) (r : Registry)
    → IsUpdate f
    → Waits w r
    → Waits w (record r { created = map f r.created })
map-Waits f none r g h = tt
map-Waits f (some ts) r g h = λ t i d.
    let (u, j, e) = In-map f r.created t i in
    let d' : u.done ≡ false = g.ended u (ap (λ (x : Task). x.done) (sym e) ∙ d) in
    let (x, k, p) = h u j d' in (x, k, p ∙ sym (ap task_key e ∙ g.key u))

modify-Waits :
    (k : ℕ) (f : Task → Task) (w : Option (List Task)) (r : Registry)
    → IsUpdate f
    → Waits w r
    → Waits w (record r { created = modify task_key k f r.created })
modify-Waits k f w r g h =
    subst (λ ts. Waits w (record r { created = ts })) (sym (modify-map task_key k f r.created))
      (map-Waits (λ t. if task_key t == k then f t else t) w r (one_of-IsUpdate k f g) h)

same_created-Waits :
    (w : Option (List Task)) (r r' : Registry) → r'.created ≡ r.created → Waits w r → Waits w r'
same_created-Waits none r r' e h = tt
same_created-Waits (some ts) r r' e h = λ t i d. h t (subst (In t) e i) d

discard-created :
    (run_id task_id : ℕ) (r : Registry) → (discard run_id task_id r).created ≡ r.created
unfolding discard
discard-created run_id task_id r = ground arith

cancel-Waits :
    (run_id : ℕ) (w : Option (List Task)) (r : Registry) → Waits w r → Waits w (cancel run_id r).1
unfolding cancel
cancel-Waits run_id w r h =
    option_split Q (r.tasks run_id) (false, r) _ (λ _. h)
      λ task_id _.
        if_split Q (is_running_task r.created task_id) _ (false, r)
          (λ _.
            modify-Waits task_id (λ t. record t { cancel_requested = true }) w r
              cancellation-IsUpdate h)
          (λ _. h)
  where
    Q : Bool × Registry → Type 0
    Q x = Waits w x.1

cancelled_by-IsUpdate : (r : Registry) → IsUpdate (cancelled_by r)
cancelled_by-IsUpdate r = record {
  key = λ t. ground arith;
  run = λ t. ground arith;
  ended = λ t d. ground (arith, d);
}

cancel_all-Waits :
    (r : Registry) → IsRegistered r → Waits (some (waited_for r r.created)) (cancel_all r)
unfolding cancel_all
cancel_all-Waits r g =
    map-Waits (cancelled_by r) (some (waited_for r r.created)) r (cancelled_by-IsUpdate r)
      (λ t i d. (t, waited_for-In r r.created t i d (g.at t i d), refl))

-- When `close` clears the dictionary, no task runs.
waited_out :
    (ts : List Task) (r : Registry) (t : Task)
    → Waits (some ts) r
    → ((u : Task) → In u ts → is_running_task r.created u.task_id ≡ false)
    → In t r.created
    → t.done ≡ true
waited_out ts r t h ended i = elim (Bool-cases t.done) [
  | inl d ↦ d
  | inr d ↦
      let (u, j, e) = h t i d in
      let k : is_running_task r.created t.task_id ≡ true = running_task r.created t i d in
      let n : is_running_task r.created t.task_id ≡ false =
        subst (λ x. is_running_task r.created x ≡ false) e (ended u j) in
      let no : ⊥ = cc in absurd no
]

Events-IsRegistered :
    {w : Option (List Task)} {r : Registry} → Events w r → IsRegistered r × Waits w r
unfolding cancel_all clear
Events-IsRegistered new = (record { at = λ t i d. absurd i }, tt)
Events-IsRegistered (starts run_id task_id s e) =
    (start-IsRegistered run_id task_id _ _ (Events-IsRegistered s).0 e, tt)
Events-IsRegistered (finishes {w = w} {r = r} task_id s) =
    let (g, h) = Events-IsRegistered s in
    (
      modify-IsRegistered task_id (λ t. record t { done = true }) r end-IsUpdate g,
      modify-Waits task_id (λ t. record t { done = true }) w r end-IsUpdate h,
    )
Events-IsRegistered (discards {w = w} {r = r} run_id task_id s n) =
    let (g, h) = Events-IsRegistered s in
    (
      discard-IsRegistered run_id task_id r n g,
      same_created-Waits w r (discard run_id task_id r) (discard-created run_id task_id r) h,
    )
Events-IsRegistered (cancels {w = w} {r = r} run_id s) =
    let (g, h) = Events-IsRegistered s in
    (cancel-IsRegistered run_id r g, cancel-Waits run_id w r h)
Events-IsRegistered (closes {r = r} s) =
    let g = (Events-IsRegistered s).0 in
    (map-IsRegistered (cancelled_by r) r (cancelled_by-IsUpdate r) g, cancel_all-Waits r g)
Events-IsRegistered (clears {ts = ts} {r = r} s ended) =
    let h = (Events-IsRegistered s).1 in
    (
      record {
        at = λ t i d.
            let p : t.done ≡ true = waited_out ts r t h ended i in let no : ⊥ = cc in absurd no;
      },
      tt,
    )

-- Whatever calls, ends of tasks and callbacks follow one another, where no analysis is started while
-- `close` waits: two tasks that run for the same run are one, and the run counts as active.
pub one_task_per_run :
    {w : Option (List Task)} {r : Registry} (t u : Task)
    → Events w r
    → In t r.created
    → In u r.created
    → t.done ≡ false
    → u.done ≡ false
    → t.run_id ≡ u.run_id
    → (t.task_id ≡ u.task_id) × (is_active t.run_id r ≡ true)
unfolding is_active
one_task_per_run {r = r} t u s i j d e same =
    let g = (Events-IsRegistered s).0 in
    let p : r.tasks t.run_id ≡ some t.task_id = g.at t i d in
    let q : r.tasks u.run_id ≡ some u.task_id = g.at u j e in
    let k : is_running_task r.created t.task_id ≡ true = running_task r.created t i d in
    let c : some t.task_id ≡ some u.task_id = sym p ∙ ap r.tasks same ∙ q in
    (cc, ap (holds (is_running_task r.created)) p ∙ k)
