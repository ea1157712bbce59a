-- ===== src/Conclusions/Distinct.antt =====
-- The references that are kept, each of them once.
use database_alert_agent.Prelude.{
  ℕ, ◌≡◌, refl, ap, ◌∙◌, Bool, true, false, not, ◌&&◌, List, [], ◌∷◌, arith,
}
use database_alert_agent.Conclusions.History.{keep, all_of}
use database_alert_agent.Conclusions.Policy.{contains, distinct_after, distinct}

-- No item is in `seen` or comes twice.
abbrev pub fresh : (seen items : List ℕ) → Bool
fresh seen [] = true
fresh seen (x ∷ xs) = not (contains x seen) && fresh (x ∷ seen) xs

abbrev pub Within : (s t : List ℕ) → Type 0
Within s t = (n : ℕ) → contains n s ≡ true → contains n t ≡ true

Within-cons : (x : ℕ) (s t : List ℕ) → Within s t → Within (x ∷ s) (x ∷ t)
Within-cons x s t h n c = ground (arith, c, h n)

fresh-Within : (s t xs : List ℕ) → Within s t → fresh t xs ≡ true → fresh s xs ≡ true
fresh-Within s t [] h f = refl
fresh-Within s t (x ∷ xs) h f =
    let r = fresh-Within (x ∷ s) (x ∷ t) xs (Within-cons x s t h) (ground arith) in
    ground (arith, r, h x)

distinct_fresh : (seen xs : List ℕ) → fresh seen xs ≡ true → distinct_after seen xs ≡ xs
unfolding distinct_after
distinct_fresh seen [] f = refl
distinct_fresh seen (x ∷ xs) f =
    let r = distinct_fresh (x ∷ seen) xs (ground arith) in
    let c : contains x seen ≡ false = ground arith in rw (c, r)

fresh-distinct :
    (q : ℕ → Bool) (seen xs : List ℕ) → fresh seen (keep q (distinct_after seen xs)) ≡ true
unfolding distinct_after
fresh-distinct q seen [] = refl
fresh-distinct q seen (x ∷ xs) =
    let r = fresh-distinct q (x ∷ seen) xs in
    let s = fresh-distinct q seen xs in
    let w =
      fresh-Within seen (x ∷ seen) (keep q (distinct_after (x ∷ seen) xs))
        (λ n c. ground (arith, c)) r in
    ground (arith, r, s, w)

keep-keep : (q : ℕ → Bool) (xs : List ℕ) → keep q (keep q xs) ≡ keep q xs
keep-keep q [] = refl
keep-keep q (x ∷ xs) = ground (arith, keep-keep q xs)

pub all_of-keep : (q : ℕ → Bool) (xs : List ℕ) → all_of q (keep q xs) ≡ true
all_of-keep q [] = refl
all_of-keep q (x ∷ xs) = ground (arith, all_of-keep q xs)

-- The references that are kept are kept again.
pub keep-distinct :
    (q : ℕ → Bool) (xs : List ℕ) → keep q (distinct (keep q (distinct xs))) ≡ keep q (distinct xs)
keep-distinct q xs =
    ap (keep q) (distinct_fresh [] (keep q (distinct xs)) (fresh-distinct q [] xs))
    ∙ keep-keep q (distinct xs)
