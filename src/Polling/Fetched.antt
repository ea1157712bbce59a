-- ===== src/Polling/Fetched.antt =====
-- The alerts that are fetched: each once, and none but those of the pages.
use database_alert_agent.Prelude.{
  ◌+◌, ◌≤◌, String, ◌≡◌, refl, sym, ap, ◌∙◌, subst, true, false, ◌||◌, some, inl, inr, List, [],
  ◌∷◌, ◌++◌, arith, str_eq, str_eq_refl, str_eq→≡, if◌then◌else◌, In, length, length-append,
  Bool-cases,
}
use database_alert_agent.Polling.{Item, alert, invalid, Fetched, is_fetched, is_seen, add_items}

-- No alert is fetched twice.
abbrev pub Distinct : Fetched → Type 0
Distinct [] = Unit {0}
Distinct ((x, c) ∷ xs) = (is_fetched x xs ≡ false) × Distinct xs

-- The alerts of a page are among the given ones.
abbrev pub Known : List String → List Item → Type 0
Known ids [] = Unit {0}
Known ids (invalid ∷ items) = Known ids items
Known ids (alert id content ∷ items) = (is_seen id ids ≡ true) × Known ids items

is_fetched-append :
    (y id c : String) (xs : Fetched)
    → is_fetched y (xs ++ (id, c) ∷ []) ≡ (is_fetched y xs || str_eq id y)
unfolding is_fetched
is_fetched-append y id c [] = ground arith
is_fetched-append y id c ((x, d) ∷ xs) = ground (arith, is_fetched-append y id c xs)

not_equal : (x y : String) → str_eq x y ≡ false → str_eq y x ≡ false
not_equal x y h = elim (Bool-cases (str_eq y x)) [
  | inl t ↦
      let same : y ≡ x = str_eq→≡ y x t in
      absurd (let v : true ≡ false = sym (str_eq_refl x) ∙ ap (str_eq x) (sym same) ∙ h in cc)
  | inr t ↦ t
]

Distinct-append :
    (id c : String) (xs : Fetched)
    → is_fetched id xs ≡ false
    → Distinct xs
    → Distinct (xs ++ (id, c) ∷ [])
unfolding is_fetched
Distinct-append id c [] h d = (refl, tt)
Distinct-append id c ((x, e) ∷ xs) h d = (
  is_fetched-append x id c xs ∙ ground (arith, not_equal x id, d.0),
  Distinct-append id c xs (ground arith) d.1,
)

added_known :
    (ids : List String) (id c x : String) (fetched : Fetched)
    → is_seen id ids ≡ true
    → ((y : String) → is_fetched y fetched ≡ true → is_seen y ids ≡ true)
    → is_fetched x (fetched ++ (id, c) ∷ []) ≡ true
    → is_seen x ids ≡ true
added_known ids id c x fetched k f g = elim (Bool-cases (is_fetched x fetched)) [
  | inl t ↦ f x t
  | inr t ↦
      let here : str_eq id x ≡ true = ground (arith, is_fetched-append x id c fetched) in
      subst (λ y. is_seen y ids ≡ true) (str_eq→≡ id x here) k
]

-- What a page adds.
pub record Added (items : List Item) (fetched fetched' : Fetched) : Type 0 where
  pub distinct : Distinct fetched → Distinct fetched'
  pub grows : length fetched ≤ length fetched'
  pub keeps : (id : String) → is_fetched id fetched ≡ true → is_fetched id fetched' ≡ true
  pub known :
      (ids : List String)
      → Known ids items
      → ((x : String) → is_fetched x fetched ≡ true → is_seen x ids ≡ true)
      → (x : String) → is_fetched x fetched' ≡ true
      → is_seen x ids ≡ true
  pub all : (id c : String) → In (alert id c) items → is_fetched id fetched' ≡ true

pub add_items-Added :
    (items : List Item) (fetched fetched' : Fetched)
    → add_items items fetched ≡ some fetched'
    → Added items fetched fetched'
unfolding add_items
add_items-Added [] fetched fetched' h =
    subst (Added [] fetched) (let e : fetched ≡ fetched' = cc in e) (record {
      distinct = λ d. d;
      grows = omega arith;
      keeps = λ id i. i;
      known = λ ids k f. f;
      all = λ id c i. absurd i;
    })
add_items-Added (invalid ∷ items) fetched fetched' h = absurd (ground arith)
add_items-Added (alert id c ∷ items) fetched fetched' h =
    elim (Bool-cases (is_fetched id fetched)) [
      | inl t ↦
          let z = add_items-Added items fetched fetched' (sym (rw t) ∙ h) in
          record {
            distinct = z.distinct;
            grows = z.grows;
            keeps = z.keeps;
            known = λ ids k f. z.known ids k.1 f;
            all = λ id' c' i. elim i [
              | inl e ↦
                  let same : id ≡ id' = cc in
                  z.keeps id' (subst (λ x. is_fetched x fetched ≡ true) same t)
              | inr j ↦ z.all id' c' j
            ];
          }
      | inr t ↦
          let z = add_items-Added items (fetched ++ (id, c) ∷ []) fetched' (sym (rw t) ∙ h) in
          record {
            distinct = λ d. z.distinct (Distinct-append id c fetched t d);
            grows = omega (arith, z.grows, length-append fetched ((id, c) ∷ []));
            keeps = λ x f. z.keeps x (is_fetched-append x id c fetched ∙ ground arith);
            known = λ ids k f. z.known ids k.1 λ x g. added_known ids id c x fetched k.0 f g;
            all = λ id' c' i. elim i [
              | inl e ↦
                  let same : id ≡ id' = cc in
                  z.keeps id' (
                    is_fetched-append id' id c fetched
                    ∙ ground (arith, subst (λ x. str_eq id x ≡ true) same (str_eq_refl id)))
              | inr j ↦ z.all id' c' j
            ];
          }
    ]

without : String → Fetched → Fetched
without i [] = []
without i ((x, c) ∷ xs) = if str_eq i x then xs else (x, c) ∷ without i xs

is_fetched-without :
    (i y : String) (xs : Fetched)
    → Distinct xs
    → is_fetched y (without i xs) ≡ true
    → (is_fetched y xs ≡ true) × (str_eq i y ≡ false)
unfolding is_fetched without
is_fetched-without i y [] d h = absurd (ground arith)
is_fetched-without i y ((x, c) ∷ xs) d h = elim (Bool-cases (str_eq i x)) [
  | inl t ↦ (ground arith, other t)
  | inr t ↦ elim (Bool-cases (str_eq x y)) [
    | inl u ↦ (ground arith, subst (λ z. str_eq i z ≡ false) (str_eq→≡ x y u) t)
    | inr u ↦ let (a, b) = is_fetched-without i y xs d.1 (ground arith) in (ground arith, b)
  ]
]
  where
    other : str_eq i x ≡ true → str_eq i y ≡ false
    other t = elim (Bool-cases (str_eq i y)) [
      | inl u ↦
          let same : x ≡ y = sym (str_eq→≡ i x t) ∙ str_eq→≡ i y u in
          absurd (ground (arith, d.0, subst (λ z. is_fetched z xs ≡ false) same d.0))
      | inr u ↦ u
    ]

Distinct-without : (i : String) (xs : Fetched) → Distinct xs → Distinct (without i xs)
unfolding is_fetched without
Distinct-without i [] d = d
Distinct-without i ((x, c) ∷ xs) d = elim (Bool-cases (str_eq i x)) [
  | inl t ↦ subst Distinct (sym (let e : without i ((x, c) ∷ xs) ≡ xs = rw t in e)) d.1
  | inr t ↦
      subst Distinct (sym (let e : without i ((x, c) ∷ xs) ≡ (x, c) ∷ without i xs = rw t in e))
        (left_out, Distinct-without i xs d.1)
]
  where
    left_out : is_fetched x (without i xs) ≡ false
    left_out = elim (Bool-cases (is_fetched x (without i xs))) [
      | inl t ↦ absurd (ground (arith, (is_fetched-without i x xs d.1 t).0, d.0))
      | inr t ↦ t
    ]

length-without : (i : String) (xs : Fetched) → length xs ≤ length (without i xs) + 1
unfolding without
length-without i [] = omega arith
length-without i ((x, c) ∷ xs) = ground (arith, length-without i xs)

-- Different alerts among the given ones are not more than these.
pub Distinct-bound :
    (ids : List String) (xs : Fetched)
    → Distinct xs
    → ((x : String) → is_fetched x xs ≡ true → is_seen x ids ≡ true)
    → length xs ≤ length ids
unfolding is_fetched is_seen
Distinct-bound [] [] d f = omega arith
Distinct-bound [] ((x, c) ∷ xs) d f = absurd (ground (arith, f x, str_eq_refl x))
Distinct-bound (i ∷ is) xs d f =
    let rest =
      Distinct-bound is (without i xs) (Distinct-without i xs d)
        λ x g. let (a, b) = is_fetched-without i x xs d g in ground (arith, f x a) in
    omega (arith, rest, length-without i xs)
