-- ===== src/Sql/Lengths.antt =====
-- What each part of the scanner leaves of the text is no longer than what it is given.
use database_alert_agent.Prelude.{
  ℕ, zero, suc, ◌≤◌, ◌<◌, ◌≡◌, Bool, true, false, ◌&&◌, Option, none, some, [], ◌∷◌, ◌==◌, arith,
  length, if_split,
}
use database_alert_agent.Sql.{
  Text, Unicode, prefix, escapes, quoted_token, comment_end, line_end, drop, word_end,
}

module _ {A : Type 0} (Q : A → Type 0) where
  bool_split : (b : Bool) (x y : A) → Q x → Q y → Q (elim b [ true ↦ x | false ↦ y ])
  bool_split true x y h k = h
  bool_split false x y h k = k

-- What a part of the text leaves has at most `n` characters.
abbrev pub Leaves2 : ℕ → Option (Text × Text) → Type 0
Leaves2 n none = Unit {0}
Leaves2 n (some (text, after)) = length after ≤ n

abbrev pub Leaves3 : ℕ → Option (Text × Text × Text) → Type 0
Leaves3 n none = Unit {0}
Leaves3 n (some (raw, value, after)) = length after ≤ n

Leaves2-suc :
    (n c : ℕ) (o : Option (Text × Text))
    → Leaves2 n o
    → Leaves2 (suc n) (elim o [ none ↦ none | some (text, after) ↦ some (c ∷ text, after) ])
Leaves2-suc n c none h = tt
Leaves2-suc n c (some (text, after)) h = omega (arith, h)

pub Leaves2-grow : (m n : ℕ) (o : Option (Text × Text)) → m ≤ n → Leaves2 m o → Leaves2 n o
Leaves2-grow m n none l h = tt
Leaves2-grow m n (some (text, after)) l h = omega (arith, l, h)

pub comment_end-Leaves2 : (sql : Text) → Leaves2 (length sql) (comment_end sql)
unfolding comment_end
comment_end-Leaves2 [] = tt
comment_end-Leaves2 (c ∷ []) = tt
comment_end-Leaves2 (c ∷ d ∷ rest) =
    bool_split (Leaves2 (suc (suc (length rest)))) (c == 42 && d == 47) _ _ (omega arith)
      (Leaves2-suc (suc (length rest)) c (comment_end (d ∷ rest)) (comment_end-Leaves2 (d ∷ rest)))

pub line_end-length : (sql rest : Text) → line_end sql ≡ some rest → length rest < length sql
unfolding line_end
line_end-length [] rest h = cc
line_end-length (c ∷ sql) rest h = ground (arith, line_end-length sql rest)

prefix-Leaves3 :
    (m n : ℕ) (r v : Text) (o : Option (Text × Text × Text))
    → m ≤ n
    → Leaves3 m o
    → Leaves3 n (prefix r v o)
prefix-Leaves3 m n r v none l h = tt
prefix-Leaves3 m n r v (some (raw, value, rest)) l h = omega (arith, l, h)

pub quoted_token-Leaves3 : (quote : ℕ) (sql : Text) → Leaves3 (length sql) (quoted_token quote sql)
unfolding quoted_token
quoted_token-Leaves3 quote [] = tt
quoted_token-Leaves3 quote (c ∷ []) =
    if_split (Leaves3 1) (escapes quote c) _ _ (λ _. tt)
      (λ _. if_split (Leaves3 1) (c == quote) _ _ (λ _. omega arith) (λ _. tt))
quoted_token-Leaves3 quote (c ∷ d ∷ sql) =
    let n : ℕ = suc (suc (length sql)) in
    let Q : Option (Text × Text × Text) → Type 0 = Leaves3 n in
    let two = quoted_token-Leaves3 quote sql in
    let one = quoted_token-Leaves3 quote (d ∷ sql) in
    bool_split Q (escapes quote c) _ _
      (if_split Q (d == quote) _ _ (λ _. tt)
        (λ _.
          prefix-Leaves3 (length sql) n (c ∷ d ∷ []) (c ∷ d ∷ []) (quoted_token quote sql)
            (omega arith) two))
      (bool_split Q (c == quote) _ _
        (bool_split Q (d == quote) _ _
          (prefix-Leaves3 (length sql) n (c ∷ d ∷ []) (quote ∷ []) (quoted_token quote sql)
            (omega arith) two)
          (omega arith))
        (prefix-Leaves3 (suc (length sql)) n (c ∷ []) (c ∷ []) (quoted_token quote (d ∷ sql))
          (omega arith) one))

pub word_end-length :
    (unicode : Unicode) (sql : Text) → length (word_end unicode sql).1 ≤ length sql
unfolding word_end
word_end-length unicode [] = omega arith
word_end-length unicode (c ∷ sql) = ground (arith, word_end-length unicode sql)

pub drop-length : (n : ℕ) (sql : Text) → length (drop n sql) ≤ length sql
drop-length zero sql = omega arith
drop-length (suc n) [] = omega arith
drop-length (suc n) (c ∷ sql) = omega (arith, drop-length n sql)
