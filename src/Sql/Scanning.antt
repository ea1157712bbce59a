-- ===== src/Sql/Scanning.antt =====
-- The loop of `_scan` ends: each turn shortens the text.
use database_alert_agent.Prelude.{
  ℕ, zero, suc, ◌≤◌, ◌<◌, ◌≡◌, refl, sym, ap, ◌∙◌, subst, inl, inr, Bool, true, false, ◌&&◌, ◌||◌,
  Option, none, some, List, [], ◌∷◌, ◌++◌, ◌==◌, ltb, arith, length, Bool-cases, if◌then◌else◌,
  if_split, take,
}
use database_alert_agent.Sql.{
  Text, Unicode, Token, TokenKind, quoted_token, comment_end, line_end, drop, operators,
  first_operator, starts_with, LexerTurn, stop, reject, go_on, token, comment_turn, line_turn,
  quote_turn, symbol_turn, lexer_turn, extend, scan_on, scan, Scanned, is_word_character,
  is_dash_comment, is_quote, same_characters, add_token,
}
use database_alert_agent.Sql.Lengths.{
  Leaves2, Leaves3, Leaves2-grow, comment_end-Leaves2, line_end-length, quoted_token-Leaves3,
  word_end-length, drop-length,
}

-- A turn leaves at most `n` characters.
abbrev Leaves : ℕ → LexerTurn → Type 0
Leaves n stop = Unit {0}
Leaves n reject = Unit {0}
Leaves n (go_on output token rest) = length rest ≤ n

Leaves-grow : (m n : ℕ) (t : LexerTurn) → m ≤ n → Leaves m t → Leaves n t
Leaves-grow m n stop l h = tt
Leaves-grow m n reject l h = tt
Leaves-grow m n (go_on output token rest) l h = omega (arith, l, h)

Leaves-hint :
    (n : ℕ) (o : Option (Text × Text)) (hinted : Bool)
    → Leaves2 n o
    → Leaves n (elim o [
      | none ↦ reject
      | some (body, after) ↦
          if hinted
          then go_on (47 ∷ 42 ∷ body) (token TokenKind.hint (47 ∷ 42 ∷ body)) after
          else go_on (32 ∷ []) none after
    ])
Leaves-hint n none hinted h = tt
Leaves-hint n (some (body, after)) true h = h
Leaves-hint n (some (body, after)) false h = h

Leaves-line :
    (n : ℕ) (o : Option Text)
    → ((rest : Text) → o ≡ some rest → length rest < suc n)
    → Leaves n (line_turn o)
Leaves-line n none h = tt
Leaves-line n (some rest) h = omega (arith, h rest refl)

Leaves-quote :
    (n quote : ℕ) (o : Option (Text × Text × Text)) → Leaves3 n o → Leaves n (quote_turn quote o)
Leaves-quote n quote none h = tt
Leaves-quote n quote (some (raw, value, rest)) h = h

Leaves-operator :
    (os : List Text) (c : ℕ) (rest : Text)
    → ((o : Text) → first_operator os (c ∷ rest) ≡ some o → 0 < length o)
    → Leaves (length rest) (elim (first_operator os (c ∷ rest)) [
      | none ↦ go_on (c ∷ []) (token TokenKind.symbol (c ∷ [])) rest
      | some operator ↦
          go_on operator (token TokenKind.symbol operator) (drop (length operator) (c ∷ rest))
    ])
Leaves-operator os c rest h = go (first_operator os (c ∷ rest)) h
  where
    go :
        (x : Option Text)
        → ((o : Text) → x ≡ some o → 0 < length o)
        → Leaves (length rest) (elim x [
          | none ↦ go_on (c ∷ []) (token TokenKind.symbol (c ∷ [])) rest
          | some operator ↦
              go_on operator (token TokenKind.symbol operator) (drop (length operator) (c ∷ rest))
        ])
    go none k = omega arith
    go (some []) k = let no : ⊥ = omega (arith, k [] refl) in absurd no
    go (some (a ∷ o)) k = drop-length (length o) rest

-- No operator is empty.
abbrev all_long : List Text → Bool
all_long [] = true
all_long (o ∷ os) = ltb 0 (length o) && all_long os

first_operator_long :
    (os : List Text) (sql o : Text)
    → all_long os ≡ true
    → first_operator os sql ≡ some o
    → 0 < length o
first_operator_long [] sql o a h = cc
first_operator_long (x ∷ os) sql o a h = elim (Bool-cases (starts_with x sql)) [
  | inl t ↦
      let q : first_operator (x ∷ os) sql ≡ some x = rw t in
      let p : x ≡ o = cc in let l : 0 < length x = ground arith in subst (λ y. 0 < length y) p l
  | inr t ↦
      let q : first_operator (x ∷ os) sql ≡ first_operator os sql = rw t in
      first_operator_long os sql o (ground arith) (sym q ∙ h)
]

module _ (unicode : Unicode) where
  comment_turn-Leaves :
      (n : ℕ) (opening rest : Text) → length rest ≤ n → Leaves n (comment_turn unicode opening rest)
  unfolding comment_turn
  comment_turn-Leaves n opening rest l =
      if_split (Leaves n)
        (starts_with (47 ∷ 42 ∷ 33 ∷ []) opening
          || same_characters (unicode.casefold opening) (47 ∷ 42 ∷ 109 ∷ 33 ∷ []))
        _ _ (λ _. tt)
        λ _.
          Leaves-hint n (comment_end rest) (starts_with (47 ∷ 42 ∷ 43 ∷ []) opening)
            (Leaves2-grow (length rest) n (comment_end rest) l (comment_end-Leaves2 rest))

  lexer_turn-Leaves : (c : ℕ) (rest : Text) → Leaves (length rest) (lexer_turn unicode c rest)
  unfolding lexer_turn comment_turn symbol_turn
  lexer_turn-Leaves c rest =
      let Q : LexerTurn → Type 0 = Leaves (length rest) in
      if_split Q (unicode.is_space c) _ _ (λ _. omega arith)
        λ _.
          if_split Q (c == 123 || c == 125) _ _ (λ _. tt)
            λ _.
              if_split Q (starts_with (47 ∷ 42 ∷ []) (c ∷ rest)) _ _
                (λ _.
                  comment_turn-Leaves (length rest) (take 4 (c ∷ rest)) (drop 1 rest)
                    (drop-length 1 rest))
                λ _.
                  if_split Q (c == 35 || is_dash_comment (c ∷ rest)) _ _
                    (λ _.
                      Leaves-line (length rest) (line_end (c ∷ rest)) (line_end-length (c ∷ rest)))
                    λ _.
                      if_split Q (is_quote c) _ _
                        (λ _.
                          Leaves-quote (length rest) c (quoted_token c rest)
                            (quoted_token-Leaves3 c rest))
                        λ _.
                          if_split Q (is_word_character unicode c) _ _
                            (λ _. word_end-length unicode rest)
                            λ _.
                              Leaves-operator operators c rest
                                (λ o h. first_operator_long operators (c ∷ rest) o refl h)

  extend-enough :
      (n : ℕ) (t : LexerTurn) (f g : Text → Scanned)
      → Leaves n t
      → ((rest : Text) → length rest ≤ n → f rest ≡ g rest)
      → extend t f ≡ extend t g
  extend-enough n stop f g l h = refl
  extend-enough n reject f g l h = refl
  extend-enough n (go_on output token rest) f g l h =
      ap
        (λ (o : Scanned). elim o [
          | none ↦ none
          | some (output', tokens) ↦ some (output ++ output', add_token token tokens)
        ])
        (h rest l)

  scan_on-fuel :
      (m n : ℕ) (sql : Text)
      → length sql < m
      → length sql < n
      → scan_on unicode m sql ≡ scan_on unicode n sql
  unfolding scan_on
  scan_on-fuel zero n sql l k = let no : ⊥ = omega (arith, l) in absurd no
  scan_on-fuel (suc m) zero sql l k = let no : ⊥ = omega (arith, k) in absurd no
  scan_on-fuel (suc m) (suc n) [] l k = refl
  scan_on-fuel (suc m) (suc n) (c ∷ sql) l k =
      extend-enough (length sql) (lexer_turn unicode c sql) (scan_on unicode m) (scan_on unicode n)
        (lexer_turn-Leaves c sql)
        (λ rest s. scan_on-fuel m n rest (omega (arith, s, l)) (omega (arith, s, k)))

  -- The scan of a text is one turn of the loop and the scan of what the turn leaves.
  pub scan-lexer_turn :
      (c : ℕ) (rest : Text)
      → scan unicode (c ∷ rest) ≡ extend (lexer_turn unicode c rest) (scan unicode)
  unfolding scan scan_on
  scan-lexer_turn c rest =
      extend-enough (length rest) (lexer_turn unicode c rest) (scan_on unicode (suc (length rest)))
        (scan unicode) (lexer_turn-Leaves c rest)
        (λ r l.
          scan_on-fuel (suc (length rest)) (suc (length r)) r (omega (arith, l)) (omega arith))

  -- What the loop of `_scan` does, turn by turn, however many there are: an endless loop has no result.
  pub data Scans : Text → Scanned → Type 0 where
    at_end : Scans [] (some ([], []))
    stops :
        {c : ℕ} {rest : Text} → lexer_turn unicode c rest ≡ stop → Scans (c ∷ rest) (some ([], []))
    rejects : {c : ℕ} {rest : Text} → lexer_turn unicode c rest ≡ reject → Scans (c ∷ rest) none
    goes_on :
        {c : ℕ} {rest output after : Text} {t : Option Token} {o : Scanned}
        → lexer_turn unicode c rest ≡ go_on output t after
        → Scans after o
        → Scans (c ∷ rest) (extend (go_on output t after) (λ text. o))

  turn-Scans :
      (c : ℕ) (rest : Text) (n : ℕ) (t : LexerTurn)
      → lexer_turn unicode c rest ≡ t
      → Leaves n t
      → ((after : Text) → length after ≤ n → Scans after (scan_on unicode (suc n) after))
      → Scans (c ∷ rest) (extend t (scan_on unicode (suc n)))
  turn-Scans c rest n stop e l h = stops e
  turn-Scans c rest n reject e l h = rejects e
  turn-Scans c rest n (go_on output t after) e l h = goes_on e (h after l)

  scan_on-Scans : (n : ℕ) (sql : Text) → length sql ≤ n → Scans sql (scan_on unicode (suc n) sql)
  unfolding scan_on
  scan_on-Scans n [] l = at_end
  scan_on-Scans zero (c ∷ rest) l = let no : ⊥ = omega (arith, l) in absurd no
  scan_on-Scans (suc n) (c ∷ rest) l =
      turn-Scans c rest n (lexer_turn unicode c rest) refl
        (Leaves-grow (length rest) n (lexer_turn unicode c rest) (omega (arith, l))
          (lexer_turn-Leaves c rest))
        (λ after k. scan_on-Scans n after k)

  -- The loop ends on every text, and what the scan returns is the result of the loop: the scan rejects a
  -- text only where a turn rejects what is left of it, never for want of fuel.
  pub scan-Scans : (sql : Text) → Scans sql (scan unicode sql)
  unfolding scan
  scan-Scans sql = scan_on-Scans (length sql) sql (omega arith)
