-- ===== src/Sql/Quoting.antt =====
-- Quoted text: what `_quoted_token` reads back, and that its content never counts as SQL.
use database_alert_agent.Prelude.{
  ℕ, ◌≡◌, refl, sym, ap, ◌∙◌, subst, inl, inr, Bool, true, false, ◌&&◌, not, Option, none, some,
  List, [], ◌∷◌, ◌++◌, ◌==◌, ==→≡, ==_refl, arith, Bool-cases, if◌then◌else◌,
}
use database_alert_agent.Sql.{
  Text, Unicode, Token, prefix, escapes, quoted_token, starts_with, lexer_turn, quote_turn,
  quote_kind, is_quote, extend, scan, unquoted_words, words, Scanned,
}
use database_alert_agent.Sql.Scanning.{scan-lexer_turn}

-- A text as it stands between quotes: each quote in it is doubled.
abbrev pub doubled : ℕ → Text → Text
doubled quote [] = []
doubled quote (c ∷ cs) =
    if c == quote then quote ∷ quote ∷ doubled quote cs else c ∷ doubled quote cs

-- No character escapes the next one: between backticks none does, otherwise the backslash.
abbrev pub has_no_escape : ℕ → Text → Bool
has_no_escape quote [] = true
has_no_escape quote (c ∷ cs) = not (escapes quote c) && has_no_escape quote cs

NonEmpty : Text → Type 0
NonEmpty t = (c : ℕ) × (cs : Text) × (t ≡ c ∷ cs)

quote_escapes_not : (quote : ℕ) → is_quote quote ≡ true → escapes quote quote ≡ false
unfolding escapes
quote_escapes_not quote h = ground arith

-- One character that is neither a quote nor an escape.
quoted_plain :
    (quote c : ℕ) (t : Text)
    → NonEmpty t
    → escapes quote c ≡ false
    → (c == quote) ≡ false
    → quoted_token quote (c ∷ t) ≡ prefix (c ∷ []) (c ∷ []) (quoted_token quote t)
unfolding quoted_token NonEmpty
quoted_plain quote c t (d, ds, e) p q =
    let h : quoted_token quote (c ∷ d ∷ ds)
        ≡ prefix (c ∷ []) (c ∷ []) (quoted_token quote (d ∷ ds)) =
      ground (arith, p, q) in
    subst (λ x. quoted_token quote (c ∷ x) ≡ prefix (c ∷ []) (c ∷ []) (quoted_token quote x))
      (sym e) h

closed_NonEmpty : (quote : ℕ) (name rest : Text) → NonEmpty (doubled quote name ++ (quote ∷ rest))
unfolding NonEmpty
closed_NonEmpty quote [] rest = (quote, rest, refl)
closed_NonEmpty quote (c ∷ cs) rest = elim (Bool-cases (c == quote)) [
  | inl t ↦ (quote, quote ∷ (doubled quote cs ++ (quote ∷ rest)), rw t)
  | inr t ↦ (c, doubled quote cs ++ (quote ∷ rest), rw t)
]

quoted_end :
    (quote : ℕ) (rest : Text)
    → escapes quote quote ≡ false
    → starts_with (quote ∷ []) rest ≡ false
    → quoted_token quote (quote ∷ rest) ≡ some (quote ∷ [], [], rest)
unfolding quoted_token starts_with
quoted_end quote [] e s = ground (arith, e, ==_refl quote)
quoted_end quote (d ∷ rest) e s =
    let q : (d == quote) ≡ false = ground arith in ground (arith, e, ==_refl quote, q)

quoted_double :
    (quote : ℕ) (t : Text)
    → escapes quote quote ≡ false
    → quoted_token quote (quote ∷ quote ∷ t)
      ≡ prefix (quote ∷ quote ∷ []) (quote ∷ []) (quoted_token quote t)
unfolding quoted_token
quoted_double quote t e = ground (arith, e, ==_refl quote)

-- A text between quotes, with each quote in it doubled, is read back: the raw text, the text itself,
-- and what follows. The text holds no escape, and what follows does not begin with the quote.
quoted_token-doubled :
    (quote : ℕ) (name rest : Text)
    → is_quote quote ≡ true
    → has_no_escape quote name ≡ true
    → starts_with (quote ∷ []) rest ≡ false
    → quoted_token quote (doubled quote name ++ (quote ∷ rest))
      ≡ some (doubled quote name ++ (quote ∷ []), name, rest)
quoted_token-doubled quote [] rest k e s = quoted_end quote rest (quote_escapes_not quote k) s
quoted_token-doubled quote (c ∷ cs) rest k e s =
    let h = quoted_token-doubled quote cs rest k (ground arith) s in
    elim (Bool-cases (c == quote)) [
      | inl t ↦
          let q : c ≡ quote = ==→≡ c quote t in
          rw t (
            quoted_double quote (doubled quote cs ++ (quote ∷ rest)) (quote_escapes_not quote k)
            ∙ ap (prefix (quote ∷ quote ∷ []) (quote ∷ [])) h
            ∙ ap (λ x. some (quote ∷ quote ∷ (doubled quote cs ++ (quote ∷ [])), x ∷ cs, rest))
                (sym q))
      | inr t ↦
          let p =
            quoted_plain quote c (doubled quote cs ++ (quote ∷ rest))
              (closed_NonEmpty quote cs rest) (ground arith) t in
          rw t (p ∙ ap (prefix (c ∷ []) (c ∷ [])) h)
    ]

module _ (unicode : Unicode) (quote : ℕ) (k : is_quote quote ≡ true)
    (b : unicode.is_space quote ≡ false) where
  lexer_turn-quote :
      (t : Text) → lexer_turn unicode quote t ≡ quote_turn quote (quoted_token quote t)
  unfolding lexer_turn starts_with
  lexer_turn-quote [] = ground (arith, k, b)
  lexer_turn-quote (c ∷ []) = ground (arith, k, b)
  lexer_turn-quote (c ∷ d ∷ t) = ground (arith, k, b)

  -- The token of a quoted text.
  abbrev pub quoted : Text → Token
  quoted name = record {
    kind = quote_kind quote;
    value = if quote == 96 then name else quote ∷ (doubled quote name ++ (quote ∷ []));
  }

  -- What the scan of the rest gives, behind the raw text and its one token.
  abbrev pub behind : Text → Scanned → Scanned
  behind name none = none
  behind name (some (output, tokens)) =
      some (quote ∷ ((doubled quote name ++ (quote ∷ [])) ++ output), quoted name ∷ tokens)

  extend-behind :
      (name rest : Text) (f : Text → Scanned)
      → extend (quote_turn quote (some (doubled quote name ++ (quote ∷ []), name, rest))) f
        ≡ behind name (f rest)
  extend-behind name rest f = go (f rest)
    where
      go :
          (o : Scanned)
          → elim o [
            | none ↦ none
            | some (output, tokens) ↦
                some
                  ((quote ∷ (doubled quote name ++ (quote ∷ []))) ++ output, quoted name ∷ tokens)
          ]
            ≡ behind name o
      go none = refl
      go (some (output, tokens)) = refl

  scan-quoted :
      (name rest : Text)
      → has_no_escape quote name ≡ true
      → starts_with (quote ∷ []) rest ≡ false
      → scan unicode (quote ∷ (doubled quote name ++ (quote ∷ rest)))
        ≡ behind name (scan unicode rest)
  scan-quoted name rest e s =
      let t = doubled quote name ++ (quote ∷ rest) in
      let p = scan-lexer_turn unicode quote t in
      let q : lexer_turn unicode quote t
          ≡ quote_turn quote (some (doubled quote name ++ (quote ∷ []), name, rest)) =
        lexer_turn-quote t ∙ ap (quote_turn quote) (quoted_token-doubled quote name rest k e s) in
      p ∙ ap (λ x. extend x (scan unicode)) q ∙ extend-behind name rest (scan unicode)

  words_of : Scanned → Option (List Text)
  words_of o = elim o [ none ↦ none | some (output, tokens) ↦ some (words unicode tokens) ]

  words-behind : (name : Text) (o : Scanned) → words_of (behind name o) ≡ words_of o
  unfolding words_of
  words-behind name none = refl
  words-behind name (some (output, tokens)) = ground (arith, k)

  -- A quoted text without a backslash escape, in the quotes in which the scanner refuses one, never counts
  -- as SQL: where no further quote follows its end, the bare words of a statement that begins with it are
  -- those of what follows it, and the statement is rejected just when what follows is. Quotes in the text
  -- are doubled.
  pub unquoted_words-quoted :
      (name rest : Text)
      → has_no_escape quote name ≡ true
      → starts_with (quote ∷ []) rest ≡ false
      → unquoted_words unicode (quote ∷ (doubled quote name ++ (quote ∷ rest)))
        ≡ unquoted_words unicode rest
  unfolding unquoted_words words_of
  unquoted_words-quoted name rest e s =
      ap words_of (scan-quoted name rest e s) ∙ words-behind name (scan unicode rest)
