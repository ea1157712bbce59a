-- ===== src/Sql.antt =====
-- The lexical SQL guard of app/adapters/archery_sql.py: `_quoted_token`, `_scan` and what is read off
-- the tokens. A text is the list of its code points; what Python knows of Unicode is given.
pub mod Tokens
pub mod Canonical
pub mod Quoting
pub mod Lengths
pub mod Scanning
mod Examples
use database_alert_agent.Prelude.{
  ℕ, zero, suc, Bool, true, false, not, ◌&&◌, ◌||◌, Option, none, some, List, [], ◌∷◌, ◌++◌, ◌==◌,
  leb, if◌then◌else◌, length, take,
}

abbrev pub Text : Type 0
Text = List ℕ

-- `str.isspace`, `str.isalnum`, `str.isalpha` of one character, `str.casefold`
pub record Unicode : Type 0 where
  pub is_space : ℕ → Bool
  pub is_alnum : ℕ → Bool
  pub is_alpha : ℕ → Bool
  pub casefold : Text → Text

pub data TokenKind : Type 0 where
  word symbol literal identifier double_quoted hint : TokenKind

pub record Token : Type 0 where
  pub kind : TokenKind
  pub value : Text

-- Two values put before the result of a rest.
abbrev pub prefix : (raw value : Text) → Option (Text × Text × Text) → Option (Text × Text × Text)
prefix raw value none = none
prefix raw value (some (raw', value', rest)) = some (raw ++ raw', value ++ value', rest)

-- 92 is the backslash, 96 the backtick.
unfoldable pub escapes : (quote c : ℕ) → Bool
escapes quote c = c == 92 && not (quote == 96)

-- `_quoted_token`, after the opening quote: the raw text, the decoded value, and what follows.
unfoldable pub quoted_token : ℕ → Text → Option (Text × Text × Text)
quoted_token quote [] = none
quoted_token quote (c ∷ []) =
    if escapes quote c then none else if c == quote then some (c ∷ [], [], []) else none
quoted_token quote (c ∷ d ∷ rest) = elim (escapes quote c) [
  | true ↦ if d == quote then none else prefix (c ∷ d ∷ []) (c ∷ d ∷ []) (quoted_token quote rest)
  | false ↦ elim (c == quote) [
    | true ↦ elim (d == quote) [
      | true ↦ prefix (c ∷ d ∷ []) (quote ∷ []) (quoted_token quote rest)
      | false ↦ some (c ∷ [], [], d ∷ rest)
    ]
    | false ↦ prefix (c ∷ []) (c ∷ []) (quoted_token quote (d ∷ rest))
  ]
]

-- `sql.startswith(p, index)`
unfoldable pub starts_with : Text → Text → Bool
starts_with [] sql = true
starts_with (p ∷ ps) [] = false
starts_with (p ∷ ps) (c ∷ cs) = p == c && starts_with ps cs

-- `sql.find("*/", index + 2)`: the comment's text with its end, and what follows
unfoldable pub comment_end : Text → Option (Text × Text)
comment_end [] = none
comment_end (c ∷ []) = none
comment_end (c ∷ d ∷ rest) = elim (c == 42 && d == 47) [
  | true ↦ some (c ∷ d ∷ [], rest)
  | false ↦ elim (comment_end (d ∷ rest)) [
    | none ↦ none
    | some (text, after) ↦ some (c ∷ text, after)
  ]
]

-- `sql.find("\n", index)`: what follows the line
unfoldable pub line_end : Text → Option Text
line_end [] = none
line_end (c ∷ rest) = if c == 10 then some rest else line_end rest

abbrev pub drop : ℕ → Text → Text
drop zero cs = cs
drop (suc n) [] = []
drop (suc n) (c ∷ cs) = drop n cs

-- `_MULTI_CHARACTER_OPERATORS`
abbrev pub operators : List Text
operators =
    (60 ∷ 61 ∷ 62 ∷ [])
    ∷ (45 ∷ 62 ∷ 62 ∷ [])
    ∷ (33 ∷ 61 ∷ [])
    ∷ (38 ∷ 38 ∷ [])
    ∷ (58 ∷ 61 ∷ [])
    ∷ (60 ∷ 60 ∷ [])
    ∷ (60 ∷ 61 ∷ [])
    ∷ (60 ∷ 62 ∷ [])
    ∷ (62 ∷ 61 ∷ [])
    ∷ (62 ∷ 62 ∷ [])
    ∷ (124 ∷ 124 ∷ [])
    ∷ (45 ∷ 62 ∷ [])
    ∷ []

abbrev pub first_operator : List Text → Text → Option Text
first_operator [] sql = none
first_operator (o ∷ os) sql = if starts_with o sql then some o else first_operator os sql

-- One turn of the loop of `_scan`: it stops, rejects, or goes on after it has added to the output and
-- perhaps to the tokens.
pub data LexerTurn : Type 0 where
  stop reject : LexerTurn
  go_on : (output : Text) (token : Option Token) (rest : Text) → LexerTurn

abbrev pub token : TokenKind → Text → Option Token
token kind value = some (record { kind = kind; value = value })

-- `--` at the end of the text or before a character up to the blank
abbrev pub is_dash_comment : Text → Bool
is_dash_comment [] = false
is_dash_comment (c ∷ []) = false
is_dash_comment (c ∷ d ∷ []) = c == 45 && d == 45
is_dash_comment (c ∷ d ∷ e ∷ rest) = c == 45 && d == 45 && leb e 32

abbrev pub same_characters : Text → Text → Bool
same_characters [] [] = true
same_characters (c ∷ cs) (d ∷ ds) = c == d && same_characters cs ds
same_characters _ _ = false

abbrev pub quote_kind : ℕ → TokenKind
quote_kind quote =
    if quote == 96 then identifier else if quote == 34 then double_quoted else literal

abbrev pub line_turn : Option Text → LexerTurn
line_turn none = stop
line_turn (some rest) = go_on (10 ∷ []) none rest

abbrev pub quote_turn : ℕ → Option (Text × Text × Text) → LexerTurn
quote_turn quote none = reject
quote_turn quote (some (raw, value, rest)) =
    go_on (quote ∷ raw) (token (quote_kind quote) (if quote == 96 then value else quote ∷ raw)) rest

abbrev pub word_turn : ℕ → Text × Text → LexerTurn
word_turn c (word_rest, rest) = go_on (c ∷ word_rest) (token word (c ∷ word_rest)) rest

unfoldable pub symbol_turn : Text → ℕ → Text → LexerTurn
unfolding starts_with
symbol_turn sql c rest = elim (first_operator operators sql) [
  | none ↦ go_on (c ∷ []) (token symbol (c ∷ [])) rest
  | some operator ↦ go_on operator (token symbol operator) (drop (length operator) sql)
]

abbrev pub is_quote : ℕ → Bool
is_quote c = c == 39 || c == 34 || c == 96

abbrev pub add_token : Option Token → List Token → List Token
add_token none ts = ts
add_token (some t) ts = t ∷ ts

abbrev pub Scanned : Type 0
Scanned = Option (Text × List Token)

abbrev pub extend : LexerTurn → (Text → Scanned) → Scanned
extend stop scan_rest = some ([], [])
extend reject scan_rest = none
extend (go_on output token rest) scan_rest = elim (scan_rest rest) [
  | none ↦ none
  | some (output', tokens) ↦ some (output ++ output', add_token token tokens)
]

module _ (unicode : Unicode) where
  abbrev pub is_word_character : ℕ → Bool
  is_word_character c = unicode.is_alnum c || c == 95 || c == 36

  unfoldable pub word_end : Text → Text × Text
  word_end [] = ([], [])
  word_end (c ∷ rest) =
      let after : Text × Text = word_end rest in
      if is_word_character c then (c ∷ after.0, after.1) else ([], c ∷ rest)

  -- A comment that begins with the given four characters, or fewer at the end.
  unfoldable pub comment_turn : (opening rest : Text) → LexerTurn
  unfolding starts_with comment_end
  comment_turn opening rest =
      if starts_with (47 ∷ 42 ∷ 33 ∷ []) opening
        || same_characters (unicode.casefold opening) (47 ∷ 42 ∷ 109 ∷ 33 ∷ [])
      then reject
      else elim (comment_end rest) [
        | none ↦ reject
        | some (body, after) ↦
            if starts_with (47 ∷ 42 ∷ 43 ∷ []) opening
            then go_on (47 ∷ 42 ∷ body) (token hint (47 ∷ 42 ∷ body)) after
            else go_on (32 ∷ []) none after
      ]

  -- the body of the loop, at a character and the rest
  unfoldable pub lexer_turn : ℕ → Text → LexerTurn
  unfolding comment_turn line_end quoted_token word_end symbol_turn starts_with
  lexer_turn c rest =
      if unicode.is_space c
      then go_on (c ∷ []) none rest
      else if c == 123 || c == 125
      then reject
      else if starts_with (47 ∷ 42 ∷ []) (c ∷ rest)
      then comment_turn (take 4 (c ∷ rest)) (drop 1 rest)
      else if c == 35 || is_dash_comment (c ∷ rest)
      then line_turn (line_end (c ∷ rest))
      else if is_quote c
      then quote_turn c (quoted_token c rest)
      else if is_word_character c
      then word_turn c (word_end rest)
      else symbol_turn (c ∷ rest) c rest

  -- `_scan`, on fuel
  unfoldable pub scan_on : ℕ → Text → Scanned
  unfolding lexer_turn
  scan_on zero sql = none
  scan_on (suc fuel) [] = some ([], [])
  scan_on (suc fuel) (c ∷ rest) = extend (lexer_turn c rest) (scan_on fuel)

  unfoldable pub scan : Text → Scanned
  unfolding scan_on
  scan sql = scan_on (suc (length sql)) sql

  unfoldable pub strip_mysql_comments : Text → Option Text
  unfolding scan
  strip_mysql_comments sql = elim (scan sql) [ none ↦ none | some (output, tokens) ↦ some output ]

  abbrev pub words : List Token → List Text
  words [] = []
  words (t ∷ ts) = elim t.kind [ word ↦ unicode.casefold t.value ∷ words ts | _ ↦ words ts ]

  unfoldable pub unquoted_words : Text → Option (List Text)
  unfolding scan
  unquoted_words sql = elim (scan sql) [ none ↦ none | some (output, tokens) ↦ some (words tokens) ]
