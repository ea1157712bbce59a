-- ===== src/Sql/Examples.antt =====
-- Statements in ASCII, with what Python knows of ASCII.
use database_alert_agent.Prelude.{
  ℕ, ◌+◌, ◌≡◌, refl, Bool, false, ◌&&◌, ◌||◌, some, [], ◌∷◌, ◌++◌, map, leb, take, if◌then◌else◌,
}
use database_alert_agent.Sql.{
  Text, Unicode, Token, word, symbol, escapes, quoted_token, starts_with, comment_end, line_end,
  word_end, comment_turn, symbol_turn, lexer_turn, scan_on, scan, strip_mysql_comments,
  unquoted_words,
}
use database_alert_agent.Sql.Tokens.{
  drop_semicolons, final_depth, identifier_of, more_parts, identifier_paths, mysql_identifier_paths,
}
use database_alert_agent.Sql.Scanning.{Scans, scan-Scans}
use database_alert_agent.Sql.Quoting.{doubled, unquoted_words-quoted}

abbrev between : ℕ → ℕ → ℕ → Bool
between low high c = leb low c && leb c high

abbrev lower : Text → Text
lower cs = map (λ c. if between 65 90 c then c + 32 else c) cs

abbrev ascii : Unicode
ascii = record {
  is_space = λ c. between 9 13 c || between 28 32 c;
  is_alnum = λ c. between 48 57 c || between 65 90 c || between 97 122 c;
  is_alpha = λ c. between 65 90 c || between 97 122 c;
  casefold = lower;
}

-- "a`b", which holds a quote
abbrev name : Text
name = 97 ∷ 96 ∷ 98 ∷ []

-- " X"
abbrev after : Text
after = 32 ∷ 88 ∷ []

after_is_plain : starts_with (96 ∷ []) after ≡ false
unfolding starts_with
after_is_plain = refl

no_escape : escapes 96 97 ≡ false
unfolding escapes
no_escape = refl

unquoted_words-quoted_example :
    unquoted_words ascii (96 ∷ (doubled 96 name ++ (96 ∷ after))) ≡ unquoted_words ascii after
unfolding escapes
unquoted_words-quoted_example =
    unquoted_words-quoted ascii 96 refl refl name after refl after_is_plain

-- The bare word of the statement is the last one, in lower case.
one_word : unquoted_words ascii (96 ∷ (doubled 96 name ++ (96 ∷ after))) ≡ some ((120 ∷ []) ∷ [])
unfolding unquoted_words scan scan_on lexer_turn starts_with quoted_token escapes word_end
one_word = refl

scan-Scans_example : Scans ascii (32 ∷ name) (scan ascii (32 ∷ name))
scan-Scans_example = scan-Scans ascii (32 ∷ name)

abbrev bare : Text → Token
bare value = record { kind = word; value = value }

abbrev semicolon : Token
semicolon = record { kind = symbol; value = 59 ∷ [] }

-- "LIMIT" and "5"
abbrev limit_word : Token
limit_word = bare (76 ∷ 73 ∷ 77 ∷ 73 ∷ 84 ∷ [])

abbrev five : Token
five = bare (53 ∷ [])

balanced : final_depth 0 (bare (88 ∷ []) ∷ []) ≡ some 0
unfolding final_depth
balanced = refl

only_semicolons : drop_semicolons (semicolon ∷ semicolon ∷ []) ≡ []
unfolding drop_semicolons
only_semicolons = refl

-- "a.`b`.* c" has one path.
paths :
    mysql_identifier_paths ascii (97 ∷ 46 ∷ 96 ∷ 98 ∷ 96 ∷ 46 ∷ 42 ∷ 32 ∷ 99 ∷ [])
    ≡ some (((97 ∷ []) ∷ (98 ∷ []) ∷ (42 ∷ []) ∷ []) ∷ [])
unfolding mysql_identifier_paths scan scan_on lexer_turn starts_with quoted_token escapes word_end
    symbol_turn identifier_paths identifier_of more_parts
paths = refl

-- "--/**/X": two minus signs, a comment and a word. Without the comment the two minus signs begin one.
joined :
    strip_mysql_comments ascii (45 ∷ 45 ∷ 47 ∷ 42 ∷ 42 ∷ 47 ∷ 88 ∷ [])
    ≡ some (45 ∷ 45 ∷ 32 ∷ 88 ∷ [])
unfolding strip_mysql_comments scan scan_on lexer_turn starts_with comment_turn comment_end take
    word_end symbol_turn
joined = refl

word_before : unquoted_words ascii (45 ∷ 45 ∷ 47 ∷ 42 ∷ 42 ∷ 47 ∷ 88 ∷ []) ≡ some ((120 ∷ []) ∷ [])
unfolding unquoted_words scan scan_on lexer_turn starts_with comment_turn comment_end take word_end
    symbol_turn
word_before = refl

word_after : unquoted_words ascii (45 ∷ 45 ∷ 32 ∷ 88 ∷ []) ≡ some []
unfolding unquoted_words scan scan_on lexer_turn starts_with line_end
word_after = refl
