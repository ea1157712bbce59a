-- ===== src/Sql/Tokens.antt =====
-- What is read off the tokens: `canonical_sql`, `_without_terminal_top_level_limit`, and
-- `mysql_identifier_paths`.
use database_alert_agent.Prelude.{
  ℕ, zero, suc, Bool, true, false, ◌&&◌, ◌||◌, Option, none, some, List, [], ◌∷◌, map, ◌==◌,
  if◌then◌else◌,
}
use database_alert_agent.Sql.{
  Text, Unicode, Token, word, symbol, literal, identifier, double_quoted, same_characters,
  quoted_token, scan,
}

abbrev pub is_word : Token → Bool
is_word t = elim t.kind [ word ↦ true | _ ↦ false ]

-- `token == _Token("symbol", c)`
abbrev pub is_symbol : ℕ → Token → Bool
is_symbol c t = elim t.kind [ symbol ↦ same_characters t.value (c ∷ []) | _ ↦ false ]

abbrev pub is_nil : List Token → Bool
is_nil [] = true
is_nil (_ ∷ _) = false

-- `while tokens and tokens[-1] == ";"`
unfoldable pub drop_semicolons : List Token → List Token
drop_semicolons [] = []
drop_semicolons (t ∷ ts) =
    let rest : List Token = drop_semicolons ts in
    if is_nil rest && is_symbol 59 t then [] else t ∷ rest

-- The depth after a token; `none` where a parenthesis closes too much.
abbrev pub next_depth : Token → ℕ → Option ℕ
next_depth t depth =
    if is_symbol 40 t
    then some (suc depth)
    else if is_symbol 41 t
    then elim depth [ zero ↦ none | suc outer ↦ some outer ]
    else some depth

unfoldable pub final_depth : ℕ → List Token → Option ℕ
final_depth depth [] = some depth
final_depth depth (t ∷ ts) = elim (next_depth t depth) [
  | none ↦ none
  | some depth' ↦ final_depth depth' ts
]

-- `_is_plain_limit_value`
abbrev pub is_plain_limit_value : Token → Bool
is_plain_limit_value t = elim t.kind [ word ↦ true | literal ↦ true | _ ↦ is_symbol 63 t ]

module _ (unicode : Unicode) where
  -- `token.value.casefold() == "limit"`
  abbrev pub is_limit : Token → Bool
  is_limit t =
      is_word t && same_characters (unicode.casefold t.value) (108 ∷ 105 ∷ 109 ∷ 105 ∷ 116 ∷ [])

  -- Only the last but one token can have `index + 2 == len(tokens)`; its depth is the given one.
  unfoldable pub drop_limit : ℕ → List Token → List Token
  drop_limit depth [] = []
  drop_limit depth (t ∷ []) = t ∷ []
  drop_limit depth (t ∷ v ∷ []) =
      if depth == 0 && is_limit t && is_plain_limit_value v then [] else t ∷ v ∷ []
  drop_limit depth (t ∷ v ∷ w ∷ ts) = elim (next_depth t depth) [
    | none ↦ t ∷ v ∷ w ∷ ts
    | some depth' ↦ t ∷ drop_limit depth' (v ∷ w ∷ ts)
  ]

  unfoldable pub without_terminal_top_level_limit : List Token → List Token
  unfolding final_depth drop_limit
  without_terminal_top_level_limit ts = elim (final_depth 0 ts) [
    | none ↦ ts
    | some depth ↦ if depth == 0 then drop_limit 0 ts else ts
  ]

  -- `_canonical_token`
  abbrev pub canonical_token : Token → Token
  canonical_token t = elim t.kind [ word ↦ record t { value = unicode.casefold t.value } | _ ↦ t ]

  abbrev pub key : List Token → Option (List Token)
  key [] = none
  key (t ∷ ts) = some (map canonical_token (t ∷ ts))

  unfoldable pub canonical_tokens : List Token → Option (List Token)
  unfolding drop_semicolons without_terminal_top_level_limit
  canonical_tokens ts = key (without_terminal_top_level_limit (drop_semicolons ts))

  -- `canonical_sql`, before the tokens are written as JSON
  unfoldable pub canonical_sql : Text → Option (List Token)
  unfolding scan canonical_tokens
  canonical_sql sql = elim (scan unicode sql) [
    | none ↦ none
    | some (output, tokens) ↦ canonical_tokens tokens
  ]

  -- `identifier` of `mysql_identifier_paths`
  unfoldable pub identifier_of : Token → Option Text
  unfolding quoted_token
  identifier_of t = elim t.kind [
    | identifier ↦ some t.value
    | double_quoted ↦ elim t.value [
      | [] ↦ none
      | quote ∷ body ↦ elim (quoted_token 34 body) [
        | none ↦ none
        | some (raw, value, rest) ↦ some value
      ]
    ]
    | word ↦ elim t.value [
      | [] ↦ none
      | c ∷ cs ↦ if unicode.is_alpha c || c == 95 || c == 36 then some (c ∷ cs) else none
    ]
    | _ ↦ none
  ]

  -- The parts after the first one, and how many tokens they take.
  unfoldable pub more_parts : List Token → List Text × ℕ
  unfolding identifier_of
  more_parts [] = ([], 0)
  more_parts (t ∷ []) = ([], 0)
  more_parts (t ∷ u ∷ ts) =
      let rest : List Text × ℕ = more_parts ts in
      if is_symbol 46 t
      then elim (identifier_of u) [
        | some name ↦ (name ∷ rest.0, suc (suc rest.1))
        | none ↦ if is_symbol 42 u then ((42 ∷ []) ∷ [], 2) else ([], 0)
      ]
      else ([], 0)

  abbrev pub with_path : Text → List Text → List (List Text) → List (List Text)
  with_path first [] paths = paths
  with_path first (part ∷ parts) paths = (first ∷ part ∷ parts) ∷ paths

  -- The loop of `mysql_identifier_paths`: `skip` tokens belong to the last path, and `after_dot` says
  -- that the token before is a dot.
  unfoldable pub identifier_paths : (skip : ℕ) (after_dot : Bool) → List Token → List (List Text)
  unfolding identifier_of more_parts
  identifier_paths skip after_dot [] = []
  identifier_paths (suc skip) after_dot (t ∷ ts) = identifier_paths skip false ts
  identifier_paths zero after_dot (t ∷ ts) = elim (if after_dot then none else identifier_of t) [
    | none ↦ identifier_paths zero (is_symbol 46 t) ts
    | some first ↦ with_path first (more_parts ts).0 (identifier_paths (more_parts ts).1 false ts)
  ]

  unfoldable pub mysql_identifier_paths : Text → Option (List (List Text))
  unfolding scan identifier_paths
  mysql_identifier_paths sql = elim (scan unicode sql) [
    | none ↦ none
    | some (output, tokens) ↦ some (identifier_paths 0 false tokens)
  ]
