-- ===== src/Sql/Canonical.antt =====
-- What `canonical_sql` forgets: the semicolons at the end, and a plain LIMIT before them.
use database_alert_agent.Prelude.{
  ℕ, ◌≡◌, refl, sym, ap, ◌∙◌, subst, true, false, ◌&&◌, Option, none, some, List, [], ◌∷◌, ◌++◌,
  ◌==◌, arith, if◌then◌else◌,
}
use database_alert_agent.Sql.{Text, Unicode, Token, same_characters}
use database_alert_agent.Sql.Tokens.{
  is_symbol, is_nil, drop_semicolons, next_depth, final_depth, is_plain_limit_value, is_limit,
  drop_limit, without_terminal_top_level_limit, key, canonical_tokens,
}

append_assoc : (xs ys zs : List Token) → (xs ++ ys) ++ zs ≡ xs ++ (ys ++ zs)
append_assoc [] ys zs = refl
append_assoc (x ∷ xs) ys zs = ap (λ l. x ∷ l) (append_assoc xs ys zs)

drop_semicolons-append :
    (xs semicolons : List Token)
    → drop_semicolons semicolons ≡ []
    → drop_semicolons (xs ++ semicolons) ≡ drop_semicolons xs
unfolding drop_semicolons
drop_semicolons-append [] semicolons h = h
drop_semicolons-append (t ∷ xs) semicolons h =
    ap (λ rest. if is_nil rest && is_symbol 59 t then [] else t ∷ rest)
      (drop_semicolons-append xs semicolons h)

not_nil : (xs : List Token) (v : Token) → is_nil (xs ++ (v ∷ [])) ≡ false
not_nil [] v = refl
not_nil (x ∷ xs) v = refl

drop_semicolons_keeps :
    (xs : List Token) (v : Token)
    → is_symbol 59 v ≡ false
    → drop_semicolons (xs ++ (v ∷ [])) ≡ xs ++ (v ∷ [])
unfolding drop_semicolons
drop_semicolons_keeps [] v h = rw h
drop_semicolons_keeps (t ∷ xs) v h =
    ap (λ rest. if is_nil rest && is_symbol 59 t then [] else t ∷ rest)
      (drop_semicolons_keeps xs v h)
    ∙ rw (not_nil xs v)

final_depth-append :
    (depth d : ℕ) (ts us : List Token)
    → final_depth depth ts ≡ some d
    → final_depth depth (ts ++ us) ≡ final_depth d us
unfolding final_depth
final_depth-append depth d [] us h = let p : depth ≡ d = cc in ap (λ x. final_depth x us) p
final_depth-append depth d (t ∷ ts) us h =
    go (next_depth t depth) (λ e p. final_depth-append e d ts us p) h
  where
    go :
        (o : Option ℕ)
        → ((e : ℕ) → final_depth e ts ≡ some d → final_depth e (ts ++ us) ≡ final_depth d us)
        → elim o [ none ↦ none | some depth' ↦ final_depth depth' ts ] ≡ some d
        → elim o [ none ↦ none | some depth' ↦ final_depth depth' (ts ++ us) ] ≡ final_depth d us
    go none rest e = cc
    go (some depth') rest e = rest depth' e

one_character :
    (t : Text) (a b : ℕ)
    → same_characters t (a ∷ []) ≡ true
    → (a == b) ≡ false
    → same_characters t (b ∷ []) ≡ false
one_character [] a b h k = refl
one_character (c ∷ t) a b h k = ground arith

module _ (unicode : Unicode) (l v : Token) (is_l : is_limit unicode l ≡ true)
    (is_v : is_plain_limit_value v ≡ true) where
  limit_depth : (depth : ℕ) → next_depth l depth ≡ some depth
  limit_depth depth = ground (arith, is_l)

  value_symbol : (c : ℕ) → (63 == c) ≡ false → is_symbol c v ≡ false
  value_symbol c h = ground (arith, is_v, one_character v.value 63 c)

  value_depth : (depth : ℕ) → next_depth v depth ≡ some depth
  value_depth depth = ground (arith, value_symbol 40 refl, value_symbol 41 refl)

  value_no_semicolon : is_symbol 59 v ≡ false
  value_no_semicolon = value_symbol 59 refl

  Two : List Token → Type 0
  Two xs = (a : Token) × (b : Token) × (ys : List Token) × (xs ≡ a ∷ b ∷ ys)

  limited-Two : (ts : List Token) → Two (ts ++ (l ∷ v ∷ []))
  unfolding Two
  limited-Two [] = (l, v, [], refl)
  limited-Two (a ∷ []) = (a, l, v ∷ [], refl)
  limited-Two (a ∷ b ∷ ts) = (a, b, ts ++ (l ∷ v ∷ []), refl)

  drop_limit_long :
      (depth depth' : ℕ) (t : Token) (xs : List Token)
      → Two xs
      → next_depth t depth ≡ some depth'
      → drop_limit unicode depth (t ∷ xs) ≡ t ∷ drop_limit unicode depth' xs
  unfolding drop_limit Two
  drop_limit_long depth depth' t xs (a, b, ys, e) h =
      let p : drop_limit unicode depth (t ∷ a ∷ b ∷ ys)
          ≡ t ∷ drop_limit unicode depth' (a ∷ b ∷ ys) =
        ap
          (λ (o : Option ℕ). elim o [
            | none ↦ t ∷ a ∷ b ∷ ys
            | some d ↦ t ∷ drop_limit unicode d (a ∷ b ∷ ys)
          ])
          h in
      subst (λ x. drop_limit unicode depth (t ∷ x) ≡ t ∷ drop_limit unicode depth' x) (sym e) p

  drop_limit-append :
      (depth : ℕ) (ts : List Token)
      → final_depth depth ts ≡ some 0
      → drop_limit unicode depth (ts ++ (l ∷ v ∷ [])) ≡ ts
  unfolding drop_limit final_depth
  drop_limit-append depth [] h = ground (arith, is_l, is_v)
  drop_limit-append depth (t ∷ ts) h =
      go (next_depth t depth) (λ d e. drop_limit-append d ts e) refl h
    where
      go :
          (o : Option ℕ)
          → ((d : ℕ) → final_depth d ts ≡ some 0 → drop_limit unicode d (ts ++ (l ∷ v ∷ [])) ≡ ts)
          → next_depth t depth ≡ o
          → elim o [ none ↦ none | some d ↦ final_depth d ts ] ≡ some 0
          → drop_limit unicode depth (t ∷ (ts ++ (l ∷ v ∷ []))) ≡ t ∷ ts
      go none rest p e = cc
      go (some d) rest p e =
          drop_limit_long depth d t (ts ++ (l ∷ v ∷ [])) (limited-Two ts) p
          ∙ ap (λ x. t ∷ x) (rest d e)

  limited_depth :
      (ts : List Token) → final_depth 0 ts ≡ some 0 → final_depth 0 (ts ++ (l ∷ v ∷ [])) ≡ some 0
  unfolding final_depth
  limited_depth ts h =
      final_depth-append 0 0 ts (l ∷ v ∷ []) h ∙ ground (arith, limit_depth 0, value_depth 0)

  -- The key of a statement with balanced parentheses, a plain LIMIT and semicolons at its end is the key
  -- of its other tokens.
  pub canonical_tokens-limit :
      (ts semicolons : List Token)
      → final_depth 0 ts ≡ some 0
      → drop_semicolons semicolons ≡ []
      → canonical_tokens unicode (ts ++ (l ∷ v ∷ semicolons)) ≡ key unicode ts
  unfolding canonical_tokens without_terminal_top_level_limit
  canonical_tokens-limit ts semicolons h s =
      let q : drop_semicolons (ts ++ (l ∷ v ∷ semicolons)) ≡ ts ++ (l ∷ v ∷ []) =
        ap drop_semicolons (sym (append_assoc ts (l ∷ v ∷ []) semicolons))
        ∙ drop_semicolons-append (ts ++ (l ∷ v ∷ [])) semicolons s
        ∙ ap drop_semicolons (sym (append_assoc ts (l ∷ []) (v ∷ [])))
        ∙ drop_semicolons_keeps (ts ++ (l ∷ [])) v value_no_semicolon
        ∙ append_assoc ts (l ∷ []) (v ∷ []) in
      let r : without_terminal_top_level_limit unicode (ts ++ (l ∷ v ∷ [])) ≡ ts =
        rw (without_terminal_top_level_limit, limited_depth ts h) (drop_limit-append 0 ts h) in
      ap (λ x. key unicode (without_terminal_top_level_limit unicode x)) q ∙ ap (key unicode) r
