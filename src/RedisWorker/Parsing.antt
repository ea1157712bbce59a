-- ===== src/RedisWorker/Parsing.antt =====
-- `parse_envelope` is applied twice to an envelope: to the message and again by `process_envelope`.
use database_alert_agent.Prelude.{
  String, ◌≡◌, false, Option, none, some, [], ◌∷◌, str_eq, is_blank, arith, Bool-cases, inl, inr,
  sym, subst, ◌∙◌, if_split, refl,
}
use database_alert_agent.RedisWorker.{
  Field, text, dictionary, other, Object, get, is_text, Attempted, success, problem, parse_object,
  parse_job, parse_alert, Json, object, no_object, parse_json, RawValue, bytes, string, parsed,
  parse_envelope, parse_loaded, Loaded, loaded, decode_error, load_raised, Problem, other_error,
  read_envelope, extract_envelope, invalid_alert_payload,
}

abbrev job : Field → String → Object
job version alert_id =
    ("schema_version", version)
    ∷ ("job_type", text "investigate")
    ∷ ("alert_id", text alert_id)
    ∷ []

abbrev alert : String → String → Object
alert source payload = ("source", text source) ∷ ("payload", dictionary payload) ∷ []

reparse_job :
    (version : Field) (alert_id : String)
    → str_eq alert_id "" ≡ false
    → parse_object (job version alert_id) ≡ success (job version alert_id)
unfolding parse_object get
reparse_job version alert_id h = rw h

reparse_alert :
    (source payload : String)
    → is_blank source ≡ false
    → parse_object (alert source payload) ≡ success (alert source payload)
unfolding parse_object get
reparse_alert source payload h = rw h

reparse_parsed_job :
    (schema_version alert_id : Option Field) (envelope : Object)
    → parse_job schema_version alert_id ≡ success envelope
    → parse_object envelope ≡ success envelope
reparse_parsed_job version (some (text alert_id)) envelope h =
    let version' : Field = elim version [ none ↦ other "1" | some f ↦ f ] in
    let r = reparse_job version' alert_id in
    elim (Bool-cases (str_eq alert_id "")) [
      | inl t ↦ ground (arith, t)
      | inr t ↦
          let q : parse_job version (some (text alert_id)) ≡ success (job version' alert_id) =
            rw t in
          let e : success (job version' alert_id) ≡ success envelope = sym q ∙ h in
          let e' : job version' alert_id ≡ envelope = cc in
          subst (λ x. parse_object x ≡ success x) e' (r t)
    ]
reparse_parsed_job version none envelope h = cc
reparse_parsed_job version (some (dictionary j)) envelope h = cc
reparse_parsed_job version (some (other j)) envelope h = cc

reparse_parsed_alert :
    (source payload : Option Field) (envelope : Object)
    → parse_alert source payload ≡ success envelope
    → parse_object envelope ≡ success envelope
reparse_parsed_alert (some (text source)) (some (dictionary payload)) envelope h =
    elim (Bool-cases (is_blank source)) [
      | inl t ↦ ground (arith, t)
      | inr t ↦
          let q : parse_alert (some (text source)) (some (dictionary payload))
              ≡ success (alert source payload) =
            rw t in
          let e : success (alert source payload) ≡ success envelope = sym q ∙ h in
          let e' : alert source payload ≡ envelope = cc in
          subst (λ x. parse_object x ≡ success x) e' (reparse_alert source payload t)
    ]
reparse_parsed_alert source payload envelope h = ground arith

-- What the parser accepts, it accepts again and leaves as it is; so an envelope that the worker has
-- parsed is never refused by the second parse.
parse_object-parse_object :
    (value envelope : Object)
    → parse_object value ≡ success envelope
    → parse_object envelope ≡ success envelope
unfolding parse_object
parse_object-parse_object value envelope h =
    let j = reparse_parsed_job (get "schema_version" value) (get "alert_id" value) envelope in
    let a = reparse_parsed_alert (get "source" value) (get "payload" value) envelope in
    elim (Bool-cases (is_text "investigate" (get "job_type" value))) [
      | inl t ↦
          let q : parse_object value
              ≡ parse_job (get "schema_version" value) (get "alert_id" value) =
            rw t in
          j (sym q ∙ h)
      | inr t ↦
          let q : parse_object value ≡ parse_alert (get "source" value) (get "payload" value) =
            rw t in
          a (sym q ∙ h)
    ]

abbrev IsParsed : Attempted Object → Type 0
IsParsed m = (envelope : Object) → m ≡ success envelope → parse_object envelope ≡ success envelope

parse_json-IsParsed : (j : Json) → IsParsed (parse_json j)
parse_json-IsParsed (object value) envelope h = parse_object-parse_object value envelope h
parse_json-IsParsed no_object envelope h = cc

loaded-IsParsed : (j : Loaded) → IsParsed (parse_loaded j)
loaded-IsParsed (loaded j) envelope h = parse_json-IsParsed j envelope h
loaded-IsParsed decode_error envelope h = cc
loaded-IsParsed (load_raised name) envelope h = cc

-- A value of which no envelope is made is an invalid payload.
abbrev Rejects : Attempted Object → Type 0
Rejects m = (p : Problem) → m ≡ problem p → p ≡ invalid_alert_payload

parse_job-Rejects : (version alert_id : Option Field) → Rejects (parse_job version alert_id)
parse_job-Rejects version (some (text alert_id)) p h = ground arith
parse_job-Rejects version none p h = cc
parse_job-Rejects version (some (dictionary j)) p h = cc
parse_job-Rejects version (some (other j)) p h = cc

parse_alert-Rejects : (source payload : Option Field) → Rejects (parse_alert source payload)
parse_alert-Rejects (some (text source)) (some (dictionary payload)) p h = ground arith
parse_alert-Rejects (some (text source)) none p h = cc
parse_alert-Rejects (some (text source)) (some (text t)) p h = cc
parse_alert-Rejects (some (text source)) (some (other j)) p h = cc
parse_alert-Rejects none payload p h = cc
parse_alert-Rejects (some (dictionary j)) payload p h = cc
parse_alert-Rejects (some (other j)) payload p h = cc

parse_json-Rejects : (j : Json) → Rejects (parse_json j)
unfolding parse_object
parse_json-Rejects (object value) =
    if_split Rejects (is_text "investigate" (get "job_type" value)) _ _
      (λ _. parse_job-Rejects (get "schema_version" value) (get "alert_id" value))
      (λ _. parse_alert-Rejects (get "source" value) (get "payload" value))
parse_json-Rejects no_object = λ p h. cc

module _ (decode : String → Option String) (loads : String → Loaded) where
  decoded-IsParsed :
      (s : Option String)
      → IsParsed (elim s [ none ↦ problem invalid_alert_payload | some s ↦ parse_loaded (loads s) ])
  decoded-IsParsed (some s) envelope h = loaded-IsParsed (loads s) envelope h
  decoded-IsParsed none envelope h = cc

  parse_envelope-IsParsed : (raw : RawValue) → IsParsed (parse_envelope decode loads raw)
  unfolding parse_envelope
  parse_envelope-IsParsed (bytes value) envelope h = decoded-IsParsed (decode value) envelope h
  parse_envelope-IsParsed (string value) envelope h = loaded-IsParsed (loads value) envelope h
  parse_envelope-IsParsed (parsed j) envelope h = parse_json-IsParsed j envelope h

  -- The envelope of a message, once it is read, is an envelope that the parser accepts.
  pub read_envelope-IsParsed :
      (binary plain : Option RawValue) → IsParsed (read_envelope decode loads binary plain)
  unfolding extract_envelope
  read_envelope-IsParsed (some raw) plain envelope h = parse_envelope-IsParsed raw envelope h
  read_envelope-IsParsed none (some raw) envelope h = parse_envelope-IsParsed raw envelope h
  read_envelope-IsParsed none none envelope h = cc

  -- What keeps a message from being read: an invalid payload, or a text on which `json.loads` raises
  -- another exception than JSONDecodeError.
  pub data Unread (p : Problem) : Type 0 where
    invalid : p ≡ invalid_alert_payload → Unread p
    not_loaded : (s name : String) → loads s ≡ load_raised name → p ≡ other_error name → Unread p

  loaded-Unread :
      (s : String) (l : Loaded) (p : Problem) → loads s ≡ l → parse_loaded l ≡ problem p → Unread p
  loaded-Unread s (loaded j) p e h = invalid (parse_json-Rejects j p h)
  loaded-Unread s decode_error p e h = invalid cc
  loaded-Unread s (load_raised name) p e h = not_loaded s name e cc

  decoded-Unread :
      (o : Option String) (p : Problem)
      → elim o [ none ↦ problem invalid_alert_payload | some s ↦ parse_loaded (loads s) ]
        ≡ problem p
      → Unread p
  decoded-Unread none p h = invalid cc
  decoded-Unread (some s) p h = loaded-Unread s (loads s) p refl h

  parse_envelope-Unread :
      (raw : RawValue) (p : Problem) → parse_envelope decode loads raw ≡ problem p → Unread p
  unfolding parse_envelope
  parse_envelope-Unread (bytes value) p h = decoded-Unread (decode value) p h
  parse_envelope-Unread (string value) p h = loaded-Unread value (loads value) p refl h
  parse_envelope-Unread (parsed j) p h = invalid (parse_json-Rejects j p h)

  pub read_envelope-Unread :
      (binary plain : Option RawValue) (p : Problem)
      → read_envelope decode loads binary plain ≡ problem p
      → Unread p
  unfolding extract_envelope
  read_envelope-Unread (some raw) plain p h = parse_envelope-Unread raw p h
  read_envelope-Unread none (some raw) p h = parse_envelope-Unread raw p h
  read_envelope-Unread none none p h = invalid cc
