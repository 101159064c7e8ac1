-- ===== src/AgentService/Redact.antt =====
-- service/agent/plan.go: the redaction of texts and of JSON, and its bounds. The expressions that find
-- secrets are regexp's, so arguments.
use haruka_ai.Base.{
  ℕ, ◌/◌, ◌==◌, ltb, leb, if◌then◌else◌, Bool, true, Str, codes, length, take, [], ◌∷◌, ◌++◌,
  Option, none, some, is_blank, is_empty,
}
use haruka_ai.McpSchema.Json.{
  Json, null, boolean, number, text, array, object, Items, item, nil, Fields, empty, field, Library,
}

pub record Secrets : Type 0 where
  -- `sensitiveKeyPattern.MatchString`
  pub sensitive_key : Str → Bool
  -- `ReplaceAllString` with the three patterns.
  pub replace_private_keys : Str → Str
  pub replace_bearer : Str → Str
  pub replace_sensitive : Str → Str

unfoldable pub truncate_runes : Str → ℕ → Str
unfolding is_empty
truncate_runes value maximum =
    if maximum == 0
    then []
    else (if is_empty value
        then []
        else (if leb (length value) maximum then value else take maximum value ++ 0x2026 ∷ []))

module _ ⦃secrets : Secrets⦄ where
  unfoldable pub redact_text : Str → Str
  redact_text value =
      secrets.replace_sensitive (secrets.replace_bearer (secrets.replace_private_keys value))

  unfoldable pub unless_sensitive : Str → Json → Json
  unless_sensitive key value =
      if secrets.sensitive_key key then text (codes "[REDACTED]") else value

  -- The keys are sorted, which the list of the fields is taken to be.
  unfoldable mutual
    unfolding redact_text unless_sensitive

    pub redact_value : Json → Str → Json
    redact_value (object fields) key = unless_sensitive key (object (redact_fields fields))
    redact_value (array items) key = unless_sensitive key (array (redact_items items key))
    redact_value (text s) key = unless_sensitive key (text (redact_text s))
    redact_value null key = unless_sensitive key null
    redact_value (boolean b) key = unless_sensitive key (boolean b)
    redact_value (number s) key = unless_sensitive key (number s)

    pub redact_items : Items → Str → Items
    redact_items nil key = nil
    redact_items (item value rest) key = item (redact_value value key) (redact_items rest key)

    pub redact_fields : Fields → Fields
    redact_fields empty = empty
    redact_fields (field key value rest) = field key (redact_value value key) (redact_fields rest)

module _ ⦃lib : Library⦄ ⦃secrets : Secrets⦄ where
  -- `json.Marshal` of a map of two entries, in the order of its keys.
  unfoldable pub wrapped_preview : Option Str → Str
  wrapped_preview none = codes "{\"truncated\":true}"
  wrapped_preview (some wrapped) = wrapped

  unfoldable pub limited_json : ℕ → Option Str → Str
  unfolding wrapped_preview truncate_runes
  limited_json max_runes none = codes "[unavailable]"
  limited_json max_runes (some encoded) =
      let preview_limit = max_runes / 3 in
      let preview =
        field (codes "preview") (text (truncate_runes encoded preview_limit))
          (field (codes "truncated") (boolean true) empty) in
      if leb (length encoded) max_runes
      then encoded
      else (if ltb preview_limit 1
          then codes "{\"truncated\":true}"
          else wrapped_preview (lib.marshal (object preview)))

  unfoldable pub redact_and_limit_json : Json → ℕ → Str
  unfolding limited_json redact_value
  redact_and_limit_json value max_runes =
      limited_json max_runes (lib.marshal (redact_value value []))

  unfoldable pub redact_decoded : Str → ℕ → Option (Json × Str) → Str
  unfolding redact_and_limit_json redact_text truncate_runes
  redact_decoded raw max_runes none = redact_text (truncate_runes raw max_runes)
  redact_decoded raw max_runes (some (value, rest)) = redact_and_limit_json value max_runes

  unfoldable pub redact_json_bytes : Str → ℕ → Str
  unfolding redact_decoded is_blank
  redact_json_bytes raw max_runes =
      if is_blank raw then [] else redact_decoded raw max_runes (lib.decode raw)
