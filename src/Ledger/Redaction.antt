-- ===== src/Ledger/Redaction.antt =====
-- `_normalized_arguments`: what the ledger keeps of a tool's arguments, which are JSON values.
-- `str.casefold` is the parameter.
use vermay_agent.Prelude.{
  String, ◌==◌, ◌≡◌, refl, Bool, true, false, ◌&&◌, ◌||◌, if◌then◌else◌, Bool-cases, inl, inr,
}
use vermay_agent.Json.{
  Json, null, bool, num, str, arr, obj, Items, nil, cons, Fields, end, field, entry,
}

-- `_SENSITIVE_ARGUMENT_KEYS`
abbrev pub is_sensitive : String → Bool
is_sensitive key =
    key == "api_key"
    || key == "apikey"
    || key == "authorization"
    || key == "credential"
    || key == "credentials"
    || key == "password"
    || key == "secret"
    || key == "token"

-- `_redact_value`
unfoldable mutual
  pub redact : (String → String) → Json → Json
  redact casefold (arr xs) = arr (redact_items casefold xs)
  redact casefold (obj fields) = obj (redact_fields casefold fields)
  redact casefold null = null
  redact casefold (bool b) = bool b
  redact casefold (num n) = num n
  redact casefold (str s) = str s

  pub redact_items : (String → String) → Items → Items
  redact_items casefold nil = nil
  redact_items casefold (cons x xs) = cons (redact casefold x) (redact_items casefold xs)

  pub redact_fields : (String → String) → Fields → Fields
  redact_fields casefold end = end
  redact_fields casefold (field key value rest) =
      let inner = redact casefold value in
      field key (if is_sensitive (casefold key) then str "[REDACTED]" else inner)
        (redact_fields casefold rest)

unfoldable pub normalized_arguments : (String → String) → Json → Fields
normalized_arguments casefold (obj fields) = redact_fields casefold fields
normalized_arguments casefold null = redact_fields casefold (entry "value" null)
normalized_arguments casefold (bool b) = redact_fields casefold (entry "value" (bool b))
normalized_arguments casefold (num n) = redact_fields casefold (entry "value" (num n))
normalized_arguments casefold (str s) = redact_fields casefold (entry "value" (str s))
normalized_arguments casefold (arr xs) = redact_fields casefold (entry "value" (arr xs))

-- The value that stands in for a secret.
abbrev pub is_redacted : Json → Bool
is_redacted (str s) = s == "[REDACTED]"
is_redacted _ = false

-- At every depth, under a sensitive key there is only that value.
unfoldable mutual
  pub keeps_no_secret : (String → String) → Json → Bool
  keeps_no_secret casefold (arr xs) = items_keep_no_secret casefold xs
  keeps_no_secret casefold (obj fields) = fields_keep_no_secret casefold fields
  keeps_no_secret casefold null = true
  keeps_no_secret casefold (bool b) = true
  keeps_no_secret casefold (num n) = true
  keeps_no_secret casefold (str s) = true

  pub items_keep_no_secret : (String → String) → Items → Bool
  items_keep_no_secret casefold nil = true
  items_keep_no_secret casefold (cons x xs) =
      keeps_no_secret casefold x && items_keep_no_secret casefold xs

  pub fields_keep_no_secret : (String → String) → Fields → Bool
  fields_keep_no_secret casefold end = true
  fields_keep_no_secret casefold (field key value rest) =
      (if is_sensitive (casefold key) then is_redacted value else keeps_no_secret casefold value)
      && fields_keep_no_secret casefold rest

mutual
  unfolding redact keeps_no_secret

  redact-keeps_no_secret :
      (casefold : String → String) (j : Json) → keeps_no_secret casefold (redact casefold j) ≡ true
  redact-keeps_no_secret casefold (arr xs) = redact_items-keep_no_secret casefold xs
  redact-keeps_no_secret casefold (obj fields) = redact_fields-keep_no_secret casefold fields
  redact-keeps_no_secret casefold null = refl
  redact-keeps_no_secret casefold (bool b) = refl
  redact-keeps_no_secret casefold (num n) = refl
  redact-keeps_no_secret casefold (str s) = refl

  redact_items-keep_no_secret :
      (casefold : String → String) (xs : Items)
      → items_keep_no_secret casefold (redact_items casefold xs) ≡ true
  redact_items-keep_no_secret casefold nil = refl
  redact_items-keep_no_secret casefold (cons x xs) =
      rw (redact-keeps_no_secret casefold x) (redact_items-keep_no_secret casefold xs)

  redact_fields-keep_no_secret :
      (casefold : String → String) (fields : Fields)
      → fields_keep_no_secret casefold (redact_fields casefold fields) ≡ true
  redact_fields-keep_no_secret casefold end = refl
  redact_fields-keep_no_secret casefold (field key value rest) =
      elim (Bool-cases (is_sensitive (casefold key))) [
        | inl secret ↦ rw secret (redact_fields-keep_no_secret casefold rest)
        | inr plain ↦
            rw (plain, redact-keeps_no_secret casefold value)
              (redact_fields-keep_no_secret casefold rest)
      ]

-- Whatever the arguments of a tool call are, what the ledger keeps of them has under each sensitive
-- key, at every depth, the text "[REDACTED]" and nothing else.
pub normalized_arguments-keep_no_secret :
    (casefold : String → String) (arguments : Json)
    → fields_keep_no_secret casefold (normalized_arguments casefold arguments) ≡ true
unfolding normalized_arguments
normalized_arguments-keep_no_secret casefold (obj fields) =
    redact_fields-keep_no_secret casefold fields
normalized_arguments-keep_no_secret casefold null =
    redact_fields-keep_no_secret casefold (entry "value" null)
normalized_arguments-keep_no_secret casefold (bool b) =
    redact_fields-keep_no_secret casefold (entry "value" (bool b))
normalized_arguments-keep_no_secret casefold (num n) =
    redact_fields-keep_no_secret casefold (entry "value" (num n))
normalized_arguments-keep_no_secret casefold (str s) =
    redact_fields-keep_no_secret casefold (entry "value" (str s))
normalized_arguments-keep_no_secret casefold (arr xs) =
    redact_fields-keep_no_secret casefold (entry "value" (arr xs))
