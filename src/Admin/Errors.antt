-- ===== src/Admin/Errors.antt =====
-- frontend/src/app/core/errors/api-error-adapter.ts, with `ApplicationErrorContract` of
-- shared/contracts/admin-contracts.ts. A field of the body is read as a text or as something else.
mod Tests
use kiosk_screen.Prelude.{
  ◌/◌, String, ◌≡◌, refl, inl, inr, Bool, false, not, ◌||◌, Option, none, some, List, [], ◌∷◌,
  arith, if◌then◌else◌, if_each, Option-cases, or_default, non_empty, any, map_get, codes, is_blank,
  starts_with, includes_any_case,
}

pub data ErrorCategory : Type 0 where
  validation permission dependency upload storage migration : ErrorCategory
  not_found conflict unexpected : ErrorCategory

pub record ApplicationError : Type 0 where
  pub code : String
  pub message : String
  pub category : ErrorCategory
  pub correlation_id : Option String

-- A value of type `unknown`: a text, or anything else, a missing field included.
pub data Unknown : Type 0 where
  text : String → Unknown
  other : Unknown

pub record Envelope : Type 0 where
  pub code : Unknown
  pub message : Unknown
  pub category : Unknown
  pub correlation_id : Unknown

-- The `detail` of a body: missing or of another kind, a text, an object or an array, of which the
-- code reads the `msg` of the first entry, where that is an object with a text there.
pub data Detail : Type 0 where
  no_detail : Detail
  text_detail : String → Detail
  object_detail : Envelope → Detail
  array_detail : Option String → Detail

pub record ErrorBody : Type 0 where
  pub envelope : Envelope
  pub detail : Detail

abbrev pub default_code : String
default_code = "unexpected_error"

abbrev pub default_message : String
default_message = "The action could not be completed. Try again or contact support."

abbrev pub default_error : ApplicationError
default_error = record {
  code = default_code;
  message = default_message;
  category = unexpected;
  correlation_id = none;
}

-- `typeof u === 'string' && u.trim()`
abbrev pub has_text : Unknown → Bool
has_text (text s) = not (is_blank s)
has_text other = false

-- `typeof u === 'string' ? u : d`
abbrev pub text_or : String → Unknown → Unknown
text_or d (text s) = text s
text_or d other = text d

abbrev pub from_object : Envelope → Envelope
from_object e = record e { code = text_or "request_failed" e.code }

abbrev pub from_text : String → Envelope → Envelope
from_text s e = record e { code = text_or "validation_failed" e.code; message = text s }

abbrev pub from_array : Option String → Envelope → Envelope
from_array none e = e
from_array (some msg) e = record {
  code = text "validation_failed";
  message = text msg;
  category = text "validation";
  correlation_id = other;
}

abbrev pub read_detail : Detail → Envelope → Envelope
read_detail no_detail e = e
read_detail (text_detail s) e = if is_blank s then e else from_text s e
read_detail (object_detail d) e = if has_text d.message then from_object d else e
read_detail (array_detail msg) e = from_array msg e

-- `none` is an error that is no object, or whose body is none.
unfoldable pub unwrap_error_envelope : Option ErrorBody → Option Envelope
unwrap_error_envelope none = none
unwrap_error_envelope (some b) =
    some (if has_text b.envelope.message then b.envelope else read_detail b.detail b.envelope)

abbrev pub unsafe_patterns : List String
unsafe_patterns =
    "/Users/" ∷ "/var/" ∷ "Traceback" ∷ "stack trace" ∷ "password" ∷ "secret" ∷ "token" ∷ []

unfoldable pub is_unsafe : String → Bool
is_unsafe message = any (includes_any_case message) unsafe_patterns

unfoldable pub sanitize_user_message : Unknown → String
sanitize_user_message other = default_message
sanitize_user_message (text message) =
    if is_blank message || is_unsafe message then default_message else message

abbrev pub allowed_categories : List (String × ErrorCategory)
allowed_categories =
    ("validation", validation)
    ∷ ("permission", permission)
    ∷ ("dependency", dependency)
    ∷ ("upload", upload)
    ∷ ("storage", storage)
    ∷ ("migration", migration)
    ∷ ("not-found", not_found)
    ∷ ("conflict", conflict)
    ∷ ("unexpected", unexpected)
    ∷ []

abbrev pub category_by_code_prefix : List (String × ErrorCategory)
category_by_code_prefix =
    ("validation", validation)
    ∷ ("permission", permission)
    ∷ ("dependency", dependency)
    ∷ ("upload", upload)
    ∷ ("storage", storage)
    ∷ ("migration", migration)
    ∷ ("not_found", not_found)
    ∷ ("conflict", conflict)
    ∷ []

abbrev pub first_prefix : String → List (String × ErrorCategory) → Option ErrorCategory
first_prefix code [] = none
first_prefix code ((prefix, category) ∷ rest) =
    if starts_with code prefix then some category else first_prefix code rest

-- `typeof category === 'string' && allowed.has(category)`
abbrev pub named_category : Unknown → Option ErrorCategory
named_category other = none
named_category (text s) = map_get allowed_categories s

unfoldable pub normalize_category : Unknown → String → ErrorCategory
normalize_category category code =
    or_default (named_category category)
      (or_default (first_prefix code category_by_code_prefix) unexpected)

abbrev pub code_or_default : Unknown → String
code_or_default other = default_code
code_or_default (text s) = if is_blank s then default_code else s

-- `...(correlationId ? { correlationId } : {})`
abbrev pub correlation_of : Unknown → Option String
correlation_of other = none
correlation_of (text s) = if non_empty s then some s else none

abbrev pub adapted : Envelope → ApplicationError
adapted e =
    let code = code_or_default e.code in
    record {
      code = code;
      message = sanitize_user_message e.message;
      category = normalize_category e.category code;
      correlation_id = correlation_of e.correlation_id;
    }

unfoldable pub adapt_api_error : Option ErrorBody → ApplicationError
adapt_api_error error = elim (unwrap_error_envelope error) [
  | none ↦ default_error
  | some envelope ↦ adapted envelope
]

-- A message that may be shown: one that is not blank and holds none of these words, whatever the
-- case of their letters.
abbrev pub IsPresentable : String → Type 0
IsPresentable s =
    (is_blank s ≡ false)
    × (includes_any_case s "/users/" ≡ false)
    × (includes_any_case s "/var/" ≡ false)
    × (includes_any_case s "traceback" ≡ false)
    × (includes_any_case s "stack trace" ≡ false)
    × (includes_any_case s "password" ≡ false)
    × (includes_any_case s "secret" ≡ false)
    × (includes_any_case s "token" ≡ false)

default_message-IsPresentable : IsPresentable default_message
unfolding is_blank includes_any_case codes
default_message-IsPresentable = (refl, refl, refl, refl, refl, refl, refl, refl)

safe-IsPresentable : (s : String) → is_blank s ≡ false → is_unsafe s ≡ false → IsPresentable s
unfolding is_unsafe includes_any_case codes
safe-IsPresentable s named safe = ground (arith, named, safe)

sanitize_user_message-IsPresentable : (u : Unknown) → IsPresentable (sanitize_user_message u)
unfolding sanitize_user_message
sanitize_user_message-IsPresentable other = default_message-IsPresentable
sanitize_user_message-IsPresentable (text m) =
    if_each IsPresentable (is_blank m || is_unsafe m) (λ bad. default_message-IsPresentable)
      λ good. safe-IsPresentable m (ground (arith, good)) (ground (arith, good))

-- Whatever the server answers with, the user is shown a message that is not blank and in which none
-- of /users/, /var/, traceback, stack trace, password, secret and token occurs, in any case of
-- their letters.
pub adapt_api_error-IsPresentable :
    (error : Option ErrorBody) → IsPresentable (adapt_api_error error).message
unfolding adapt_api_error
adapt_api_error-IsPresentable error = elim (Option-cases (unwrap_error_envelope error)) [
  | inl e ↦ rw (adapt_api_error, e) default_message-IsPresentable
  | inr (envelope, e) ↦
      rw (adapt_api_error, e) (sanitize_user_message-IsPresentable envelope.message)
]
