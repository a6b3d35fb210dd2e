-- ===== src/Admin/Errors/Tests.antt =====
-- Errors as the server sends them, and what the user is shown.
use kiosk_screen.Prelude.{some, ◌≡◌, refl, codes, is_blank, starts_with, includes_any_case}
use kiosk_screen.Admin.Errors.{
  Unknown, text, other, Envelope, ErrorBody, no_detail, array_detail, default_message, not_found,
  validation, upload, unwrap_error_envelope, is_unsafe, sanitize_user_message, normalize_category,
  adapt_api_error, adapt_api_error-IsPresentable, IsPresentable,
}

abbrev envelope : Unknown → Unknown → Envelope
envelope code message = record {
  code = code;
  message = message;
  category = other;
  correlation_id = other;
}

abbrev missing_item : ErrorBody
missing_item = record {
  envelope = envelope (text "not_found_item") (text "No such item");
  detail = no_detail;
}

abbrev leaking : ErrorBody
leaking = record {
  envelope = envelope (text "upload_failed") (text "cannot write /VAR/tmp/x");
  detail = no_detail;
}

abbrev invalid_field : ErrorBody
invalid_field = record { envelope = envelope other other; detail = array_detail (some "too long") }

errors_run :
    ((adapt_api_error (some missing_item)).category ≡ not_found)
    × ((adapt_api_error (some missing_item)).message ≡ "No such item")
    × ((adapt_api_error (some leaking)).category ≡ upload)
    × ((adapt_api_error (some leaking)).message ≡ default_message)
    × ((adapt_api_error (some invalid_field)).message ≡ "too long")
    × ((adapt_api_error (some invalid_field)).category ≡ validation)
unfolding adapt_api_error unwrap_error_envelope sanitize_user_message normalize_category is_unsafe
    codes is_blank starts_with includes_any_case
errors_run = (refl, refl, refl, refl, refl, refl)

adapt_api_error-IsPresentable_example : IsPresentable (adapt_api_error (some leaking)).message
adapt_api_error-IsPresentable_example = adapt_api_error-IsPresentable (some leaking)
