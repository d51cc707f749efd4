-- ===== src/Api/Faults.antt =====
-- The wording of the errors of the generated binder in internal/api/contract/contract.gen.go, and what
-- they wrap. `cause` is the wording of the wrapped error.
use currency_quotes_service.Prelude.{Bool, true, false, ◌++◌, Text, codes}
use currency_quotes_service.Worker.Reasons.{format_int}
use currency_quotes_service.Api.{
  ParamError, unescaped_cookie_param, unmarshaling_param, required_param, required_header,
  invalid_param_format, too_many_values,
}

-- The methods `Error`.
unfoldable pub param_error_text : Text → ParamError → Text
param_error_text cause (unescaped_cookie_param name) =
    codes "error unescaping cookie parameter '" ++ name ++ codes "'"
param_error_text cause (unmarshaling_param name) =
    codes "Error unmarshaling parameter " ++ name ++ codes " as JSON: " ++ cause
param_error_text cause (required_param name) =
    codes "Query argument " ++ name ++ codes " is required, but not found"
param_error_text cause (required_header name) =
    codes "Header parameter " ++ name ++ codes " is required, but not found"
param_error_text cause (invalid_param_format name) =
    codes "Invalid format for parameter " ++ name ++ codes ": " ++ cause
param_error_text cause (too_many_values name count) =
    codes "Expected one value for " ++ name ++ codes ", got " ++ format_int count

-- Which of them have a method `Unwrap`.
unfoldable pub unwraps : ParamError → Bool
unwraps (unescaped_cookie_param name) = true
unwraps (unmarshaling_param name) = true
unwraps (required_param name) = false
unwraps (required_header name) = true
unwraps (invalid_param_format name) = true
unwraps (too_many_values name count) = false
