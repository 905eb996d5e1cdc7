-- ===== src/Projects/ErrorCode.antt =====
-- `_error_code` of apps/api/app/projects/worker.py: the code that a failed build is given.
use poc_la_graph.Base.{
  String, Bool, true, false, ◌&&◌, ◌||◌, List, [], ◌∷◌, ◌==◌, any, if◌then◌else◌,
}
use Prim.Native.Char.{code}

-- An exception as `_error_code` reads it: its text, and whether it is a `ValueError`.
pub record Failure : Type 0 where
  pub message : String
  pub is_value_error : Bool

-- `text.startswith(prefix)`
unfoldable pub starts_with : String → String → Bool
starts_with String.[] text = true
starts_with (String.◌∷◌ c prefix) String.[] = false
starts_with (String.◌∷◌ c prefix) (String.◌∷◌ d text) = code c == code d && starts_with prefix text

-- `part in text`
unfoldable pub has_part : String → String → Bool
unfolding starts_with
has_part part String.[] = starts_with part String.[]
has_part part (String.◌∷◌ c text) = starts_with part (String.◌∷◌ c text) || has_part part text

abbrev same_text : String → String → Bool
same_text a b = starts_with a b && starts_with b a

-- `_PASSTHROUGH_ERROR_CODES`
abbrev passthrough_error_codes : List String
passthrough_error_codes =
    "graphify_build_timeout" ∷ "graphify_build_failed" ∷ "graphify_provider_authentication_failed"
    ∷ "graphify_provider_credential_missing" ∷ "graphify_provider_quota_or_rate_limit"
    ∷ "graphify_provider_model_or_endpoint_not_found" ∷ "graphify_provider_base_url_invalid"
    ∷ "graphify_provider_timeout" ∷ "graphify_provider_connection_failed" ∷ "graph_artifact_missing"
    ∷ "graph_artifact_invalid" ∷ "source_index_build_failed" ∷ []

unfoldable pub error_code : Failure → String
unfolding starts_with has_part
error_code failure =
    let message = failure.message in
    if any (same_text message) passthrough_error_codes || starts_with "graphify_" message
    then message
    else if has_part "limit" message
    then "limit_exceeded"
    else if has_part "source" message || has_part "document" message || failure.is_value_error
    then "source_invalid"
    else "build_failed"
