-- ===== src/Failure/Tests.antt =====
-- A classification by the code in the run's metadata.
use open_tiger.Prelude.{◌≡◌, refl, false, some}
use open_tiger.Json.{Json, text, obj, end, field}
use open_tiger.Failure.Codes.{
  verification_command_missing_script, quota_failure, code_text, classify_failure_by_code,
}
use open_tiger.Failure.Classify.{
  TextFunctions, to_normalized_string, extract_text, extract_failure_code, classify_failure,
}
use open_tiger.Failure.Laws.{
  IsCoherent, classify_failure-IsCoherent, canonical, reason_of, classify_code_text,
}

abbrev plain_text : TextFunctions
plain_text = record { lower = λ s. s; trim = λ s. s; matches = λ p s. false }

abbrev meta : Json
meta = obj (field "failureCode" (text "verification_command_missing_script") end)

by_code_first :
    (classify_failure plain_text (some "timed out") (some meta)).reason
    ≡ verification_command_missing_script
unfolding classify_failure extract_failure_code extract_text to_normalized_string
    classify_failure_by_code code_text
by_code_first = refl

classify_failure-IsCoherent_example :
    IsCoherent (classify_failure plain_text (some "timed out") (some meta))
classify_failure-IsCoherent_example =
    classify_failure-IsCoherent plain_text (some "timed out") (some meta)

classify_code_text_example :
    reason_of (classify_failure_by_code (code_text quota_failure)) ≡ canonical quota_failure
classify_code_text_example = classify_code_text quota_failure
