-- ===== src/Batch/Tests.antt =====
-- The theorems about batches at concrete inputs.
use rdapify.Base.{◌≡◌, ◌↔◌}
use rdapify.Base.Text.{text}
use rdapify.Types.Error as Error
use rdapify.Batch.{category_of, retryable, not_found, invalid_input, rate_limited}
use rdapify.Batch.Categories.{IsTransient, IsThrottled, IsMissing, IsWrong, category_of_iff}

category_of_iff_example :
    ((category_of (Error.http_status 429 (text "u")) ≡ retryable)
      ↔ IsTransient (Error.http_status 429 (text "u")))
    × ((category_of (Error.http_status 429 (text "u")) ≡ rate_limited)
        ↔ IsThrottled (Error.http_status 429 (text "u")))
    × ((category_of (Error.http_status 429 (text "u")) ≡ not_found)
        ↔ IsMissing (Error.http_status 429 (text "u")))
    × ((category_of (Error.http_status 429 (text "u")) ≡ invalid_input)
        ↔ IsWrong (Error.http_status 429 (text "u")))
category_of_iff_example = category_of_iff (Error.http_status 429 (text "u"))
