-- ===== src/Store/Tests.antt =====
-- The limit of a listing and the redaction at concrete values.
use agent_commerce.Store.Redact.{redact}
use agent_commerce.Store.Redact.Clean.{IsClean, redact-IsClean}
use agent_commerce.Json.{Json, end, field, object, string}

abbrev secret : Json
secret = object (field "apiKey" (string "s") (field "city" (string "Oslo") end))

redact-IsClean_example : IsClean (redact secret)
redact-IsClean_example = redact-IsClean secret
