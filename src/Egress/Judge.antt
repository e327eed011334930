-- ===== src/Egress/Judge.antt =====
-- src/egress/judge.rs: the circuit breaker, and the judge's decision on one request.
pub mod Breaker
pub mod Endpoint
pub mod Outcome
pub mod Decide
pub mod Post
mod Tests
use zeptocapsule.Common.{ℕ, ◌++◌}
use zeptocapsule.Common.Result.{Result}
use zeptocapsule.Text.{Str, codes, decimal}
use zeptocapsule.Egress.Types.{EgressAction}

-- An I/O error is its text.
pub data JudgeError : Type 0 where
  missing_api_key invalid_endpoint io tls malformed_response schema : Str → JudgeError
  upstream_status : ℕ → JudgeError
  timeout : JudgeError

-- The text of an error.
unfoldable pub display : JudgeError → Str
unfolding decimal
display (missing_api_key v) = codes "api key env var '" ++ v ++ codes "' not set"
display (invalid_endpoint e) = codes "invalid endpoint: " ++ e
display (io e) = codes "io: " ++ e
display (tls e) = codes "tls: " ++ e
display (upstream_status n) = codes "upstream returned status " ++ decimal n
display (malformed_response e) = codes "malformed response: " ++ e
display (schema e) = codes "schema violation: " ++ e
display timeout = codes "timeout"

pub record JudgeOutcome : Type 0 where
  pub decision : EgressAction
  pub reason : Str

abbrev pub Judged : Type 0 → Type 0
Judged A = Result JudgeError A
