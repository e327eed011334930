-- ===== src/Egress/Judge/Tests.antt =====
-- The judge at small inputs. JSON is a stand-in: an object is its text, and holds its own text.
use zeptocapsule.Common.{
  ◌*◌, map, ℕ, suc, ap, ◌+◌, ◌≤◌, ◌<◌, ◌≡◌, refl, true, false, none, some, List, [], ◌∷◌, ◌++◌, ◌↔◌,
  length, arith,
}
use zeptocapsule.Text.{Str, codes, str_eq, find, rfind, split_once, parse_uint, split}
use zeptocapsule.Egress.Types.{allow, deny, get, JudgeConfig}
use zeptocapsule.Common.Result.{ok, err}
use zeptocapsule.Egress.Judge.{invalid_endpoint}
use zeptocapsule.Text.Utf8.{Bytes, from_utf8}
use zeptocapsule.Egress.Judge.Post.{
  do_post, concat, IsBody, do_post_iff, parse_response, read_all, status_of,
}
use zeptocapsule.Egress.Judge.Breaker.{
  CircuitBreaker, new, allow_call, record_failure, breaker_failure_threshold, breaker_open_duration,
}
use zeptocapsule.Egress.Judge.Breaker.Concurrent.{
  System, start, Reach, here, next, admit, fail, refused_call,
}
use zeptocapsule.Egress.Judge.Endpoint.{parse_endpoint, url, parse_endpoint-url}
use zeptocapsule.Egress.Judge.Outcome.{
  SerdeJson, value, parse_judge_outcome, content_of, text_at, decision_of, parsed,
}
use zeptocapsule.Egress.Judge.Decide.{
  JudgeRequest, Outside, Timing, Answered, decide, call_upstream, decide_fails_closed,
}
use zeptocapsule.Text.Words.{split_whitespace}

-- five failures at one instant
abbrev five : List ℕ
five = 1 ∷ 1 ∷ 1 ∷ 1 ∷ []

abbrev open_breaker : CircuitBreaker
open_breaker = record { consecutive_failures = 5; open_until = some 100 }

ftp : parse_endpoint (codes "ftp://x") ≡ err (invalid_endpoint (codes "scheme ftp"))
unfolding parse_endpoint split_once str_eq
ftp = refl

default_port :
    parse_endpoint (codes "https://api.openai.com/v1/chat")
    ≡ ok (record {
      host = codes "api.openai.com";
      port = 443;
      path = codes "/v1/chat";
      https = true;
    })
unfolding parse_endpoint split_once str_eq find rfind
default_port = refl

parse_endpoint-url_example :
    parse_endpoint (url false (codes "localhost") 9000 (codes "v1"))
    ≡ ok (record { host = codes "localhost"; port = 9000; path = codes "/v1"; https = false })
parse_endpoint-url_example =
    parse_endpoint-url false (codes "localhost") 9000 (codes "v1") (omega arith) (omega arith)

-- every text is JSON; the value at a key is the value itself
abbrev plain : SerdeJson Str
plain = record { from_str = value; get = λ key v. some v; get_index = λ i v. some v; as_str = some }

abbrev out : Outside Str
out = record { json = plain; exchange = λ config url req. ok (codes "allow") }

abbrev config : JudgeConfig
config = record {
  endpoint = codes "http://localhost:9000/v1";
  model = codes "local";
  api_key_env = codes "ZK_JUDGE_KEY";
  policy_text = codes "deny PII";
  timeout = 30;
  fallback_on_unavailable = deny;
}

abbrev request : JudgeRequest
request = record { method = get; host = codes "x.com"; path = codes "/"; body_excerpt = none }

abbrev timing : Timing
timing = record { asked = 0; ended = 1; meanwhile = λ b. b }

answer :
    parse_judge_outcome plain (codes "allow")
    ≡ ok (record { decision = allow; reason = codes "allow" })
unfolding parse_judge_outcome parsed decision_of str_eq content_of text_at
answer = refl

decide_allows : (decide out config request timing new).1.decision ≡ allow
unfolding decide allow_call call_upstream parse_endpoint split_once find rfind parse_uint
    parse_judge_outcome parsed decision_of str_eq content_of text_at
decide_allows = refl

decide_fails_closed_example :
    ((allow_call 0 new).1 ≡ true)
    × Answered out config request (codes "allow")
    × ((decide out config request timing new).1.decision ≡ allow)
decide_fails_closed_example =
    decide_fails_closed out config request timing new refl (λ e. cc (e, decide_allows))

-- one call that is admitted and fails at once
abbrev after_admit : System → System
after_admit s = record s { breaker = (allow_call s.clock s.breaker).0; in_flight = suc s.in_flight }

abbrev after_fail : System → System
after_fail s = record s {
  breaker = record_failure s.clock s.breaker;
  in_flight = 0;
  failures = suc s.failures;
  last_failure = s.clock;
}

abbrev round : System → System
round s = after_fail (after_admit s)

round-Reach :
    (s : System)
    → Reach (start 0) s
    → (allow_call s.clock s.breaker).1 ≡ true
    → s.breaker.open_until ≡ none
    → s.in_flight ≡ 0
    → Reach (start 0) (round s)
round-Reach s r a o z = next (next r (admit s a o)) (fail (after_admit s) 0 (ap suc z))

abbrev tripped : System
tripped = round (round (round (round (round (start 0)))))

tripped-Reach : Reach (start 0) tripped
unfolding allow_call record_failure
tripped-Reach =
    round-Reach _
      (round-Reach _
        (round-Reach _ (round-Reach _ (round-Reach (start 0) here refl refl refl) refl refl refl)
          refl refl refl)
        refl refl refl)
      refl refl refl

tripped_refuses : (allow_call tripped.clock tripped.breaker).1 ≡ false
unfolding allow_call record_failure
tripped_refuses = refl

refused_call_example :
    (breaker_failure_threshold ≤ tripped.failures)
    × (tripped.last_failure ≤ tripped.clock)
    × (tripped.clock < tripped.last_failure + breaker_open_duration)
refused_call_example = refused_call 0 tripped tripped-Reach tripped_refuses

abbrev chunks : List Bytes
chunks = codes "HTTP/1.1 200 OK\r\nServer: x\r\n\r" ∷ codes "\n{}" ∷ []

-- the end of the head is cut in two
do_post_iff_example :
    (do_post (ok tt ∷ ok tt ∷ ok tt ∷ []) (map (λ (c : Bytes). ok c) chunks ++ ok [] ∷ [])
      ≡ some (ok (codes "{}")))
    ↔ ((length (concat chunks) ≤ 64 * 1024) × IsBody (concat chunks) (codes "{}"))
do_post_iff_example = do_post_iff chunks [] (codes "{}") (refl, (refl, tt))

answered :
    do_post (ok tt ∷ ok tt ∷ ok tt ∷ []) (map (λ (c : Bytes). ok c) chunks ++ ok [] ∷ [])
    ≡ some (ok (codes "{}"))
unfolding do_post read_all parse_response split_once from_utf8 status_of split_whitespace split
    parse_uint
answered = refl
