-- ===== src/RateLimit/Limiter.antt =====
-- The limiters of backend/app/services/rate_limit.py. Redis is the argument `pipeline`: INCR of a key
-- with EXPIRE … NX of a window in one transaction, which gives the new count or, on a RedisError or
-- OSError, none, and the store after it. A user id is its text.
use Prim.Native.String.{◌++◌ as append}
use code_naut.Prelude.{ℕ, String, Bool, true, false, Option, none, some, ltb, if◌then◌else◌}

pub record RateLimitDecision : Type 0 where
  pub allowed : Bool
  pub retry_after_seconds : ℕ
  pub scope : String

pub record QuotaSettings : Type 0 where
  pub enabled : Bool
  pub per_minute : ℕ
  pub per_day : ℕ

abbrev pub minute_key : String → String
minute_key user_id = append "codenaut:rl:q:m:" user_id

abbrev pub day_key : String → String
day_key user_id = append "codenaut:rl:q:d:" user_id

abbrev pub granted : String → RateLimitDecision
granted scope = record { allowed = true; retry_after_seconds = 0; scope = scope }

abbrev pub denied : ℕ → String → RateLimitDecision
denied seconds scope = record { allowed = false; retry_after_seconds = seconds; scope = scope }

module _ {R : Type 0} (pipeline : R → String → ℕ → Option ℕ × R) where
  -- An exception of Redis fails open.
  abbrev pub or_unavailable : Option ℕ × R → (ℕ → R → RateLimitDecision × R) → RateLimitDecision × R
  or_unavailable (none, redis) k = (granted "unavailable", redis)
  or_unavailable (some n, redis) k = k n redis

  abbrev pub check_day : QuotaSettings → String → R → RateLimitDecision × R
  check_day s user_id redis = or_unavailable (pipeline redis (day_key user_id) 86400) (λ day after.
      if ltb s.per_day day then (denied 86400 "day", after) else (granted "allowed", after))

  unfoldable pub check_redis : QuotaSettings → String → R → RateLimitDecision × R
  check_redis s user_id redis =
      or_unavailable (pipeline redis (minute_key user_id) 60) (λ minute after.
        let day = check_day s user_id after in
        if ltb s.per_minute minute then (denied 60 "minute", after) else day)

  -- create_rate_limiter, and the question asked of the limiter that it builds.
  unfoldable pub check_question : QuotaSettings → String → R → RateLimitDecision × R
  check_question s user_id redis =
      if s.enabled then check_redis s user_id redis else (granted "disabled", redis)
