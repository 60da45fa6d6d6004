-- ===== src/RateLimit/Quota.antt =====
-- How many questions a user gets through.
use code_naut.Prelude.{
  ℕ, zero, suc, ◌+◌, ◌-◌, ◌≤◌, ◌<◌, String, Bool, true, false, ◌≡◌, refl, ◌∙◌, Option, some, arith,
  ltb, str_eq, if◌then◌else◌,
}
use code_naut.Prelude.Table.{if_rule}
use code_naut.RateLimit.Limiter.{
  RateLimitDecision, QuotaSettings, minute_key, day_key, check_redis, check_question,
}

abbrev pub one_if : Bool → ℕ
one_if b = if b then 1 else 0

-- Redis within one window, while it answers: the transaction counts its key and no other.
pub record CountsKeys {R : Type 0} (pipeline : R → String → ℕ → Option ℕ × R)
    (count : R → String → ℕ) : Type 0 where
  pub after : (redis : R) (key : String) (window : ℕ) → R
  pub answers :
      (redis : R) (key : String) (window : ℕ)
      → pipeline redis key window ≡ (some (suc (count redis key)), after redis key window)
  pub counted :
      (redis : R) (key : String) (window : ℕ)
      → count (after redis key window) key ≡ suc (count redis key)
  pub others :
      (redis : R) (key other : String) (window : ℕ)
      → str_eq other key ≡ false
      → count (after redis key window) other ≡ count redis other

module _ {R : Type 0} (pipeline : R → String → ℕ → Option ℕ × R) (s : QuotaSettings)
    (user_id : String) where
  -- Questions of the user that are let through, of the next `n`.
  abbrev pub let_through : ℕ → R → ℕ
  let_through zero redis = 0
  let_through (suc n) redis =
      let r = check_question pipeline s user_id redis in one_if r.0.allowed + let_through n r.1

module _ {R : Type 0} (pipeline : R → String → ℕ → Option ℕ × R) (count : R → String → ℕ)
    (redis_law : CountsKeys pipeline count) (s : QuotaSettings) (user_id : String)
    (keys_differ : str_eq (minute_key user_id) (day_key user_id) ≡ false)
    (keys_differ_back : str_eq (day_key user_id) (minute_key user_id) ≡ false) where
  abbrev asked : R → ℕ
  asked redis = count redis (minute_key user_id)

  -- One question is counted, and let through only below the limit.
  abbrev Counts : R → RateLimitDecision × R → Type 0
  Counts redis r =
      (asked r.1 ≡ suc (asked redis))
      × (one_if r.0.allowed ≤ one_if (ltb (asked redis) s.per_minute))

  check-Counts :
      (redis : R) → s.enabled ≡ true → Counts redis (check_question pipeline s user_id redis)
  unfolding check_question check_redis
  check-Counts redis on =
      let here = redis_law.after redis (minute_key user_id) 60 in
      let one = redis_law.counted redis (minute_key user_id) 60 in
      rw (on, redis_law.answers redis (minute_key user_id) 60)
        (if_rule (Counts redis) (ltb s.per_minute (suc (asked redis))) _ _ (λ _. (one, omega arith))
          (λ below. rw (redis_law.answers here (day_key user_id) 86400) (
            let kept =
              redis_law.others here (day_key user_id) (minute_key user_id) 86400 keys_differ
              ∙ one in
            if_rule (Counts redis) (ltb s.per_day (suc (count here (day_key user_id)))) _ _
              (λ _. (kept, omega arith)) (λ _. (kept, ground arith)))))

  -- With quotas on, a Redis that answers and keeps its counters, and different keys for the minute and
  -- the day, however many questions the user asks in a row, no more are let through than the limit of a
  -- minute leaves.
  pub let_through-le :
      (n : ℕ) (redis : R)
      → s.enabled ≡ true
      → let_through pipeline s user_id n redis ≤ s.per_minute - count redis (minute_key user_id)
  let_through-le zero redis on = omega arith
  let_through-le (suc n) redis on =
      let r = check_question pipeline s user_id redis in
      let step = check-Counts redis on in
      let rest = let_through-le n r.1 on in ground (arith, step.0, step.1, rest)

  -- With quotas on, a Redis that answers and keeps its counters, and different keys for the minute and
  -- the day, a user with fewer counted questions in the minute and in the day than the limits is let
  -- through.
  pub below-allowed :
      (redis : R)
      → s.enabled ≡ true
      → count redis (minute_key user_id) < s.per_minute
      → count redis (day_key user_id) < s.per_day
      → (check_question pipeline s user_id redis).0.allowed ≡ true
  unfolding check_question check_redis
  below-allowed redis on minute day =
      let here = redis_law.after redis (minute_key user_id) 60 in
      let kept =
        redis_law.others redis (minute_key user_id) (day_key user_id) 60 keys_differ_back in
      let in_minute : ltb s.per_minute (suc (count redis (minute_key user_id))) ≡ false =
        ground arith in
      let in_day : ltb s.per_day (suc (count here (day_key user_id))) ≡ false =
        ground (arith, kept) in
      rw
        (
          on,
          redis_law.answers redis (minute_key user_id) 60,
          in_minute,
          redis_law.answers here (day_key user_id) 86400,
          in_day,
        )
        refl
