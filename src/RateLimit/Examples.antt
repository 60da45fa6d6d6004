-- ===== src/RateLimit/Examples.antt =====
-- The quota at a concrete Redis whose counters are a function, and runs of the limiter.
use text.Mathlib.TextPositions.{eq_refl}
use code_naut.Prelude.{
  ℕ, suc, arith, ◌-◌, ◌≤◌, String, true, ◌≡◌, refl, Option, some, str_eq, if◌then◌else◌,
}
use code_naut.RateLimit.Limiter.{QuotaSettings, check_redis, check_question}
use code_naut.RateLimit.Quota.{CountsKeys, let_through, let_through-le, below-allowed}

abbrev Counters : Type 0
Counters = String → ℕ

abbrev counted_up : Counters → String → Counters
counted_up redis key other = if str_eq other key then suc (redis key) else redis other

abbrev pipeline : Counters → String → ℕ → Option ℕ × Counters
pipeline redis key window = (some (suc (redis key)), counted_up redis key)

abbrev settings : QuotaSettings
settings = record { enabled = true; per_minute = 2; per_day = 10 }

abbrev empty : Counters
empty _ = 0

pipeline-CountsKeys : CountsKeys pipeline (λ redis key. redis key)
pipeline-CountsKeys = record {
  after = λ redis key window. counted_up redis key;
  answers = λ redis key window. refl;
  counted = λ redis key window. rw (eq_refl key) refl;
  others = λ redis key other window e. rw e refl;
}

three_questions : let_through pipeline settings "u" 3 empty ≡ 2
unfolding check_question check_redis
three_questions = refl

let_through-le_example : let_through pipeline settings "u" 3 empty ≤ 2 - 0
let_through-le_example =
    let_through-le pipeline (λ redis key. redis key) pipeline-CountsKeys settings "u" refl refl 3
      empty refl

below-allowed_example : (check_question pipeline settings "u" empty).0.allowed ≡ true
below-allowed_example =
    below-allowed pipeline (λ redis key. redis key) pipeline-CountsKeys settings "u" refl refl empty
      refl (omega arith) (omega arith)
