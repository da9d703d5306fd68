-- ===== src/Elasticsearch/Backoff.antt =====
-- The waits between retries: _retryFn of packages/elasticsearch-api/index.js, with its default start and
-- limit. `random span` is the whole number below `span` that Math.random gives.
use teraslice.Base.{ℕ, zero, suc, ◌+◌, ◌-◌, ◌*◌, ◌≤◌, ◌<◌, ◌≡◌, arith, ltb, if◌then◌else◌}

pub record Timer : Type 0 where
  pub start : ℕ
  pub limit : ℕ

abbrev pub retry_start : ℕ
retry_start = 5_000

abbrev pub retry_limit : ℕ
retry_limit = 10_000

unfoldable pub new_timer : Timer
new_timer = record { start = retry_start; limit = retry_limit }

-- The wait of one retry, in milliseconds, and the timer of the next.
unfoldable pub retry_fn : (ℕ → ℕ) → Timer → ℕ × Timer
retry_fn random t = (
  random (t.limit - t.start) + t.start,
  record {
    limit = if ltb t.limit 60_000 then t.limit + retry_limit else t.limit;
    start = if ltb t.start 30_000 then t.start + retry_start else t.start;
  },
)

-- The wait of the retry after `n` others.
unfoldable pub wait_after : (ℕ → ℕ) → ℕ → Timer → ℕ
unfolding retry_fn
wait_after random zero t = (retry_fn random t).0
wait_after random (suc n) t = wait_after random n (retry_fn random t).1

-- The start is a multiple of 5 seconds and the limit twice as much.
Paced : ℕ → Timer → Type 0
Paced k t = (k ≤ 6) × (1 ≤ k) × (t.start ≡ 5_000 * k) × (t.limit ≡ 10_000 * k)

abbrev next_pace : ℕ → ℕ
next_pace k = if ltb k 6 then k + 1 else k

retry_fn-Paced :
    (random : ℕ → ℕ) (k : ℕ) (t : Timer) → Paced k t → Paced (next_pace k) (retry_fn random t).1
unfolding retry_fn Paced
retry_fn-Paced random k t p = ground arith

wait_after-Paced :
    (random : ℕ → ℕ) (n k : ℕ) (t : Timer)
    → ((span : ℕ) → 0 < span → random span < span)
    → Paced k t
    → (5_000 ≤ wait_after random n t) × (wait_after random n t < 60_000)
unfolding wait_after retry_fn Paced
wait_after-Paced random zero k t r p = ground (arith, r (t.limit - t.start))
wait_after-Paced random (suc n) k t r p =
    wait_after-Paced random n (next_pace k) (retry_fn random t).1 r (retry_fn-Paced random k t p)

-- Every retry waits at least five seconds and less than a minute, however many came before it.
pub wait_after_bounds :
    (random : ℕ → ℕ) (n : ℕ)
    → ((span : ℕ) → 0 < span → random span < span)
    → (5_000 ≤ wait_after random n new_timer) × (wait_after random n new_timer < 60_000)
unfolding new_timer Paced
wait_after_bounds random n r = wait_after-Paced random n 1 new_timer r (omega arith)
