-- ===== src/TimeOrderUtils.antt =====
-- server/time_order_utils.cpp: the ids of orders, from the clock and a counter.
use stock_app.Common.{ℕ, ◌*◌, ◌+◌, ◌%◌, ◌^◌, ◌≤◌, ◌≢◌, ◌↔◌, arith}
use stock_app.Common.Int.{ℤ, pos, ◌<ℤ◌}
use stock_app.Common.Word.{to_int64}

-- `(millis << 32) | (count & 0xFFFFFFFF)` in 64 bits: the low half of the shifted number is 0. The
-- counter, an int32 that wraps around, is given by the number of ids before.
unfoldable pub generate_id : ℕ → ℕ → ℤ
generate_id millis count = to_int64 (millis * 2 ^ 32 + count % 2 ^ 32)

-- Two ids whose counters differ modulo 2^32 are different, whatever the clock said.
pub generate_id_unique : (t u m n : ℕ) → m % 2 ^ 32 ≢ n % 2 ^ 32 → generate_id t m ≢ generate_id u n
unfolding generate_id to_int64
generate_id_unique t u m n ne e = ground arith

-- An id is negative exactly when bit 31 of the clock is set.
pub generate_id_negative : (t n : ℕ) → (generate_id t n <ℤ pos 0) ↔ (2 ^ 31 ≤ t % 2 ^ 32)
unfolding generate_id to_int64
generate_id_negative t n = ground arith
