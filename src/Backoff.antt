-- ===== src/Backoff.antt =====
-- requeueBackoffMs of lib/claimLeaseManager.ts: how long a task waits after its attempts have failed.
use native.Mathlib.Nat.{pow-suc}
use orc_state.Base.{ℕ, zero, suc, ◌*◌, ◌^◌, ◌≤◌, ◌≡◌, refl, arith, min}

-- No attempt halves the base, as `Math.pow(2, -1)` does.
unfoldable pub requeue_backoff_ms : ℕ → ℕ
requeue_backoff_ms zero = 15000
requeue_backoff_ms (suc n) = min (30000 * 2 ^ n) 600000

-- Each further attempt doubles the wait up to ten minutes, so the wait never shrinks.
requeue_backoff_ms_double :
    (n : ℕ)
    → (requeue_backoff_ms (suc n) ≡ min (2 * requeue_backoff_ms n) 600000)
      × (requeue_backoff_ms n ≤ requeue_backoff_ms (suc n))
      × (requeue_backoff_ms n ≤ 600000)
unfolding requeue_backoff_ms
requeue_backoff_ms_double zero = (refl, ground arith, ground arith)
requeue_backoff_ms_double (suc n) =
    (omega (arith, pow-suc 2 n), omega (arith, pow-suc 2 n), omega arith)
