-- ===== src/Time.antt =====
-- `now_ms` of comet2/host_server/comet2_spi_run.c and comet2_spi_loader.c. `gettimeofday` gives the
-- seconds and microseconds of the time.
use ice40_ultraplus_examples.Base.{ℕ, ◌+◌, ◌*◌, ◌/◌, ◌%◌, ◌^◌, ◌<◌, ◌≡◌, arith}

unfoldable now_ms : {S : Type 0} → (gettimeofday : S → (ℕ × ℕ) × S) → S → ℕ × S
now_ms gettimeofday s =
    let ((tv_sec, tv_usec), t) = gettimeofday s in ((tv_sec * 1000 + tv_usec / 1000) % 2 ^ 64, t)

-- At a time of less than 2 ^ 54 seconds, with fewer than 1000000 microseconds beside the seconds:
-- `now_ms` is the time in microseconds, divided by 1000.
now_ms-millis :
    {S : Type 0} (gettimeofday : S → (ℕ × ℕ) × S) (s : S)
    → (gettimeofday s).0.0 < 2 ^ 54
    → (gettimeofday s).0.1 < 1000000
    → (now_ms gettimeofday s).0 ≡ ((gettimeofday s).0.0 * 1000000 + (gettimeofday s).0.1) / 1000
unfolding now_ms
now_ms-millis gettimeofday s few split = omega arith
