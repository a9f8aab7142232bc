-- ===== src/ThreadPool/Tally.antt =====
-- How many of the first workers there are of a kind.
use safe_transmission.Common.{
  ℕ, zero, suc, ◌+◌, ◌-◌, ◌≤◌, ◌<◌, ◌≡◌, refl, arith, Bool, true, false, if◌then◌else◌,
}
use native.Mathlib.Decide.{dec_lt}
use safe_transmission.ThreadPool.System.{Worker, awake, runs, ended, update}

abbrev pub is_running : Worker → Bool
is_running (runs t) = true
is_running _ = false

abbrev pub is_alive : Worker → Bool
is_alive ended = false
is_alive _ = true

abbrev pub one_if : Bool → ℕ
one_if true = 1
one_if false = 0

module _ (kind : Worker → Bool) where
  unfoldable pub tally : ℕ → (ℕ → Worker) → ℕ
  tally zero f = 0
  tally (suc n) f = one_if (kind (f n)) + tally n f

  tally-update_above :
      (n : ℕ) (f : ℕ → Worker) (i : ℕ) (w : Worker) → n ≤ i → tally n (update f i w) ≡ tally n f
  unfolding tally
  tally-update_above zero f i w h = refl
  tally-update_above (suc n) f i w h = ground (arith, tally-update_above n f i w)

  pub tally-update :
      (n : ℕ) (f : ℕ → Worker) (i : ℕ) (w : Worker)
      → i < n
      → tally n (update f i w) + one_if (kind (f i)) ≡ tally n f + one_if (kind w)
  unfolding tally
  tally-update zero f i w h = absurd (omega arith)
  tally-update (suc n) f i w h = ground (arith, tally-update n f i w, tally-update_above n f i w)

  -- Workers that are still to come count as awake.
  pub tally-awake :
      (n m : ℕ) (f : ℕ → Worker)
      → n ≤ m
      → ((j : ℕ) → n ≤ j → f j ≡ awake)
      → tally m f ≡ tally n f + (if kind awake then m - n else 0)
  unfolding tally
  tally-awake zero zero f h fresh = ground arith
  tally-awake (suc n) zero f h fresh = absurd (omega arith)
  tally-awake n (suc m) f h fresh = elim (dec_lt n (suc m)) [
    | yes below ↦ ground (arith, tally-awake n m f (omega arith) fresh, fresh m (omega arith))
    | no last ↦ let same : n ≡ suc m = omega arith in rw (← same) (ground arith)
  ]

  pub tally_all_awake : (n : ℕ) → tally n (λ i. awake) ≡ (if kind awake then n else 0)
  unfolding tally
  tally_all_awake zero = ground arith
  tally_all_awake (suc n) = ground (arith, tally_all_awake n)
