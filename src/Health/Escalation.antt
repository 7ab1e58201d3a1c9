-- ===== src/Health/Escalation.antt =====
-- Escalation over one episode: a run of failures with the same reason, from the healthy state.
use ffhn.Base.{
  ℕ, suc, ◌+◌, ◌≡◌, ◌<◌, refl, ap, ◌∙◌, Bool, true, false, ◌&&◌, some, option_eq, same_option_iff,
  ltb, leb, ◌==◌, arith, ◌^◌, List, [], ◌∷◌, length, All,
}
use ffhn.Base.Errors.{Text, CoreResult, ok, ◌>>=◌, refuse_if, then_ok, contract, CoreError}
use Prim.Native.String.{String}
use ffhn.Stamps.{TimeLib}
use ffhn.Health.{
  suspect, ExtractionFailureReason, reason_eq, MeasurementExtractionHealth, healthy_extraction,
  validate_extraction, continue_extraction, observe_extraction, require_timestamp,
}

abbrev pub bit : Bool → ℕ
bit true = 1
bit false = 0

-- The episode after `count` failures, the first of them at `first`.
abbrev pub episode : ExtractionFailureReason → ℕ → Text → MeasurementExtractionHealth
episode r count first = record {
  state = suspect;
  reason = some r;
  consecutive_unresolved = count;
  first_unresolved_at_utc = some first;
}

positive : {k : ℕ} (e : CoreError) → 0 < k → refuse_if (k == 0) e ≡ ok tt
positive e p = ground arith

counted :
    (r : ExtractionFailureReason) (now first : Text) (count : ℕ)
    → count + 1 < 2 ^ 32
    → continue_extraction (episode r count first) r now ≡ ok (episode r (count + 1) first)
unfolding continue_extraction
counted r now first count b = ground (arith, same_option_iff (some r) (some r))

module _ (time : TimeLib) where
  abbrev pub IsStamp : Text → Type 0
  IsStamp t = (field : String) → require_timestamp time field t ≡ ok tt

  -- Failures observed one after another: the last episode, and how many of them escalated.
  abbrev pub observe_each :
      ExtractionFailureReason
      → ℕ
      → MeasurementExtractionHealth
      → List Text
      → CoreResult (MeasurementExtractionHealth × ℕ)
  observe_each r k h [] = ok (h, 0)
  observe_each r k h (now ∷ times) = do
    this ← observe_extraction time h r now k
    rest ← observe_each r k this.0 times
    ok (rest.0, bit this.1 + rest.1)

  first_failure :
      (r : ExtractionFailureReason) (k : ℕ) (now : Text)
      → 0 < k
      → IsStamp now
      → observe_extraction time healthy_extraction r now k ≡ ok (episode r 1 now, 1 == k)
  unfolding observe_extraction continue_extraction validate_extraction
  first_failure r k now p s = then_ok _ (s "measurement extraction-health time") (
      then_ok _ (positive (contract "measurement escalate_after must be positive") p)
        (then_ok _ (s "measurement extraction-health first time") refl))

  stamped :
      (r : ExtractionFailureReason) (count : ℕ) (first : Text)
      → IsStamp first
      → 0 < count
      → validate_extraction time (episode r count first) ≡ ok tt
  unfolding validate_extraction
  stamped r count first f c = ground (arith, f "measurement extraction-health first time")

  next_failure :
      (r : ExtractionFailureReason) (k count : ℕ) (first now : Text)
      → 0 < k
      → 0 < count
      → count + 1 < 2 ^ 32
      → IsStamp first
      → IsStamp now
      → observe_extraction time (episode r count first) r now k
        ≡ ok (episode r (count + 1) first, count + 1 == k)
  unfolding observe_extraction
  next_failure r k count first now p c b f s = then_ok _ (s "measurement extraction-health time") (
      then_ok _ (positive (contract "measurement escalate_after must be positive") p) (
        then_ok _ (counted r now first count b)
          (then_ok _ (stamped r (count + 1) first f (omega arith)) refl)))

  -- Whether the run of failures `count + 1` to `count + n` reaches `k`.
  abbrev pub reaches : ℕ → ℕ → ℕ → ℕ
  reaches k count n = bit (ltb count k && leb k (count + n))

  step :
      (r : ExtractionFailureReason) (k count n : ℕ) (first : Text)
      → ◌≡◌ {A = CoreResult (MeasurementExtractionHealth × ℕ)}
          (ok (episode r (count + 1 + n) first, bit (count + 1 == k) + reaches k (count + 1) n))
          (ok (episode r (count + suc n) first, reaches k count (suc n)))
  step r k count n first =
      ap (λ m. ok (episode r m first, bit (count + 1 == k) + reaches k (count + 1) n)) (omega arith)
      ∙ ap (λ m. ok (episode r (count + suc n) first, m)) (ground arith)

  once : (k n : ℕ) → 0 < k → bit (1 == k) + reaches k 1 n ≡ bit (leb k (1 + n))
  once k n p = ground arith

  pub continue_run :
      (r : ExtractionFailureReason) (k count : ℕ) (first : Text) (times : List Text)
      → 0 < k
      → 0 < count
      → IsStamp first
      → All IsStamp times
      → count + length times < 2 ^ 32
      → observe_each r k (episode r count first) times
        ≡ ok (episode r (count + length times) first, reaches k count (length times))
  continue_run r k count first [] p c f all b =
      ap (λ n. ok (episode r n first, 0)) (omega arith)
      ∙ ap (λ n. ok (episode r (count + 0) first, n)) (ground arith)
  continue_run r k count first (now ∷ times) p c f all b =
      then_ok _ (next_failure r k count first now p c (omega arith) f (all.0)) (
        then_ok _ (continue_run r k (count + 1) first times p (omega arith) f (all.1) (omega arith))
          (step r k count (length times) first))

  -- `k` failures in a row with one reason escalate once, at the `k`-th: from the healthy state, with
  -- valid time stamps and fewer than `2 ^ 32` failures, every observation returns, the episode counts
  -- all of them from the first, and one of them escalates if there are at least `k`, else none.
  pub observe_each-healthy :
      (r : ExtractionFailureReason) (k : ℕ) (first : Text) (times : List Text)
      → 0 < k
      → IsStamp first
      → All IsStamp times
      → 1 + length times < 2 ^ 32
      → observe_each r k healthy_extraction (first ∷ times)
        ≡ ok (episode r (1 + length times) first, bit (leb k (1 + length times)))
  observe_each-healthy r k first times p f all b = then_ok _ (first_failure r k first p f) (
      then_ok _ (continue_run r k 1 first times p (omega arith) f all b)
        (ap (λ n. ok (episode r (1 + length times) first, n)) (once k (length times) p)))
