-- ===== src/Retry.antt =====
-- graph/retry.rs: the backoff of a delivery retry, before its jitter.
use ffhn.Base.{
  ℕ, zero, suc, ◌-◌, ◌*◌, ◌^◌, ◌<◌, ◌≤◌, ◌≡◌, min, ltb, if◌then◌else◌, arith, Bool-cases, inl, inr,
}
use native.Mathlib.Nat.{pow-le-pow_right}
use ffhn.Delivery.Record.{DeliveryPolicy}

-- `1_u128.checked_shl(shifts).unwrap_or(u128::MAX)`.
abbrev pub multiplier : ℕ → ℕ
multiplier shifts = if ltb shifts 128 then 2 ^ shifts else 2 ^ 128 - 1

-- `u128::saturating_mul` and `u64::try_from(..).unwrap_or(u64::MAX)`.
abbrev pub saturating_mul : ℕ → ℕ → ℕ
saturating_mul a b = min (a * b) (2 ^ 128 - 1)

abbrev pub saturate_u64 : ℕ → ℕ
saturate_u64 n = if ltb n (2 ^ 64) then n else 2 ^ 64 - 1

unfoldable pub capped_delay : DeliveryPolicy → ℕ → ℕ
capped_delay policy attempt =
    let expanded : ℕ = saturating_mul policy.base_backoff_ms (multiplier (attempt - 1)) in
    min (saturate_u64 expanded) policy.max_backoff_ms

cut : (x m : ℕ) → m < 2 ^ 64 → min (saturate_u64 (min x (2 ^ 128 - 1))) m ≡ min x m
cut x m h = ground arith

cut_large :
    (x y m : ℕ)
    → m < 2 ^ 64
    → 2 ^ 64 ≤ x
    → 2 ^ 64 ≤ y
    → min (saturate_u64 (min x (2 ^ 128 - 1))) m ≡ min y m
cut_large x y m h i j = ground arith

times_positive : (b n : ℕ) → 0 < b → n ≤ b * n
times_positive zero n h = ground arith
times_positive (suc b) n h = ground arith

-- The delay of an attempt is the base delay doubled for each earlier attempt and cut at the maximum:
-- under a policy whose base is positive and whose maximum is below `2 ^ 64`, the saturations on the
-- way to it change nothing.
pub capped_delay-doubling :
    (policy : DeliveryPolicy) (attempt : ℕ)
    → 0 < policy.base_backoff_ms
    → policy.max_backoff_ms < 2 ^ 64
    → capped_delay policy attempt
      ≡ min (policy.base_backoff_ms * 2 ^ (attempt - 1)) policy.max_backoff_ms
unfolding capped_delay
capped_delay-doubling policy attempt p r = elim (Bool-cases (ltb (attempt - 1) 128)) [
  | inl t ↦ rw t (cut _ policy.max_backoff_ms r)
  | inr f ↦
      let power : 2 ^ 64 ≤ 2 ^ (attempt - 1) =
        pow-le-pow_right (omega arith) {i = 64} (ground arith) in
      rw f (
        cut_large _ _ policy.max_backoff_ms r (omega arith)
          (omega (arith, times_positive policy.base_backoff_ms (2 ^ (attempt - 1)) p)))
]
