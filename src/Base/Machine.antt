-- ===== src/Base/Machine.antt =====
-- Machine integers that are kept as naturals below their bound.
use Prim.Native.Nat.{ℕ, ◌+◌, ◌^◌}
use mathlib.Core.Option.{Option, none, some}
use ffhn.Base.Tests.{ltb, if◌then◌else◌}

-- `u32::try_from`.
abbrev pub try_u32 : ℕ → Option ℕ
try_u32 n = if ltb n (2 ^ 32) then some n else none

-- `u32::checked_add(1)`.
abbrev pub next_u32 : ℕ → Option ℕ
next_u32 n = try_u32 (n + 1)
