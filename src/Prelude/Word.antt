-- ===== src/Prelude/Word.antt =====
-- `u64` and `u8` arithmetic of Rust. The plain operators wrap, as a release build compiles them.
use Prim.Native.Nat.{ℕ, ◌+◌, ◌*◌, ◌%◌, ◌-◌}
use mathlib.Core.Option.{Option, none, some}
use aether_sedc.Prelude.Tests.{ltb, if◌then◌else◌}

-- 2 ^ 64
abbrev pub u64_mod : ℕ
u64_mod = 18446744073709551616

-- `a.checked_add(b)`
abbrev pub checked_add : ℕ → ℕ → Option ℕ
checked_add a b = if ltb (a + b) u64_mod then some (a + b) else none

-- `a.checked_sub(b)`
abbrev pub checked_sub : ℕ → ℕ → Option ℕ
checked_sub a b = if ltb a b then none else some (a - b)

-- `a + b` on `u64`
abbrev pub add64 : ℕ → ℕ → ℕ
add64 a b = (a + b) % u64_mod

-- `a * b` on `u64`
abbrev pub mul64 : ℕ → ℕ → ℕ
mul64 a b = a * b % u64_mod

-- `a.saturating_sub(b)`
abbrev pub saturating_sub : ℕ → ℕ → ℕ
saturating_sub a b = a - b

-- `a.saturating_add(b)`
abbrev pub saturating_add : ℕ → ℕ → ℕ
saturating_add a b = if ltb (a + b) u64_mod then a + b else u64_mod - 1
