-- ===== src/Common/Words.antt =====
-- Machine words: `usize` and `u64` are 64 bits wide, and atomic additions and subtractions wrap.
use Prim.Native.Nat.{ℕ, ◌+◌, ◌-◌, ◌%◌, ◌^◌, ◌<◌}
use mathlib.Core.Path.{◌≡◌, refl}
use native.Mathlib.Omega.{arith}

abbrev pub word : ℕ
word = 18446744073709551616

-- `wrapping_add`, which `fetch_add` stores.
abbrev pub add64 : ℕ → ℕ → ℕ
add64 a b = (a + b) % word

-- `wrapping_sub`, which `fetch_sub` stores and which `-` computes in a release build.
abbrev pub sub64 : ℕ → ℕ → ℕ
sub64 a b = (a + word - b) % word

pub word_lem : word ≡ 2 ^ 64
word_lem = refl

pub sub64-add64 : (a b : ℕ) → a < word → b < word → sub64 (add64 a b) b ≡ a
sub64-add64 a b h k = omega arith
