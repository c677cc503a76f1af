-- ===== src/Prelude/Word.antt =====
-- Machine words: the counters of the program wrap at 2^64.
use Prim.Native.Nat.{ℕ, ◌+◌, ◌%◌, ◌^◌, ◌<◌}
use mathlib.Core.Path.{◌≡◌}
use mathlib.Core.Logic.{◌≢◌}
use native.Mathlib.Omega.{arith}

-- One more than the greatest `u64`, and the greatest `usize` of a 64-bit machine.
unfoldable pub word_mod : ℕ
word_mod = 2 ^ 64

-- `n += 1` on a `u64` or `usize`.
unfoldable pub inc64 : ℕ → ℕ
inc64 n = (n + 1) % word_mod

pub inc64-suc : (n : ℕ) → n + 1 < word_mod → inc64 n ≡ n + 1
unfolding inc64
inc64-suc n h = grind arith

pub inc64-ne : (n : ℕ) → n < word_mod → inc64 n ≢ n
unfolding inc64 word_mod
inc64-ne n h e = omega arith
