-- ===== src/Prelude/Word.antt =====
-- `size_t` and `unsigned`: numbers with the wrap-around of 64 and 32 bits written out.
use Prim.Native.Nat.{ℕ, ◌+◌, ◌-◌, ◌%◌, ◌^◌, ◌<◌, ◌≤◌}
use mathlib.Core.Path.{◌≡◌}
use native.Mathlib.Omega.{arith}

abbrev pub size_max : ℕ
size_max = 2 ^ 64 - 1

abbrev pub unsigned_max : ℕ
unsigned_max = 2 ^ 32 - 1

-- `a + b` on `size_t`, and on an address.
unfoldable pub add_size : ℕ → ℕ → ℕ
add_size a b = (a + b) % 2 ^ 64

-- `a - b` on `size_t`.
unfoldable pub sub_size : ℕ → ℕ → ℕ
sub_size a b = (a + 2 ^ 64 - b) % 2 ^ 64

-- `a + b` on `unsigned`.
unfoldable pub add_unsigned : ℕ → ℕ → ℕ
add_unsigned a b = (a + b) % 2 ^ 32

-- `--a`, or `fetch_sub(1)`, on `unsigned`.
unfoldable pub dec_unsigned : ℕ → ℕ
dec_unsigned a = (a + 2 ^ 32 - 1) % 2 ^ 32

pub add_size-lt : (a b : ℕ) → a + b < 2 ^ 64 → add_size a b ≡ a + b
unfolding add_size
add_size-lt a b h = omega arith

pub sub_size-le : (a b : ℕ) → b ≤ a → a < 2 ^ 64 → sub_size a b ≡ a - b
unfolding sub_size
sub_size-le a b h k = omega arith

pub dec_unsigned-pos : (a : ℕ) → 0 < a → a < 2 ^ 32 → dec_unsigned a ≡ a - 1
unfolding dec_unsigned
dec_unsigned-pos a h k = omega arith

pub add_size_assoc : (a b c : ℕ) → add_size (add_size a b) c ≡ add_size a (b + c)
unfolding add_size
add_size_assoc a b c = omega arith

pub add_size_lt : (a b : ℕ) → add_size a b < 2 ^ 64
unfolding add_size
add_size_lt a b = omega arith
