-- ===== src/Prelude/Words.antt =====
-- The integers of `struct`, big-endian, and indexing of bytes. `none` is `struct.error`.
use Prim.Native.Nat.{ℕ, ◌+◌, ◌*◌, ◌/◌, ◌%◌, ◌<◌}
use mathlib.Core.Path.{◌≡◌}
use mathlib.Core.List.{List, [], ◌∷◌}
use mathlib.Core.Option.{Option, none, some}
use native.Mathlib.Omega.{arith}
use kirov_server_emulator.Prelude.Tests.{ltb, if◌then◌else◌}
use kirov_server_emulator.Prelude.Lists.{All, get_or}

abbrev pub Bytes : Type 0
Bytes = List ℕ

-- Every element is a byte.
abbrev pub IsBytes : Bytes → Type 0
IsBytes = All (λ b. b < 256)

abbrev pub byte_at : Bytes → ℕ → ℕ
byte_at data_ i = get_or data_ i 0

abbrev pub be16 : ℕ → ℕ → ℕ
be16 a b = a * 256 + b

abbrev pub be32 : ℕ → ℕ → ℕ → ℕ → ℕ
be32 a b c d = ((a * 256 + b) * 256 + c) * 256 + d

abbrev pub bytes16 : ℕ → Bytes
bytes16 n = n / 256 ∷ n % 256 ∷ []

abbrev pub bytes32 : ℕ → Bytes
bytes32 n = n / 16777216 ∷ n / 65536 % 256 ∷ n / 256 % 256 ∷ n % 256 ∷ []

-- struct.pack("B", n), struct.pack(">H", n), struct.pack(">I", n)
abbrev pub pack_u8 : ℕ → Option Bytes
pack_u8 n = if ltb n 256 then some (n ∷ []) else none

abbrev pub pack_u16 : ℕ → Option Bytes
pack_u16 n = if ltb n 65536 then some (bytes16 n) else none

abbrev pub pack_u32 : ℕ → Option Bytes
pack_u32 n = if ltb n 4294967296 then some (bytes32 n) else none

pub be16-bytes16 : (n : ℕ) → be16 (n / 256) (n % 256) ≡ n
be16-bytes16 n = omega arith

pub be32-bytes32 : (n : ℕ) → be32 (n / 16777216) (n / 65536 % 256) (n / 256 % 256) (n % 256) ≡ n
be32-bytes32 n = omega arith

infixl 5 ◌>>=◌
abbrev pub ◌>>=◌ {ℓ κ} : {A : Type ℓ} {B : Type κ} → Option A → (A → Option B) → Option B
none >>= f = none
some a >>= f = f a
