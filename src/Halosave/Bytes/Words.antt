-- ===== src/Halosave/Bytes/Words.antt =====
-- Reads and writes of a 32-bit word, little-endian.
use xemu_cartographer.Base.{ℕ, ◌+◌, ◌*◌, ◌/◌, ◌%◌, ◌^◌, ◌≤◌, ◌<◌, ◌≡◌, refl, length, arith, [], ◌∷◌}
use xemu_cartographer.Halosave.Bytes.{Bytes, byte_at, get_u32, put_u32}
use xemu_cartographer.Halosave.Bytes.Copies.{
  Outside, length-copy_bytes, byte_at-copy-Outside, byte_at-copy_inside,
}

pub length-put_u32 : (b : Bytes) (off v : ℕ) → length (put_u32 b off v) ≡ length b
unfolding put_u32
length-put_u32 b off v = length-copy_bytes b off _

pub byte_at-put-Outside :
    (i : ℕ) (b : Bytes) (off v : ℕ) → Outside i off 4 → byte_at i (put_u32 b off v) ≡ byte_at i b
unfolding put_u32
byte_at-put-Outside i b off v h = byte_at-copy-Outside i b off _ h

-- Files that agree on four bytes have the same word there.
pub get_u32-agree :
    (b c : Bytes) (off : ℕ)
    → ((i : ℕ) → off ≤ i → i < off + 4 → byte_at i b ≡ byte_at i c)
    → get_u32 b off ≡ get_u32 c off
unfolding get_u32
get_u32-agree b c off same =
    rw
      (
        same off (omega arith) (omega arith),
        same (off + 1) (omega arith) (omega arith),
        same (off + 2) (omega arith) (omega arith),
        same (off + 3) (omega arith) (omega arith),
      )
      refl

abbrev word_bytes : ℕ → Bytes
word_bytes v = v % 256 ∷ v / 2 ^ 8 % 256 ∷ v / 2 ^ 16 % 256 ∷ v / 2 ^ 24 % 256 ∷ []

byte_at-word_bytes :
    (v i : ℕ) (b : Bytes) (off j : ℕ)
    → j ≡ off + i
    → off + 4 ≤ length b
    → i < 4
    → byte_at j (put_u32 b off v) ≡ byte_at i (word_bytes v)
unfolding put_u32
byte_at-word_bytes v i b off j e h l = byte_at-copy_inside i j b off (word_bytes v) e h l

four_bytes :
    (v : ℕ)
    → v < 2 ^ 32
    → v % 256 + v / 2 ^ 8 % 256 * 2 ^ 8 + v / 2 ^ 16 % 256 * 2 ^ 16 + v / 2 ^ 24 % 256 * 2 ^ 24 ≡ v
four_bytes v h = omega arith

-- A word that is written is the word that is read.
pub get_u32-put_u32 :
    (b : Bytes) (off v : ℕ) → off + 4 ≤ length b → v < 2 ^ 32 → get_u32 (put_u32 b off v) off ≡ v
unfolding get_u32 byte_at
get_u32-put_u32 b off v h l =
    rw
      (
        byte_at-word_bytes v 0 b off off (omega arith) h (omega arith),
        byte_at-word_bytes v 1 b off (off + 1) (omega arith) h (omega arith),
        byte_at-word_bytes v 2 b off (off + 2) (omega arith) h (omega arith),
        byte_at-word_bytes v 3 b off (off + 3) (omega arith) h (omega arith),
      )
      (four_bytes v l)
