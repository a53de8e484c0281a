-- ===== src/Halosave/Bytes.antt =====
-- internal/halosave/bytes.go, and the functions of Go's encoding/binary and unicode/utf16 that it
-- calls. A file is a list of bytes. Go stops on an index out of range; here such a read gives 0 and
-- such a write does nothing, and the callers test the length of the file first. A float32 is its
-- 32-bit pattern, which Float32bits and Float32frombits keep.
pub mod Copies
pub mod Words
pub mod Utf16
pub mod Names
use xemu_cartographer.Base.{
  ℕ, zero, suc, ◌+◌, ◌-◌, ◌*◌, ◌/◌, ◌%◌, ◌^◌, Bool, ◌&&◌, ◌||◌, ◌==◌, ltb, leb, Option, none, some,
  List, [], ◌∷◌, ◌++◌, if◌then◌else◌, length, true, false,
}
use xemu_cartographer.Text.{Text}

abbrev pub Bytes : Type 0
Bytes = List ℕ

-- The errors of the package, without their texts.
pub data SaveError : Type 0 where
  bad_size name_too_long digest_out_of_range digest_too_long digest_unresolved : SaveError

-- The pair `(value, error)` of a Go function.
pub data Outcome {κ} (R : Type κ) : Type κ where
  fails : (fault : SaveError) → Outcome R
  returns : (value : R) → Outcome R

-- b[i]
unfoldable pub byte_at : ℕ → Bytes → ℕ
byte_at i [] = 0
byte_at zero (x ∷ b) = x
byte_at (suc i) (x ∷ b) = byte_at i b

-- b[i] = v
unfoldable pub set_byte : ℕ → ℕ → Bytes → Bytes
set_byte i v [] = []
set_byte zero v (x ∷ b) = v ∷ b
set_byte (suc i) v (x ∷ b) = x ∷ set_byte i v b

-- copy(b[off:], bytes)
unfoldable pub copy_bytes : Bytes → ℕ → Bytes → Bytes
copy_bytes b off [] = b
copy_bytes b off (x ∷ xs) = copy_bytes (set_byte off x b) (off + 1) xs

-- b[off:off+n]
unfoldable pub slice : Bytes → ℕ → ℕ → Bytes
slice b off zero = []
slice b off (suc n) = byte_at off b ∷ slice b (off + 1) n

-- getU32
unfoldable pub get_u32 : Bytes → ℕ → ℕ
get_u32 b off =
    byte_at off b
    + byte_at (off + 1) b * 2 ^ 8
    + byte_at (off + 2) b * 2 ^ 16
    + byte_at (off + 3) b * 2 ^ 24

-- putU32
unfoldable pub put_u32 : Bytes → ℕ → ℕ → Bytes
put_u32 b off v =
    copy_bytes b off (v % 256 ∷ v / 2 ^ 8 % 256 ∷ v / 2 ^ 16 % 256 ∷ v / 2 ^ 24 % 256 ∷ [])

-- getF32, on bit patterns; putF32 is putU32 there.
abbrev pub get_f32 : Bytes → ℕ → ℕ
get_f32 b off = get_u32 b off

-- binary.LittleEndian.Uint16 and PutUint16
unfoldable pub get_u16 : Bytes → ℕ → ℕ
get_u16 b off = byte_at off b + byte_at (off + 1) b * 2 ^ 8

unfoldable pub put_u16 : Bytes → ℕ → ℕ → Bytes
put_u16 b off v = copy_bytes b off (v % 256 ∷ v / 2 ^ 8 % 256 ∷ [])

-- utf16.Encode: a code point from U+10000 on is two units, a surrogate or too great one is U+FFFD.
unfoldable pub is_high : ℕ → Bool
is_high u = leb 0xd800 u && ltb u 0xdc00

unfoldable pub is_low : ℕ → Bool
is_low u = leb 0xdc00 u && ltb u 0xe000

unfoldable pub encode_rune : ℕ → List ℕ
encode_rune r =
    if is_high r || is_low r || ltb 0x10ffff r
    then 0xfffd ∷ []
    else if ltb r 0x10000
    then r ∷ []
    else (0xd800 + (r - 0x10000) / 0x400) ∷ (0xdc00 + (r - 0x10000) % 0x400) ∷ []

unfoldable pub utf16_encode : Text → List ℕ
utf16_encode [] = []
utf16_encode (r ∷ rs) = encode_rune r ++ utf16_encode rs

-- utf16.Decode: a surrogate that is not part of a pair is U+FFFD.
unfoldable pub join_pair : ℕ → ℕ → ℕ
join_pair u v = (u - 0xd800) * 0x400 + (v - 0xdc00) + 0x10000

unfoldable pub decode_unit : ℕ → ℕ
decode_unit u = if is_high u || is_low u then 0xfffd else u

unfoldable pub utf16_decode : List ℕ → Text
utf16_decode [] = []
utf16_decode (u ∷ []) = decode_unit u ∷ []
utf16_decode (u ∷ v ∷ us) =
    let paired = utf16_decode us in
    let rest = utf16_decode (v ∷ us) in
    if is_high u && is_low v then join_pair u v ∷ paired else decode_unit u ∷ rest

-- The loop of readUTF16z over the units of the window.
unfoldable pub read_units : Bytes → ℕ → ℕ → List ℕ
read_units b off zero = []
read_units b off (suc n) =
    let rest = read_units b (off + 2) n in if get_u16 b off == 0 then [] else get_u16 b off ∷ rest

-- readUTF16z
unfoldable pub read_utf16z : Bytes → ℕ → ℕ → Text
read_utf16z b off max_bytes = utf16_decode (read_units b off (max_bytes / 2))

-- The two loops of writeUTF16z.
unfoldable pub zero_bytes : Bytes → ℕ → ℕ → Bytes
zero_bytes b off zero = b
zero_bytes b off (suc n) = zero_bytes (set_byte off 0 b) (off + 1) n

unfoldable pub write_units : Bytes → ℕ → List ℕ → Bytes
write_units b off [] = b
write_units b off (u ∷ us) = write_units (put_u16 b off u) (off + 2) us

-- writeUTF16z
unfoldable pub write_utf16z : Bytes → ℕ → ℕ → Text → Outcome Bytes
write_utf16z b off buf_bytes name =
    if ltb buf_bytes (length (utf16_encode name) * 2 + 2)
    then fails name_too_long
    else returns (write_units (zero_bytes b off buf_bytes) off (utf16_encode name))

-- utf16CharLen
unfoldable pub utf16_char_len : Text → ℕ
utf16_char_len name = length (utf16_encode name)
