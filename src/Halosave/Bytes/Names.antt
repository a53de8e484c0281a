-- ===== src/Halosave/Bytes/Names.antt =====
-- Names in a file: what writeUTF16z writes, readUTF16z reads.
use xemu_cartographer.Base.{
  ℕ, zero, suc, ◌+◌, ◌*◌, ◌/◌, ◌%◌, ◌^◌, ◌≤◌, ◌<◌, ◌≡◌, ◌≢◌, refl, ap, ◌∙◌, inl, inr, List, [], ◌∷◌,
  ◌==◌, length, arith, All, if◌then◌else◌, Bool-cases,
}
use xemu_cartographer.Text.{Text}
use xemu_cartographer.Halosave.Bytes.{
  Bytes, byte_at, set_byte, get_u16, put_u16, zero_bytes, write_units, read_units, read_utf16z,
  utf16_encode, utf16_decode,
}
use xemu_cartographer.Halosave.Bytes.Copies.{
  Outside, length-copy_bytes, byte_at-copy-Outside, byte_at-copy_inside, length-set_byte,
  byte_at-set_byte_at, byte_at-set_byte_other,
}
use xemu_cartographer.Halosave.Bytes.Utf16.{Plain, Unit16, utf16_decode-encode, utf16_encode-units}

length-put_u16 : (b : Bytes) (off u : ℕ) → length (put_u16 b off u) ≡ length b
unfolding put_u16
length-put_u16 b off u = length-copy_bytes b off _

byte_at-put_u16-Outside :
    (i : ℕ) (b : Bytes) (off u : ℕ) → Outside i off 2 → byte_at i (put_u16 b off u) ≡ byte_at i b
unfolding put_u16
byte_at-put_u16-Outside i b off u h = byte_at-copy-Outside i b off _ h

two_bytes : (u : ℕ) → u < 2 ^ 16 → u % 256 + u / 2 ^ 8 % 256 * 2 ^ 8 ≡ u
two_bytes u h = omega arith

get_u16-put_u16 :
    (b : Bytes) (off u : ℕ) → off + 2 ≤ length b → u < 2 ^ 16 → get_u16 (put_u16 b off u) off ≡ u
unfolding get_u16 put_u16 byte_at
get_u16-put_u16 b off u h l =
    rw
      (
        byte_at-copy_inside 0 off b off (u % 256 ∷ u / 2 ^ 8 % 256 ∷ []) (omega arith) h
            (omega arith),
        byte_at-copy_inside 1 (off + 1) b off (u % 256 ∷ u / 2 ^ 8 % 256 ∷ []) (omega arith) h
            (omega arith),
      )
      (two_bytes u l)

-- The loop that clears the buffer.
pub length-zero_bytes : (b : Bytes) (off n : ℕ) → length (zero_bytes b off n) ≡ length b
unfolding zero_bytes
length-zero_bytes b off zero = refl
length-zero_bytes b off (suc n) =
    length-zero_bytes (set_byte off 0 b) (off + 1) n ∙ length-set_byte off 0 b

pub byte_at-zero-Outside :
    (i : ℕ) (b : Bytes) (off n : ℕ) → Outside i off n → byte_at i (zero_bytes b off n) ≡ byte_at i b
unfolding zero_bytes
byte_at-zero-Outside i b off zero h = refl
byte_at-zero-Outside i b off (suc n) h =
    byte_at-zero-Outside i (set_byte off 0 b) (off + 1) n
      (elim h [ inl l ↦ inl (omega arith) | inr r ↦ inr (omega arith) ])
    ∙ byte_at-set_byte_other i off 0 b (λ e. elim h [ inl l ↦ omega arith | inr r ↦ omega arith ])

byte_at-zero_inside :
    (i : ℕ) (b : Bytes) (off n : ℕ)
    → off + n ≤ length b
    → off ≤ i
    → i < off + n
    → byte_at i (zero_bytes b off n) ≡ 0
unfolding zero_bytes
byte_at-zero_inside i b off zero h l r = absurd (omega arith)
byte_at-zero_inside i b off (suc n) h l r = elim (Bool-cases (i == off)) [
  | inl e ↦
      byte_at-zero-Outside i (set_byte off 0 b) (off + 1) n (inl (ground (arith, e)))
      ∙ byte_at-set_byte_at i off 0 b (ground (arith, e)) (omega arith)
  | inr e ↦
      byte_at-zero_inside i (set_byte off 0 b) (off + 1) n
        (omega (arith, length-set_byte off 0 b, h)) (ground (arith, e, l)) (omega arith)
]

-- The loop that lays down the units.
pub length-write_units :
    (b : Bytes) (off : ℕ) (us : List ℕ) → length (write_units b off us) ≡ length b
unfolding write_units
length-write_units b off [] = refl
length-write_units b off (u ∷ us) =
    length-write_units (put_u16 b off u) (off + 2) us ∙ length-put_u16 b off u

pub byte_at-write-Outside :
    (i : ℕ) (b : Bytes) (off : ℕ) (us : List ℕ)
    → Outside i off (length us * 2)
    → byte_at i (write_units b off us) ≡ byte_at i b
unfolding write_units
byte_at-write-Outside i b off [] h = refl
byte_at-write-Outside i b off (u ∷ us) h =
    byte_at-write-Outside i (put_u16 b off u) (off + 2) us
      (elim h [ inl l ↦ inl (omega arith) | inr r ↦ inr (omega arith) ])
    ∙ byte_at-put_u16-Outside i b off u
        (elim h [ inl l ↦ inl (omega arith) | inr r ↦ inr (omega arith) ])

nonzero_kept : (u : ℕ) (us : List ℕ) → u ≢ 0 → (if u == 0 then [] else u ∷ us) ≡ u ∷ us
nonzero_kept u us h = elim (Bool-cases (u == 0)) [
  | inl e ↦ absurd (h (ground (arith, e)))
  | inr e ↦ rw e refl
]

-- The units `us`, one after the other from `off` on, with a unit 0 behind them.
abbrev Holds : Bytes → ℕ → List ℕ → Type 0
Holds b off [] = get_u16 b off ≡ 0
Holds b off (u ∷ us) = (get_u16 b off ≡ u) × Holds b (off + 2) us

read_units-Holds :
    (b : Bytes) (off : ℕ) (us : List ℕ) (n : ℕ)
    → Holds b off us
    → All Unit16 us
    → length us < n
    → read_units b off n ≡ us
unfolding read_units
read_units-Holds b off us zero h p l = absurd (omega arith)
read_units-Holds b off [] (suc n) h p l = rw h refl
read_units-Holds b off (u ∷ us) (suc n) h p l =
    rw (h.0, read_units-Holds b (off + 2) us n h.1 p.1 (omega arith)) (nonzero_kept u us p.0.0)

get_u16-agree :
    (b c : Bytes) (off : ℕ)
    → byte_at off b ≡ byte_at off c
    → byte_at (off + 1) b ≡ byte_at (off + 1) c
    → get_u16 b off ≡ get_u16 c off
unfolding get_u16
get_u16-agree b c off p q = rw (p, q) refl

get_u16-zero :
    (b : Bytes) (off : ℕ) → byte_at off b ≡ 0 → byte_at (off + 1) b ≡ 0 → get_u16 b off ≡ 0
unfolding get_u16
get_u16-zero b off p q = rw (p, q) refl

halved : (n : ℕ) → n * 2 / 2 ≡ n
halved n = omega arith

write_units-Holds :
    (b : Bytes) (off : ℕ) (us : List ℕ)
    → All Unit16 us
    → off + length us * 2 + 2 ≤ length b
    → ((i : ℕ) → off ≤ i → i < off + length us * 2 + 2 → byte_at i b ≡ 0)
    → Holds (write_units b off us) off us
unfolding write_units
write_units-Holds b off [] p h zeros =
    get_u16-zero b off (zeros off (omega arith) (omega arith))
      (zeros (off + 1) (omega arith) (omega arith))
write_units-Holds b off (u ∷ us) p h zeros = (
  get_u16-agree (write_units (put_u16 b off u) (off + 2) us) (put_u16 b off u) off
        (byte_at-write-Outside off (put_u16 b off u) (off + 2) us (inl (omega arith)))
        (byte_at-write-Outside (off + 1) (put_u16 b off u) (off + 2) us (inl (omega arith)))
      ∙ get_u16-put_u16 b off u (omega arith) p.0.1,
  write_units-Holds (put_u16 b off u) (off + 2) us p.1 (omega (arith, length-put_u16 b off u, h))
      (λ i l r. byte_at-put_u16-Outside i b off u (inr l) ∙ zeros i (omega arith) (omega arith)),
)

-- A name that fits is written, and then read back.
pub read_utf16z-write :
    (b : Bytes) (off half : ℕ) (name : Text)
    → All Plain name
    → off + half * 2 ≤ length b
    → length (utf16_encode name) < half
    → read_utf16z (write_units (zero_bytes b off (half * 2)) off (utf16_encode name)) off (half * 2)
      ≡ name
unfolding read_utf16z
read_utf16z-write b off half name p h l =
    ap (λ n. utf16_decode (read_units written off n)) (halved half)
    ∙ ap utf16_decode (
        read_units-Holds written off us half
          (write_units-Holds (zero_bytes b off (half * 2)) off us units
            (omega (arith, length-zero_bytes b off (half * 2), h, l))
            (λ i from below.
              byte_at-zero_inside i b off (half * 2) h from (omega (arith, below, l))))
          units l)
    ∙ utf16_decode-encode name p
  where
    us : List ℕ
    us = utf16_encode name

    written : Bytes
    written = write_units (zero_bytes b off (half * 2)) off us

    units : All Unit16 us
    units = utf16_encode-units name p

read_units-agree :
    (b c : Bytes) (off n : ℕ)
    → ((i : ℕ) → off ≤ i → i < off + n * 2 → byte_at i b ≡ byte_at i c)
    → read_units b off n ≡ read_units c off n
unfolding read_units
read_units-agree b c off zero same = refl
read_units-agree b c off (suc n) same =
    rw
      (
        get_u16-agree b c off (same off (omega arith) (omega arith))
            (same (off + 1) (omega arith) (omega arith)),
        read_units-agree b c (off + 2) n (λ i l h. same i (omega arith) (omega arith)),
      )
      refl

-- Files that agree on the window of a name have the same name there.
pub read_utf16z-agree :
    (b c : Bytes) (off half : ℕ)
    → ((i : ℕ) → off ≤ i → i < off + half * 2 → byte_at i b ≡ byte_at i c)
    → read_utf16z b off (half * 2) ≡ read_utf16z c off (half * 2)
unfolding read_utf16z
read_utf16z-agree b c off half same =
    rw (halved half) (ap utf16_decode (read_units-agree b c off half same))
