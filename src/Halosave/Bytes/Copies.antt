-- ===== src/Halosave/Bytes/Copies.antt =====
-- Writes into a file: what they change and what they leave as it was.
use xemu_cartographer.Base.{
  ℕ, zero, suc, ◌+◌, ◌≤◌, ◌<◌, ◌≡◌, ◌≢◌, refl, ◌∙◌, ◌⊎◌, inl, inr, [], ◌∷◌, length, arith,
}
use xemu_cartographer.Halosave.Bytes.{Bytes, byte_at, set_byte, copy_bytes, slice}

-- `i` is not one of the `n` places from `off` on.
abbrev pub Outside : ℕ → ℕ → ℕ → Type 0
Outside i off n = (i < off) ⊎ (off + n ≤ i)

pub length-set_byte : (i v : ℕ) (b : Bytes) → length (set_byte i v b) ≡ length b
unfolding set_byte
length-set_byte i v [] = refl
length-set_byte zero v (x ∷ b) = refl
length-set_byte (suc i) v (x ∷ b) = omega (arith, length-set_byte i v b)

byte_at-set_byte : (i v : ℕ) (b : Bytes) → i < length b → byte_at i (set_byte i v b) ≡ v
unfolding byte_at set_byte
byte_at-set_byte i v [] h = absurd (omega arith)
byte_at-set_byte zero v (x ∷ b) h = refl
byte_at-set_byte (suc i) v (x ∷ b) h = byte_at-set_byte i v b (omega arith)

pub byte_at-set_byte_other :
    (i j v : ℕ) (b : Bytes) → i ≢ j → byte_at i (set_byte j v b) ≡ byte_at i b
unfolding byte_at set_byte
byte_at-set_byte_other i j v [] h = refl
byte_at-set_byte_other zero zero v (x ∷ b) h = absurd (h refl)
byte_at-set_byte_other zero (suc j) v (x ∷ b) h = refl
byte_at-set_byte_other (suc i) zero v (x ∷ b) h = refl
byte_at-set_byte_other (suc i) (suc j) v (x ∷ b) h =
    byte_at-set_byte_other i j v b (λ e. h (omega arith))

pub length-copy_bytes : (b : Bytes) (off : ℕ) (s : Bytes) → length (copy_bytes b off s) ≡ length b
unfolding copy_bytes
length-copy_bytes b off [] = refl
length-copy_bytes b off (x ∷ s) =
    length-copy_bytes (set_byte off x b) (off + 1) s ∙ length-set_byte off x b

pub byte_at-copy-Outside :
    (i : ℕ) (b : Bytes) (off : ℕ) (s : Bytes)
    → Outside i off (length s)
    → byte_at i (copy_bytes b off s) ≡ byte_at i b
unfolding copy_bytes
byte_at-copy-Outside i b off [] h = refl
byte_at-copy-Outside i b off (x ∷ s) h =
    byte_at-copy-Outside i (set_byte off x b) (off + 1) s
      (elim h [ inl l ↦ inl (omega arith) | inr r ↦ inr (omega arith) ])
    ∙ byte_at-set_byte_other i off x b (λ e. elim h [ inl l ↦ omega arith | inr r ↦ omega arith ])

pub byte_at-set_byte_at :
    (i j v : ℕ) (b : Bytes) → i ≡ j → j < length b → byte_at i (set_byte j v b) ≡ v
byte_at-set_byte_at i j v b e h = rw e (byte_at-set_byte j v b h)

-- The byte at place `j` of the file is the one at place `i` of what was copied to `off`.
pub byte_at-copy_inside :
    (i j : ℕ) (b : Bytes) (off : ℕ) (s : Bytes)
    → j ≡ off + i
    → off + length s ≤ length b
    → i < length s
    → byte_at j (copy_bytes b off s) ≡ byte_at i s
unfolding copy_bytes byte_at
byte_at-copy_inside i j b off [] e h l = absurd (omega arith)
byte_at-copy_inside zero j b off (x ∷ s) e h l =
    byte_at-copy-Outside j (set_byte off x b) (off + 1) s (inl (omega arith))
    ∙ byte_at-set_byte_at j off x b (omega arith) (omega arith)
byte_at-copy_inside (suc i) j b off (x ∷ s) e h l =
    byte_at-copy_inside i j (set_byte off x b) (off + 1) s (omega arith)
      (omega (arith, length-set_byte off x b, h)) (omega arith)

-- Two files that agree on a region have the same slice there.
pub slice-agree :
    (b c : Bytes) (off n : ℕ)
    → ((i : ℕ) → off ≤ i → i < off + n → byte_at i b ≡ byte_at i c)
    → slice b off n ≡ slice c off n
unfolding slice
slice-agree b c off zero same = refl
slice-agree b c off (suc n) same =
    rw
      (
        same off (omega arith) (omega arith),
        slice-agree b c (off + 1) n (λ i l h. same i (omega arith) (omega arith)),
      )
      refl

-- A slice that starts where a copy was written is what was copied.
pub slice-copy_bytes :
    (b : Bytes) (off : ℕ) (s : Bytes)
    → off + length s ≤ length b
    → slice (copy_bytes b off s) off (length s) ≡ s
unfolding slice copy_bytes
slice-copy_bytes b off [] h = refl
slice-copy_bytes b off (x ∷ s) h =
    rw
      (
        byte_at-copy-Outside off (set_byte off x b) (off + 1) s (inl (omega arith)),
        byte_at-set_byte off x b (omega arith),
        slice-copy_bytes (set_byte off x b) (off + 1) s (omega (arith, length-set_byte off x b, h)),
      )
      refl
