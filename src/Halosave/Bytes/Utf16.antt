-- ===== src/Halosave/Bytes/Utf16.antt =====
-- utf16.Encode and utf16.Decode: what is encoded is decoded again.
use xemu_cartographer.Base.{
  ℕ, ◌+◌, ◌-◌, ◌/◌, ◌%◌, ◌≤◌, ◌<◌, ◌^◌, ◌≡◌, ◌≢◌, refl, ap, ◌∙◌, ◌⊎◌, inl, inr, Bool, true, false,
  not, ◌&&◌, ltb, leb, List, [], ◌∷◌, ◌++◌, arith, All, Bool-cases,
}
use xemu_cartographer.Text.{Text}
use xemu_cartographer.Halosave.Bytes.{
  is_high, is_low, encode_rune, utf16_encode, join_pair, decode_unit, utf16_decode,
}

-- A code point of Unicode, other than NUL and the surrogates.
abbrev pub is_plain : ℕ → Bool
is_plain r = ltb 0 r && leb r 0x10ffff && not (leb 0xd800 r && ltb r 0xe000)

abbrev pub Plain : ℕ → Type 0
Plain r = is_plain r ≡ true

-- A unit that does not end a name.
abbrev pub Unit16 : ℕ → Type 0
Unit16 u = (u ≢ 0) × (u < 2 ^ 16)

decode-one :
    (u : ℕ) (us : List ℕ)
    → is_high u ≡ false
    → is_low u ≡ false
    → utf16_decode (u ∷ us) ≡ u ∷ utf16_decode us
unfolding utf16_decode decode_unit
decode-one u [] h l = rw (h, l) refl
decode-one u (v ∷ us) h l = rw (h, l) refl

decode-two :
    (u v : ℕ) (us : List ℕ)
    → (is_high u && is_low v) ≡ true
    → utf16_decode (u ∷ v ∷ us) ≡ join_pair u v ∷ utf16_decode us
unfolding utf16_decode
decode-two u v us h = rw h refl

encode-small :
    (r : ℕ)
    → Plain r
    → r < 0x10000
    → (encode_rune r ≡ r ∷ []) × (is_high r ≡ false) × (is_low r ≡ false)
unfolding encode_rune is_high is_low
encode-small r p h = (ground (arith, p, h), ground (arith, p, h), ground (arith, p, h))

abbrev high_of : ℕ → ℕ
high_of r = 0xd800 + (r - 0x10000) / 0x400

abbrev low_of : ℕ → ℕ
low_of r = 0xdc00 + (r - 0x10000) % 0x400

encode-great :
    (r : ℕ)
    → Plain r
    → 0x10000 ≤ r
    → (encode_rune r ≡ high_of r ∷ low_of r ∷ [])
      × ((is_high (high_of r) && is_low (low_of r)) ≡ true)
      × (join_pair (high_of r) (low_of r) ≡ r)
unfolding encode_rune is_high is_low join_pair
encode-great r p h = (ground (arith, p, h), ground (arith, p, h), ground (arith, p, h))

size-cases : (r : ℕ) → (r < 0x10000) ⊎ (0x10000 ≤ r)
size-cases r = elim (Bool-cases (ltb r 0x10000)) [
  | inl e ↦ inl (ground (arith, e))
  | inr e ↦ inr (ground (arith, e))
]

decode-rune :
    (r : ℕ) (us : List ℕ) → Plain r → utf16_decode (encode_rune r ++ us) ≡ r ∷ utf16_decode us
decode-rune r us p = elim (size-cases r) [
  | inl h ↦ let (e, high, low) = encode-small r p h in rw e (decode-one r us high low)
  | inr h ↦
      let (e, pair, joined) = encode-great r p h in
      rw e (decode-two (high_of r) (low_of r) us pair ∙ ap (λ x. x ∷ utf16_decode us) joined)
]

encode_rune-units :
    (r : ℕ) (us : List ℕ) → Plain r → All Unit16 us → All Unit16 (encode_rune r ++ us)
encode_rune-units r us p rest = elim (size-cases r) [
  | inl h ↦ rw (encode-small r p h).0 ((λ e. ground (arith, p, e), h), rest)
  | inr h ↦
      rw (encode-great r p h).0
        ((λ e. omega arith, ground (arith, p, h)), ((λ e. omega arith, omega arith), rest))
]

pub utf16_decode-encode : (t : Text) → All Plain t → utf16_decode (utf16_encode t) ≡ t
unfolding utf16_encode utf16_decode
utf16_decode-encode [] p = refl
utf16_decode-encode (r ∷ t) p =
    decode-rune r (utf16_encode t) p.0 ∙ ap (λ us. r ∷ us) (utf16_decode-encode t p.1)

pub utf16_encode-units : (t : Text) → All Plain t → All Unit16 (utf16_encode t)
unfolding utf16_encode
utf16_encode-units [] p = tt
utf16_encode-units (r ∷ t) p = encode_rune-units r (utf16_encode t) p.0 (utf16_encode-units t p.1)
