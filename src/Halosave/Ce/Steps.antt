-- ===== src/Halosave/Ce/Steps.antt =====
-- The steps of CEBuild before and after its fields: the name and the signature.
use xemu_cartographer.Base.{
  ℕ, zero, suc, subst, ◌+◌, ◌*◌, ◌≤◌, ◌<◌, ◌≡◌, refl, sym, ap, ◌∙◌, ◌⊎◌, inl, inr, Bool, true,
  false, ltb, Option, none, some, length, arith, All, Bool-cases, Option-cases, if◌then◌else◌,
}
use xemu_cartographer.Text.{Text, codes, text_eq}
use xemu_cartographer.Halosave.Bytes.{
  Bytes, Outcome, fails, returns, digest_out_of_range, digest_too_long, digest_unresolved,
  name_too_long, byte_at, slice, copy_bytes, zero_bytes, write_units, read_utf16z, write_utf16z,
  utf16_encode, utf16_char_len,
}
use xemu_cartographer.Halosave.Bytes.Copies.{
  length-copy_bytes, byte_at-copy-Outside, slice-agree, slice-copy_bytes,
}
use xemu_cartographer.Halosave.Bytes.Utf16.{Plain}
use xemu_cartographer.Halosave.Bytes.Names.{
  length-zero_bytes, length-write_units, byte_at-zero-Outside, byte_at-write-Outside,
  read_utf16z-write,
}
use xemu_cartographer.Halosave.Digest.{title_sig_key, derive_auth_key, recompute_digest}
use xemu_cartographer.Halosave.Ce.{put_name_opt, ce_sign}
use xemu_cartographer.Halosave.Ce.Fields.{or_keep}

-- A patch's name, if any, has 11 code units at most.
abbrev pub NameFits : Option Text → Type 0
NameFits none = Unit
NameFits (some name) = utf16_char_len name ≤ 11

-- It holds code points of Unicode only, and no NUL.
abbrev pub NamePlain : Option Text → Type 0
NamePlain none = Unit
NamePlain (some name) = All Plain name

-- `b` is the template `t` with the name on it.
pub record Named (t : Bytes) (name : Option Text) (b : Bytes) : Type 0 where
  pub long : length b ≡ length t
  pub rest : (i : ℕ) → 24 ≤ i → byte_at i b ≡ byte_at i t
  pub reads : NamePlain name → read_utf16z b 0 24 ≡ or_keep name (read_utf16z t 0 24)

abbrev laid : Bytes → Text → Bytes
laid t name = write_units (zero_bytes t 0 24) 0 (utf16_encode name)

laid-Named :
    (t : Bytes) (name : Text)
    → 24 ≤ length t
    → length (utf16_encode name) ≤ 11
    → Named t (some name) (laid t name)
laid-Named t name h fits = record {
  long = length-write_units (zero_bytes t 0 24) 0 (utf16_encode name) ∙ length-zero_bytes t 0 24;
  rest = λ i l.
      byte_at-write-Outside i (zero_bytes t 0 24) 0 (utf16_encode name)
        (inr (omega (arith, l, fits)))
      ∙ byte_at-zero-Outside i t 0 24 (inr (omega (arith, l)));
  reads = λ plain. read_utf16z-write t 0 12 name plain (omega (arith, h)) (omega (arith, fits));
}

-- The name's step, whichever way it goes.
pub put_name_opt-cases :
    (t : Bytes) (name : Option Text)
    → 24 ≤ length t
    → (NameFits name × ((b : Bytes) × (put_name_opt t name ≡ returns b) × Named t name b))
      ⊎ ((NameFits name → ⊥) × (put_name_opt t name ≡ fails name_too_long))
unfolding put_name_opt write_utf16z utf16_char_len
put_name_opt-cases t none h =
    inl (tt, (t, refl, record { long = refl; rest = λ i l. refl; reads = λ p. refl }))
put_name_opt-cases t (some name) h =
    elim (Bool-cases (ltb 24 (length (utf16_encode name) * 2 + 2))) [
      | inl long ↦ inr (λ fits. ground (arith, long, fits), rw long refl)
      | inr short ↦ inl (
        ground (arith, short),
        (laid t name, rw short refl, laid-Named t name h (ground (arith, short))),
      )
    ]

length-slice : (b : Bytes) (off n : ℕ) → length (slice b off n) ≡ n
unfolding slice
length-slice b off zero = refl
length-slice b off (suc n) = omega (arith, length-slice b (off + 1) n)

short_enough : (n : ℕ) → 0x7C ≤ n → ltb n (0x68 + 20) ≡ false
short_enough n h = ground (arith, h)

module _ (hmac : Bytes → Bytes → Bytes) where
  abbrev of_key : Bytes → ℕ → Option Bytes → Outcome Bytes
  of_key message n none = fails digest_unresolved
  of_key message n (some key) = returns (slice (hmac (derive_auth_key hmac key) message) 0 n)

  -- The digest as a function of the file's length and the message that is signed.
  abbrev of_message : ℕ → Bytes → ℕ → ℕ → Text → Outcome Bytes
  of_message long message off n title =
      if ltb long (off + n)
      then fails digest_out_of_range
      else if ltb 20 n
      then fails digest_too_long
      else of_key message n (title_sig_key title)

  digest-message :
      (b : Bytes) (off n : ℕ) (title : Text)
      → recompute_digest hmac b off n title ≡ of_message (length b) (slice b 0 off) off n title
  unfolding recompute_digest
  digest-message b off n title = elim (Option-cases (title_sig_key title)) [
    | inl e ↦ rw e refl
    | inr (key, e) ↦ rw e refl
  ]

  digest-of_key :
      (long : ℕ) (message : Bytes) (key : Option Bytes)
      → key ≡ title_sig_key (codes "ce")
      → (d : Bytes) × (length d ≡ 20) × (of_key message 20 key ≡ returns d)
  unfolding title_sig_key text_eq
  digest-of_key long message none e = cc
  digest-of_key long message (some key) e = (
    slice (hmac (derive_auth_key hmac key) message) 0 20,
    length-slice (hmac (derive_auth_key hmac key) message) 0 20,
    refl,
  )

  digest-ce :
      (b : Bytes)
      → 0x7C ≤ length b
      → (d : Bytes) × (length d ≡ 20) × (recompute_digest hmac b 0x68 20 (codes "ce") ≡ returns d)
  digest-ce b h =
      let (d, l, e) = digest-of_key (length b) (slice b 0 0x68) (title_sig_key (codes "ce")) refl in
      (d, l, digest-message b 0x68 20 (codes "ce") ∙ rw (short_enough (length b) h) e)

  -- The signature is over the first bytes only.
  pub digest-agree :
      (b c : Bytes) (off n : ℕ) (title : Text)
      → length b ≡ length c
      → ((i : ℕ) → i < off → byte_at i b ≡ byte_at i c)
      → recompute_digest hmac b off n title ≡ recompute_digest hmac c off n title
  digest-agree b c off n title long same =
      digest-message b off n title
      ∙ ap (λ l. of_message l (slice b 0 off) off n title) long
      ∙ ap (λ m. of_message (length c) m off n title)
          (slice-agree b c 0 off (λ i l h. same i (omega (arith, h))))
      ∙ sym (digest-message c off n title)

  -- `b` with the signature on it, if that is asked for.
  pub record Signed (b : Bytes) (recompute : Bool) (out : Bytes) : Type 0 where
    pub long : length out ≡ length b
    pub rest : (i : ℕ) → (i < 0x68) ⊎ (0x7C ≤ i) → byte_at i out ≡ byte_at i b
    pub kept : recompute ≡ false → out ≡ b
    pub verifies :
        recompute ≡ true
        → recompute_digest hmac out 0x68 20 (codes "ce") ≡ returns (slice out 0x68 20)

  spliced-Signed :
      (b d : Bytes)
      → 0x7C ≤ length b
      → length d ≡ 20
      → recompute_digest hmac b 0x68 20 (codes "ce") ≡ returns d
      → Signed b true (copy_bytes b 0x68 d)
  spliced-Signed b d h l e = record {
    long = length-copy_bytes b 0x68 d;
    rest = outside;
    kept = λ e. cc;
    verifies = λ _.
        digest-agree (copy_bytes b 0x68 d) b 0x68 20 (codes "ce") (length-copy_bytes b 0x68 d)
          (λ i below. outside i (inl below))
        ∙ e
        ∙ ap returns (
            sym (
              subst (λ n. slice (copy_bytes b 0x68 d) 0x68 n ≡ d) l
                (slice-copy_bytes b 0x68 d (omega (arith, h, l)))));
  }
    where
      outside : (i : ℕ) → (i < 0x68) ⊎ (0x7C ≤ i) → byte_at i (copy_bytes b 0x68 d) ≡ byte_at i b
      outside i o =
          byte_at-copy-Outside i b 0x68 d
            (elim o [ inl x ↦ inl x | inr x ↦ inr (omega (arith, x, l)) ])

  pub ce_sign-Signed :
      (recompute : Bool) (b : Bytes)
      → 0x7C ≤ length b
      → (out : Bytes) × (ce_sign hmac recompute b ≡ returns out) × Signed b recompute out
  unfolding ce_sign
  ce_sign-Signed false b h =
      (b, refl, record { long = refl; rest = λ i o. refl; kept = λ e. refl; verifies = λ e. cc })
  ce_sign-Signed true b h =
      let (d, l, e) = digest-ce b h in (copy_bytes b 0x68 d, rw e refl, spliced-Signed b d h l e)
