-- ===== src/Halosave/Ce/Rebuilt.antt =====
-- What CEBuild makes of a template and a patch, and when it fails.
use xemu_cartographer.Base.{
  ℕ, ◌≤◌, ◌<◌, ◌≡◌, ◌≢◌, refl, sym, ap, subst, ◌∙◌, ◌⊎◌, inl, inr, Bool, true, false, ◌==◌, ==_iff,
  Bool-cases, length, arith,
}
use xemu_cartographer.Text.{codes}
use xemu_cartographer.Halosave.Bytes.{
  Bytes, fails, returns, bad_size, name_too_long, byte_at, slice,
}
use xemu_cartographer.Halosave.Bytes.Copies.{slice-agree}
use xemu_cartographer.Halosave.Digest.{recompute_digest}
use xemu_cartographer.Halosave.Ce.{CePatch, ce_build, ce_finish, ce_fields}
use xemu_cartographer.Halosave.Ce.Fields.{length-ce_fields, byte_at-ce_fields}
use xemu_cartographer.Halosave.Ce.Steps.{
  NameFits, Named, Signed, put_name_opt-cases, ce_sign-Signed,
}

size-cases : (n : ℕ) → ((n == 0x200) ≡ true) × (n ≡ 0x200) ⊎ ((n == 0x200) ≡ false) × (n ≢ 0x200)
size-cases n = elim (Bool-cases (n == 0x200)) [
  | inl e ↦ inl (e, (==_iff n 0x200).0 e)
  | inr e ↦ inr (e, λ q. ground (arith, e, q))
]

returns_injective : {b c : Bytes} → returns b ≡ returns c → b ≡ c
returns_injective e = cc

module _ (hmac : Bytes → Bytes → Bytes) (t : Bytes) (p : CePatch) (recompute : Bool) where
  -- How `out` came about.
  pub record Made (out : Bytes) : Type 0 where
    pub named : Bytes
    pub size : length t ≡ 0x200
    pub name_fits : NameFits p.name
    pub is_named : Named t p.name named
    pub is_signed : Signed hmac (ce_fields p named) recompute out

  finish-Made :
      (named : Bytes)
      → length t ≡ 0x200
      → NameFits p.name
      → Named t p.name named
      → (out : Bytes) × (ce_finish hmac p recompute (returns named) ≡ returns out) × Made out
  unfolding ce_finish
  finish-Made named size fits n =
      let (out, e, s) =
        ce_sign-Signed hmac recompute (ce_fields p named)
          (omega (arith, length-ce_fields p named, n.long, size)) in
      (out, e, record { named = named; size = size; name_fits = fits; is_named = n; is_signed = s })

  pub Made-cases :
      ((length t ≢ 0x200) × (ce_build hmac t p recompute ≡ fails bad_size))
      ⊎ ((length t ≡ 0x200)
          × (NameFits p.name → ⊥)
          × (ce_build hmac t p recompute ≡ fails name_too_long))
      ⊎ ((out : Bytes) × (ce_build hmac t p recompute ≡ returns out) × Made out)
  unfolding ce_build ce_finish
  Made-cases = elim (size-cases (length t)) [
    | inr (e, n) ↦ inl (n, rw e refl)
    | inl (e, size) ↦ elim (put_name_opt-cases t p.name (omega (arith, size))) [
      | inr (long, f) ↦ inr (inl (size, long, rw (e, f) refl))
      | inl (fits, (b, f, n)) ↦
          let (out, g, m) = finish-Made b size fits n in inr (inr (out, rw (e, f) g, m))
    ]
  ]

  -- If CEBuild answers a file, that file came about in this way.
  pub Made-of : (out : Bytes) → ce_build hmac t p recompute ≡ returns out → Made out
  Made-of out e = elim Made-cases [
    | inl (n, f) ↦ absurd cc
    | inr (inl (s, n, f)) ↦ absurd cc
    | inr (inr (other, f, m)) ↦ subst Made (returns_injective (sym f ∙ e)) m
  ]

  -- CEBuild fails in two cases only: for a template that is not of 512 bytes, with the error of the
  -- size, and, where the size is right, for a name of more than 11 units, with the error of the name.
  -- In all other cases it answers a file.
  pub ce_build_outcome :
      ((length t ≢ 0x200) × (ce_build hmac t p recompute ≡ fails bad_size))
      ⊎ ((length t ≡ 0x200)
          × (NameFits p.name → ⊥)
          × (ce_build hmac t p recompute ≡ fails name_too_long))
      ⊎ ((length t ≡ 0x200)
          × NameFits p.name
          × ((out : Bytes) × (ce_build hmac t p recompute ≡ returns out)))
  ce_build_outcome = elim Made-cases [
    | inl f ↦ inl f
    | inr (inl f) ↦ inr (inl f)
    | inr (inr (out, f, m)) ↦ inr (inr (m.size, m.name_fits, (out, f)))
  ]

  -- A file that CEBuild answers has 512 bytes. It differs from the template in the first 0x64 bytes and
  -- the digest only. If a new digest is asked for, it is the one that RecomputeDigest gives for the
  -- file itself; if not, it is the template's.
  pub ce_build_bounds :
      (out : Bytes)
      → ce_build hmac t p recompute ≡ returns out
      → (length out ≡ 0x200)
        × ((i : ℕ) → (0x64 ≤ i) × (i < 0x68) ⊎ (0x7C ≤ i) → byte_at i out ≡ byte_at i t)
        × (recompute ≡ true
            → recompute_digest hmac out 0x68 20 (codes "ce") ≡ returns (slice out 0x68 20))
        × (recompute ≡ false → slice out 0x68 20 ≡ slice t 0x68 20)
  ce_build_bounds out e =
      let m = Made-of out e in
      (
        omega (arith, m.is_signed.long, length-ce_fields p m.named, m.is_named.long, m.size),
        λ i o.
            m.is_signed.rest i (elim o [ inl (l, h) ↦ inl h | inr h ↦ inr h ])
            ∙ unwritten m.named m.is_named i (elim o [ inl (l, h) ↦ l | inr h ↦ omega (arith, h) ]),
        m.is_signed.verifies,
        λ q. slice-agree out t 0x68 20 (λ i l h.
            ap (byte_at i) (m.is_signed.kept q)
            ∙ unwritten m.named m.is_named i (omega (arith, l))),
      )
    where
      unwritten :
          (named : Bytes)
          → Named t p.name named
          → (i : ℕ) → 0x64 ≤ i
          → byte_at i (ce_fields p named) ≡ byte_at i t
      unwritten named n i l = byte_at-ce_fields i p named (inr l) ∙ n.rest i (omega (arith, l))
