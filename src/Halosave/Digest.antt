-- ===== src/Halosave/Digest.antt =====
-- internal/halosave/digest.go: the signature of a save file. HMAC-SHA1 is a function argument, of the
-- key and the message.
use xemu_cartographer.Base.{ℕ, ◌+◌, ltb, Option, none, some, [], ◌∷◌, if◌then◌else◌, length}
use xemu_cartographer.Text.{Text, codes, text_eq}
use xemu_cartographer.Halosave.Bytes.{
  Bytes, slice, Outcome, fails, returns, digest_out_of_range, digest_too_long, digest_unresolved,
}

abbrev xbox_global_key : Bytes
xbox_global_key =
    0x5C ∷ 0x07 ∷ 0x33 ∷ 0xAE ∷ 0x04 ∷ 0x01 ∷ 0xF7 ∷ 0xE8 ∷ 0xBA ∷ 0x79 ∷ 0x93 ∷ 0xFD ∷ 0xCD ∷ 0x2F
    ∷ 0x1F ∷ 0xE0 ∷ []

-- titleSigKeys
unfoldable pub title_sig_key : Text → Option Bytes
title_sig_key title =
    if text_eq title (codes "ce")
    then some (
        0x1F ∷ 0x71 ∷ 0xDE ∷ 0x93 ∷ 0xD5 ∷ 0x2A ∷ 0xAD ∷ 0xB1 ∷ 0x94 ∷ 0x46 ∷ 0xD7 ∷ 0x49 ∷ 0x4F
        ∷ 0x73 ∷ 0x11 ∷ 0x58 ∷ [])
    else if text_eq title (codes "h2")
    then some (
        0x21 ∷ 0x16 ∷ 0xD9 ∷ 0x27 ∷ 0x51 ∷ 0x0F ∷ 0x01 ∷ 0xD1 ∷ 0x9B ∷ 0x7E ∷ 0xC7 ∷ 0x5C ∷ 0xAF
        ∷ 0xE6 ∷ 0x69 ∷ 0xAC ∷ [])
    else none

-- deriveAuthKey
unfoldable pub derive_auth_key : (Bytes → Bytes → Bytes) → Bytes → Bytes
derive_auth_key hmac sig_key = slice (hmac xbox_global_key sig_key) 0 16

abbrev sign_with : (Bytes → Bytes → Bytes) → Bytes → ℕ → ℕ → Option Bytes → Outcome Bytes
sign_with hmac buf off len none = fails digest_unresolved
sign_with hmac buf off len (some key) =
    returns (slice (hmac (derive_auth_key hmac key) (slice buf 0 off)) 0 len)

-- RecomputeDigest
unfoldable pub recompute_digest : (Bytes → Bytes → Bytes) → Bytes → ℕ → ℕ → Text → Outcome Bytes
recompute_digest hmac buf off len title =
    if ltb (length buf) (off + len)
    then fails digest_out_of_range
    else if ltb 20 len
    then fails digest_too_long
    else sign_with hmac buf off len (title_sig_key title)
