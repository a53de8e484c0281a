-- ===== src/Authz/Token/Keys.antt =====
-- Keys "<kid>.<secret>": what splits, what is verified, and what is minted.
use xemu_cartographer.Base.{
  ◌-◌, ℕ, ◌+◌, ◌<◌, ◌%◌, ◌≡◌, ◌≢◌, refl, sym, ap, ◌∙◌, ◌⊎◌, inl, inr, ◌↔◌, true, false, Option,
  none, some, List, [], ◌∷◌, ◌++◌, map, arith, ◌==◌, Option-cases,
}
use xemu_cartographer.Text.{Text, codes, cut, count_rune, has_prefix}
use xemu_cartographer.Text.Laws.{text_eq_iff, uncut, uncut-cut}
use xemu_cartographer.Text.Separators.{IsFree, count_rune-append, cut-append, cut-IsFree}
use xemu_cartographer.Authz.Errors.{ok, err, bad_secret}
use xemu_cartographer.Authz.Deps.{TokenRow}
use xemu_cartographer.Authz.Token.{
  split_token, split_parts, verify_token, new_kid, looks_opaque, kid_has_known_prefix, kid_symbol,
  lookup_text, kid_prefix, is_past, rune_at, kid_alphabet,
}

-- Not yet expired; the zero time never is.
abbrev pub IsLive : Option ℕ → ℕ → Type 0
IsLive none now = Unit
IsLive (some expires) now = now < expires

is_past-IsLive : (e : Option ℕ) (now : ℕ) → is_past e now ≡ false → IsLive e now
is_past-IsLive none now h = tt
is_past-IsLive (some expires) now h = ground arith

IsLive-is_past : (e : Option ℕ) (now : ℕ) → IsLive e now → is_past e now ≡ false
IsLive-is_past none now h = refl
IsLive-is_past (some expires) now h = ground arith

module _ (hash_secret : Text → Text) (row : TokenRow) (secret : Text) (now : ℕ) where
  pub record Verifies : Type 0 where
    pub presented : secret ≢ []
    pub stored : row.key_hash ≢ []
    pub digest : hash_secret secret ≡ row.key_hash
    pub valid : row.revoked ≡ false
    pub live : IsLive row.expires_at now

  verify_token-Verifies : verify_token hash_secret row secret now ≡ ok tt → Verifies
  unfolding verify_token
  verify_token-Verifies h = record {
    presented = ground arith;
    stored = ground arith;
    digest = ground (arith, text_eq_iff (hash_secret secret) row.key_hash);
    valid = ground arith;
    live = is_past-IsLive row.expires_at now (ground arith);
  }

  Verifies-verify_token : Verifies → verify_token hash_secret row secret now ≡ ok tt
  unfolding verify_token
  Verifies-verify_token v = ground (
    arith,
    text_eq_iff (hash_secret secret) row.key_hash,
    IsLive-is_past row.expires_at now v.live,
  )

  -- A key verifies exactly if the secret is there, its digest is the stored one, which is not
  -- empty, and the row is neither revoked nor expired.
  pub verify_token_iff : (verify_token hash_secret row secret now ≡ ok tt) ↔ Verifies
  verify_token_iff = (verify_token-Verifies, Verifies-verify_token)

  -- Without the secret the answer does not depend on the row's revocation or expiry.
  pub verify_token-secrecy :
      hash_secret secret ≢ row.key_hash → verify_token hash_secret row secret now ≡ err bad_secret
  unfolding verify_token
  verify_token-secrecy h = ground (arith, text_eq_iff (hash_secret secret) row.key_hash)

abbrev pub dot : ℕ
dot = b'.'

-- A kid and a secret, neither empty and neither with a dot, joined by one.
pub record Splits (s kid secret : Text) : Type 0 where
  pub joined : kid ++ dot ∷ secret ≡ s
  pub kid_some : kid ≢ []
  pub secret_some : secret ≢ []
  pub kid_free : IsFree dot kid
  pub secret_free : IsFree dot secret

count_rune-joined :
    (kid secret : Text)
    → count_rune dot (kid ++ dot ∷ secret) ≡ count_rune dot kid + (1 + count_rune dot secret)
count_rune-joined kid secret =
    count_rune-append dot kid (dot ∷ secret)
    ∙ ap (◌+◌ (count_rune dot kid)) (unfold count_rune in refl)

split_parts-eq :
    (p : Text × Option Text) (kid secret : Text)
    → split_parts p ≡ some (kid, secret)
    → (p ≡ (kid, some secret)) × (kid ≢ []) × (secret ≢ [])
split_parts-eq (k, none) kid secret h = cc
split_parts-eq (k, some x) kid secret h = (ground arith, ground arith, ground arith)

split_token-Splits :
    (s kid secret : Text) → split_token s ≡ some (kid, secret) → Splits s kid secret
split_token-Splits s kid secret h =
    let one : count_rune dot s ≡ 1 = unfold split_token in ground arith in
    let parts : split_parts (cut dot s) ≡ some (kid, secret) = unfold split_token in ground arith in
    let (pieces, k, x) = split_parts-eq (cut dot s) kid secret parts in
    let joined : kid ++ dot ∷ secret ≡ s = ap (uncut dot) (sym pieces) ∙ uncut-cut dot s in
    let free : IsFree dot kid = rw pieces at (cut-IsFree dot s) in
    record {
      joined = joined;
      kid_some = k;
      secret_some = x;
      kid_free = free;
      secret_free = omega (arith, count_rune-joined kid secret, ap (count_rune dot) joined);
    }

Splits-split_token :
    (s kid secret : Text) → Splits s kid secret → split_token s ≡ some (kid, secret)
Splits-split_token s kid secret v =
    let one : count_rune dot s ≡ 1 = omega (
      arith,
      count_rune-joined kid secret,
      ap (count_rune dot) v.joined,
      v.kid_free,
      v.secret_free,
    ) in
    let pieces : cut dot s ≡ (kid, some secret) =
      ap (cut dot) (sym v.joined) ∙ cut-append dot kid secret v.kid_free in
    unfold split_token in ground arith

-- A text splits into a kid and a secret exactly if it is the two, each non-empty and free of dots,
-- with one dot between them.
pub split_token_iff :
    (s kid secret : Text) → (split_token s ≡ some (kid, secret)) ↔ Splits s kid secret
split_token_iff s kid secret = (split_token-Splits s kid secret, Splits-split_token s kid secret)

-- A lookup in a text without dots never finds one, even past its end.
rune_at-IsFree : (s : Text) (i : ℕ) → IsFree dot s → (rune_at s i == dot) ≡ false
unfolding count_rune
rune_at-IsFree [] i free = refl
rune_at-IsFree (c ∷ s) i free = ground (arith, rune_at-IsFree s (i - 1))

kid_symbol-ne : (b : ℕ) → (kid_symbol b == dot) ≡ false
unfolding kid_symbol
kid_symbol-ne b = rune_at-IsFree kid_alphabet (b % 32) (unfold count_rune in refl)

symbols-IsFree : (bytes : List ℕ) → IsFree dot (map kid_symbol bytes)
unfolding count_rune
symbols-IsFree [] = refl
symbols-IsFree (b ∷ bytes) = ground (arith, kid_symbol-ne b, symbols-IsFree bytes)

-- What a minted kid begins with.
abbrev IsKidPrefix : Text → Type 0
IsKidPrefix prefix = (prefix ≡ codes "sp_") ⊎ (prefix ≡ codes "mk_") ⊎ (prefix ≡ codes "dv_")

prefix-IsKidPrefix :
    (kind prefix : Text) → lookup_text kind kid_prefix ≡ some prefix → IsKidPrefix prefix
unfolding lookup_text
prefix-IsKidPrefix kind prefix h = ground arith

prefix-known :
    (prefix rest : Text)
    → IsKidPrefix prefix
    → (prefix ++ rest ≢ []) × IsFree dot prefix × (kid_has_known_prefix (prefix ++ rest) ≡ true)
unfolding kid_has_known_prefix count_rune has_prefix
prefix-known prefix rest (inl e) = rw e (ground arith)
prefix-known prefix rest (inr (inl e)) = rw e (ground arith)
prefix-known prefix rest (inr (inr e)) = rw e (ground arith)

new_kid-parts :
    (bytes : List ℕ) (kind kid : Text)
    → new_kid bytes kind ≡ ok kid
    → (prefix : Text) × IsKidPrefix prefix × (prefix ++ map kid_symbol bytes ≡ kid)
unfolding new_kid
new_kid-parts bytes kind kid h = elim (Option-cases (lookup_text kind kid_prefix)) [
  | inl e ↦ absurd (ground arith)
  | inr (prefix, e) ↦ (prefix, prefix-IsKidPrefix kind prefix e, ground arith)
]

-- A key minted for a known kind, joined with a secret that is not empty and has no dot, looks
-- opaque and splits into its kid and its secret, whatever the random bytes.
pub new_kid-looks_opaque :
    (bytes : List ℕ) (kind kid secret : Text)
    → new_kid bytes kind ≡ ok kid
    → secret ≢ []
    → IsFree dot secret
    → (split_token (kid ++ dot ∷ secret) ≡ some (kid, secret))
      × (looks_opaque (kid ++ dot ∷ secret) ≡ true)
new_kid-looks_opaque bytes kind kid secret h x f =
    let (prefix, is, parts) = new_kid-parts bytes kind kid h in
    let (k, free, known) = prefix-known prefix (map kid_symbol bytes) is in
    let kid_free : IsFree dot kid = omega (
      arith,
      ap (count_rune dot) parts,
      free,
      count_rune-append dot prefix (map kid_symbol bytes),
      symbols-IsFree bytes,
    ) in
    let splits : split_token (kid ++ dot ∷ secret) ≡ some (kid, secret) =
      Splits-split_token (kid ++ dot ∷ secret) kid secret (record {
        joined = refl;
        kid_some = λ e. k (parts ∙ e);
        secret_some = x;
        kid_free = kid_free;
        secret_free = f;
      }) in
    (splits, unfold looks_opaque in rw splits (rw parts at known))
