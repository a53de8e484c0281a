-- ===== src/Authz/Errors.antt =====
-- The sentinel errors of internal/authz (token.go, scope.go, ws.go), without the message texts that
-- wrap them, and the results of fallible functions.
use xemu_cartographer.Base.{
  ◌⊎◌, inl, inr, Bool, true, false, Option, none, some, ◌≡◌, refl, if◌then◌else◌,
}

pub data Error : Type 0 where
  revoked expired bad_secret unknown_kid wildcard_kind spectator_instance unknown_role level_too_low
        last_admin scope_syntax room_syntax unknown_token_kind random_failed :
      Error

-- What a Go function with results `(value, error)` returns: the error if there is one.
pub data Result {κ} (R : Type κ) : Type κ where
  err : (sentinel : Error) → Result R
  ok : (value : R) → Result R

abbrev pub is_ok {κ} : {R : Type κ} (r : Result R) → Bool
is_ok (err _) = false
is_ok (ok _) = true

-- A check that only answers whether it passes: `if !holds { return fault }`.
abbrev pub require : (holds : Bool) (fault : Error) → Result (Unit {0})
require holds fault = if holds then ok tt else err fault

-- The `(value, ok)` pair of a failed lookup turned into an error.
abbrev pub or_fail {κ} : {R : Type κ} → Option R → Error → Result R
or_fail none fault = err fault
or_fail (some r) fault = ok r

-- `if err != nil { return err }` between two calls.
infixl 5 ◌>>=◌ ◌>>◌
abbrev pub ◌>>=◌ {κ ν} : {R : Type κ} {S : Type ν} → Result R → (next : R → Result S) → Result S
err fault >>= next = err fault
ok r >>= next = next r

abbrev pub ◌>>◌ {κ} : {S : Type κ} (first : Result (Unit {0})) (then_run : Result S) → Result S
err fault >> then_run = err fault
ok _ >> then_run = then_run

pub Result-cases {κ} :
    {R : Type κ} (r : Result R)
    → ((value : R) × (r ≡ ok value)) ⊎ ((fault : Error) × (r ≡ err fault))
Result-cases (err fault) = inr (fault, refl)
Result-cases (ok value) = inl (value, refl)

-- If a chain of two calls succeeds, the second does so on what the first returned.
pub bind-ok {κ ν} :
    {R : Type κ} {S : Type ν} (first : Result R) (next : R → Result S) {s : S}
    → (first >>= next) ≡ ok s
    → (r : R) × (next r ≡ ok s) × (first ≡ ok r)
bind-ok (err fault) next e = cc
bind-ok (ok r) next e = (r, e, refl)
