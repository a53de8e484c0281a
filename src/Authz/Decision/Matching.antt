-- ===== src/Authz/Decision/Matching.antt =====
-- The scope that a decision reports is one that the principal holds and that matches a want.
use xemu_cartographer.Base.{
  ◌∙◌, ◌≡◌, sym, ap, inl, inr, true, some, List, [], ◌∷◌, arith, Bool-cases, Option-cases, Any,
  here, there, In,
}
use xemu_cartographer.Text.{Text}
use xemu_cartographer.Authz.Scope.{match, match_any}
use xemu_cartographer.Authz.Decision.{first_match}

pub match_any_sound :
    (scopes : List Text) (want s : Text)
    → match_any scopes want ≡ some s
    → In s scopes × (match s want ≡ true)
unfolding match_any
match_any_sound [] want s h = cc
match_any_sound (x ∷ scopes) want s h = elim (Bool-cases (match x want)) [
  | inl e ↦ (here (ground arith), ground arith)
  | inr e ↦ let (held, hit) = match_any_sound scopes want s (rw e at h) in (there held, hit)
]

pub match_any_complete :
    (scopes : List Text) (want s : Text)
    → In s scopes
    → match s want ≡ true
    → (s' : Text) × (match_any scopes want ≡ some s')
unfolding match_any
match_any_complete [] want s h e = elim h [ ]
match_any_complete (x ∷ scopes) want s (here p) e = (x, rw ((ap (λ y. match y want) (sym p) ∙ e)))
match_any_complete (x ∷ scopes) want s (there h) e = elim (Bool-cases (match x want)) [
  | inl k ↦ (x, rw k)
  | inr k ↦ rw k (match_any_complete scopes want s h e)
]

pub first_match_sound :
    (scopes wants : List Text) (s : Text)
    → first_match scopes wants ≡ some s
    → In s scopes × Any (λ w. match s w ≡ true) wants
unfolding first_match
first_match_sound scopes [] s h = cc
first_match_sound scopes (w ∷ wants) s h = elim (Option-cases (match_any scopes w)) [
  | inl e ↦ let (held, hit) = first_match_sound scopes wants s (rw e at h) in (held, there hit)
  | inr (x, e) ↦ let (held, hit) = match_any_sound scopes w s (ground arith) in (held, here hit)
]

pub first_match_complete :
    (scopes wants : List Text) (s : Text)
    → In s scopes
    → Any (λ w. match s w ≡ true) wants
    → (s' : Text) × (first_match scopes wants ≡ some s')
unfolding first_match
first_match_complete scopes [] s held h = elim h [ ]
first_match_complete scopes (w ∷ wants) s held (here e) =
    let (x, k) = match_any_complete scopes w s held e in (x, rw k)
first_match_complete scopes (w ∷ wants) s held (there h) =
    elim (Option-cases (match_any scopes w)) [
      | inl e ↦ rw e (first_match_complete scopes wants s held h)
      | inr (x, e) ↦ (x, rw e)
    ]
