-- ===== src/Pb/Grants/Counts.antt =====
-- adminCount under the removal of a row.
use xemu_cartographer.Base.{
  suc, ◌≤◌, ◌≡◌, refl, Bool, true, List, [], ◌∷◌, arith, if◌then◌else◌, inl, inr, Bool-cases,
}
use xemu_cartographer.Text.{Text, text_eq, elem}
use xemu_cartographer.Text.Laws.{text_eq→≡}
use xemu_cartographer.Pb.Grants.{count_live}

-- The first row of the user is gone.
abbrev pub remove_one : Text → List Text → List Text
remove_one u [] = []
remove_one u (x ∷ xs) = if text_eq x u then xs else x ∷ remove_one u xs

abbrev Includes : List Text → List Text → Type 0
Includes more seen = (t : Text) → elem t seen ≡ true → elem t more ≡ true

Includes-cons :
    (x : Text) (more seen : List Text) → Includes more seen → Includes (x ∷ more) (x ∷ seen)
unfolding elem
Includes-cons x more seen h t e = ground (arith, h t, e)

Includes-held :
    (x : Text) (more seen : List Text)
    → elem x more ≡ true
    → Includes more seen
    → Includes more (x ∷ seen)
unfolding elem
Includes-held x more seen k h t e = elim (Bool-cases (text_eq t x)) [
  | inl q ↦ rw (text_eq→≡ t x q) k
  | inr q ↦ h t (rw q at e)
]

Includes-more : (x : Text) (seen : List Text) → Includes (x ∷ seen) seen
unfolding elem
Includes-more x seen t e = ground (arith, e)

module _ (live : Text → Bool) where
  -- Who has counted more counts less from there on.
  count_mono :
      (users seen more : List Text)
      → Includes more seen
      → count_live live more users ≤ count_live live seen users
  unfolding count_live
  count_mono [] seen more h = omega arith
  count_mono (x ∷ users) seen more h = elim (Bool-cases (elem x more)) [
    | inl k ↦ ground (
      arith,
      k,
      h x,
      count_mono users seen more h,
      count_mono users (x ∷ seen) more (Includes-held x more seen k h),
    )
    | inr k ↦ ground (
      arith,
      k,
      h x,
      count_mono users seen more h,
      count_mono users (x ∷ seen) (x ∷ more) (Includes-cons x more seen h),
    )
  ]

  -- Without one row at most one user less is counted.
  pub count_live-remove_one :
      (users seen : List Text) (u : Text)
      → count_live live seen users ≤ suc (count_live live seen (remove_one u users))
  unfolding count_live
  count_live-remove_one [] seen u = omega arith
  count_live-remove_one (x ∷ users) seen u = elim (Bool-cases (text_eq x u)) [
    | inl e ↦ rw e (ground (arith, count_mono users seen (x ∷ seen) (Includes-more x seen)))
    | inr e ↦ rw e (
        ground
          (arith, count_live-remove_one users seen u, count_live-remove_one users (x ∷ seen) u))
  ]

-- Tests that agree count alike.
pub count_live-agree :
    (live live1 : Text → Bool) (users seen : List Text)
    → ((u : Text) → live u ≡ live1 u)
    → count_live live seen users ≡ count_live live1 seen users
unfolding count_live
count_live-agree live live1 [] seen h = refl
count_live-agree live live1 (x ∷ users) seen h = ground (
  arith,
  h x,
  count_live-agree live live1 users seen h,
  count_live-agree live live1 users (x ∷ seen) h,
)
