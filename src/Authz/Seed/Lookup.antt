-- ===== src/Authz/Seed/Lookup.antt =====
-- SeedRole: the lookup of a built-in role.
use xemu_cartographer.Base.{
  ◌≡◌, refl, sym, ap, ◌∙◌, inl, inr, ◌↔◌, some, List, [], ◌∷◌, arith, Bool-cases, In, here, there,
}
use xemu_cartographer.Text.{Text, text_eq}
use xemu_cartographer.Text.Laws.{text_eq→≡}
use xemu_cartographer.Authz.Seed.{RoleSeed, find_seed, seed_role, seed_roles}

find_seed-In :
    (slug : Text) (rs : List RoleSeed) (r : RoleSeed)
    → find_seed slug rs ≡ some r
    → In r rs × (r.slug ≡ slug)
unfolding find_seed
find_seed-In slug [] r h = cc
find_seed-In slug (x ∷ rs) r h = elim (Bool-cases (text_eq x.slug slug)) [
  | inl e ↦
      let same : x ≡ r = ground (arith, e) in
      (here (sym same), ap (λ (y : RoleSeed). y.slug) (sym same) ∙ text_eq→≡ x.slug slug e)
  | inr e ↦
      let (held, named) = find_seed-In slug rs r (rw (e, find_seed) at h) in (there held, named)
]

seed_role-found : (r : RoleSeed) → In r seed_roles → seed_role r.slug ≡ some r
unfolding seed_role find_seed text_eq
seed_role-found r (here e) = rw e refl
seed_role-found r (there (here e)) = rw e refl
seed_role-found r (there (there (here e))) = rw e refl
seed_role-found r (there (there (there (here e)))) = rw e refl
seed_role-found r (there (there (there (there (here e))))) = rw e refl
seed_role-found r (there (there (there (there (there h))))) = elim h [ ]

-- SeedRole finds a role exactly if it is a built-in one with that slug.
pub seed_role_iff :
    (slug : Text) (r : RoleSeed) → (seed_role slug ≡ some r) ↔ (In r seed_roles × (r.slug ≡ slug))
seed_role_iff slug r = (
  unfold seed_role in find_seed-In slug seed_roles r,
  λ h. ap seed_role (sym h.1) ∙ seed_role-found r h.0,
)
