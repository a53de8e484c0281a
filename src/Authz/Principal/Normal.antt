-- ===== src/Authz/Principal/Normal.antt =====
-- CanonScopes: the normal form in which a principal stores its scopes.
use xemu_cartographer.Base.{
  ◌≡◌, ◌≢◌, refl, sym, ◌∙◌, ◌⊎◌, inl, inr, ◌↔◌, true, false, ◌||◌, List, [], ◌∷◌, arith, Bool-cases,
  All, In, Any, here, there, any, is_empty, or_true,
}
use xemu_cartographer.Text.{Text, text_eq, elem}
use xemu_cartographer.Text.Laws.{text_eq_iff, text_eq→≡}
use xemu_cartographer.Authz.Scope.{canon}
use xemu_cartographer.Authz.Principal.{canon_new, canon_scopes}
use xemu_cartographer.Authz.Principal.Order.{
  IsAscending, IsNew, IsDistinct, sort-IsAscending, In-sort, sort-In,
}

-- What the loop keeps: canonical forms that are not empty and were not seen before.
abbrev IsKept : List Text → Text → Type 0
IsKept seen c = (c ≢ []) × (elem c seen ≡ false)

elem-cons :
    (c s : Text) (seen : List Text) → elem c (s ∷ seen) ≡ false → (c ≢ s) × (elem c seen ≡ false)
unfolding elem
elem-cons c s seen h = ground (arith, text_eq_iff c s)

Kept-cons :
    (seen : List Text) (s : Text) (cs : List Text)
    → All (IsKept (s ∷ seen)) cs
    → All (IsKept seen) cs × IsNew s cs
Kept-cons seen s [] h = (tt, tt)
Kept-cons seen s (c ∷ cs) h =
    let (ne, old) = elem-cons c s seen h.0.1 in
    let (kept, new) = Kept-cons seen s cs h.1 in (((h.0.0, old), kept), (λ e. ne (sym e), new))

canon_new-Kept :
    (seen ss : List Text) → All (IsKept seen) (canon_new seen ss) × IsDistinct (canon_new seen ss)
unfolding canon_new
canon_new-Kept seen [] = (tt, tt)
canon_new-Kept seen (s ∷ ss) = elim (Bool-cases (is_empty (canon s) || elem (canon s) seen)) [
  | inl e ↦ rw e (canon_new-Kept seen ss)
  | inr e ↦
      let (kept, distinct) = canon_new-Kept (canon s ∷ seen) ss in
      let (old, new) = Kept-cons seen (canon s) (canon_new (canon s ∷ seen) ss) kept in
      rw e (((ground arith, ground arith), old), (new, distinct))
]

-- Some text of the list has this canonical form.
abbrev pub Canonised : Text → List Text → Type 0
Canonised c = Any (λ s. canon s ≡ c)

In-cons : (c s : Text) (ss : List Text) → In c (s ∷ ss) → (c ≡ s) ⊎ In c ss
In-cons c s ss (here e) = inl e
In-cons c s ss (there h) = inr h

canon_new-Canonised : (seen ss : List Text) (c : Text) → In c (canon_new seen ss) → Canonised c ss
unfolding canon_new
canon_new-Canonised seen [] c h = elim h [ ]
canon_new-Canonised seen (s ∷ ss) c h =
    elim (Bool-cases (is_empty (canon s) || elem (canon s) seen)) [
      | inl e ↦ there (canon_new-Canonised seen ss c (rw e at h))
      | inr e ↦ elim (In-cons c (canon s) (canon_new (canon s ∷ seen) ss) (rw e at h)) [
        | inl k ↦ here (sym k)
        | inr k ↦ there (canon_new-Canonised (canon s ∷ seen) ss c k)
      ]
    ]

elem-or :
    (c s : Text) (seen : List Text) → elem c (s ∷ seen) ≡ true → (c ≡ s) ⊎ (elem c seen ≡ true)
unfolding elem
elem-or c s seen h = elim (or_true (text_eq c s) (any (text_eq c) seen) h) [
  | inl e ↦ inl (text_eq→≡ c s e)
  | inr e ↦ inr e
]

head-kept :
    (seen : List Text) (s c : Text) (ss : List Text)
    → c ≢ []
    → canon s ≡ c
    → In c (canon_new seen (s ∷ ss)) ⊎ (elem c seen ≡ true)
unfolding canon_new
head-kept seen s c ss n e = elim (Bool-cases (is_empty (canon s) || elem (canon s) seen)) [
  | inl k ↦ inr (ground arith)
  | inr k ↦ rw k (inl (here (sym e)))
]

Canonised-canon_new :
    (seen ss : List Text) (c : Text)
    → c ≢ []
    → Canonised c ss
    → In c (canon_new seen ss) ⊎ (elem c seen ≡ true)
unfolding canon_new
Canonised-canon_new seen [] c n h = elim h [ ]
Canonised-canon_new seen (s ∷ ss) c n (here e) = head-kept seen s c ss n e
Canonised-canon_new seen (s ∷ ss) c n (there h) =
    elim (Bool-cases (is_empty (canon s) || elem (canon s) seen)) [
      | inl k ↦ rw k (Canonised-canon_new seen ss c n h)
      | inr k ↦ rw k (elim (Canonised-canon_new (canon s ∷ seen) ss c n h) [
        | inl q ↦ inl (there q)
        | inr q ↦ elim (elem-or c (canon s) seen q) [ inl w ↦ inl (here w) | inr w ↦ inr w ]
      ])
    ]

kept-nonempty : (seen cs : List Text) (c : Text) → All (IsKept seen) cs → In c cs → c ≢ []
kept-nonempty seen [] c h k = elim k [ ]
kept-nonempty seen (d ∷ cs) c h (here e) = λ z. h.0.0 (sym e ∙ z)
kept-nonempty seen (d ∷ cs) c h (there k) = kept-nonempty seen cs c h.1 k

-- The normal form of a list of scopes: strictly ascending, and its entries are exactly the
-- canonical forms of the list that are not empty.
pub record IsNormal (scopes normal : List Text) : Type 0 where
  pub ascending : IsAscending normal
  pub entries : (c : Text) → In c normal ↔ ((c ≢ []) × Canonised c scopes)

unseen : (c : Text) → elem c [] ≡ false
unfolding elem
unseen c = refl

-- CanonScopes answers the normal form: sorted, without repetitions or empty texts, and with no
-- scope lost or made up.
pub canon_scopes-IsNormal : (scopes : List Text) → IsNormal scopes (canon_scopes scopes)
unfolding canon_scopes
canon_scopes-IsNormal scopes =
    let (kept, distinct) = canon_new-Kept [] scopes in
    let cs : List Text = canon_new [] scopes in
    record {
      ascending = sort-IsAscending cs distinct;
      entries = λ c. (
        λ h.
            let k = In-sort c cs h in
            (kept-nonempty [] cs c kept k, canon_new-Canonised [] scopes c k),
        λ h. elim (Canonised-canon_new [] scopes c h.0 h.1) [
          | inl k ↦ sort-In c cs k
          | inr k ↦ absurd (ground (arith, unseen c))
        ],
      );
    }
