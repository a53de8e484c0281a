-- ===== src/Authz/Principal/Order.antt =====
-- The order of texts, and sorting by insertion.
use xemu_cartographer.Base.{
  ◌≡◌, ◌≢◌, refl, sym, ◌⊎◌, inl, inr, true, false, List, [], ◌∷◌, arith, Bool-cases, All, In, here,
  there,
}
use xemu_cartographer.Text.{Text}
use xemu_cartographer.Authz.Principal.{text_le, insert_text, sort_texts}

pub text_le_trans : (s t u : Text) → text_le s t ≡ true → text_le t u ≡ true → text_le s u ≡ true
unfolding text_le
text_le_trans [] t u h k = refl
text_le_trans (x ∷ s) [] u h k = cc
text_le_trans (x ∷ s) (y ∷ t) [] h k = cc
text_le_trans (x ∷ s) (y ∷ t) (z ∷ u) h k = ground (arith, text_le_trans s t u)

pub text_le_total : (s t : Text) → text_le s t ≡ false → text_le t s ≡ true
unfolding text_le
text_le_total [] t h = cc
text_le_total (x ∷ s) [] h = refl
text_le_total (x ∷ s) (y ∷ t) h = ground (arith, text_le_total s t)

-- Each text comes before all that follow it, and differs from them.
abbrev Before : Text → Text → Type 0
Before s t = (text_le s t ≡ true) × (s ≢ t)

abbrev pub IsAscending : List Text → Type 0
IsAscending [] = Unit
IsAscending (s ∷ ss) = All (Before s) ss × IsAscending ss

-- The text is not in the list.
abbrev pub IsNew : Text → List Text → Type 0
IsNew s ss = All (λ t. s ≢ t) ss

abbrev pub IsDistinct : List Text → Type 0
IsDistinct [] = Unit
IsDistinct (s ∷ ss) = IsNew s ss × IsDistinct ss

pub insert-All :
    (P : Text → Type 0) (s : Text) (ss : List Text) → P s → All P ss → All P (insert_text s ss)
unfolding insert_text
insert-All P s [] p h = (p, tt)
insert-All P s (t ∷ ss) p h = elim (Bool-cases (text_le s t)) [
  | inl e ↦ rw e (p, h)
  | inr e ↦ rw e (h.0, insert-All P s ss p h.1)
]

Before-trans :
    (s t : Text) (ss : List Text)
    → text_le s t ≡ true
    → IsNew s ss
    → All (Before t) ss
    → All (Before s) ss
Before-trans s t [] h n k = tt
Before-trans s t (u ∷ ss) h n k =
    ((text_le_trans s t u h k.0.0, n.0), Before-trans s t ss h n.1 k.1)

insert-IsAscending :
    (s : Text) (ss : List Text) → IsNew s ss → IsAscending ss → IsAscending (insert_text s ss)
unfolding insert_text
insert-IsAscending s [] n h = (tt, tt)
insert-IsAscending s (t ∷ ss) n h = elim (Bool-cases (text_le s t)) [
  | inl e ↦ rw e (((e, n.0), Before-trans s t ss e n.1 h.0), h)
  | inr e ↦ rw e (
    insert-All (Before t) s ss (text_le_total s t e, λ k. n.0 (sym k)) h.0,
    insert-IsAscending s ss n.1 h.1,
  )
]

sort-All : (P : Text → Type 0) (ss : List Text) → All P ss → All P (sort_texts ss)
unfolding sort_texts
sort-All P [] h = tt
sort-All P (s ∷ ss) h = insert-All P s (sort_texts ss) h.0 (sort-All P ss h.1)

pub sort-IsAscending : (ss : List Text) → IsDistinct ss → IsAscending (sort_texts ss)
unfolding sort_texts
sort-IsAscending [] d = tt
sort-IsAscending (s ∷ ss) d =
    insert-IsAscending s (sort_texts ss) (sort-All (λ t. s ≢ t) ss d.0) (sort-IsAscending ss d.1)

In-cons : (c s : Text) (ss : List Text) → In c (s ∷ ss) → (c ≡ s) ⊎ In c ss
In-cons c s ss (here e) = inl e
In-cons c s ss (there h) = inr h

In-insert : (c s : Text) (ss : List Text) → In c (insert_text s ss) → In c (s ∷ ss)
unfolding insert_text
In-insert c s [] h = h
In-insert c s (t ∷ ss) h = elim (Bool-cases (text_le s t)) [
  | inl e ↦ rw e at h
  | inr e ↦ elim (In-cons c t (insert_text s ss) (rw e at h)) [
    | inl k ↦ there (here k)
    | inr k ↦ elim (In-cons c s ss (In-insert c s ss k)) [
      | inl q ↦ here q
      | inr q ↦ there (there q)
    ]
  ]
]

insert-In : (c s : Text) (ss : List Text) → In c (s ∷ ss) → In c (insert_text s ss)
unfolding insert_text
insert-In c s [] h = h
insert-In c s (t ∷ ss) h = elim (Bool-cases (text_le s t)) [
  | inl e ↦ rw e h
  | inr e ↦ rw e (elim (In-cons c s (t ∷ ss) h) [
    | inl k ↦ there (insert-In c s ss (here k))
    | inr k ↦ elim (In-cons c t ss k) [
      | inl q ↦ here q
      | inr q ↦ there (insert-In c s ss (there q))
    ]
  ])
]

pub In-sort : (c : Text) (ss : List Text) → In c (sort_texts ss) → In c ss
unfolding sort_texts
In-sort c [] h = h
In-sort c (s ∷ ss) h = elim (In-cons c s (sort_texts ss) (In-insert c s (sort_texts ss) h)) [
  | inl e ↦ here e
  | inr k ↦ there (In-sort c ss k)
]

pub sort-In : (c : Text) (ss : List Text) → In c ss → In c (sort_texts ss)
unfolding sort_texts
sort-In c [] h = h
sort-In c (s ∷ ss) (here e) = insert-In c s (sort_texts ss) (here e)
sort-In c (s ∷ ss) (there h) = insert-In c s (sort_texts ss) (there (sort-In c ss h))
