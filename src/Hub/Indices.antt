-- ===== src/Hub/Indices.antt =====
-- The sets of the hub's indices under each change.
use xemu_cartographer.Base.{
  ◌≡◌, ◌≢◌, refl, ap, ◌∙◌, inl, inr, true, false, not, is_empty, List, [], ◌∷◌, arith, Bool-cases,
  All, ◌==◌,
}
use xemu_cartographer.Text.{Text, text_eq}
use xemu_cartographer.Hub.{
  Client, Index, holds, add_client, drop_client, members, join_set, keep_entry, leave_set,
  leave_all, has_entry,
}

-- Every room has a member, and every member is one of the clients.
abbrev pub IsHeld : List Client → List Client → Type 0
IsHeld clients cs = (cs ≢ []) × All (λ c. holds c clients ≡ true) cs

unfoldable pub IsIndex : List Client → Index → Type 0
IsIndex clients [] = Unit
IsIndex clients ((n, cs) ∷ index) = IsHeld clients cs × IsIndex clients index

holds-add_client :
    (c d : Client) (cs : List Client) → holds d cs ≡ true → holds d (add_client c cs) ≡ true
unfolding add_client holds
holds-add_client c d cs h = ground arith

holds-drop_client :
    (c d : Client) (cs : List Client)
    → holds d cs ≡ true
    → d ≢ c
    → holds d (drop_client c cs) ≡ true
unfolding drop_client holds
holds-drop_client c d [] h ne = h
holds-drop_client c d (e ∷ cs) h ne = ground (arith, holds-drop_client c d cs)

pub drop_client-gone : (c : Client) (cs : List Client) → holds c (drop_client c cs) ≡ false
unfolding drop_client holds
drop_client-gone c [] = refl
drop_client-gone c (e ∷ cs) = ground (arith, drop_client-gone c cs)

drop_client-All :
    (c : Client) (clients cs : List Client)
    → All (λ d. holds d clients ≡ true) cs
    → All (λ d. holds d (drop_client c clients) ≡ true) (drop_client c cs)
unfolding drop_client
drop_client-All c clients [] h = tt
drop_client-All c clients (e ∷ cs) h = elim (Bool-cases (e == c)) [
  | inl q ↦ rw (drop_client, q) (drop_client-All c clients cs h.1)
  | inr q ↦
      rw (drop_client, q)
        (holds-drop_client c e clients h.0 (ground arith), drop_client-All c clients cs h.1)
]

absent-All :
    (c : Client) (clients cs : List Client)
    → holds c cs ≡ false
    → All (λ d. holds d clients ≡ true) cs
    → All (λ d. holds d (drop_client c clients) ≡ true) cs
unfolding holds
absent-All c clients [] a h = tt
absent-All c clients (e ∷ cs) a h =
    (holds-drop_client c e clients h.0 (ground arith), absent-All c clients cs (ground arith) h.1)

less-All :
    (P : Client → Type 0) (c : Client) (cs : List Client) → All P cs → All P (drop_client c cs)
unfolding drop_client
less-All P c [] h = tt
less-All P c (e ∷ cs) h = elim (Bool-cases (e == c)) [
  | inl q ↦ rw q (less-All P c cs h.1)
  | inr q ↦ rw q (h.0, less-All P c cs h.1)
]

more-All :
    (c : Client) (clients cs : List Client)
    → All (λ d. holds d clients ≡ true) cs
    → All (λ d. holds d (add_client c clients) ≡ true) cs
more-All c clients [] h = tt
more-All c clients (e ∷ cs) h = (holds-add_client c e clients h.0, more-All c clients cs h.1)

keep_entry-IsIndex :
    (clients : List Client) (n : Text) (cs : List Client) (index : Index)
    → All (λ d. holds d clients ≡ true) cs
    → IsIndex clients index
    → IsIndex clients (keep_entry n cs index)
unfolding keep_entry IsIndex
keep_entry-IsIndex clients n [] index h v = v
keep_entry-IsIndex clients n (c ∷ cs) index h v = (((λ e. cc e), h), v)

joined-IsHeld :
    (clients : List Client) (c : Client) (cs : List Client)
    → holds c clients ≡ true
    → IsHeld clients cs
    → IsHeld clients (add_client c cs)
unfolding add_client
joined-IsHeld clients c cs k v = elim (Bool-cases (holds c cs)) [
  | inl e ↦ rw e v
  | inr e ↦ rw e ((λ q. cc q), (k, v.1))
]

pub add_client-IsIndex :
    (c : Client) (clients : List Client) (index : Index)
    → IsIndex clients index
    → IsIndex (add_client c clients) index
unfolding IsIndex
add_client-IsIndex c clients [] v = tt
add_client-IsIndex c clients ((n, cs) ∷ index) v =
    ((v.0.0, more-All c clients cs v.0.1), add_client-IsIndex c clients index v.1)

pub join_set-IsIndex :
    (clients : List Client) (c : Client) (name : Text) (index : Index)
    → holds c clients ≡ true
    → IsIndex clients index
    → IsIndex clients (join_set c name index)
unfolding IsIndex join_set
join_set-IsIndex clients c name [] k v = (((λ q. cc q), (k, tt)), tt)
join_set-IsIndex clients c name ((n, cs) ∷ index) k v = elim (Bool-cases (text_eq n name)) [
  | inl e ↦ rw e (joined-IsHeld clients c cs k v.0, v.1)
  | inr e ↦ rw e (v.0, join_set-IsIndex clients c name index k v.1)
]

pub leave_set-IsIndex :
    (clients : List Client) (c : Client) (name : Text) (index : Index)
    → IsIndex clients index
    → IsIndex clients (leave_set c name index)
unfolding IsIndex leave_set
leave_set-IsIndex clients c name [] v = tt
leave_set-IsIndex clients c name ((n, cs) ∷ index) v = elim (Bool-cases (text_eq n name)) [
  | inl e ↦ rw e (
      keep_entry-IsIndex clients n (drop_client c cs) (leave_set c name index)
        (less-All (λ d. holds d clients ≡ true) c cs v.0.1)
        (leave_set-IsIndex clients c name index v.1))
  | inr e ↦ rw e (v.0, leave_set-IsIndex clients c name index v.1)
]

pub leave_all-IsIndex :
    (clients : List Client) (c : Client) (index : Index)
    → IsIndex clients index
    → IsIndex (drop_client c clients) (leave_all c index)
unfolding IsIndex leave_all
leave_all-IsIndex clients c [] v = tt
leave_all-IsIndex clients c ((n, cs) ∷ index) v =
    let rest = leave_all-IsIndex clients c index v.1 in
    elim (Bool-cases (holds c cs)) [
      | inl e ↦ rw e (
          keep_entry-IsIndex (drop_client c clients) n (drop_client c cs) (leave_all c index)
            (drop_client-All c clients cs v.0.1) rest)
      | inr e ↦ rw e ((v.0.0, absent-All c clients cs e v.0.1), rest)
    ]

held-clients :
    (clients : List Client) (c : Client) (cs : List Client)
    → All (λ d. holds d clients ≡ true) cs
    → holds c cs ≡ true
    → holds c clients ≡ true
unfolding holds
held-clients clients c [] h e = cc
held-clients clients c (d ∷ cs) h e = elim (Bool-cases (d == c)) [
  | inl q ↦ let same : c ≡ d = ground arith in ap (λ x. holds x clients) same ∙ h.0
  | inr q ↦ held-clients clients c cs h.1 (ground arith)
]

-- A member of a room is one of the clients.
pub members-clients :
    (clients : List Client) (c : Client) (name : Text) (index : Index)
    → IsIndex clients index
    → holds c (members name index) ≡ true
    → holds c clients ≡ true
unfolding IsIndex members
members-clients clients c name [] v h = unfold holds in cc h
members-clients clients c name ((n, cs) ∷ index) v h = elim (Bool-cases (text_eq n name)) [
  | inl e ↦ held-clients clients c cs v.0.1 (rw e at h)
  | inr e ↦ members-clients clients c name index v.1 (rw e at h)
]

pub has_entry-members :
    (clients : List Client) (name : Text) (index : Index)
    → IsIndex clients index
    → has_entry name index ≡ not (is_empty (members name index))
unfolding IsIndex members has_entry
has_entry-members clients name [] v = refl
has_entry-members clients name ((n, []) ∷ index) v = absurd (v.0.0 refl)
has_entry-members clients name ((n, c ∷ cs) ∷ index) v = elim (Bool-cases (text_eq n name)) [
  | inl e ↦ rw e refl
  | inr e ↦ rw e (has_entry-members clients name index v.1)
]
