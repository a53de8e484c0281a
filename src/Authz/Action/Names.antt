-- ===== src/Authz/Action/Names.antt =====
-- The actions and their texts are in one-to-one correspondence.
use xemu_cartographer.Base.{◌≡◌, refl, inl, inr, some, List, [], ◌∷◌, arith, Bool-cases}
use xemu_cartographer.Text.{Text, text_eq}
use xemu_cartographer.Text.Laws.{text_eq→≡}
use xemu_cartographer.Authz.Action.{
  Action, room_join, action_text, all_actions, find_action, action_of,
}

find_action-text :
    (t : Text) (as' : List Action) (a : Action) → find_action t as' ≡ some a → action_text a ≡ t
unfolding find_action
find_action-text t [] a h = cc
find_action-text t (b ∷ as') a h = elim (Bool-cases (text_eq (action_text b) t)) [
  | inl e ↦ ground (arith, text_eq→≡ (action_text b) t e)
  | inr e ↦ find_action-text t as' a (rw (e, find_action) at h)
]

pub action_text-action_of : (t : Text) (a : Action) → action_of t ≡ some a → action_text a ≡ t
unfolding action_of
action_text-action_of t a h = find_action-text t all_actions a h

-- No two of the constants are the same string.
pub action_of-action_text : (a : Action) → action_of (action_text a) ≡ some a
unfolding action_of action_text all_actions text_eq
action_of-action_text room_join = refl
action_of-action_text _ = refl

pub action_text_injective : (a b : Action) → action_text a ≡ action_text b → a ≡ b
action_text_injective a b h = cc (action_of-action_text a, action_of-action_text b)
