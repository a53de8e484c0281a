-- ===== src/Hub/Observer/Posted.antt =====
-- What the callers of noteRoomEdge have left to do is done: something is in the queue then.
use xemu_cartographer.Base.{
  ◌≡◌, refl, ◌∙◌, inl, inr, Bool, true, false, ◌&&◌, List, [], ◌∷◌, ◌++◌, Bool-cases, ltb, length,
  is_empty,
}
use xemu_cartographer.Text.{Text, elem}
use xemu_cartographer.Text.Laws.{text_eq_refl}
use xemu_cartographer.Hub.Observer.{
  Watch, posts, stores, note_room_edge, take_one, act, room_event_buf, set_dirty,
}
use xemu_cartographer.Hub.Observer.Reaches.{Reach, Reach-here, Reach-then, Reach-act}

full-nonempty : (ts : List Text) → ltb (length ts) room_event_buf ≡ false → is_empty ts ≡ false
full-nonempty [] h = absurd cc
full-nonempty (t ∷ ts) h = refl

append-nonempty : (ts : List Text) (t : Text) → is_empty (ts ++ t ∷ []) ≡ false
append-nonempty [] t = refl
append-nonempty (x ∷ ts) t = refl

elem-head : (r : Text) (rs : List Text) → elem r (r ∷ rs) ≡ true
unfolding elem
elem-head r rs = rw (text_eq_refl r) refl

take_one-head : (r : Text) (rs : List Text) → take_one r (r ∷ rs) ≡ rs
unfolding take_one
take_one-head r rs = rw (text_eq_refl r) refl

stores_one :
    (r : Text) (rs : List Text) (w : Watch)
    → w.overflowed ≡ r ∷ rs
    → act (stores r) w ≡ set_dirty (record w { overflowed = rs })
unfolding act
stores_one r rs w e = rw (e, elem-head r rs, take_one-head r rs) refl

posts_one :
    (r : Text) (rs : List Text) (w : Watch)
    → w.posting ≡ r ∷ rs
    → act (posts r) w ≡ note_room_edge r (record w { posting = rs })
unfolding act
posts_one r rs w e = rw (e, elem-head r rs, take_one-head r rs) refl

abbrev Stored : Watch → Watch → Type 0
Stored w v = (v.overflowed ≡ []) × (v.posting ≡ w.posting) × (v.room_events ≡ w.room_events)

stores_all : (rs : List Text) (w : Watch) → w.overflowed ≡ rs → Reach (Stored w) w
stores_all [] w e = Reach-here (Stored w) w (e, refl, refl)
stores_all (r ∷ rs) w e =
    let v = set_dirty (record w { overflowed = rs }) in
    Reach-act (Stored w) (stores r) w v refl (stores_one r rs w e) refl (stores_all rs v refl)

-- Nobody is left inside noteRoomEdge, and a room is in the queue.
abbrev pub Queued : Watch → Type 0
Queued v = (v.posting ≡ []) × (v.overflowed ≡ []) × (is_empty v.room_events ≡ false)

abbrev Sent : List Text → Watch → Type 0
Sent rs v = (v.posting ≡ rs) × (v.overflowed ≡ []) × (is_empty v.room_events ≡ false)

sends_one :
    (r : Text) (rs : List Text) (w : Watch)
    → w.posting ≡ r ∷ rs
    → w.overflowed ≡ []
    → Reach (Sent rs) w
unfolding note_room_edge
sends_one r rs w e o =
    let sent : Watch = record w { posting = rs } in
    elim (Bool-cases (ltb (length w.room_events) room_event_buf)) [
      | inl f ↦
          let v : Watch = record sent { room_events = w.room_events ++ r ∷ [] } in
          Reach-act (Sent rs) (posts r) w v refl (posts_one r rs w e ∙ rw f refl) refl
            (Reach-here (Sent rs) v (refl, o, append-nonempty w.room_events r))
      | inr f ↦
          let v : Watch = record sent { overflowed = r ∷ w.overflowed } in
          let u = set_dirty (record v { overflowed = w.overflowed }) in
          Reach-act (Sent rs) (posts r) w v refl (posts_one r rs w e ∙ rw f refl) refl (
            Reach-act (Sent rs) (stores r) v u refl (stores_one r w.overflowed v refl) refl
              (Reach-here (Sent rs) u (refl, o, full-nonempty w.room_events f)))
    ]

sends_all :
    (rs : List Text) (w : Watch)
    → w.posting ≡ rs
    → w.overflowed ≡ []
    → (is_empty rs && is_empty w.room_events) ≡ false
    → Reach Queued w
sends_all [] w e o n = Reach-here Queued w (e, o, n)
sends_all (r ∷ rs) w e o n =
    Reach-then (Sent rs) Queued w (sends_one r rs w e o) (λ v (posting, overflowed, some_queued).
      sends_all rs v posting overflowed (rw some_queued (and_end (is_empty rs))))
  where
    and_end : (b : Bool) → (b && false) ≡ false
    and_end true = refl
    and_end false = refl

pub all-Queued :
    (w : Watch) → (is_empty w.posting && is_empty w.room_events) ≡ false → Reach Queued w
all-Queued w n =
    Reach-then (Stored w) Queued w (stores_all w.overflowed w refl)
      (λ v (o, posting, events). sends_all w.posting v posting o (rw events n))
