-- ===== src/Replies/Rows.antt =====
-- hub/registry.py: what the statements on the table of the replies leave in its rows.
use kinby.Common.{
  ℕ, Option, none, some, [], ◌∷◌, ◌≡◌, refl, ◌==◌, nat_eq, if◌then◌else◌, inl, inr, Bool-cases,
  Option-cases, arith, ◌∙◌,
}
use kinby.Common.Keyed.{Dict, get, put, get-put}
use kinby.Outbox.Store.{Store}
use kinby.Replies.Store.{
  Hub, Reply, ReceivedReply, received_reply, received_replies, change_reply, change_row,
  without_channel, forget_channel,
}

abbrev pub map_row : (Reply → Reply) → Option Reply → Option Reply
map_row f none = none
map_row f (some row) = some (f row)

pub get-change_row :
    (id k : ℕ) (f : Reply → Reply) (rows : Dict ℕ Reply) (found : Option Reply)
    → get id rows ≡ found
    → get k (change_row id f rows found) ≡ (if id == k then map_row f (get k rows) else get k rows)
get-change_row id k f rows none e = ground (arith, e)
get-change_row id k f rows (some row) e = ground (arith, get-put id k (f row) rows)

pub get-change_reply :
    (id k : ℕ) (f : Reply → Reply) (hub : Hub)
    → get k ((change_reply id f hub).replies)
      ≡ (if id == k then map_row f (get k hub.replies) else get k hub.replies)
unfolding change_reply
get-change_reply id k f hub = get-change_row id k f hub.replies (get id hub.replies) refl

pub get-without_channel :
    (c k : ℕ) (rows : Dict ℕ Reply)
    → get k (without_channel c rows)
      ≡ map_row (λ row. record row { channel_id = forget_channel c row.channel_id }) (get k rows)
unfolding get
get-without_channel c k [] = refl
get-without_channel c k ((j, row) ∷ rows) = ground (arith, get-without_channel c k rows)

-- Every key is there once.
abbrev pub IsTable : Dict ℕ Reply → Type 0
IsTable [] = Unit {0}
IsTable ((k, row) ∷ rows) = (get k rows ≡ none) × IsTable rows

pub IsTable-put : (k : ℕ) (v : Reply) (rows : Dict ℕ Reply) → IsTable rows → IsTable (put k v rows)
unfolding put get
IsTable-put k v [] t = (refl, tt)
IsTable-put k v ((j, row) ∷ rows) t = elim (Bool-cases (j == k)) [
  | inl same ↦ rw same t
  | inr other ↦ rw other (get-put k j v rows ∙ ground (arith, t), IsTable-put k v rows t.1)
]

abbrev pub received_at_key : Store → ℕ → Option Reply → Option ReceivedReply
received_at_key store k none = none
received_at_key store k (some row) = received_reply store k row

pub get-received_replies :
    (store : Store) (k : ℕ) (rows : Dict ℕ Reply)
    → IsTable rows
    → get k (received_replies store rows) ≡ received_at_key store k (get k rows)
unfolding get received_replies
get-received_replies store k [] t = refl
get-received_replies store k ((j, row) ∷ rows) t =
    let rest = get-received_replies store k rows t.1 in
    let none_there = t.0 in
    elim (Bool-cases (j == k)) [
      | inl same ↦ elim (Option-cases (received_reply store j row)) [
        | inl gone ↦ ground (arith, gone, rest, none_there, same)
        | inr (reply, there) ↦ ground (arith, there, same)
      ]
      | inr other ↦ elim (Option-cases (received_reply store j row)) [
        | inl gone ↦ ground (arith, gone, rest, other)
        | inr (reply, there) ↦ ground (arith, there, rest, other)
      ]
    ]

pub IsTable-change_reply :
    (id : ℕ) (f : Reply → Reply) (hub : Hub)
    → IsTable hub.replies
    → IsTable ((change_reply id f hub).replies)
unfolding change_reply
IsTable-change_reply id f hub t = elim (Option-cases (get id hub.replies)) [
  | inl gone ↦ rw gone t
  | inr (row, there) ↦ rw there (IsTable-put id (f row) hub.replies t)
]

pub IsTable-without_channel :
    (c : ℕ) (rows : Dict ℕ Reply) → IsTable rows → IsTable (without_channel c rows)
IsTable-without_channel c [] t = tt
IsTable-without_channel c ((k, row) ∷ rows) t =
    (ground (arith, get-without_channel c k rows, t.0), IsTable-without_channel c rows t.1)
