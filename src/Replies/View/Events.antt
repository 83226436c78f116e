-- ===== src/Replies/View/Events.antt =====
-- hub/replies.py: how what one reply sees changes when replies arrive and the hub starts again.
use kinby.Replies.View.{has_row, is_called, View, has_task, is_marked, is_told}
use kinby.Common.{
  ℕ, ◌<◌, Bool, true, false, Option, none, some, ◌≡◌, refl, ◌==◌, nat_eq, if◌then◌else◌, inl, inr,
  Bool-cases, arith, ◌+◌,
}
use kinby.Replies.Store.{Reply, ReceivedReply, forget_channel}
use kinby.Replies.Rows.{map_row}

-- A reply arrives under an id that no row has.
pub arrive-View :
    (r id n : ℕ) (row : Reply) (old : Option Reply) (task new : Option ReceivedReply)
    (calling : Bool)
    → ((id == r) ≡ true → has_row old ≡ false)
    → ((id == r) ≡ false → new ≡ task)
    → View r n old task calling
    → View r n (if id == r then some row else old) new calling
arrive-View r id n row old task new calling unknown same_task v = elim (Bool-cases (id == r)) [
  | inr other ↦ rw (other, same_task other) v
  | inl same ↦ rw same (record {
    at_most = v.at_most;
    absent = λ h. absurd (ground arith);
    marked = λ h. absurd (omega (arith, (v.absent (unknown same)).0));
    told = λ h. absurd (omega (arith, (v.absent (unknown same)).0));
    held = λ h. absurd (ground (arith, v.absent (unknown same), h));
  })
]

-- A channel is deleted.
pub forget-View :
    (r n : ℕ) (row : Option Reply) (task : Option ReceivedReply) (calling : Bool) (c : ℕ)
    → View r n row task calling
    → View r n
        (map_row (λ row. record row { channel_id = forget_channel c row.channel_id }) row)
        task
        calling
forget-View r n none task calling c v = v
forget-View r n (some row) task calling c v = record {
  at_most = v.at_most;
  absent = λ h. absurd (ground arith);
  marked = v.marked;
  told = v.told;
  held = v.held;
}

called_marked : (row : Option Reply) → is_called row ≡ true → is_marked row ≡ true
called_marked none h = refl
called_marked (some row) h = ground (arith, h)

-- The hub starts again, with the tasks of its received rows.
pub restart-View :
    (r n m : ℕ) (row : Option Reply) (task new : Option ReceivedReply) (calling : Bool)
    → m ≡ n + (if calling then 1 else 0)
    → (has_row row ≡ false → has_task new ≡ false)
    → (is_marked row ≡ true → is_told new ≡ true)
    → View r n row task calling
    → View r m row new false
restart-View r n m row task new calling e gone knows v = record {
  at_most = ground (arith, e, v.at_most, v.held);
  absent = λ h. (ground (arith, e, v.absent h), gone h, refl);
  marked = marked_now;
  told = λ h. knows (marked_now h);
  held = λ h. absurd (ground arith);
}
  where
    marked_now : 0 < m → is_marked row ≡ true
    marked_now h = elim (Bool-cases calling) [
      | inl busy ↦ called_marked row ((v.held busy).1)
      | inr free ↦ v.marked (ground (arith, e, free, h))
    ]
