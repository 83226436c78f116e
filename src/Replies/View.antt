-- ===== src/Replies/View.antt =====
-- hub/replies.py: what one reply sees of the state of the tasks.
pub mod Events
use mathlib.Core.Path.{subst}
use kinby.Common.{
  ℕ, ◌≤◌, ◌<◌, Bool, true, false, not, ◌&&◌, ◌||◌, Option, none, some, List, ◌≡◌, refl, String,
  ◌==◌, nat_eq, if◌then◌else◌, inl, inr, Bool-cases, length, keep, arith, sym, ◌∙◌, ◌+◌,
}
use kinby.Common.Keyed.{Dict, get, remove, get-remove}
use kinby.Replies.Store.{Reply, ReceivedReply, is_received, ReplyStatus, forget_channel}
use kinby.Replies.Tasks.{Replies, Call, Ending, rejected, Waiting, on_instance, on_stop}
use kinby.Replies.Rows.{IsTable, map_row}

-- A call whose answer may have landed in the instance.
abbrev pub may_have_landed : Ending → Bool
may_have_landed rejected = false
may_have_landed _ = true

abbrev pub asks_for : ℕ → Call → Bool
asks_for r call = call.reply_id == r && may_have_landed call.ending

abbrev pub asked : ℕ → List Call → ℕ
asked r log = length (keep (asks_for r) log)

-- What one reply `r` sees of a state.
abbrev pub is_calling : ℕ → Option (ReceivedReply × Waiting) → Bool
is_calling r none = false
is_calling r (some (reply, on_stop)) = false
is_calling r (some (reply, on_instance question)) = reply.reply_id == r

abbrev pub has_row : Option Reply → Bool
has_row none = false
has_row (some row) = true

abbrev pub has_task : Option ReceivedReply → Bool
has_task none = false
has_task (some reply) = true

-- Its row is settled, or marked as calling.
abbrev pub is_marked : Option Reply → Bool
is_marked none = true
is_marked (some row) = not (is_received row.status) || row.calling

abbrev pub is_called : Option Reply → Bool
is_called none = false
is_called (some row) = row.calling

-- Its task knows that it was calling.
abbrev pub is_told : Option ReceivedReply → Bool
is_told none = true
is_told (some reply) = reply.calling

pub record View (r n : ℕ) (row : Option Reply) (task : Option ReceivedReply) (calling : Bool)
    : Type 0 where
  pub at_most : n ≤ 1
  pub absent : has_row row ≡ false → (n ≡ 0) × (has_task task ≡ false) × (calling ≡ false)
  pub marked : 0 < n → is_marked row ≡ true
  pub told : 0 < n → is_told task ≡ true
  pub held : calling ≡ true → (n ≡ 0) × (is_called row ≡ true)

pub record Once (r : ℕ) (s : Replies) : Type 0 where
  pub table : IsTable s.hub.replies
  pub own : (k : ℕ) (reply : ReceivedReply) → get k s.tasks ≡ some reply → reply.reply_id ≡ k
  pub view :
      View r (asked r s.calls) (get r s.hub.replies) (get r s.tasks) (is_calling r s.applying)

has_row-map_row : (f : Reply → Reply) (row : Option Reply) → has_row (map_row f row) ≡ has_row row
has_row-map_row f none = refl
has_row-map_row f (some row) = refl

-- What is needed of a state whose task for the reply `id` ends with an outcome.
pub record Settling (r id n : ℕ) (row : Option Reply) (task : Option ReceivedReply) : Type 0 where
  pub at_most : n ≤ 1
  pub absent : has_row row ≡ false → (n ≡ 0) × (has_task task ≡ false)
  pub other : (id == r) ≡ false → View r n row task false

pub View-Settling :
    {r n : ℕ} {row : Option Reply} {task : Option ReceivedReply} (id : ℕ)
    → View r n row task false
    → Settling r id n row task
View-Settling id v = record {
  at_most = v.at_most;
  absent = λ h. ground (arith, v.absent h);
  other = λ h. v;
}

abbrev pub settle_row : ReplyStatus → String → Reply → Reply
settle_row status outcome row = record row { status = status; outcome = some outcome }

settled_marked :
    (status : ReplyStatus) (outcome : String) (row : Option Reply)
    → is_received status ≡ false
    → is_marked (map_row (settle_row status outcome) row) ≡ true
settled_marked status outcome none e = refl
settled_marked status outcome (some row) e = ground (arith, e)

pub settle-View :
    (r id n : ℕ) (row : Option Reply) (task : Option ReceivedReply) (status : ReplyStatus)
    (outcome : String)
    → is_received status ≡ false
    → Settling r id n row task
    → View r n
        (if id == r then map_row (settle_row status outcome) row else row)
        (if id == r then none else task)
        false
settle-View r id n row task status outcome e v = elim (Bool-cases (id == r)) [
  | inr other ↦ rw other (v.other other)
  | inl same ↦ rw same (record {
    at_most = v.at_most;
    absent = λ h. ground (arith, v.absent (sym (has_row-map_row _ row) ∙ h), h);
    marked = λ h. settled_marked status outcome row e;
    told = λ h. refl;
    held = λ h. absurd (ground arith);
  })
]

pub own-remove :
    (id : ℕ) (tasks : Dict ℕ ReceivedReply)
    → ((k : ℕ) (reply : ReceivedReply) → get k tasks ≡ some reply → reply.reply_id ≡ k)
    → (k : ℕ) (reply : ReceivedReply) → get k (remove id tasks) ≡ some reply
    → reply.reply_id ≡ k
own-remove id tasks own k reply e = own k reply (ground (arith, get-remove id k tasks, e))

-- The mark of a call, set or taken off.
abbrev pub set_calling : Bool → Reply → Reply
set_calling calling row = record row { calling = calling }

pub free-View :
    {r n : ℕ} {row : Option Reply} {task : Option ReceivedReply} {calling : Bool}
    → View r n row task calling
    → View r n row task false
free-View v = record {
  at_most = v.at_most;
  absent = λ h. ground (arith, v.absent h);
  marked = v.marked;
  told = v.told;
  held = λ h. absurd (ground arith);
}

pub mark-View :
    (r id n : ℕ) (row : Option Reply) (task : Option ReceivedReply) (b : Bool)
    → ((id == r) ≡ true → n ≡ 0)
    → View r n row task false
    → View r n (if id == r then map_row (set_calling b) row else row) task false
mark-View r id n row task b none_yet v = elim (Bool-cases (id == r)) [
  | inr other ↦ rw other v
  | inl same ↦ rw same (record {
    at_most = v.at_most;
    absent = λ h. v.absent (sym (has_row-map_row _ row) ∙ h);
    marked = λ h. absurd (omega (arith, none_yet same));
    told = λ h. absurd (omega (arith, none_yet same));
    held = λ h. absurd (ground arith);
  })
]

called_row :
    (row : Option Reply) → has_row row ≡ true → is_called (map_row (set_calling true) row) ≡ true
called_row none h = absurd (ground arith)
called_row (some row) h = refl

pub call-View :
    (r id n : ℕ) (row : Option Reply) (task : Option ReceivedReply)
    → ((id == r) ≡ true → (n ≡ 0) × (has_row row ≡ true))
    → View r n row task false
    → View r n (if id == r then map_row (set_calling true) row else row) task (id == r)
call-View r id n row task fresh v = elim (Bool-cases (id == r)) [
  | inr other ↦ rw other v
  | inl same ↦ rw same (record {
    at_most = v.at_most;
    absent = λ h. absurd (ground (arith, has_row-map_row (set_calling true) row, fresh same));
    marked = λ h. absurd (omega (arith, (fresh same).0));
    told = λ h. absurd (omega (arith, (fresh same).0));
    held = λ h. ((fresh same).0, called_row row ((fresh same).1));
  })
]

-- A call of the reply `id` ends, and it may have landed.
pub land-Settling :
    (r id n m : ℕ) (row : Option Reply) (task : Option ReceivedReply)
    → m ≡ n + (if id == r then 1 else 0)
    → View r n row task (id == r)
    → Settling r id m row task
land-Settling r id n m row task e v = record {
  at_most = ground (arith, e, v.at_most, v.held);
  absent = λ h. (ground (arith, e, v.absent h), (v.absent h).1);
  other = λ h. subst (λ k. View r k row task false) (ground (arith, e, h)) (free-View v);
}
