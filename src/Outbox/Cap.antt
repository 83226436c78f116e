-- ===== src/Outbox/Cap.antt =====
-- hub/outbox.py: the daily cap on what the agents of an instance raise.
use kinby.Common.{
  ℕ, ◌+◌, ◌≤◌, Bool, true, false, not, ◌&&◌, Option, none, some, List, [], ◌∷◌, ◌++◌, ◌≡◌, refl, ap,
  ◌∙◌, arith, String, if◌then◌else◌, keep, length, all, leb, Bool-cases, beq_refl, eq_of_beq, inl,
  inr, ◌==◌, nat_eq, string_eq,
}
use kinby.Outbox.Store.{
  Store, Notification, ManagedInstance, counts_since, insert_beside, insert_notification,
  notifications_raised, instance_of, is_none, DeliveryStatus,
}
use kinby.Outbox.Raise.{
  Calendar, NotificationRaiseCommand, Message, notify, notify_for, raise_notification, raise_for,
  notification_row, deliveries_for, cap_key, is_capped, cap_message, message_of, daily_cap,
}
use kinby.Outbox.Again.{Raise, raise_all}

module _ (i midnight : ℕ) (notice : String) where
  is_notice : (key : String) → key ≡ notice → (key == notice) ≡ true
  is_notice key e = ap (λ k. k == notice) e ∙ beq_refl notice

  -- A notification that counts against the cap, other than the notice about the cap itself.
  abbrev of_agent : Notification → Bool
  of_agent row = counts_since i midnight row && not (row.source_key == notice)

  abbrev pub agent_count : List Notification → ℕ
  agent_count rows = length (keep of_agent rows)

  agent_count-append :
      (rows : List Notification) (row : Notification)
      → agent_count (rows ++ row ∷ [])
        ≡ (if of_agent row then agent_count rows + 1 else agent_count rows)
  agent_count-append [] row = ground arith
  agent_count-append (other ∷ rows) row = ground (arith, agent_count-append rows row)

  agent_count-counted :
      (rows : List Notification) → agent_count rows ≤ length (keep (counts_since i midnight) rows)
  agent_count-counted [] = omega arith
  agent_count-counted (row ∷ rows) = ground (arith, agent_count-counted rows)

  insert_beside-quiet :
      (row : Notification) (new : List (ℕ × DeliveryStatus)) (store : Store)
      (old : Option Notification)
      → of_agent row ≡ false
      → agent_count (((insert_beside row new store old).0).notifications)
        ≡ agent_count store.notifications
  insert_beside-quiet row new store (some old) quiet = refl
  insert_beside-quiet row new store none quiet =
      agent_count-append store.notifications row ∙ rw (quiet) refl

  insert_beside-more :
      (row : Notification) (new : List (ℕ × DeliveryStatus)) (store : Store)
      (old : Option Notification)
      → agent_count (((insert_beside row new store old).0).notifications)
        ≤ agent_count store.notifications + 1
  insert_beside-more row new store (some old) = omega arith
  insert_beside-more row new store none = ground (arith, agent_count-append store.notifications row)

  module _ (calendar : Calendar) (public_url : Option String) where
    notify-quiet :
        (j : ℕ) (key : String) (message : Message) (now fresh : ℕ) (store : Store)
        (managed : Option ManagedInstance)
        → ((j == i && leb midnight now && is_none message.approval) && not (key == notice)) ≡ false
        → agent_count
            ((notify_for public_url j key message now fresh store managed).store.notifications)
          ≡ agent_count store.notifications
    unfolding insert_notification notification_row
    notify-quiet j key message now fresh store none quiet = refl
    notify-quiet j key message now fresh store (some managed) quiet =
        insert_beside-quiet (notification_row public_url managed j key message now fresh)
          (deliveries_for j store) store _ quiet

    notify-more :
        (j : ℕ) (key : String) (message : Message) (now fresh : ℕ) (store : Store)
        (managed : Option ManagedInstance)
        → agent_count
            ((notify_for public_url j key message now fresh store managed).store.notifications)
          ≤ agent_count store.notifications + 1
    unfolding insert_notification
    notify-more j key message now fresh store none = omega arith
    notify-more j key message now fresh store (some managed) =
        insert_beside-more (notification_row public_url managed j key message now fresh)
          (deliveries_for j store) store _

    -- Below the cap there is room for one more, where one more would count.
    below_cap :
        (j : ℕ) (command : NotificationRaiseCommand) (now : ℕ) (store : Store)
        → calendar.midnight now ≡ midnight
        → is_capped calendar j command now store ≡ false
        → ((j == i && leb midnight now && is_none command.approval) && not (command.key == notice))
          ≡ true
        → agent_count store.notifications + 1 ≤ daily_cap
    unfolding notifications_raised
    below_cap j command now store day below counts =
        let same = eq_of_beq j i (ground arith) in
        let counted =
          ap (λ k. length (keep (counts_since k (calendar.midnight now)) store.notifications)) same
          ∙ ap (λ m. length (keep (counts_since i m) store.notifications)) day in
        ground (arith, counted, agent_count-counted store.notifications)

    raise_for-capped :
        (j : ℕ) (command : NotificationRaiseCommand) (now fresh : ℕ) (store : Store)
        (managed : Option ManagedInstance) (found : Option ℕ)
        → calendar.midnight now ≡ midnight
        → cap_key calendar now ≡ notice
        → agent_count store.notifications ≤ daily_cap
        → agent_count (
            (raise_for calendar public_url j command now fresh store managed
              found).store.notifications)
          ≤ daily_cap
    unfolding notify
    raise_for-capped j command now fresh store none found day key h = h
    raise_for-capped j command now fresh store (some managed) (some _) day key h = h
    raise_for-capped j command now fresh store (some managed) none day key h =
        elim (Bool-cases (is_capped calendar j command now store)) [
          | inl capped ↦ rw (capped) (
              omega (
                arith,
                h,
                notify-quiet j (cap_key calendar now) (cap_message managed j command) now fresh
                    store (instance_of j store)
                    (ground (arith, is_notice (cap_key calendar now) key)),
              ))
          | inr below ↦
              rw (below)
                (elim (Bool-cases (
                  (j == i && leb midnight now && is_none command.approval)
                  && not (command.key == notice))) [
                    | inl counts ↦ omega (
                      arith,
                      below_cap j command now store day below counts,
                      notify-more j command.key (message_of j command) now fresh store
                          (instance_of j store),
                    )
                    | inr quiet ↦ omega (
                      arith,
                      h,
                      notify-quiet j command.key (message_of j command) now fresh store
                          (instance_of j store) quiet,
                    )
                  ])
        ]

    abbrev pub is_that_day : Raise → Bool
    is_that_day r = calendar.midnight r.now == midnight && cap_key calendar r.now == notice

    -- On one day, however many notifications any instances raise and in whatever order, those of
    -- one instance that are no approvals, less the notice about the cap itself, stay within the
    -- daily cap of 20, if they are within it at the start.
    pub raise_all-capped :
        (raises : List Raise) (store : Store)
        → all is_that_day raises ≡ true
        → agent_count store.notifications ≤ daily_cap
        → agent_count ((raise_all calendar public_url raises store).notifications) ≤ daily_cap
    unfolding raise_all raise_notification
    raise_all-capped [] store day h = h
    raise_all-capped (r ∷ raises) store day h = raise_all-capped raises _ (ground arith) (
        raise_for-capped r.instance_id r.command r.now r.fresh store _ _
          (eq_of_beq (calendar.midnight r.now) midnight (ground arith))
          (eq_of_beq (cap_key calendar r.now) notice (ground arith)) h)
