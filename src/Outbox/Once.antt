-- ===== src/Outbox/Once.antt =====
-- hub/outbox.py: a key names one notification for good.
use kinby.Common.{
  ℕ, Bool, Option, none, some, List, [], ◌∷◌, ◌++◌, ◌≡◌, refl, arith, String, find, Bool-cases, inl,
  inr, nat_eq, string_eq,
}
use kinby.Outbox.Store.{
  Store, Notification, ManagedInstance, under_key, row_id, notification_id, insert_notification,
  insert_beside, instance_of, DeliveryStatus,
}
use kinby.Outbox.Raise.{
  Calendar, NotificationRaiseCommand, Message, notify, notify_for, raise_for, raise_notification,
  notification_row, deliveries_for, cap_key, is_capped, cap_message, message_of,
}

row_id-append :
    (p : Notification → Bool) (xs ys : List Notification) (known : ℕ)
    → row_id (find p xs) ≡ some known
    → row_id (find p (xs ++ ys)) ≡ some known
row_id-append p [] ys known e = absurd (ground arith)
row_id-append p (y ∷ xs) ys known e = elim (Bool-cases (p y)) [
  | inl hit ↦ rw (hit) (rw (hit) at e)
  | inr miss ↦ rw (miss) (row_id-append p xs ys known (rw (miss) at e))
]

module _ (i : ℕ) (key : String) (known : ℕ) where
  insert_beside-Known :
      (row : Notification) (new : List (ℕ × DeliveryStatus)) (store : Store)
      (old : Option Notification)
      → notification_id i key store ≡ some known
      → notification_id i key ((insert_beside row new store old).0) ≡ some known
  unfolding notification_id
  insert_beside-Known row new store (some old) e = e
  insert_beside-Known row new store none e =
      row_id-append (under_key i key) store.notifications (row ∷ []) known e

  notify_for-Known :
      (public_url : Option String) (j : ℕ) (k : String) (message : Message) (now fresh : ℕ)
      (store : Store) (managed : Option ManagedInstance)
      → notification_id i key store ≡ some known
      → notification_id i key ((notify_for public_url j k message now fresh store managed).store)
        ≡ some known
  unfolding insert_notification
  notify_for-Known public_url j k message now fresh store none e = e
  notify_for-Known public_url j k message now fresh store (some managed) e =
      insert_beside-Known (notification_row public_url managed j k message now fresh)
        (deliveries_for j store) store _ e

  -- Notifying of anything keeps what a key names.
  pub notify-Known :
      (public_url : Option String) (j : ℕ) (k : String) (message : Message) (now fresh : ℕ)
      (store : Store)
      → notification_id i key store ≡ some known
      → notification_id i key ((notify public_url j k message now fresh store).store) ≡ some known
  unfolding notify
  notify-Known public_url j k message now fresh store e =
      notify_for-Known public_url j k message now fresh store (instance_of j store) e

  raise_for-Known :
      (calendar : Calendar) (public_url : Option String) (j : ℕ)
      (command : NotificationRaiseCommand) (now fresh : ℕ) (store : Store)
      (managed : Option ManagedInstance) (found : Option ℕ)
      → notification_id i key store ≡ some known
      → notification_id i key
          ((raise_for calendar public_url j command now fresh store managed found).store)
        ≡ some known
  raise_for-Known calendar public_url j command now fresh store none found e = e
  raise_for-Known calendar public_url j command now fresh store (some managed) (some _) e = e
  raise_for-Known calendar public_url j command now fresh store (some managed) none e =
      elim (Bool-cases (is_capped calendar j command now store)) [
        | inl capped ↦ rw (capped) (
            notify-Known public_url j (cap_key calendar now) (cap_message managed j command) now
              fresh store e)
        | inr below ↦
            rw (below)
              (notify-Known public_url j command.key (message_of j command) now fresh store e)
      ]

  pub raise_notification-Known :
      (calendar : Calendar) (public_url : Option String) (j : ℕ)
      (command : NotificationRaiseCommand) (now fresh : ℕ) (store : Store)
      → notification_id i key store ≡ some known
      → notification_id i key
          ((raise_notification calendar public_url j command now fresh store).store)
        ≡ some known
  unfolding raise_notification
  raise_notification-Known calendar public_url j command now fresh store e =
      raise_for-Known calendar public_url j command now fresh store (instance_of j store)
        (notification_id j command.key store) e

-- Raising touches no instance.
insert_beside-instances :
    (row : Notification) (new : List (ℕ × DeliveryStatus)) (store : Store)
    (old : Option Notification)
    → ((insert_beside row new store old).0).instances ≡ store.instances
insert_beside-instances row new store (some old) = refl
insert_beside-instances row new store none = refl

module _ (calendar : Calendar) (public_url : Option String) where
  pub notify_for-instances :
      (j : ℕ) (k : String) (message : Message) (now fresh : ℕ) (store : Store)
      (managed : Option ManagedInstance)
      → ((notify_for public_url j k message now fresh store managed).store).instances
        ≡ store.instances
  unfolding insert_notification
  notify_for-instances j k message now fresh store none = refl
  notify_for-instances j k message now fresh store (some managed) =
      insert_beside-instances (notification_row public_url managed j k message now fresh)
        (deliveries_for j store) store _

  raise_for-instances :
      (j : ℕ) (command : NotificationRaiseCommand) (now fresh : ℕ) (store : Store)
      (managed : Option ManagedInstance) (found : Option ℕ)
      → ((raise_for calendar public_url j command now fresh store managed found).store).instances
        ≡ store.instances
  unfolding notify
  raise_for-instances j command now fresh store none found = refl
  raise_for-instances j command now fresh store (some managed) (some _) = refl
  raise_for-instances j command now fresh store (some managed) none =
      elim (Bool-cases (is_capped calendar j command now store)) [
        | inl capped ↦ rw (capped) (
            notify_for-instances j (cap_key calendar now) (cap_message managed j command) now fresh
              store _)
        | inr below ↦
            rw (below) (notify_for-instances j command.key (message_of j command) now fresh store _)
      ]

  pub raise_notification-instances :
      (j : ℕ) (command : NotificationRaiseCommand) (now fresh : ℕ) (store : Store)
      → ((raise_notification calendar public_url j command now fresh store).store).instances
        ≡ store.instances
  unfolding raise_notification
  raise_notification-instances j command now fresh store =
      raise_for-instances j command now fresh store (instance_of j store)
        (notification_id j command.key store)
