-- ===== src/Outbox/Again.antt =====
-- hub/outbox.py: raising a key again.
use kinby.Common.{
  ℕ, Bool, true, Option, none, some, List, [], ◌∷◌, ◌++◌, ◌≡◌, refl, ap, ◌∙◌, arith, String, find,
  beq_refl, Bool-cases, ◌≢◌, inl, inr, nat_eq, string_eq,
}
use kinby.Outbox.Store.{
  Store, Notification, ManagedInstance, under_key, row_id, notification_id, insert_notification,
  insert_beside, instance_of, is_instance, DeliveryStatus,
}
use kinby.Outbox.Raise.{
  Calendar, NotificationRaiseCommand, Message, RaiseAnswer, raised, not_found, cap_reached, notify,
  notify_for, raise_for, raise_notification, notification_row, deliveries_for, is_capped,
  message_of,
}
use kinby.Outbox.Once.{raise_notification-Known, raise_notification-instances}

find-last {ℓ} :
    {A : Type ℓ} (p : A → Bool) (xs : List A) (y : A)
    → find p xs ≡ none
    → p y ≡ true
    → find p (xs ++ y ∷ []) ≡ some y
find-last p [] y e h = rw (h) refl
find-last p (x ∷ xs) y e h = ground (arith, find-last p xs y)

under_key_self : (row : Notification) → under_key row.instance_id row.source_key row ≡ true
under_key_self row = ground (arith, beq_refl row.instance_id, beq_refl row.source_key)

insert_beside-names :
    (row : Notification) (new : List (ℕ × DeliveryStatus)) (store : Store)
    (old : Option Notification)
    → find (under_key row.instance_id row.source_key) store.notifications ≡ old
    → notification_id row.instance_id row.source_key ((insert_beside row new store old).0)
      ≡ some ((insert_beside row new store old).1)
unfolding notification_id
insert_beside-names row new store (some old) e = ap row_id e
insert_beside-names row new store none e = ap row_id (
    find-last (under_key row.instance_id row.source_key) store.notifications row e
      (under_key_self row))

abbrev raised_id : RaiseAnswer → ℕ
raised_id (raised id) = id
raised_id not_found = 0
raised_id cap_reached = 0

cap_reached_differs : (id : ℕ) → cap_reached ≢ raised id
cap_reached_differs id e = absurd (ground arith)

-- A notification that some instance asks for, when, and the id that it would have.
pub record Raise : Type 0 where
  pub instance_id : ℕ
  pub command : NotificationRaiseCommand
  pub now : ℕ
  pub fresh : ℕ

module _ (calendar : Calendar) (public_url : Option String) where
  -- The outbox raises one notification after the other.
  unfoldable pub raise_all : List Raise → Store → Store
  unfolding raise_notification
  raise_all [] store = store
  raise_all (r ∷ rest) store =
      raise_all rest
        ((raise_notification calendar public_url r.instance_id r.command r.now r.fresh store).store)

module _ (calendar : Calendar) (public_url : Option String) (i : ℕ) where
  -- The id that notifying answers is the one that the key then names.
  notify_for-names :
      (key : String) (message : Message) (now fresh id : ℕ) (store : Store)
      (managed : Option ManagedInstance)
      → (notify_for public_url i key message now fresh store managed).answer ≡ raised id
      → notification_id i key ((notify_for public_url i key message now fresh store managed).store)
        ≡ some id
  unfolding insert_notification notification_row
  notify_for-names key message now fresh id store none e = absurd (ground arith)
  notify_for-names key message now fresh id store (some managed) e =
      let row = notification_row public_url managed i key message now fresh in
      insert_beside-names row (deliveries_for i store) store
        (find (under_key i key) store.notifications) refl
      ∙ ap (λ a. some (raised_id a)) e

  raise_for-names :
      (command : NotificationRaiseCommand) (now fresh id : ℕ) (store : Store)
      (managed : Option ManagedInstance) (found : Option ℕ)
      → notification_id i command.key store ≡ found
      → (raise_for calendar public_url i command now fresh store managed found).answer ≡ raised id
      → notification_id i command.key
          ((raise_for calendar public_url i command now fresh store managed found).store)
        ≡ some id
  unfolding notify
  raise_for-names command now fresh id store none found e h = absurd (ground arith)
  raise_for-names command now fresh id store (some managed) (some known) e h =
      e ∙ ap (λ a. some (raised_id a)) h
  raise_for-names command now fresh id store (some managed) none e h =
      elim (Bool-cases (is_capped calendar i command now store)) [
        | inl capped ↦ absurd (cap_reached_differs id (rw (capped) at h))
        | inr below ↦ rw (below) (
            notify_for-names command.key (message_of i command) now fresh id store
              (instance_of i store) (rw (below) at h))
      ]

  raise_all-Known :
      (key : String) (known : ℕ) (rest : List Raise) (store : Store)
      → notification_id i key store ≡ some known
      → notification_id i key (raise_all calendar public_url rest store) ≡ some known
  unfolding raise_all
  raise_all-Known key known [] store e = e
  raise_all-Known key known (r ∷ rest) store e = raise_all-Known key known rest _ (
      raise_notification-Known i key known calendar public_url r.instance_id r.command r.now r.fresh
        store e)

  raise_all-instances :
      (rest : List Raise) (store : Store)
      → (raise_all calendar public_url rest store).instances ≡ store.instances
  unfolding raise_all
  raise_all-instances [] store = refl
  raise_all-instances (r ∷ rest) store =
      raise_all-instances rest _
      ∙ raise_notification-instances calendar public_url r.instance_id r.command r.now r.fresh store

  instance_of-kept : (a b : Store) → a.instances ≡ b.instances → instance_of i a ≡ instance_of i b
  unfolding instance_of
  instance_of-kept a b e = ap (find (is_instance i)) e

  raise_notification-names :
      (command : NotificationRaiseCommand) (now fresh id : ℕ) (store : Store)
      → (raise_notification calendar public_url i command now fresh store).answer ≡ raised id
      → notification_id i command.key
          ((raise_notification calendar public_url i command now fresh store).store)
        ≡ some id
  unfolding raise_notification
  raise_notification-names command now fresh id store h =
      raise_for-names command now fresh id store (instance_of i store)
        (notification_id i command.key store) refl h

  raise_known :
      (command : NotificationRaiseCommand) (now fresh id : ℕ) (store : Store)
      (managed : ManagedInstance)
      → instance_of i store ≡ some managed
      → notification_id i command.key store ≡ some id
      → raise_notification calendar public_url i command now fresh store
        ≡ record { store = store; answer = raised id; started = [] }
  unfolding raise_notification
  raise_known command now fresh id store managed found known =
      ap
        (λ o.
          raise_for calendar public_url i command now fresh store o
            (notification_id i command.key store))
        found
      ∙ ap (λ o. raise_for calendar public_url i command now fresh store (some managed) o) known

  -- Once an instance has raised a notification under a key and was answered an id, raising the
  -- key again, with whatever text, at whatever time and past the daily cap too, answers the same
  -- id, changes nothing and delivers nothing, however many notifications any instances raised
  -- between the two.
  pub raise_notification-again :
      (command again : NotificationRaiseCommand) (now fresh later fresher id : ℕ) (store : Store)
      (managed : ManagedInstance) (between : List Raise)
      → instance_of i store ≡ some managed
      → (raise_notification calendar public_url i command now fresh store).answer ≡ raised id
      → again.key ≡ command.key
      → raise_notification calendar public_url i again later fresher (
          raise_all calendar public_url between
            ((raise_notification calendar public_url i command now fresh store).store))
        ≡ record {
          store =
              raise_all calendar public_url between
                ((raise_notification calendar public_url i command now fresh store).store);
          answer = raised id;
          started = [];
        }
  raise_notification-again command again now fresh later fresher id store managed between found h
        same =
      let once = (raise_notification calendar public_url i command now fresh store).store in
      let kept =
        raise_all-instances between once
        ∙ raise_notification-instances calendar public_url i command now fresh store in
      raise_known again later fresher id (raise_all calendar public_url between once) managed
        (instance_of-kept (raise_all calendar public_url between once) store kept ∙ found)
        (raise_all-Known again.key id between once (
          ap (λ k. notification_id i k once) same
          ∙ raise_notification-names command now fresh id store h))
