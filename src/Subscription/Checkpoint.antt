-- ===== src/Subscription/Checkpoint.antt =====
-- The checkpoint of the subscriptions, in subscription/manager.py, written and read again.
use py.Prelude.{
  Bytes, bytes_key, Option, none, some, [], ◌∷◌, false, ◌||◌, ◌==◌, ==→eq, ==-refl, ◌≡◌, refl, sym,
  ◌∙◌, ap, inl, inr, map, Bool-cases, arith,
}
use py.Prelude.Dict
use py.Prelude.Dict.{Dict, IsDict, get-put, put-IsDict, get-tail}
use py.Subscription.{SubscriptionState, Subscriptions, Manager}
use py.Subscription.Files.{IsSound}
use py.Subscription.Reconcile.Placed.{tail-IsSound}
use py.Subscription.Upkeep.{
  to_entry, from_entry, to_checkpoint, restore_entries, restore_from_checkpoint,
  should_process_notification,
}

-- What the checkpoint keeps of a state.
abbrev pub unlisted : SubscriptionState → SubscriptionState
unlisted s = record s { is_list_subscription = false }

abbrev pub unlisted_at :
    Option SubscriptionState → Option SubscriptionState → Option SubscriptionState
unlisted_at none other = other
unlisted_at (some s) other = some (unlisted s)

restore_entries-get :
    (d acc : Subscriptions) (k : Bytes)
    → IsSound d
    → Dict.get k (restore_entries (map to_entry (Dict.values d)) acc)
      ≡ unlisted_at (Dict.get k d) (Dict.get k acc)
unfolding restore_entries Dict.get to_entry from_entry
restore_entries-get [] acc k h = refl
restore_entries-get ((j, s) ∷ d) acc k h =
    let at = h.filed j s (ground (arith, ==-refl j)) in
    let rest =
      restore_entries-get d (Dict.put s.subscription_uri (unlisted s) acc) k
        (tail-IsSound j s d h) in
    let put = get-put s.subscription_uri k (unlisted s) acc in
    let uri : (s.subscription_uri == k) ≡ (j == k) = ap (λ (i : Bytes). i == k) at in
    elim (Bool-cases (j == k)) [
      | inl same ↦
          let absent : Dict.get k d ≡ none =
            ap (λ (i : Bytes). Dict.get i d) (sym (==→eq j k same)) ∙ h.keyed.0 in
          rest ∙ ground arith
      | inr other ↦ rest ∙ ground arith
    ]

pub restore_entries-IsDict :
    (d acc : Subscriptions)
    → IsDict acc
    → IsDict (restore_entries (map to_entry (Dict.values d)) acc)
unfolding restore_entries
restore_entries-IsDict [] acc h = h
restore_entries-IsDict ((j, s) ∷ d) acc h =
    let t = from_entry (to_entry s) in
    restore_entries-IsDict d (Dict.put t.subscription_uri t acc)
      (put-IsDict t.subscription_uri t acc h)

-- A checkpoint that is written and read again gives each subscription under its href as it was, but
-- none is a list subscription any more. So a notification for another path than the subscribed
-- resource is processed no longer, where a list subscription had it processed.
pub restore_from_checkpoint_lem :
    (m n : Manager)
    → IsSound m.subscriptions
    → ((k : Bytes)
        → Dict.get k (restore_from_checkpoint (to_checkpoint m) n).subscriptions
          ≡ unlisted_at (Dict.get k m.subscriptions) none)
      × ((k href : Bytes) (s : SubscriptionState)
          → Dict.get k m.subscriptions ≡ some s
          → (should_process_notification k href (restore_from_checkpoint (to_checkpoint m) n)
              ≡ (href == s.subscribed_resource))
            × (should_process_notification k href m
                ≡ (s.is_list_subscription || href == s.subscribed_resource)))
unfolding restore_from_checkpoint to_checkpoint should_process_notification Dict.get
restore_from_checkpoint_lem m n h = (
  (λ k. restore_entries-get m.subscriptions [] k h),
  (λ k href s e. (
    rw (should_process_notification, restore_entries-get m.subscriptions [] k h, e) refl,
    rw (should_process_notification, e) refl,
  )),
)
