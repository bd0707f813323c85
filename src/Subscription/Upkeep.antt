-- ===== src/Subscription/Upkeep.antt =====
-- subscription/manager.py: the renewals, the checkpoint, and the notifications of subscriptions.
use py.Prelude.{
  ℕ, ◌+◌, ◌-◌, Bytes, bytes_key, nat_key, Option, none, some, List, [], ◌∷◌, Bool, true, false, not,
  ◌&&◌, ◌||◌, ◌==◌, ◌++◌, keep, map, length, drop, or_else, leb, ltb, if◌then◌else◌,
}
use py.Prelude.Dict
use py.Prelude.Dict.{Dict}
use mathlib.Core.List.{reverse}
use py.Prelude.Text.{text, split, strip}
use py.Subscription.{
  SubscriptionState, StoredNotification, Subscriptions, Manager, Effect, Answer, is_active, forget,
}
use py.Subscription.Calls.{renew_plain}

-- `deque(notifications, maxlen=n)` keeps the last ones.
unfoldable pub bounded : ℕ → List StoredNotification → List StoredNotification
bounded n ns = drop (length ns - n) ns

unfoldable pub record_notification : StoredNotification → Manager → Manager
record_notification n m = record m {
  notifications = bounded m.max_notifications (m.notifications ++ n ∷ []);
}

unfoldable pub mark_cancelled : Bytes → Manager → Manager
mark_cancelled uri m = elim (Dict.get uri m.subscriptions) [
  | none ↦ m
  | some s ↦ record m {
    subscriptions = Dict.put uri (record s { status = text "cancelled" }) m.subscriptions;
  }
]

unfoldable pub remove_notifications_for : Bytes → Manager → Manager
remove_notifications_for resource m = record m {
  notifications =
      keep (λ (n : StoredNotification). not (n.subscribed_resource == resource)) m.notifications;
}

unfoldable pub active_subscriptions : Manager → List SubscriptionState
active_subscriptions m = keep is_active (Dict.values m.subscriptions)

unfoldable pub subscribed_resource_types : Manager → List Bytes
subscribed_resource_types m =
    map (λ (s : SubscriptionState). s.resource_type) (active_subscriptions m)

-- An entry of the checkpoint; what may be missing is an `Option`.
pub record Entry : Type 0 where
  pub subscription_uri : Bytes
  pub subscribed_resource : Bytes
  pub notification_uri : Bytes
  pub resource_type : Bytes
  pub status : Option Bytes
  pub created_at : Option ℕ
  pub is_list_subscription : Option Bool
  pub unmanaged : Option Bool
  pub sub_list_href : Option Bytes

unfoldable pub to_entry : SubscriptionState → Entry
to_entry s = record {
  subscription_uri = s.subscription_uri;
  subscribed_resource = s.subscribed_resource;
  notification_uri = s.notification_uri;
  resource_type = s.resource_type;
  status = some s.status;
  created_at = some s.created_at;
  is_list_subscription = none;
  unmanaged = some s.unmanaged;
  sub_list_href = s.sub_list_href;
}

unfoldable pub to_checkpoint : Manager → List Entry
to_checkpoint m = map to_entry (Dict.values m.subscriptions)

unfoldable pub from_entry : Entry → SubscriptionState
from_entry e = record {
  subscription_uri = e.subscription_uri;
  subscribed_resource = e.subscribed_resource;
  notification_uri = e.notification_uri;
  resource_type = e.resource_type;
  status = or_else e.status (text "active");
  created_at = or_else e.created_at 0;
  is_list_subscription = or_else e.is_list_subscription false;
  unmanaged = or_else e.unmanaged false;
  sub_list_href = e.sub_list_href;
}

unfoldable pub restore_entries : List Entry → Subscriptions → Subscriptions
restore_entries [] d = d
restore_entries (e ∷ entries) d =
    let s = from_entry e in restore_entries entries (Dict.put s.subscription_uri s d)

unfoldable pub restore_from_checkpoint : List Entry → Manager → Manager
restore_from_checkpoint entries m = record m { subscriptions = restore_entries entries [] }

unfoldable pub should_process_notification : Bytes → Bytes → Manager → Bool
should_process_notification uri resource_href m = elim (Dict.get uri m.subscriptions) [
  | none ↦ true
  | some s ↦ s.is_list_subscription || resource_href == s.subscribed_resource
]

unfoldable pub resource_type_for : Bytes → Manager → Option Bytes
resource_type_for uri m = elim (Dict.get uri m.subscriptions) [
  | none ↦ none
  | some s ↦ some s.resource_type
]

-- With the time in units of which `window` make up `_DEDUP_WINDOW`.
unfoldable pub is_duplicate_notification : ℕ → ℕ → Bytes → Manager → Bool × Manager
is_duplicate_notification window now href m =
    let is_new = record m { dedup_cache = Dict.put href now m.dedup_cache } in
    elim (Dict.get href m.dedup_cache) [
      | none ↦ (false, is_new)
      | some last ↦ if ltb now (last + window) then (true, m) else (false, is_new)
    ]

-- The paths above a resource, from its parent up to the first that ends in `derp`. The parts of a path
-- come in the order of the walk, the last first.
unfoldable pub join_parts : List Bytes → Bytes
join_parts [] = []
join_parts (part ∷ parts) = join_parts parts ++ b'/' ∷ part

unfoldable pub note_ancestors : ℕ → List Bytes → Dict Bytes ℕ → Dict Bytes ℕ
note_ancestors now [] cache = cache
note_ancestors now (part ∷ parts) cache =
    let cache' = Dict.put (join_parts (part ∷ parts)) now cache in
    let rest = note_ancestors now parts cache' in if part == text "derp" then cache' else rest

unfoldable pub record_notification_ancestry : ℕ → Bytes → Manager → Manager
record_notification_ancestry now href m = record m {
  dedup_cache = note_ancestors now (drop 1 (reverse (split b'/' (strip b'/' href)))) m.dedup_cache;
}

module _ (server : List Effect → Effect → Answer) (clock : List Effect → ℕ) where
  -- A subscription that cannot be renewed is forgotten.
  unfoldable pub check_restored : Bytes → SubscriptionState → Manager → Bool × Manager
  check_restored uri s m =
      let (ok, m') = if s.unmanaged then (true, m) else renew_plain server clock uri m in
      (ok, if ok then m' else forget uri m')

  -- The loop of `validate_restored_subscriptions`: how many are valid and how many were removed.
  unfoldable pub validate_each : List Bytes → Manager → (ℕ × ℕ) × Manager
  validate_each [] m = ((0, 0), m)
  validate_each (uri ∷ uris) m = elim (Dict.get uri m.subscriptions) [
    | none ↦ validate_each uris m
    | some s ↦
        if not (is_active s)
        then validate_each uris m
        else let (ok, m') = check_restored uri s m in
          let ((valid, removed), m'') = validate_each uris m' in
          (if ok then (valid + 1, removed) else (valid, removed + 1), m'')
  ]

  unfoldable pub validate_restored_subscriptions : Manager → (ℕ × ℕ) × Manager
  validate_restored_subscriptions m = validate_each (Dict.keys m.subscriptions) m

  -- The active subscriptions among these that a test picks are renewed, and the successes counted.
  unfoldable pub renew_picked : (SubscriptionState → Bool) → List Bytes → Manager → ℕ × Manager
  renew_picked pick [] m = (0, m)
  renew_picked pick (uri ∷ uris) m = elim (Dict.get uri m.subscriptions) [
    | none ↦ renew_picked pick uris m
    | some s ↦
        let (ok, m') =
          if is_active s && pick s then renew_plain server clock uri m else (false, m) in
        let (n, m'') = renew_picked pick uris m' in (if ok then n + 1 else n, m'')
  ]

  unfoldable pub renew_all : Manager → ℕ × Manager
  renew_all m = renew_picked (λ s. true) (Dict.keys m.subscriptions) m

  -- What `start_renewal_task` does when an interval has passed.
  unfoldable pub renew_stale : ℕ → Manager → Manager
  renew_stale interval m =
      let now = clock m.sent in
      (renew_picked (λ s. leb (s.created_at + interval) now) (Dict.keys m.subscriptions) m).1
