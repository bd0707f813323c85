-- ===== src/Subscription.antt =====
-- subscription/manager.py: the subscriptions of a client, each under the href that the server gave it.
-- What the server answers to a request is a parameter, a function of all that was sent before, and so
-- is the clock. One operation runs at a time: what others do while it awaits an answer is left out,
-- and calls that are gathered run one after another. Log lines and reports are left out.
pub mod Files
pub mod Changes
pub mod Steps
pub mod Reconcile
pub mod Upkeep
pub mod Renewal
pub mod Checkpoint
pub mod Course
pub mod Tests
pub mod Calls
use py.Prelude.{
  ℕ, String, Bytes, bytes_key, nat_key, Option, none, some, List, [], ◌∷◌, Bool, true, false, not,
  ◌&&◌, ◌==◌, ◌||◌, ◌++◌, keep, or_else, map, if◌then◌else◌,
}
use py.Prelude.Dict
use py.Prelude.Dict.{Dict}
use py.Prelude.Sets
use py.Prelude.Text.{text, given, ends_with, before_last}

pub record SubscriptionState : Type 0 where
  pub subscription_uri : Bytes
  pub subscribed_resource : Bytes
  pub notification_uri : Bytes
  pub resource_type : Bytes
  pub status : Bytes
  pub created_at : ℕ
  pub is_list_subscription : Bool
  pub unmanaged : Bool
  pub sub_list_href : Option Bytes

pub record StoredNotification : Type 0 where
  pub subscribed_resource : Bytes
  pub status : ℕ
  pub subscription_uri : Bytes
  pub created_at : ℕ
  pub new_resource_uri : Option Bytes

pub data RenewalMethod : Type 0 where
  post put : RenewalMethod

-- The resource that is sent.
pub record Subscription : Type 0 where
  pub subscribed_resource : Bytes
  pub encoding : ℕ
  pub level : Bytes
  pub limit : ℕ
  pub notification_uri : Bytes

pub data Effect : Type 0 where
  posts puts : Bytes → Subscription → Effect
  deletes : Bytes → Effect
  rediscovers : Effect

-- A Location, a status that is no success, or another exception.
pub data Answer : Type 0 where
  answered : Option Bytes → Answer
  rejected : ℕ → Answer
  failed : Answer

abbrev pub Subscriptions : Type 0
Subscriptions = Dict Bytes SubscriptionState

-- `sent` has the requests and the calls of `on_subscription_lost`, the last first.
pub record Manager : Type 0 where
  pub renewal_method : RenewalMethod
  pub notification_uri : Bytes
  pub subscriptions : Subscriptions
  pub notifications : List StoredNotification
  pub max_notifications : ℕ
  pub dedup_cache : Dict Bytes ℕ
  pub resubscribe_suppressed : List Bytes
  pub missing_location_fallback : Bool
  pub on_subscription_lost : Bool
  pub sent : List Effect

unfoldable pub renewal_method_of : Bytes → Option RenewalMethod
renewal_method_of name =
    if name == text "post" then some post else if name == text "put" then some put else none

-- `none` is the ValueError of the renewal method.
unfoldable pub new_manager : Bytes → ℕ → Bool → Bool → Bytes → Option Bool → Option Manager
new_manager uri max_notifications fallback on_lost method compat = elim (renewal_method_of method) [
  | none ↦ none
  | some renewal ↦ some (record {
    renewal_method = renewal;
    notification_uri = uri;
    subscriptions = [];
    notifications = [];
    max_notifications = max_notifications;
    dedup_cache = [];
    resubscribe_suppressed = [];
    missing_location_fallback = fallback || or_else compat false;
    on_subscription_lost = on_lost;
    sent = [];
  })
]

unfoldable pub is_active : SubscriptionState → Bool
is_active s = s.status == text "active"

unfoldable pub find_active_for_resource : Bytes → Subscriptions → Option SubscriptionState
find_active_for_resource resource [] = none
find_active_for_resource resource ((k, s) ∷ d) =
    if s.subscribed_resource == resource && is_active s
    then some s
    else find_active_for_resource resource d

unfoldable pub suppress_resubscribe : Bytes → Manager → Manager
suppress_resubscribe resource m = record m {
  resubscribe_suppressed = Sets.add resource m.resubscribe_suppressed;
}

unfoldable pub resubscribe_suppressed : Bytes → Manager → Bool
resubscribe_suppressed resource m = Sets.contains resource m.resubscribe_suppressed

unfoldable pub clear_resubscribe_suppression : Manager → Manager
clear_resubscribe_suppression m = record m { resubscribe_suppressed = [] }

abbrev pub note : Effect → Manager → Manager
note e m = record m { sent = e ∷ m.sent }

abbrev pub forget : Bytes → Manager → Manager
forget uri m = record m { subscriptions = Dict.delete uri m.subscriptions }

abbrev pub file : SubscriptionState → Manager → Manager
file s m = record m { subscriptions = Dict.put s.subscription_uri s m.subscriptions }

unfoldable pub is_unmanaged : Bytes → Manager → Bool
is_unmanaged uri m = elim (Dict.get uri m.subscriptions) [ none ↦ false | some s ↦ s.unmanaged ]

abbrev pub is_answered : Answer → Bool
is_answered (answered location) = true
is_answered (rejected status) = false
is_answered failed = false

-- `_SUBSCRIPTION_LOST_STATUSES`
unfoldable pub is_lost_status : ℕ → Bool
is_lost_status status = status == 401 || status == 404

-- `_PUT_RENEWAL_FALLBACK_STATUSES`
unfoldable pub is_fallback_status : ℕ → Bool
is_fallback_status status = status == 404 || status == 405

unfoldable pub renewal_rejected : ℕ → Manager → Bool × Manager
renewal_rejected status m =
    (false, if is_lost_status status && m.on_subscription_lost then note rediscovers m else m)
