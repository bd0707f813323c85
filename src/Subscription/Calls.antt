-- ===== src/Subscription/Calls.antt =====
-- subscription/manager.py: the calls on one subscription, and those that go through all of them.
use py.Prelude.{
  ℕ, Bytes, bytes_key, nat_key, Option, none, some, List, [], ◌∷◌, Bool, true, false, not, ◌==◌,
  ◌++◌, or_else, if◌then◌else◌,
}
use py.Prelude.Dict
use py.Prelude.Dict.{Dict}
use py.Prelude.Text.{text, given, ends_with, before_last}
use py.Subscription.{
  SubscriptionState, RenewalMethod, Subscription, Effect, Answer, Manager, is_active,
  find_active_for_resource, note, forget, file, is_unmanaged, is_answered, is_fallback_status,
  renewal_rejected, post, put, posts, puts, deletes, answered, rejected, failed,
}

module _ (server : List Effect → Effect → Answer) (clock : List Effect → ℕ) where
  -- What becomes of the answer to the POST of a new subscription.
  unfoldable pub take_location :
      Bytes → Bytes → Bytes → Answer → Manager → Option SubscriptionState × Manager
  take_location sub_list_href resource resource_type failed m = (none, m)
  take_location sub_list_href resource resource_type (rejected status) m = (none, m)
  take_location sub_list_href resource resource_type (answered location) m =
      let state = λ (uri : Bytes) (unmanaged : Bool) (list_href : Option Bytes).
        let s : SubscriptionState = record {
          subscription_uri = uri;
          subscribed_resource = resource;
          notification_uri = m.notification_uri;
          resource_type = resource_type;
          status = text "active";
          created_at = clock m.sent;
          is_list_subscription = ends_with (text "List") resource_type;
          unmanaged = unmanaged;
          sub_list_href = list_href;
        } in
        s in
      elim (given location) [
        | some uri ↦ let s = state uri false (some sub_list_href) in (some s, file s m)
        | none ↦
            let s = state (text "_synthetic:" ++ resource) true none in
            if m.missing_location_fallback then (some s, file s m) else (none, m)
      ]

  unfoldable pub subscribe :
      Bytes → Bytes → Bytes → ℕ → Bytes → ℕ → Manager → Option SubscriptionState × Manager
  subscribe sub_list_href resource resource_type encoding level limit m =
      elim (find_active_for_resource resource m.subscriptions) [
        | some existing ↦ (some existing, m)
        | none ↦
            let request = posts sub_list_href (record {
              subscribed_resource = resource;
              encoding = encoding;
              level = level;
              limit = limit;
              notification_uri = m.notification_uri;
            }) in
            take_location sub_list_href resource resource_type (server m.sent request)
              (note request m)
      ]

  -- With the defaults of the encoding, the level and the limit.
  abbrev pub subscribe_plain : Bytes → Bytes → Bytes → Manager → Option SubscriptionState × Manager
  subscribe_plain sub_list_href resource resource_type m =
      subscribe sub_list_href resource resource_type 0 (text "+S1") 1 m

  -- `_cancel_one`
  unfoldable pub cancel_one : Bytes → Manager → Bool × Manager
  cancel_one uri m =
      if is_unmanaged uri m
      then (true, m)
      else (is_answered (server m.sent (deletes uri)), note (deletes uri) m)

  unfoldable pub cancel : Bytes → Manager → Bool × Manager
  cancel uri m = let (ok, m') = cancel_one uri m in (ok, forget uri m')

  unfoldable pub cancel_each : List Bytes → Manager → List Bool × Manager
  cancel_each [] m = ([], m)
  cancel_each (uri ∷ uris) m =
      let (ok, m') = cancel_one uri m in let (oks, m'') = cancel_each uris m' in (ok ∷ oks, m'')

  unfoldable pub cancel_all : Manager → Manager
  cancel_all m = record ((cancel_each (Dict.keys m.subscriptions) m).1) { subscriptions = [] }

  -- A renewal that the server took: the state moves to the Location that it gave, if that is another.
  unfoldable pub renewed : Bytes → SubscriptionState → Option Bytes → Manager → Manager
  renewed uri s location m =
      let s' = record s { created_at = clock m.sent } in
      let target = or_else (given location) uri in
      if target == uri
      then record m { subscriptions = Dict.put uri s' m.subscriptions }
      else file (record s' { subscription_uri = target }) (forget uri m)

  unfoldable pub renew_by_post : Bytes → SubscriptionState → Subscription → Manager → Bool × Manager
  renew_by_post uri s sub m =
      let request = posts (or_else (given s.sub_list_href) (before_last b'/' uri)) sub in
      elim (server m.sent request) [
        | answered location ↦ (true, renewed uri s location (note request m))
        | rejected status ↦ renewal_rejected status (note request m)
        | failed ↦ (false, note request m)
      ]

  unfoldable pub renew_by_put : Bytes → SubscriptionState → Subscription → Manager → Bool × Manager
  renew_by_put uri s sub m =
      let request = puts uri sub in
      elim (server m.sent request) [
        | answered location ↦ (true, renewed uri s none (note request m))
        | rejected status ↦
            if is_fallback_status status
            then renew_by_post uri s sub (note request m)
            else renewal_rejected status (note request m)
        | failed ↦ (false, note request m)
      ]

  unfoldable pub renew_by :
      RenewalMethod → Bytes → SubscriptionState → Subscription → Manager → Bool × Manager
  renew_by post uri s sub m = renew_by_post uri s sub m
  renew_by put uri s sub m = renew_by_put uri s sub m

  -- A state that the dict has; `sub` is what it renews with.
  unfoldable pub renew_state : Bytes → SubscriptionState → Subscription → Manager → Bool × Manager
  renew_state uri s sub m =
      if not (is_active s)
      then (false, m)
      else if s.unmanaged
      then (true, renewed uri s none m)
      else renew_by m.renewal_method uri s sub m

  unfoldable pub renew : Bytes → Option ℕ → Option Bytes → Option ℕ → Manager → Bool × Manager
  renew uri encoding level limit m = elim (Dict.get uri m.subscriptions) [
    | none ↦ (false, m)
    | some s ↦
        renew_state uri s
          (record {
            subscribed_resource = s.subscribed_resource;
            encoding = or_else encoding 0;
            level = or_else level (text "+S1");
            limit = or_else limit 1;
            notification_uri = s.notification_uri;
          })
          m
  ]

  abbrev pub renew_plain : Bytes → Manager → Bool × Manager
  renew_plain uri m = renew uri none none none m
