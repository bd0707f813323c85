-- ===== src/Subscription/Reconcile.antt =====
-- subscription/manager.py: the two reconciliations, with what is wanted and with what the server has.
-- A set iterates here in the order of the dict that it was made from.
pub mod Loops
pub mod Sorted
pub mod Wanted
pub mod Placed
pub mod Adoption
use py.Prelude.{
  ℕ, ◌+◌, Bytes, bytes_key, Option, none, some, List, [], ◌∷◌, Bool, true, false, not, ◌&&◌, ◌==◌,
  ◌++◌, keep, map, length, is_some, is_empty, if◌then◌else◌,
}
use py.Prelude.Dict
use py.Prelude.Dict.{Dict}
use py.Prelude.Sets
use py.Prelude.Text.{given}
use py.Subscription.{SubscriptionState, Manager, Effect, Answer, is_active, forget, file}
use py.Subscription.Calls.{cancel_each, renew_plain, subscribe_plain}

pub record ReconcileResult : Type 0 where
  pub kept : ℕ
  pub cancelled : ℕ
  pub created : ℕ
  pub renewed : ℕ
  pub cancel_errors : ℕ
  pub create_errors : ℕ

-- The active states by their resource; the others are forgotten.
unfoldable pub sort_out :
    List SubscriptionState
    → Dict Bytes SubscriptionState
    → Manager
    → Dict Bytes SubscriptionState × Manager
sort_out [] old m = (old, m)
sort_out (s ∷ states) old m =
    if is_active s
    then sort_out states (Dict.put s.subscribed_resource s old) m
    else sort_out states old (forget s.subscription_uri m)

-- `dict(pairs)`
unfoldable pub dict_of : List (Bytes × Bytes) → Dict Bytes Bytes → Dict Bytes Bytes
dict_of [] d = d
dict_of ((k, v) ∷ pairs) d = dict_of pairs (Dict.put k v d)

-- Whether the dict has this value for the key.
unfoldable pub has_value : Bytes → Bytes → Dict Bytes Bytes → Bool
has_value k v d = elim (Dict.get k d) [ none ↦ false | some w ↦ v == w ]

-- Whether the resource is subscribed to with this type.
unfoldable pub is_held : Dict Bytes SubscriptionState → Bytes × Bytes → Bool
is_held old (resource, resource_type) = elim (Dict.get resource old) [
  | none ↦ false
  | some s ↦ s.resource_type == resource_type
]

abbrev pub is_wanted : Dict Bytes Bytes → SubscriptionState → Bool
is_wanted desired s = has_value s.subscribed_resource s.resource_type desired

unfoldable pub forget_each : List Bytes → Manager → Manager
forget_each [] m = m
forget_each (uri ∷ uris) m = forget_each uris (forget uri m)

unfoldable pub count : Bool → List Bool → ℕ
count b [] = 0
count b (c ∷ bs) = let rest = count b bs in if (if b then c else not c) then rest + 1 else rest

-- What an entry of the server's list says: its resource and its href.
abbrev pub Listed : Type 0
Listed = Option Bytes × Option Bytes

unfoldable pub server_resources : List Listed → List Bytes
server_resources [] = []
server_resources ((resource, href) ∷ listed) = elim (given resource) [
  | none ↦ server_resources listed
  | some r ↦ r ∷ server_resources listed
]

-- The last entry of a resource that has an href tells its URI.
unfoldable pub server_uris : List Listed → Dict Bytes Bytes → Dict Bytes Bytes
server_uris [] uris = uris
server_uris ((resource, href) ∷ listed) uris = elim (given resource) [
  | none ↦ server_uris listed uris
  | some r ↦ elim (given href) [
    | none ↦ server_uris listed uris
    | some uri ↦ server_uris listed (Dict.put r uri uris)
  ]
]

-- The state takes the server's URI, if that is another.
unfoldable pub adopt : SubscriptionState → Option Bytes → Manager → Manager
adopt s none m = m
adopt s (some uri) m =
    if uri == s.subscription_uri
    then m
    else file (record s { subscription_uri = uri }) (forget s.subscription_uri m)

module _ (server : List Effect → Effect → Answer) (clock : List Effect → ℕ) where
  unfoldable pub renew_each : List SubscriptionState → Manager → List Bool × Manager
  renew_each [] m = ([], m)
  renew_each (s ∷ states) m =
      let (ok, m') = renew_plain server clock s.subscription_uri m in
      let (oks, m'') = renew_each states m' in (ok ∷ oks, m'')

  -- After the renewals, a state that could not be renewed is forgotten and its pair created anew.
  unfoldable pub drop_failed :
      List SubscriptionState
      → List Bool
      → List (Bytes × Bytes)
      → Manager
      → List (Bytes × Bytes) × Manager
  drop_failed (s ∷ states) (true ∷ oks) pairs m = drop_failed states oks pairs m
  drop_failed (s ∷ states) (false ∷ oks) pairs m =
      drop_failed states oks (pairs ++ (s.subscribed_resource, s.resource_type) ∷ [])
        (forget s.subscription_uri m)
  drop_failed [] oks pairs m = (pairs, m)
  drop_failed (s ∷ states) [] pairs m = (pairs, m)

  unfoldable pub create_each : Bytes → List (Bytes × Bytes) → Manager → List Bool × Manager
  create_each sub_list_href [] m = ([], m)
  create_each sub_list_href ((resource, resource_type) ∷ pairs) m =
      let (s, m') = subscribe_plain server clock sub_list_href resource resource_type m in
      let (oks, m'') = create_each sub_list_href pairs m' in (is_some s ∷ oks, m'')

  unfoldable pub keep_each : Bool → List SubscriptionState → Manager → List Bool × Manager
  keep_each renew_kept states m =
      if renew_kept then renew_each states m else (map (λ _. true) states, m)

  unfoldable pub reconcile :
      Bytes → List (Bytes × Bytes) → Bool → Manager → ReconcileResult × Manager
  reconcile sub_list_href desired renew_kept m =
      let desired_map = dict_of desired [] in
      let (old, m1) = sort_out (Dict.values m.subscriptions) [] m in
      let kept = keep (is_wanted desired_map) (Dict.values old) in
      let stale = keep (λ s. not (is_wanted desired_map s)) (Dict.values old) in
      let missing = keep (λ pair. not (is_held old pair)) desired_map in
      let uris = map (λ (s : SubscriptionState). s.subscription_uri) stale in
      let (cancels, m2) = cancel_each server clock uris m1 in
      let m3 = forget_each uris m2 in
      let (renewals, m4) = keep_each renew_kept kept m3 in
      let (pairs, m5) = drop_failed kept renewals missing m4 in
      let (creations, m6) = create_each sub_list_href pairs m5 in
      (
        record {
          kept = count true renewals;
          cancelled = length stale + count false renewals;
          created = count true creations;
          renewed = if renew_kept then count true renewals else 0;
          cancel_errors = count false cancels;
          create_errors = count false creations;
        },
        m6,
      )

  unfoldable pub reestablish : Bytes → SubscriptionState → Manager → Bool × Manager
  reestablish sub_list_href s m =
      let (made, m') =
        subscribe_plain server clock sub_list_href s.subscribed_resource s.resource_type
          (forget s.subscription_uri m) in
      if is_some made then (true, m') else (false, file s m')

  -- One round of the loop; true is a subscription that is established again.
  unfoldable pub reconcile_one :
      Bytes → Bool → List Bytes → Dict Bytes Bytes → SubscriptionState → Manager → Bool × Manager
  reconcile_one sub_list_href reestablish_missing resources uris s m =
      if s.unmanaged
      then (false, m)
      else if Sets.contains s.subscribed_resource resources
      then (false, adopt s (Dict.get s.subscribed_resource uris) m)
      else if reestablish_missing
      then reestablish sub_list_href s m
      else (false, if is_empty resources then m else forget s.subscription_uri m)

  unfoldable pub reconcile_states :
      Bytes → Bool → List Bytes → Dict Bytes Bytes → List SubscriptionState → Manager → ℕ × Manager
  reconcile_states sub_list_href reestablish_missing resources uris [] m = (0, m)
  reconcile_states sub_list_href reestablish_missing resources uris (s ∷ states) m =
      let (made, m') = reconcile_one sub_list_href reestablish_missing resources uris s m in
      let (n, m'') = reconcile_states sub_list_href reestablish_missing resources uris states m' in
      (if made then n + 1 else n, m'')

  -- With the list that the GET returned, its pages joined; `none` is a GET that failed.
  unfoldable pub reconcile_with_server : Bytes → Bool → Option (List Listed) → Manager → ℕ × Manager
  reconcile_with_server sub_list_href reestablish_missing none m = (0, m)
  reconcile_with_server sub_list_href reestablish_missing (some listed) m =
      reconcile_states sub_list_href reestablish_missing (server_resources listed)
        (server_uris listed []) (keep is_active (Dict.values m.subscriptions)) m
