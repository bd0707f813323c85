-- ===== src/Subscription/Reconcile/Adoption.antt =====
-- The reconciliation with the server's list, in subscription/manager.py, is a change of the dict.
use py.Prelude.{
  ℕ, Bytes, bytes_key, Option, none, some, List, [], ◌∷◌, Bool, false, ◌==◌, ==-refl, ◌≡◌, refl,
  sym, ◌∙◌, ap, inl, inr, All, All-map, All-both, keep, Bool-cases, Option-cases, is_some, is_empty,
  if_elim, arith,
}
use py.Prelude.Dict
use py.Prelude.Dict.{Dict, IsDict, get-tail, values-All}
use py.Prelude.Sets
use py.Prelude.Text.{text, given}
use py.Subscription.{
  SubscriptionState, Subscriptions, Manager, Effect, Answer, is_active, forget, file,
  find_active_for_resource,
}
use py.Subscription.Calls.{take_location, subscribe, subscribe_plain}
use py.Subscription.Files.{Owns, IsSound, get-put_cases, get-delete_old, delete-Owns}
use py.Subscription.Changes.{Change, stays, drops, opens, first_then}
use py.Subscription.Steps.{subscribe-Change}
use py.Subscription.Reconcile.Placed.{Apart, Placed, active-Apart, active-Placed}
use py.Subscription.Reconcile.{
  adopt, reestablish, reconcile_one, reconcile_states, reconcile_with_server, Listed,
}

-- What an operation on one resource keeps of another one.
abbrev Leaves : Bytes → Subscriptions → Subscriptions → Type 0
Leaves resource d e =
    (uri other : Bytes) → (resource == other) ≡ false → Owns uri other d → Owns uri other e

delete-Leaves : (resource uri : Bytes) (d : Subscriptions) → Leaves resource d (Dict.delete uri d)
delete-Leaves resource uri d u other apart own k t e = own k t (get-delete_old uri k t d e).1

put-Leaves :
    (uri resource : Bytes) (s : SubscriptionState) (d : Subscriptions)
    → s.subscribed_resource ≡ resource
    → Leaves resource d (Dict.put uri s d)
put-Leaves uri resource s d at u other apart own k t e a same = elim (get-put_cases uri k s t d e) [
  | inl (_, is_s) ↦
      let shared = ap (λ (x : SubscriptionState). x.subscribed_resource) is_s in
      let equal : resource ≡ other = sym at ∙ shared ∙ same in
      absurd (ground (arith, rw equal at apart, ==-refl other))
  | inr old ↦ own k t old a same
]

abbrev pub Any : Bytes → Bytes → Type 0
Any resource resource_type = Unit

module _ (server : List Effect → Effect → Answer) (clock : List Effect → ℕ) where
  take_location-Leaves :
      (sub_list_href resource resource_type : Bytes) (answer : Answer) (m : Manager)
      → Leaves resource m.subscriptions
          (take_location server clock sub_list_href resource resource_type answer m).1.subscriptions
  unfolding take_location
  take_location-Leaves sub_list_href resource resource_type Answer.failed m =
      λ uri other apart own. own
  take_location-Leaves sub_list_href resource resource_type (Answer.rejected status) m =
      λ uri other apart own. own
  take_location-Leaves sub_list_href resource resource_type (Answer.answered location) m =
      elim (Option-cases (given location)) [
        | inl e ↦
            rw (e, take_location)
              (if_elim
                (λ (r : Option SubscriptionState × Manager).
                  Leaves resource m.subscriptions r.1.subscriptions)
                m.missing_location_fallback _ _ (put-Leaves _ resource _ m.subscriptions refl)
                (λ uri other apart own. own))
        | inr (uri, e) ↦ rw (e, take_location) (put-Leaves uri resource _ m.subscriptions refl)
      ]

  subscribe-Leaves :
      (sub_list_href resource resource_type : Bytes) (m : Manager)
      → Leaves resource m.subscriptions
          (subscribe_plain server clock sub_list_href resource resource_type m).1.subscriptions
  unfolding subscribe
  subscribe-Leaves sub_list_href resource resource_type m =
      elim (Option-cases (find_active_for_resource resource m.subscriptions)) [
        | inl e ↦ rw (e, subscribe) (take_location-Leaves sub_list_href resource resource_type _ _)
        | inr (s, e) ↦ rw (e, subscribe) (λ uri other apart own. own)
      ]

  -- A subscription that is not made changes nothing.
  take_location-none :
      (sub_list_href resource resource_type : Bytes) (answer : Answer) (m : Manager)
      → is_some (take_location server clock sub_list_href resource resource_type answer m).0 ≡ false
      → (take_location server clock sub_list_href resource resource_type answer m).1.subscriptions
        ≡ m.subscriptions
  unfolding take_location
  take_location-none sub_list_href resource resource_type Answer.failed m h = refl
  take_location-none sub_list_href resource resource_type (Answer.rejected status) m h = refl
  take_location-none sub_list_href resource resource_type (Answer.answered location) m h =
      ground arith

  subscribe-none :
      (sub_list_href resource resource_type : Bytes) (m : Manager)
      → is_some (subscribe_plain server clock sub_list_href resource resource_type m).0 ≡ false
      → (subscribe_plain server clock sub_list_href resource resource_type m).1.subscriptions
        ≡ m.subscriptions
  unfolding subscribe
  subscribe-none sub_list_href resource resource_type m h =
      elim (Option-cases (find_active_for_resource resource m.subscriptions)) [
        | inl e ↦
            rw (e, subscribe)
              (take_location-none sub_list_href resource resource_type _ _ (rw (e, subscribe) at h))
        | inr (s, e) ↦ rw (e, subscribe) refl
      ]

  -- A change of the dict that leaves the other resources' entries where they are.
  abbrev Turns : Bytes → Manager → Manager → Type 0
  Turns resource m n =
      Change Any m.subscriptions n.subscriptions × Leaves resource m.subscriptions n.subscriptions

  move-Turns :
      (s t : SubscriptionState) (m : Manager)
      → t.subscribed_resource ≡ s.subscribed_resource
      → Owns s.subscription_uri s.subscribed_resource m.subscriptions
      → Turns s.subscribed_resource m (file t (forget s.subscription_uri m))
  move-Turns s t m same own =
      let d = Dict.delete s.subscription_uri m.subscriptions in
      (
        first_then (drops s.subscription_uri) (
            opens t tt (
              delete-Owns s.subscription_uri t.subscription_uri t.subscribed_resource
                m.subscriptions (rw same own))),
        (λ uri other apart there.
            put-Leaves t.subscription_uri s.subscribed_resource t d same uri other apart (
              delete-Leaves s.subscribed_resource s.subscription_uri m.subscriptions uri other apart
                there)),
      )

  adopt-Turns :
      (s : SubscriptionState) (uri : Option Bytes) (m : Manager)
      → Owns s.subscription_uri s.subscribed_resource m.subscriptions
      → Turns s.subscribed_resource m (adopt s uri m)
  unfolding adopt
  adopt-Turns s none m own = (stays, (λ u other apart there. there))
  adopt-Turns s (some uri) m own =
      if_elim (Turns s.subscribed_resource m) (uri == s.subscription_uri) _ _
        (stays, (λ u other apart there. there))
        (move-Turns s (record s { subscription_uri = uri }) m refl own)

  forget-Turns :
      (s : SubscriptionState) (m : Manager)
      → Turns s.subscribed_resource m (forget s.subscription_uri m)
  forget-Turns s m = (
    drops s.subscription_uri,
    delete-Leaves s.subscribed_resource s.subscription_uri m.subscriptions,
  )

  reestablish-Turns :
      (sub_list_href : Bytes) (s : SubscriptionState) (m : Manager)
      → Owns s.subscription_uri s.subscribed_resource m.subscriptions
      → Turns s.subscribed_resource m (reestablish server clock sub_list_href s m).1
  unfolding reestablish
  reestablish-Turns sub_list_href s m own =
      let gone = forget s.subscription_uri m in
      let made =
        subscribe_plain server clock sub_list_href s.subscribed_resource s.resource_type gone in
      let change =
        subscribe-Change server clock Any sub_list_href s.subscribed_resource s.resource_type 0
          (text "+S1") 1 gone tt in
      let leaves = subscribe-Leaves sub_list_href s.subscribed_resource s.resource_type gone in
      elim (Bool-cases (is_some made.0)) [
        | inl ok ↦ rw ok (
          first_then (drops s.subscription_uri) change,
          (λ u other apart there. leaves u other apart (
              delete-Leaves s.subscribed_resource s.subscription_uri m.subscriptions u other apart
                there)),
        )
        | inr bad ↦
            let same =
              subscribe-none sub_list_href s.subscribed_resource s.resource_type gone bad in
            rw (bad, same) (move-Turns s s m refl own)
      ]

  reconcile_one-Turns :
      (sub_list_href : Bytes) (again : Bool) (resources : List Bytes) (uris : Dict Bytes Bytes)
      (s : SubscriptionState) (m : Manager)
      → Owns s.subscription_uri s.subscribed_resource m.subscriptions
      → Turns s.subscribed_resource m
          (reconcile_one server clock sub_list_href again resources uris s m).1
  unfolding reconcile_one
  reconcile_one-Turns sub_list_href again resources uris s m own =
      let Ok : Bool × Manager → Type 0 = λ r. Turns s.subscribed_resource m r.1 in
      let still : Turns s.subscribed_resource m m = (stays, (λ u other apart there. there)) in
      if_elim Ok s.unmanaged _ _ still (
        if_elim Ok (Sets.contains s.subscribed_resource resources) _ _
          (adopt-Turns s (Dict.get s.subscribed_resource uris) m own)
          (if_elim Ok again _ _ (reestablish-Turns sub_list_href s m own) (
            if_elim (Turns s.subscribed_resource m) (is_empty resources) _ _ still
              (forget-Turns s m))))

  reconcile_states-Change :
      (sub_list_href : Bytes) (again : Bool) (resources : List Bytes) (uris : Dict Bytes Bytes)
      (states : List SubscriptionState) (m : Manager)
      → Apart states
      → All (Placed m.subscriptions) states
      → Change Any m.subscriptions
          (reconcile_states server clock sub_list_href again resources uris states
            m).1.subscriptions
  unfolding reconcile_states
  reconcile_states-Change sub_list_href again resources uris [] m apart placed = stays
  reconcile_states-Change sub_list_href again resources uris (s ∷ states) m (far, apart)
        (own, placed) =
      let n = (reconcile_one server clock sub_list_href again resources uris s m).1 in
      let (change, leaves) = reconcile_one-Turns sub_list_href again resources uris s m own in
      let placed' =
        All-map (λ t h. leaves t.subscription_uri t.subscribed_resource h.0 h.1) states
          (All-both
            (λ (t : SubscriptionState). (s.subscribed_resource == t.subscribed_resource) ≡ false)
            (Placed m.subscriptions) states far placed) in
      first_then change
        (reconcile_states-Change sub_list_href again resources uris states n apart placed')

pub reconcile_with_server-Change :
    (server : List Effect → Effect → Answer) (clock : List Effect → ℕ) (sub_list_href : Bytes)
    (again : Bool) (listed : Option (List Listed)) (m : Manager)
    → IsSound m.subscriptions
    → Change Any m.subscriptions
        (reconcile_with_server server clock sub_list_href again listed m).1.subscriptions
unfolding reconcile_with_server
reconcile_with_server-Change server clock sub_list_href again none m h = stays
reconcile_with_server-Change server clock sub_list_href again (some listed) m h =
    reconcile_states-Change server clock sub_list_href again _ _
      (keep is_active (Dict.values m.subscriptions)) m (active-Apart m.subscriptions h)
      (active-Placed m.subscriptions h)
