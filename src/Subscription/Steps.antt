-- ===== src/Subscription/Steps.antt =====
-- Each operation of subscription/manager.py on one subscription is a change of the dict.
use py.Prelude.{
  ℕ, Bytes, bytes_key, Option, none, some, List, [], ◌∷◌, Bool, not, ◌&&◌, ◌==◌, ◌≡◌, refl, ◌∙◌,
  ◌⊎◌, inl, inr, Bool-cases, Option-cases, or_else, if_elim, arith,
}
use py.Prelude.Dict
use py.Prelude.Text.{given, before_last}
use py.Subscription.{
  SubscriptionState, Subscription, RenewalMethod, Manager, Effect, Answer, is_active, note,
  is_lost_status, is_fallback_status, find_active_for_resource, renewal_rejected, posts, puts,
}
use py.Subscription.Calls.{
  take_location, subscribe, cancel_one, cancel, cancel_each, renewed, renew_by_post, renew_by_put,
  renew_by, renew_state, renew,
}
use py.Subscription.Files.{Owns, find_active_for_resource-none}
use py.Subscription.Changes.{Change, stays, drops, opens, restamps, moves}

pub Answer-cases :
    (a : Answer)
    → ((location : Option Bytes) × (a ≡ Answer.answered location))
      ⊎ (((status : ℕ) × (a ≡ Answer.rejected status)) ⊎ (a ≡ Answer.failed))
Answer-cases (Answer.answered location) = inl (location, refl)
Answer-cases (Answer.rejected status) = inr (inl (status, refl))
Answer-cases Answer.failed = inr (inr refl)

module _ (server : List Effect → Effect → Answer) (clock : List Effect → ℕ)
    (Allowed : Bytes → Bytes → Type 0) where
  take_location-Change :
      (sub_list_href resource resource_type : Bytes) (answer : Answer) (m : Manager)
      → Allowed resource resource_type
      → ((uri : Bytes) → Owns uri resource m.subscriptions)
      → Change Allowed m.subscriptions
          (take_location server clock sub_list_href resource resource_type answer m).1.subscriptions
  unfolding take_location
  take_location-Change sub_list_href resource resource_type Answer.failed m ok own = stays
  take_location-Change sub_list_href resource resource_type (Answer.rejected status) m ok own =
      stays
  take_location-Change sub_list_href resource resource_type (Answer.answered location) m ok own =
      elim (Option-cases (given location)) [
        | inl e ↦
            rw (e, take_location)
              (if_elim
                (λ (r : Option SubscriptionState × Manager).
                  Change Allowed m.subscriptions r.1.subscriptions)
                m.missing_location_fallback _ _ (opens _ ok (own _)) stays)
        | inr (uri, e) ↦ rw (e, take_location) (opens _ ok (own uri))
      ]

  pub subscribe-Change :
      (sub_list_href resource resource_type : Bytes) (encoding : ℕ) (level : Bytes) (limit : ℕ)
      (m : Manager)
      → Allowed resource resource_type
      → Change Allowed m.subscriptions
          (subscribe server clock sub_list_href resource resource_type encoding level limit
            m).1.subscriptions
  unfolding subscribe
  subscribe-Change sub_list_href resource resource_type encoding level limit m ok =
      elim (Option-cases (find_active_for_resource resource m.subscriptions)) [
        | inl e ↦
            rw (e, subscribe)
              (take_location-Change sub_list_href resource resource_type _ _ ok
                (λ uri. find_active_for_resource-none resource uri m.subscriptions e))
        | inr (s, e) ↦ rw (e, subscribe) stays
      ]

  pub cancel_one-subscriptions :
      (uri : Bytes) (m : Manager)
      → (cancel_one server clock uri m).1.subscriptions ≡ m.subscriptions
  unfolding cancel_one
  cancel_one-subscriptions uri m = ground arith

  pub cancel-Change :
      (uri : Bytes) (m : Manager)
      → Change Allowed m.subscriptions (cancel server clock uri m).1.subscriptions
  unfolding cancel
  cancel-Change uri m = rw (cancel_one-subscriptions uri m) (drops uri)

  pub cancel_each-subscriptions :
      (uris : List Bytes) (m : Manager)
      → (cancel_each server clock uris m).1.subscriptions ≡ m.subscriptions
  unfolding cancel_each
  cancel_each-subscriptions [] m = refl
  cancel_each-subscriptions (uri ∷ uris) m =
      cancel_each-subscriptions uris (cancel_one server clock uri m).1
      ∙ cancel_one-subscriptions uri m

  renewed-Change :
      (uri : Bytes) (s : SubscriptionState) (location : Option Bytes) (m : Manager)
      → Dict.get uri m.subscriptions ≡ some s
      → Change Allowed m.subscriptions (renewed server clock uri s location m).subscriptions
  unfolding renewed is_active
  renewed-Change uri s location m e = elim (Bool-cases (or_else (given location) uri == uri)) [
    | inl there ↦
        rw there (restamps uri s _ e refl (record { resource = refl; kind = refl; active = refl }))
    | inr away ↦ rw away (moves uri s _ e (record { resource = refl; kind = refl; active = refl }))
  ]

  renewal_rejected-Change :
      (status : ℕ) (m : Manager)
      → Change Allowed m.subscriptions (renewal_rejected status m).1.subscriptions
  unfolding renewal_rejected
  renewal_rejected-Change status m =
      elim (Bool-cases (is_lost_status status && m.on_subscription_lost)) [
        | inl lost ↦ rw lost stays
        | inr not_lost ↦ rw not_lost stays
      ]

  renew_by_post-Change :
      (uri : Bytes) (s : SubscriptionState) (sub : Subscription) (m : Manager)
      → Dict.get uri m.subscriptions ≡ some s
      → Change Allowed m.subscriptions (renew_by_post server clock uri s sub m).1.subscriptions
  unfolding renew_by_post
  renew_by_post-Change uri s sub m e =
      let request = posts (or_else (given s.sub_list_href) (before_last b'/' uri)) sub in
      elim (Answer-cases (server m.sent request)) [
        | inl (location, a) ↦
            rw (a, renew_by_post) (renewed-Change uri s location (note request m) e)
        | inr (inl (status, a)) ↦
            rw (a, renew_by_post) (renewal_rejected-Change status (note request m))
        | inr (inr a) ↦ rw (a, renew_by_post) stays
      ]

  renew_by_put-Change :
      (uri : Bytes) (s : SubscriptionState) (sub : Subscription) (m : Manager)
      → Dict.get uri m.subscriptions ≡ some s
      → Change Allowed m.subscriptions (renew_by_put server clock uri s sub m).1.subscriptions
  unfolding renew_by_put
  renew_by_put-Change uri s sub m e =
      let request = puts uri sub in
      elim (Answer-cases (server m.sent request)) [
        | inl (location, a) ↦ rw (a, renew_by_put) (renewed-Change uri s none (note request m) e)
        | inr (inl (status, a)) ↦ elim (Bool-cases (is_fallback_status status)) [
          | inl back ↦
              rw (a, renew_by_put, back) (renew_by_post-Change uri s sub (note request m) e)
          | inr on ↦ rw (a, renew_by_put, on) (renewal_rejected-Change status (note request m))
        ]
        | inr (inr a) ↦ rw (a, renew_by_put) stays
      ]

  renew_by-Change :
      (by : RenewalMethod) (uri : Bytes) (s : SubscriptionState) (sub : Subscription) (m : Manager)
      → Dict.get uri m.subscriptions ≡ some s
      → Change Allowed m.subscriptions (renew_by server clock by uri s sub m).1.subscriptions
  unfolding renew_by
  renew_by-Change RenewalMethod.post uri s sub m e = renew_by_post-Change uri s sub m e
  renew_by-Change RenewalMethod.put uri s sub m e = renew_by_put-Change uri s sub m e

  renew_state-Change :
      (uri : Bytes) (s : SubscriptionState) (sub : Subscription) (m : Manager)
      → Dict.get uri m.subscriptions ≡ some s
      → Change Allowed m.subscriptions (renew_state server clock uri s sub m).1.subscriptions
  unfolding renew_state
  renew_state-Change uri s sub m e =
      let Changed : Bool × Manager → Type 0 =
        λ r. Change Allowed m.subscriptions r.1.subscriptions in
      if_elim Changed (not (is_active s)) _ _ stays (
        if_elim Changed s.unmanaged _ _ (renewed-Change uri s none m e)
          (renew_by-Change m.renewal_method uri s sub m e))

  pub renew-Change :
      (uri : Bytes) (encoding : Option ℕ) (level : Option Bytes) (limit : Option ℕ) (m : Manager)
      → Change Allowed m.subscriptions
          (renew server clock uri encoding level limit m).1.subscriptions
  unfolding renew
  renew-Change uri encoding level limit m = elim (Option-cases (Dict.get uri m.subscriptions)) [
    | inl e ↦ rw (e, renew) stays
    | inr (s, e) ↦ rw (e, renew) (renew_state-Change uri s _ m e)
  ]
