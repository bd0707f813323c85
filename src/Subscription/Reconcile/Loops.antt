-- ===== src/Subscription/Reconcile/Loops.antt =====
-- The loops of the two reconciliations of subscription/manager.py are changes of the dict.
use py.Prelude.{
  ℕ, Bytes, bytes_key, none, List, [], ◌∷◌, Bool, true, false, ◌++◌, All, All-append, if_elim,
}
use py.Prelude.Dict
use py.Prelude.Dict.{Dict}
use py.Prelude.Text.{text}
use py.Subscription.{SubscriptionState, Manager, Effect, Answer, is_active, forget}
use py.Subscription.Calls.{renew_plain, subscribe_plain}
use py.Subscription.Changes.{Change, stays, drops, first_then}
use py.Subscription.Steps.{subscribe-Change, renew-Change}
use py.Subscription.Reconcile.{
  sort_out, forget_each, renew_each, drop_failed, create_each, keep_each,
}

module _ (server : List Effect → Effect → Answer) (clock : List Effect → ℕ)
    (Allowed : Bytes → Bytes → Type 0) where
  abbrev pub Changed : Manager → Manager → Type 0
  Changed m n = Change Allowed m.subscriptions n.subscriptions

  pub sort_out-Change :
      (states : List SubscriptionState) (old : Dict Bytes SubscriptionState) (m : Manager)
      → Changed m (sort_out states old m).1
  unfolding sort_out
  sort_out-Change [] old m = stays
  sort_out-Change (s ∷ states) old m =
      if_elim (λ (r : Dict Bytes SubscriptionState × Manager). Changed m r.1) (is_active s) _ _
        (sort_out-Change states (Dict.put s.subscribed_resource s old) m)
        (first_then (drops s.subscription_uri)
          (sort_out-Change states old (forget s.subscription_uri m)))

  pub forget_each-Change : (uris : List Bytes) (m : Manager) → Changed m (forget_each uris m)
  unfolding forget_each
  forget_each-Change [] m = stays
  forget_each-Change (uri ∷ uris) m =
      first_then (drops uri) (forget_each-Change uris (forget uri m))

  pub renew_each-Change :
      (states : List SubscriptionState) (m : Manager)
      → Changed m (renew_each server clock states m).1
  unfolding renew_each
  renew_each-Change [] m = stays
  renew_each-Change (s ∷ states) m =
      first_then (renew-Change server clock Allowed s.subscription_uri none none none m)
        (renew_each-Change states (renew_plain server clock s.subscription_uri m).1)

  pub keep_each-Change :
      (renew_kept : Bool) (states : List SubscriptionState) (m : Manager)
      → Changed m (keep_each server clock renew_kept states m).1
  unfolding keep_each
  keep_each-Change true states m = renew_each-Change states m
  keep_each-Change false states m = stays

  -- The pairs to create stay allowed when those of states that were allowed join them.
  pub drop_failed-Change :
      (states : List SubscriptionState) (oks : List Bool) (pairs : List (Bytes × Bytes))
      (m : Manager)
      → All (λ s. Allowed s.subscribed_resource s.resource_type) states
      → All (λ pair. Allowed pair.0 pair.1) pairs
      → Changed m (drop_failed server clock states oks pairs m).1
        × All (λ pair. Allowed pair.0 pair.1) (drop_failed server clock states oks pairs m).0
  unfolding drop_failed
  drop_failed-Change (s ∷ states) (true ∷ oks) pairs m (h, hs) ps =
      drop_failed-Change states oks pairs m hs ps
  drop_failed-Change (s ∷ states) (false ∷ oks) pairs m (h, hs) ps =
      let pair : Bytes × Bytes = (s.subscribed_resource, s.resource_type) in
      let (change, ok) =
        drop_failed-Change states oks (pairs ++ pair ∷ []) (forget s.subscription_uri m) hs
          (All-append (λ p. Allowed p.0 p.1) pairs (pair ∷ []) ps (h, tt)) in
      (first_then (drops s.subscription_uri) change, ok)
  drop_failed-Change [] oks pairs m hs ps = (stays, ps)
  drop_failed-Change (s ∷ states) [] pairs m hs ps = (stays, ps)

  pub create_each-Change :
      (sub_list_href : Bytes) (pairs : List (Bytes × Bytes)) (m : Manager)
      → All (λ pair. Allowed pair.0 pair.1) pairs
      → Changed m (create_each server clock sub_list_href pairs m).1
  unfolding create_each
  create_each-Change sub_list_href [] m ps = stays
  create_each-Change sub_list_href ((resource, resource_type) ∷ pairs) m (p, ps) =
      first_then
        (subscribe-Change server clock Allowed sub_list_href resource resource_type 0 (text "+S1") 1
          m p)
        (create_each-Change sub_list_href pairs
          (subscribe_plain server clock sub_list_href resource resource_type m).1 ps)
