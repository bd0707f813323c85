-- ===== src/Subscription/Reconcile/Wanted.antt =====
-- What is subscribed to after `reconcile` of subscription/manager.py.
use py.Prelude.{
  ℕ, Bytes, bytes_key, List, [], ◌∷◌, Bool, true, not, ==-refl, ◌≡◌, sym, ◌∙◌, ap, inl, inr, All,
  All-keep, keep-All, In-keep, In-map, keep, map, Bool-cases,
}
use py.Prelude.Dict
use py.Prelude.Dict.{Dict, IsDict, get-put, get-delete, put-IsDict, In-values, get-All, values-All}
use py.Subscription.{SubscriptionState, Subscriptions, Manager, Effect, Answer}
use py.Subscription.Calls.{cancel_each}
use py.Subscription.Files.{IsSound}
use py.Subscription.Changes.{first_then, Change-IsSound, Change-Within, Within}
use py.Subscription.Steps.{cancel_each-subscriptions}
use py.Subscription.Reconcile.{
  sort_out, dict_of, has_value, is_held, is_wanted, forget_each, drop_failed, keep_each, reconcile,
}
use py.Subscription.Reconcile.Loops.{
  sort_out-Change, forget_each-Change, keep_each-Change, drop_failed-Change, create_each-Change,
}
use py.Subscription.Reconcile.Sorted.{forget_each-old, sort_out-old, sorted, sorted-finds}

abbrev pub Desired : Dict Bytes Bytes → Bytes → Bytes → Type 0
Desired desired resource resource_type = has_value resource resource_type desired ≡ true

stale_uris : Dict Bytes Bytes → Manager → List Bytes
stale_uris desired m =
    map (λ (s : SubscriptionState). s.subscription_uri)
      (keep (λ s. not (is_wanted desired s)) (Dict.values (sorted m)))

-- With the stale ones forgotten, the active ones that are left are wanted.
forget_stale-Within :
    (desired : Dict Bytes Bytes) (m n : Manager)
    → IsSound m.subscriptions
    → n.subscriptions ≡ (sort_out (Dict.values m.subscriptions) [] m).1.subscriptions
    → Within (Desired desired) (forget_each (stale_uris desired m) n).subscriptions
unfolding stale_uris
forget_stale-Within desired m n sound same k s e a =
    let (e', kept) = forget_each-old (stale_uris desired m) n k s e in
    let old =
      sort_out-old (Dict.values m.subscriptions) [] m k s
        (ap (λ (d : Subscriptions). Dict.get k d) (sym same) ∙ e') in
    elim (Bool-cases (is_wanted desired s)) [
      | inl wanted ↦ wanted
      | inr stale ↦
          let among =
            In-keep (λ t. not (is_wanted desired t)) s (Dict.values (sorted m)) (ap not stale)
              (In-values s.subscribed_resource s (sorted m) (sorted-finds m k s sound old a)) in
          absurd (
            kept (
              rw (← sound.filed k s old)
                (In-map (λ (t : SubscriptionState). t.subscription_uri) s _ among)))
    ]

dict_of-IsDict :
    (pairs : List (Bytes × Bytes)) (d : Dict Bytes Bytes) → IsDict d → IsDict (dict_of pairs d)
unfolding dict_of
dict_of-IsDict [] d h = h
dict_of-IsDict ((k, v) ∷ pairs) d h = dict_of-IsDict pairs (Dict.put k v d) (put-IsDict k v d h)

missing-Desired :
    (desired : Dict Bytes Bytes) (old : Dict Bytes SubscriptionState)
    → IsDict desired
    → All (λ pair. Desired desired pair.0 pair.1) (keep (λ pair. not (is_held old pair)) desired)
unfolding has_value
missing-Desired desired old h =
    All-keep (λ pair. Desired desired pair.0 pair.1) (λ pair. not (is_held old pair)) desired
      (get-All (Desired desired) desired h (λ k v e. rw (e, has_value) (==-refl v)))

-- After `reconcile` every active subscription is for a desired resource, with the desired type, and
-- no resource has two.
pub reconcile-Within :
    (server : List Effect → Effect → Answer) (clock : List Effect → ℕ) (sub_list_href : Bytes)
    (desired : List (Bytes × Bytes)) (renew_kept : Bool) (m : Manager)
    → IsSound m.subscriptions
    → Within
        (Desired (dict_of desired []))
        (reconcile server clock sub_list_href desired renew_kept m).1.subscriptions
      × IsSound (reconcile server clock sub_list_href desired renew_kept m).1.subscriptions
unfolding reconcile sorted stale_uris
reconcile-Within server clock sub_list_href desired renew_kept m sound =
    let D = dict_of desired [] in
    let A = Desired D in
    let (old, m1) = sort_out (Dict.values m.subscriptions) [] m in
    let m2 = (cancel_each server clock (stale_uris D m) m1).1 in
    let same = cancel_each-subscriptions server clock A (stale_uris D m) m1 in
    let m3 = forget_each (stale_uris D m) m2 in
    let within3 = forget_stale-Within D m m2 sound same in
    let sound3 : IsSound m3.subscriptions =
      Change-IsSound (forget_each-Change server clock A (stale_uris D m) m2) (
        rw same (
          Change-IsSound (sort_out-Change server clock A (Dict.values m.subscriptions) [] m)
            sound)) in
    let kept = keep (is_wanted D) (Dict.values (sorted m)) in
    let renewals = keep_each server clock renew_kept kept m3 in
    let change4 = keep_each-Change server clock A renew_kept kept m3 in
    let missing = keep (λ pair. not (is_held (sorted m) pair)) D in
    let (change5, ok) =
      drop_failed-Change server clock A kept renewals.0 missing renewals.1
        (keep-All (is_wanted D) (Dict.values (sorted m)))
        (missing-Desired D (sorted m) (dict_of-IsDict desired [] tt)) in
    let dropped = drop_failed server clock kept renewals.0 missing renewals.1 in
    let change6 = create_each-Change server clock A sub_list_href dropped.0 dropped.1 ok in
    let change = first_then change4 (first_then change5 change6) in
    (Change-Within change within3, Change-IsSound change sound3)
