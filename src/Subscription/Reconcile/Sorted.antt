-- ===== src/Subscription/Reconcile/Sorted.antt =====
-- The active states by their resource, in `reconcile` of subscription/manager.py.
use py.Prelude.{
  Bytes, bytes_key, some, List, [], ◌∷◌, true, ◌==◌, ==-refl, ◌≡◌, ◌∙◌, ap, inl, inr, All, In, here,
  there, Bool-cases, arith,
}
use py.Prelude.Dict
use py.Prelude.Dict.{Dict, IsDict, get-put, get-delete, put-IsDict, In-values, get-All, values-All}
use py.Subscription.{SubscriptionState, Manager, is_active, forget}
use py.Subscription.Files.{IsSound, get-put_cases, get-delete_old}
use py.Subscription.Reconcile.{sort_out, forget_each}

abbrev Found : Bytes → Dict Bytes SubscriptionState → Type 0
Found resource old = (t : SubscriptionState) × (Dict.get resource old ≡ some t)

put-Found :
    (r resource : Bytes) (s : SubscriptionState) (old : Dict Bytes SubscriptionState)
    → Found r old
    → Found r (Dict.put resource s old)
put-Found r resource s old (t, e) = elim (Bool-cases (resource == r)) [
  | inl same ↦ (s, ground (arith, get-put resource r s old))
  | inr other ↦ (t, ground (arith, get-put resource r s old))
]

sort_out-Found :
    (r : Bytes) (states : List SubscriptionState) (old : Dict Bytes SubscriptionState) (m : Manager)
    → Found r old
    → Found r (sort_out states old m).0
unfolding sort_out
sort_out-Found r [] old m h = h
sort_out-Found r (s ∷ states) old m h = elim (Bool-cases (is_active s)) [
  | inl on ↦ rw on (
      sort_out-Found r states (Dict.put s.subscribed_resource s old) m
        (put-Found r s.subscribed_resource s old h))
  | inr off ↦ rw off (sort_out-Found r states old (forget s.subscription_uri m) h)
]

sort_out-has :
    (s : SubscriptionState) (states : List SubscriptionState) (old : Dict Bytes SubscriptionState)
    (m : Manager)
    → In s states
    → is_active s ≡ true
    → Found s.subscribed_resource (sort_out states old m).0
unfolding sort_out
sort_out-has s [] old m i a = elim i [ ]
sort_out-has s (t ∷ states) old m (here same) a =
    rw (same, a)
      (sort_out-Found s.subscribed_resource states (Dict.put s.subscribed_resource s old) m (
        s,
        ground (
          arith,
          get-put s.subscribed_resource s.subscribed_resource s old,
          ==-refl s.subscribed_resource,
        ),
      ))
sort_out-has s (t ∷ states) old m (there i) a = elim (Bool-cases (is_active t)) [
  | inl on ↦ rw on (sort_out-has s states (Dict.put t.subscribed_resource t old) m i a)
  | inr off ↦ rw off (sort_out-has s states old (forget t.subscription_uri m) i a)
]

-- Each state stands under its resource, is active and has the property.
abbrev Filled : (SubscriptionState → Type 0) → Dict Bytes SubscriptionState → Type 0
Filled Q old =
    (r : Bytes) (t : SubscriptionState)
    → Dict.get r old ≡ some t
    → Q t × (is_active t ≡ true) × (t.subscribed_resource ≡ r)

sort_out-Filled :
    (Q : SubscriptionState → Type 0) (states : List SubscriptionState)
    (old : Dict Bytes SubscriptionState) (m : Manager)
    → All Q states
    → IsDict old
    → Filled Q old
    → IsDict (sort_out states old m).0 × Filled Q (sort_out states old m).0
unfolding sort_out
sort_out-Filled Q [] old m qs dict h = (dict, h)
sort_out-Filled Q (s ∷ states) old m (q, qs) dict h = elim (Bool-cases (is_active s)) [
  | inl on ↦ rw on (
      sort_out-Filled Q states (Dict.put s.subscribed_resource s old) m qs
        (put-IsDict s.subscribed_resource s old dict)
        (λ r t e. elim (get-put_cases s.subscribed_resource r s t old e) [
          | inl (at, same) ↦ rw (← same) (q, on, at)
          | inr e' ↦ h r t e'
        ]))
  | inr off ↦ rw off (sort_out-Filled Q states old (forget s.subscription_uri m) qs dict h)
]

-- What the loop of `forget_each` leaves was there, and is none of those forgotten.
pub forget_each-old :
    (uris : List Bytes) (m : Manager) (k : Bytes) (s : SubscriptionState)
    → Dict.get k (forget_each uris m).subscriptions ≡ some s
    → (Dict.get k m.subscriptions ≡ some s) × (In k uris → ⊥)
unfolding forget_each
forget_each-old [] m k s e = (e, λ i. elim i [ ])
forget_each-old (uri ∷ uris) m k s e =
    let (e', out) = forget_each-old uris (forget uri m) k s e in
    let (apart, e'') = get-delete_old uri k s m.subscriptions e' in
    (
      e'',
      λ i. elim i [
        | here same ↦ absurd (ground (arith, same, ==-refl k))
        | there later ↦ out later
      ],
    )

pub sort_out-old :
    (states : List SubscriptionState) (old : Dict Bytes SubscriptionState) (m : Manager) (k : Bytes)
    (s : SubscriptionState)
    → Dict.get k (sort_out states old m).1.subscriptions ≡ some s
    → Dict.get k m.subscriptions ≡ some s
unfolding sort_out
sort_out-old [] old m k s e = e
sort_out-old (t ∷ states) old m k s e = elim (Bool-cases (is_active t)) [
  | inl on ↦ sort_out-old states (Dict.put t.subscribed_resource t old) m k s (rw on at e)
  | inr off ↦
      (get-delete_old t.subscription_uri k s m.subscriptions
        (sort_out-old states old (forget t.subscription_uri m) k s (rw off at e))).1
]

abbrev Stands : Manager → SubscriptionState → Type 0
Stands m t = Dict.get t.subscription_uri m.subscriptions ≡ some t

unfoldable pub sorted : Manager → Dict Bytes SubscriptionState
sorted m = (sort_out (Dict.values m.subscriptions) [] m).0

sorted-Filled :
    (m : Manager) → IsSound m.subscriptions → IsDict (sorted m) × Filled (Stands m) (sorted m)
unfolding sorted Dict.get
sorted-Filled m sound =
    sort_out-Filled (Stands m) (Dict.values m.subscriptions) [] m
      (values-All (Stands m) m.subscriptions sound.keyed
        (λ k t e. ap (λ (j : Bytes). Dict.get j m.subscriptions) (sound.filed k t e) ∙ e))
      tt (λ r u absent. cc)

-- An active subscription is the one that is found for its resource.
pub sorted-finds :
    (m : Manager) (k : Bytes) (s : SubscriptionState)
    → IsSound m.subscriptions
    → Dict.get k m.subscriptions ≡ some s
    → is_active s ≡ true
    → Dict.get s.subscribed_resource (sorted m) ≡ some s
unfolding sorted
sorted-finds m k s sound e a =
    let (t, found) =
      sort_out-has s (Dict.values m.subscriptions) [] m (In-values k s m.subscriptions e) a in
    let (stands, on, at) = (sorted-Filled m sound).1 s.subscribed_resource t found in
    let same = sound.sole k s e a t.subscription_uri t stands on at in
    let again = ap (λ (j : Bytes). Dict.get j m.subscriptions) same in cc
