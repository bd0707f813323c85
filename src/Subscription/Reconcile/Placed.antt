-- ===== src/Subscription/Reconcile/Placed.antt =====
-- The active subscriptions of subscription/manager.py, as a list of states of different resources.
use py.Prelude.{
  Bytes, bytes_key, some, List, [], ◌∷◌, true, false, ◌==◌, ==→eq, ==-refl, ◌≡◌, sym, ap, inl, inr,
  All, All-map, All-both, All-keep, keep-All, keep, Bool-cases, arith,
}
use py.Prelude.Dict
use py.Prelude.Dict.{Dict, IsDict, get-tail, values-All}
use py.Subscription.{SubscriptionState, Subscriptions, is_active}
use py.Subscription.Files.{Owns, IsSound}

-- The states of different resources, each where the dict has it.
abbrev pub Apart : List SubscriptionState → Type 0
Apart [] = Unit
Apart (s ∷ states) =
    All (λ t. (s.subscribed_resource == t.subscribed_resource) ≡ false) states × Apart states

abbrev pub Placed : Subscriptions → SubscriptionState → Type 0
Placed d s = Owns s.subscription_uri s.subscribed_resource d

pub tail-IsSound :
    (k : Bytes) (s : SubscriptionState) (d : Subscriptions) → IsSound ((k, s) ∷ d) → IsSound d
unfolding Dict.get
tail-IsSound k s d h =
    let up : (j : Bytes) (t : SubscriptionState)
        → Dict.get j d ≡ some t
        → Dict.get j ((k, s) ∷ d) ≡ some t =
      λ j t e. get-tail k j s t d h.keyed.0 e in
    record {
      keyed = h.keyed.1;
      filed = λ j t e. h.filed j t (up j t e);
      sole = λ j t e a i u e'. h.sole j t (up j t e) a i u (up i u e');
    }

active-apart :
    (k : Bytes) (s : SubscriptionState) (d : Subscriptions)
    → IsSound ((k, s) ∷ d)
    → is_active s ≡ true
    → (j : Bytes) (t : SubscriptionState) → Dict.get j d ≡ some t
    → is_active t ≡ true
    → (s.subscribed_resource == t.subscribed_resource) ≡ false
unfolding Dict.get
active-apart k s d h on j t e a =
    elim (Bool-cases (s.subscribed_resource == t.subscribed_resource)) [
      | inr apart ↦ apart
      | inl same ↦
          let shared = ==→eq s.subscribed_resource t.subscribed_resource same in
          let equal : j ≡ k =
            h.sole k s (ground (arith, ==-refl k)) on j t (get-tail k j s t d h.keyed.0 e) a
              (sym shared) in
          let twice = ap (λ (i : Bytes). Dict.get i d) equal in let absent = h.keyed.0 in cc
    ]

pub active-Apart : (d : Subscriptions) → IsSound d → Apart (keep is_active (Dict.values d))
unfolding keep Dict.get
active-Apart [] h = tt
active-Apart ((k, s) ∷ d) h =
    let rest = active-Apart d (tail-IsSound k s d h) in
    elim (Bool-cases (is_active s)) [
      | inr off ↦ rw off rest
      | inl on ↦
          let apart =
            values-All
              (λ t. is_active t ≡ true → (s.subscribed_resource == t.subscribed_resource) ≡ false) d
              h.keyed.1 (λ j t e a. active-apart k s d h on j t e a) in
          rw on (
            All-map (λ t both. both.1 both.0) (keep is_active (Dict.values d))
                (All-both (λ t. is_active t ≡ true)
                  (λ t.
                    is_active t ≡ true → (s.subscribed_resource == t.subscribed_resource) ≡ false)
                  (keep is_active (Dict.values d)) (keep-All is_active (Dict.values d))
                  (All-keep
                    (λ t.
                      is_active t ≡ true → (s.subscribed_resource == t.subscribed_resource) ≡ false)
                    is_active (Dict.values d) apart)),
            rest,
          )
    ]

pub active-Placed :
    (d : Subscriptions) → IsSound d → All (Placed d) (keep is_active (Dict.values d))
active-Placed d h =
    All-map (λ t both. both.1 both.0) (keep is_active (Dict.values d))
      (All-both (λ t. is_active t ≡ true) (λ t. is_active t ≡ true → Placed d t)
        (keep is_active (Dict.values d)) (keep-All is_active (Dict.values d))
        (All-keep (λ t. is_active t ≡ true → Placed d t) is_active (Dict.values d)
          (values-All (λ t. is_active t ≡ true → Placed d t) d h.keyed
            (λ k t e a. rw (h.filed k t e) (h.sole k t e a)))))
