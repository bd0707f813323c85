-- ===== src/Subscription/Files.antt =====
-- The dict of subscriptions, in subscription/manager.py: each under its href, and one active for each
-- resource.
use py.Prelude.{
  Bytes, bytes_key, none, some, [], ◌∷◌, true, false, ◌==◌, ==→eq, ==-refl, ◌≡◌, sym, ◌∙◌, ap, ◌⊎◌,
  inl, inr, Bool-cases, arith,
}
use py.Prelude.Dict
use py.Prelude.Dict.{Dict, IsDict, get-put, get-delete, put-IsDict, delete-IsDict}
use py.Subscription.{SubscriptionState, Subscriptions, is_active, find_active_for_resource}

pub get-put_cases {ℓ} :
    {V : Type ℓ} (uri k : Bytes) (v w : V) (d : Dict Bytes V)
    → Dict.get k (Dict.put uri v d) ≡ some w
    → ((uri ≡ k) × (v ≡ w)) ⊎ (Dict.get k d ≡ some w)
get-put_cases uri k v w d e = elim (Bool-cases (uri == k)) [
  | inl same ↦ inl (==→eq uri k same, ground (arith, get-put uri k v d))
  | inr other ↦ inr (ground (arith, get-put uri k v d))
]

pub get-delete_old {ℓ} :
    {V : Type ℓ} (uri k : Bytes) (w : V) (d : Dict Bytes V)
    → Dict.get k (Dict.delete uri d) ≡ some w
    → ((uri == k) ≡ false) × (Dict.get k d ≡ some w)
get-delete_old uri k w d e = ground (arith, get-delete uri k d)

-- The active subscriptions of the resource stand under this href, if there are any.
abbrev pub Owns : Bytes → Bytes → Subscriptions → Type 0
Owns uri resource d =
    (k : Bytes) (t : SubscriptionState)
    → Dict.get k d ≡ some t
    → is_active t ≡ true
    → t.subscribed_resource ≡ resource
    → k ≡ uri

pub record IsSound (d : Subscriptions) : Type 0 where
  pub keyed : IsDict d
  pub filed : (k : Bytes) (s : SubscriptionState) → Dict.get k d ≡ some s → s.subscription_uri ≡ k
  pub sole :
      (k : Bytes) (s : SubscriptionState)
      → Dict.get k d ≡ some s
      → is_active s ≡ true
      → Owns k s.subscribed_resource d

pub empty-IsSound : IsSound []
unfolding Dict.get
empty-IsSound = record { keyed = tt; filed = λ k s e. cc; sole = λ k s e a j t e'. cc }

pub delete-IsSound : (uri : Bytes) (d : Subscriptions) → IsSound d → IsSound (Dict.delete uri d)
delete-IsSound uri d h = record {
  keyed = delete-IsDict uri d h.keyed;
  filed = λ k s e. h.filed k s (get-delete_old uri k s d e).1;
  sole = λ k s e a j t e'.
      h.sole k s (get-delete_old uri k s d e).1 a j t (get-delete_old uri j t d e').1;
}

-- With the entry gone, no active subscription has its resource.
pub delete-Owns :
    (uri other resource : Bytes) (d : Subscriptions)
    → Owns uri resource d
    → Owns other resource (Dict.delete uri d)
delete-Owns uri other resource d h k t e a same =
    let (apart, e') = get-delete_old uri k t d e in
    absurd (ground (arith, h k t e' a same, ==-refl uri))

pub put-IsSound :
    (s : SubscriptionState) (d : Subscriptions)
    → (is_active s ≡ true → Owns s.subscription_uri s.subscribed_resource d)
    → IsSound d
    → IsSound (Dict.put s.subscription_uri s d)
put-IsSound s d own h = record {
  keyed = put-IsDict s.subscription_uri s d h.keyed;
  filed = λ k t e. elim (get-put_cases s.subscription_uri k s t d e) [
    | inl (at, same) ↦ ap (λ (u : SubscriptionState). u.subscription_uri) (sym same) ∙ at
    | inr e' ↦ h.filed k t e'
  ];
  sole = λ k t e a j u e' b same. elim (get-put_cases s.subscription_uri k s t d e) [
    | inl (at, is_s) ↦ elim (get-put_cases s.subscription_uri j s u d e') [
      | inl (at', is_s') ↦ sym at' ∙ at
      | inr old ↦ own (cc) j u old b (cc) ∙ at
    ]
    | inr old ↦ elim (get-put_cases s.subscription_uri j s u d e') [
      | inl (at, is_s) ↦ sym (own (cc) k t old a (cc) ∙ at)
      | inr old' ↦ h.sole k t old a j u old' b same
    ]
  ];
}

-- Where the search finds none, nothing stands for the resource under any href.
pub find_active_for_resource-none :
    (resource uri : Bytes) (d : Subscriptions)
    → find_active_for_resource resource d ≡ none
    → Owns uri resource d
unfolding find_active_for_resource Dict.get
find_active_for_resource-none resource uri [] h k t e a same = cc
find_active_for_resource-none resource uri ((j, s) ∷ d) h k t e a same =
    let rest : find_active_for_resource resource d ≡ none = ground arith in
    elim (Bool-cases (j == k)) [
      | inl here ↦
          let is_t : s ≡ t = ground arith in
          let res : (s.subscribed_resource == resource) ≡ true =
            rw (is_t, same) (==-refl resource) in
          let act : is_active s ≡ true = rw is_t a in absurd (ground arith)
      | inr there ↦ find_active_for_resource-none resource uri d rest k t (ground arith) a same
    ]
