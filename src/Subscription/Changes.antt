-- ===== src/Subscription/Changes.antt =====
-- What an operation of subscription/manager.py may do to the dict of subscriptions, as steps that know
-- of hrefs, resources and types only.
use py.Prelude.{Bytes, bytes_key, some, true, false, ◌≡◌, sym, ◌∙◌, inl, inr, arith}
use py.Prelude.Dict
use py.Prelude.Dict.{Dict, get-put, get-delete, put-IsDict}
use py.Subscription.{SubscriptionState, Subscriptions, is_active}
use py.Subscription.Files.{
  Owns, IsSound, get-put_cases, get-delete_old, delete-IsSound, delete-Owns, put-IsSound,
}

-- The same subscription, perhaps under another href or with another time.
pub record Same (s t : SubscriptionState) : Type 0 where
  pub resource : t.subscribed_resource ≡ s.subscribed_resource
  pub kind : t.resource_type ≡ s.resource_type
  pub active : is_active t ≡ is_active s

-- A new subscription is for a resource and a type that are allowed, and for a resource that no
-- active one has.
pub data Change (Allowed : Bytes → Bytes → Type 0) : Subscriptions → Subscriptions → Type 0 where
  stays : {d : Subscriptions} → Change Allowed d d
  drops : {d : Subscriptions} (uri : Bytes) → Change Allowed d (Dict.delete uri d)
  opens :
      {d : Subscriptions} (s : SubscriptionState)
      → Allowed s.subscribed_resource s.resource_type
      → Owns s.subscription_uri s.subscribed_resource d
      → Change Allowed d (Dict.put s.subscription_uri s d)
  restamps :
      {d : Subscriptions} (uri : Bytes) (s t : SubscriptionState)
      → Dict.get uri d ≡ some s
      → t.subscription_uri ≡ s.subscription_uri
      → Same s t
      → Change Allowed d (Dict.put uri t d)
  closes :
      {d : Subscriptions} (uri : Bytes) (s t : SubscriptionState)
      → Dict.get uri d ≡ some s
      → t.subscription_uri ≡ s.subscription_uri
      → is_active t ≡ false
      → Change Allowed d (Dict.put uri t d)
  moves :
      {d : Subscriptions} (uri : Bytes) (s t : SubscriptionState)
      → Dict.get uri d ≡ some s
      → Same s t
      → Change Allowed d (Dict.put t.subscription_uri t (Dict.delete uri d))
  first_then :
      {d e f : Subscriptions} → Change Allowed d e → Change Allowed e f → Change Allowed d f

-- An entry that stays under its href, and is no more active than it was.
put_there-IsSound :
    (uri : Bytes) (s t : SubscriptionState) (d : Subscriptions)
    → Dict.get uri d ≡ some s
    → t.subscription_uri ≡ s.subscription_uri
    → (is_active t ≡ true → (is_active s ≡ true) × (t.subscribed_resource ≡ s.subscribed_resource))
    → IsSound d
    → IsSound (Dict.put uri t d)
put_there-IsSound uri s t d e at less h =
    let here = at ∙ h.filed uri s e in
    rw (← here) (put-IsSound t d (λ a. rw (here, (less a).1) (h.sole uri s e (less a).0)) h)

pub Change-IsSound :
    {Allowed : Bytes → Bytes → Type 0} {d e : Subscriptions}
    → Change Allowed d e
    → IsSound d
    → IsSound e
Change-IsSound stays h = h
Change-IsSound {d = d} (drops uri) h = delete-IsSound uri d h
Change-IsSound {d = d} (opens s ok own) h = put-IsSound s d (λ a. own) h
Change-IsSound {d = d} (restamps uri s t e at same) h =
    put_there-IsSound uri s t d e at (λ a. (sym same.active ∙ a, same.resource)) h
Change-IsSound {d = d} (closes uri s t e at off) h =
    put_there-IsSound uri s t d e at (λ a. absurd (ground arith)) h
Change-IsSound {d = d} (moves uri s t e same) h =
    put-IsSound t (Dict.delete uri d)
      (λ a.
        delete-Owns uri t.subscription_uri t.subscribed_resource d
          (rw same.resource (h.sole uri s e (sym same.active ∙ a))))
      (delete-IsSound uri d h)
Change-IsSound (first_then c c') h = Change-IsSound c' (Change-IsSound c h)

-- Every active subscription is for a resource and a type that are allowed.
abbrev pub Within : (Bytes → Bytes → Type 0) → Subscriptions → Type 0
Within Allowed d =
    (k : Bytes) (s : SubscriptionState)
    → Dict.get k d ≡ some s
    → is_active s ≡ true
    → Allowed s.subscribed_resource s.resource_type

put-Within :
    (Allowed : Bytes → Bytes → Type 0) (uri : Bytes) (t : SubscriptionState) (d : Subscriptions)
    → (is_active t ≡ true → Allowed t.subscribed_resource t.resource_type)
    → Within Allowed d
    → Within Allowed (Dict.put uri t d)
put-Within Allowed uri t d ok h k s e a = elim (get-put_cases uri k t s d e) [
  | inl (_, same) ↦ rw (← same) (ok (rw same a))
  | inr old ↦ h k s old a
]

delete-Within :
    (Allowed : Bytes → Bytes → Type 0) (uri : Bytes) (d : Subscriptions)
    → Within Allowed d
    → Within Allowed (Dict.delete uri d)
delete-Within Allowed uri d h k s e = h k s (get-delete_old uri k s d e).1

pub Change-Within :
    {Allowed : Bytes → Bytes → Type 0} {d e : Subscriptions}
    → Change Allowed d e
    → Within Allowed d
    → Within Allowed e
Change-Within stays h = h
Change-Within {Allowed} {d} (drops uri) h = delete-Within Allowed uri d h
Change-Within {Allowed} {d} (opens s ok own) h =
    put-Within Allowed s.subscription_uri s d (λ a. ok) h
Change-Within {Allowed} {d} (restamps uri s t e at same) h =
    put-Within Allowed uri t d
      (λ a. rw (same.resource, same.kind) (h uri s e (sym same.active ∙ a))) h
Change-Within {Allowed} {d} (closes uri s t e at off) h =
    put-Within Allowed uri t d (λ a. absurd (ground arith)) h
Change-Within {Allowed} {d} (moves uri s t e same) h =
    put-Within Allowed t.subscription_uri t (Dict.delete uri d)
      (λ a. rw (same.resource, same.kind) (h uri s e (sym same.active ∙ a)))
      (delete-Within Allowed uri d h)
Change-Within (first_then c c') h = Change-Within c' (Change-Within c h)
