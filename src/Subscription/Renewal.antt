-- ===== src/Subscription/Renewal.antt =====
-- What comes of a renewal, in subscription/manager.py.
use py.Prelude.{
  ℕ, Bytes, bytes_key, Option, none, some, List, [], ◌∷◌, Bool, true, false, not, ◌&&◌, ◌==◌,
  ==-refl, ◌≡◌, refl, sym, ◌∙◌, ap, inl, inr, Bool-cases, or_else, if_elim, if◌then◌else◌, arith,
}
use py.Prelude.Dict
use py.Prelude.Dict.{get-put}
use py.Prelude.Text.{given, before_last}
use py.Subscription.{
  SubscriptionState, Subscription, RenewalMethod, Manager, Effect, Answer, is_active, note,
  is_lost_status, is_fallback_status, renewal_rejected, posts, puts, deletes, rediscovers,
}
use py.Subscription.Calls.{renewed, renew_by_post, renew_by_put, renew_by, renew_state, renew}
use py.Subscription.Changes.{Same}
use py.Subscription.Steps.{Answer-cases}

is_request : Effect → Bool
is_request rediscovers = false
is_request (posts uri sub) = true
is_request (puts uri sub) = true
is_request (deletes uri) = true

rejected_injective : (a b : ℕ) → Answer.rejected a ≡ Answer.rejected b → a ≡ b
rejected_injective a b e = cc

if_false {ℓ κ} :
    {A : Type ℓ} (P : A → Type κ) (b : Bool) (x y : A) → b ≡ false → P y → P (if b then x else y)
if_false P b x y e p = rw e p

module _ (server : List Effect → Effect → Answer) (clock : List Effect → ℕ) where
  -- A rediscovery is called for after an answer that says that the subscription is lost, and then only.
  abbrev pub Judged : Bool → List Effect → Type 0
  Judged on_lost (rediscovers ∷ e ∷ log) =
      (status : ℕ) × (server log e ≡ Answer.rejected status)
      × (is_lost_status status ≡ true)
      × (on_lost ≡ true)
  Judged on_lost (e ∷ log) =
      (status : ℕ)
      → server log e ≡ Answer.rejected status
      → (is_lost_status status && on_lost) ≡ false
  Judged on_lost [] = Unit

  -- What a renewal of this state comes to.
  abbrev pub Outcome : SubscriptionState → Manager → Bool × Manager → Type 0
  Outcome s m (false, n) =
      (n.subscriptions ≡ m.subscriptions) × Judged m.on_subscription_lost n.sent
  Outcome s m (true, n) =
      (k : Bytes) × (t : SubscriptionState) × (Dict.get k n.subscriptions ≡ some t)
      × Same s t
      × (t.created_at ≡ clock n.sent)

  renewed-Outcome :
      (uri : Bytes) (s : SubscriptionState) (location : Option Bytes) (m n : Manager)
      → Outcome s m (true, renewed server clock uri s location n)
  unfolding renewed is_active
  renewed-Outcome uri s location m n =
      let at = or_else (given location) uri in
      let t = record s { created_at = clock n.sent } in
      let moved = record t { subscription_uri = at } in
      let same : Same s t = record { resource = refl; kind = refl; active = refl } in
      let same' : Same s moved = record { resource = refl; kind = refl; active = refl } in
      elim (Bool-cases (at == uri)) [
        | inl there ↦
            rw there
              (uri, t, ground (arith, get-put uri uri t n.subscriptions, ==-refl uri), same, refl)
        | inr away ↦ rw away (
          at,
          moved,
          ground (arith, get-put at at moved (Dict.delete uri n.subscriptions), ==-refl at),
          same',
          refl,
        )
      ]

  Judged-request :
      (on_lost : Bool) (e : Effect) (log : List Effect)
      → is_request e ≡ true
      → ((status : ℕ)
          → server log e ≡ Answer.rejected status
          → (is_lost_status status && on_lost) ≡ false)
      → Judged on_lost (e ∷ log)
  unfolding is_request
  Judged-request on_lost rediscovers log request h = absurd (ground arith)
  Judged-request on_lost (posts uri sub) log request h = h
  Judged-request on_lost (puts uri sub) log request h = h
  Judged-request on_lost (deletes uri) log request h = h

  failed-Outcome :
      (s : SubscriptionState) (e : Effect) (m n : Manager)
      → is_request e ≡ true
      → n.subscriptions ≡ m.subscriptions
      → server n.sent e ≡ Answer.failed
      → Outcome s m (false, note e n)
  failed-Outcome s e m n request same a =
      (same, Judged-request m.on_subscription_lost e n.sent request (λ status b. absurd (cc)))

  rejected-Outcome :
      (status : ℕ) (s : SubscriptionState) (e : Effect) (m n : Manager)
      → is_request e ≡ true
      → n.subscriptions ≡ m.subscriptions
      → n.on_subscription_lost ≡ m.on_subscription_lost
      → server n.sent e ≡ Answer.rejected status
      → Outcome s m (renewal_rejected status (note e n))
  unfolding renewal_rejected
  rejected-Outcome status s e m n request same same' a =
      elim (Bool-cases (is_lost_status status && n.on_subscription_lost)) [
        | inl lost ↦ rw lost (same, (status, a, ground arith, ground arith))
        | inr kept ↦ rw kept (
          same,
          Judged-request m.on_subscription_lost e n.sent request (λ status' b.
              ap (λ (x : Bool). is_lost_status status' && x) (sym same')
              ∙ ap (λ (x : ℕ). is_lost_status x && n.on_subscription_lost)
                  (rejected_injective status' status (sym b ∙ a))
              ∙ kept),
        )
      ]

  renew_by_post-Outcome :
      (uri : Bytes) (s : SubscriptionState) (sub : Subscription) (m n : Manager)
      → n.subscriptions ≡ m.subscriptions
      → n.on_subscription_lost ≡ m.on_subscription_lost
      → Outcome s m (renew_by_post server clock uri s sub n)
  unfolding renew_by_post is_request
  renew_by_post-Outcome uri s sub m n same same' =
      let request = posts (or_else (given s.sub_list_href) (before_last b'/' uri)) sub in
      elim (Answer-cases (server n.sent request)) [
        | inl (location, a) ↦
            rw (a, renew_by_post) (renewed-Outcome uri s location m (note request n))
        | inr (inl (status, a)) ↦
            rw (a, renew_by_post) (rejected-Outcome status s request m n refl same same' a)
        | inr (inr a) ↦ rw (a, renew_by_post) (failed-Outcome s request m n refl same a)
      ]

  renew_by-Outcome :
      (by : RenewalMethod) (uri : Bytes) (s : SubscriptionState) (sub : Subscription) (m : Manager)
      → Outcome s m (renew_by server clock by uri s sub m)
  unfolding renew_by renew_by_put is_request
  renew_by-Outcome RenewalMethod.post uri s sub m = renew_by_post-Outcome uri s sub m m refl refl
  renew_by-Outcome RenewalMethod.put uri s sub m =
      let request = puts uri sub in
      elim (Answer-cases (server m.sent request)) [
        | inl (location, a) ↦ rw (a, renew_by_put) (renewed-Outcome uri s none m (note request m))
        | inr (inl (status, a)) ↦
            rw (a, renew_by_put)
              (if_elim (Outcome s m) (is_fallback_status status) _ _
                (renew_by_post-Outcome uri s sub m (note request m) refl refl)
                (rejected-Outcome status s request m m refl refl refl a))
        | inr (inr a) ↦ rw (a, renew_by_put) (failed-Outcome s request m m refl refl a)
      ]

  -- Of an active subscription that the server manages, a renewal that succeeds leaves an active one
  -- with the same resource and type, renewed at that time; one that fails leaves the dict as it is,
  -- and calls for a rediscovery just when its last answer says that the subscription is lost.
  pub renew_lem :
      (uri : Bytes) (encoding : Option ℕ) (level : Option Bytes) (limit : Option ℕ)
      (s : SubscriptionState) (m : Manager)
      → Dict.get uri m.subscriptions ≡ some s
      → is_active s ≡ true
      → s.unmanaged ≡ false
      → Outcome s m (renew server clock uri encoding level limit m)
  unfolding renew renew_state
  renew_lem uri encoding level limit s m e on managed =
      rw (e, renew)
        (if_false (Outcome s m) (not (is_active s)) _ _ (ap not on) (
          if_false (Outcome s m) s.unmanaged _ _ managed
            (renew_by-Outcome m.renewal_method uri s _ m)))
