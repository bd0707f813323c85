-- ===== src/Subscription/Course.antt =====
-- Every course of operations of subscription/manager.py keeps the dict of subscriptions sound.
use py.Prelude.{
  ℕ, Bytes, bytes_key, bytes_beq, Option, none, some, List, [], ◌∷◌, Bool, true, not, ◌&&◌, ◌==◌,
  ◌≡◌, refl, sym, ◌∙◌, ap, inl, inr, Option-cases, if_elim, if◌then◌else◌, arith,
}
use py.Prelude.Dict
use py.Prelude.Dict.{Dict, IsDict}
use py.Prelude.Text.{text}
use py.Subscription.{
  SubscriptionState, Manager, Effect, Answer, is_active, forget, renewal_method_of, new_manager,
}
use py.Subscription.Calls.{subscribe, cancel, cancel_all, renew, renew_plain}
use py.Subscription.Files.{IsSound, empty-IsSound}
use py.Subscription.Changes.{Change, stays, drops, closes, first_then, Change-IsSound}
use py.Subscription.Steps.{subscribe-Change, cancel-Change, renew-Change}
use py.Subscription.Reconcile.{Listed, reconcile, reconcile_with_server}
use py.Subscription.Reconcile.Wanted.{reconcile-Within}
use py.Subscription.Reconcile.Adoption.{Any, reconcile_with_server-Change}
use py.Subscription.Upkeep.{
  mark_cancelled, to_checkpoint, restore_from_checkpoint, check_restored, validate_each,
  validate_restored_subscriptions, renew_picked, renew_all, renew_stale,
}
use py.Subscription.Checkpoint.{
  unlisted, unlisted_at, restore_entries-IsDict, restore_from_checkpoint_lem,
}

pub data Op : Type 0 where
  subscribes : Bytes → Bytes → Bytes → ℕ → Bytes → ℕ → Op
  cancels : Bytes → Op
  cancels_all : Op
  renews : Bytes → Option ℕ → Option Bytes → Option ℕ → Op
  reconciles : Bytes → List (Bytes × Bytes) → Bool → Op
  compares : Bytes → Bool → Option (List Listed) → Op
  closes_one : Bytes → Op
  restarts : Op
  validates : Op
  renews_all : Op
  renews_stale : ℕ → Op

unlisted_at_inv :
    (o : Option SubscriptionState) (t : SubscriptionState)
    → unlisted_at o none ≡ some t
    → (s : SubscriptionState) × (o ≡ some s) × (unlisted s ≡ t)
unlisted_at_inv none t e = cc
unlisted_at_inv (some s) t e = (s, refl, ground arith)

restored-IsSound :
    (m n : Manager)
    → IsSound m.subscriptions
    → IsSound (restore_from_checkpoint (to_checkpoint m) n).subscriptions
unfolding restore_from_checkpoint to_checkpoint is_active
restored-IsSound m n h =
    let before : (k : Bytes) (t : SubscriptionState)
        → Dict.get k (restore_from_checkpoint (to_checkpoint m) n).subscriptions ≡ some t
        → (s : SubscriptionState) × (Dict.get k m.subscriptions ≡ some s) × (unlisted s ≡ t) =
      λ k t e.
        unlisted_at_inv (Dict.get k m.subscriptions) t
          (sym ((restore_from_checkpoint_lem m n h).0 k) ∙ e) in
    record {
      keyed = restore_entries-IsDict m.subscriptions [] tt;
      filed = λ k t e.
          let (s, old, same) = before k t e in
          ap (λ (u : SubscriptionState). u.subscription_uri) (sym same) ∙ h.filed k s old;
      sole = λ k t e a j u e' b shared.
          let (s, old, same) = before k t e in
          let (v, old', same') = before j u e' in
          h.sole k s old (ap (λ (w : SubscriptionState). w.status == text "active") same ∙ a) j v
            old' (ap (λ (w : SubscriptionState). w.status == text "active") same' ∙ b)
            (ap (λ (w : SubscriptionState). w.subscribed_resource) same'
              ∙ shared
              ∙ ap (λ (w : SubscriptionState). w.subscribed_resource) (sym same));
    }

mark_cancelled-Change :
    (Allowed : Bytes → Bytes → Type 0) (uri : Bytes) (m : Manager)
    → Change Allowed m.subscriptions (mark_cancelled uri m).subscriptions
unfolding mark_cancelled is_active bytes_beq
mark_cancelled-Change Allowed uri m = elim (Option-cases (Dict.get uri m.subscriptions)) [
  | inl e ↦ rw (e, mark_cancelled) stays
  | inr (s, e) ↦ rw (e, mark_cancelled) (closes uri s _ e refl refl)
]

module _ (server : List Effect → Effect → Answer) (clock : List Effect → ℕ) where
  unfoldable pub run_op : Op → Manager → Manager
  run_op (subscribes sub_list_href resource resource_type encoding level limit) m =
      (subscribe server clock sub_list_href resource resource_type encoding level limit m).1
  run_op (cancels uri) m = (cancel server clock uri m).1
  run_op cancels_all m = cancel_all server clock m
  run_op (renews uri encoding level limit) m = (renew server clock uri encoding level limit m).1
  run_op (reconciles sub_list_href desired renew_kept) m =
      (reconcile server clock sub_list_href desired renew_kept m).1
  run_op (compares sub_list_href again listed) m =
      (reconcile_with_server server clock sub_list_href again listed m).1
  run_op (closes_one uri) m = mark_cancelled uri m
  run_op restarts m = restore_from_checkpoint (to_checkpoint m) m
  run_op validates m = (validate_restored_subscriptions server clock m).1
  run_op renews_all m = (renew_all server clock m).1
  run_op (renews_stale interval) m = renew_stale server clock interval m

  unfoldable pub run_ops : List Op → Manager → Manager
  run_ops [] m = m
  run_ops (op ∷ ops) m = run_ops ops (run_op op m)

  renew_picked-Change :
      (pick : SubscriptionState → Bool) (uris : List Bytes) (m : Manager)
      → Change Any m.subscriptions (renew_picked server clock pick uris m).1.subscriptions
  unfolding renew_picked
  renew_picked-Change pick [] m = stays
  renew_picked-Change pick (uri ∷ uris) m = elim (Option-cases (Dict.get uri m.subscriptions)) [
    | inl e ↦ rw (e, renew_picked) (renew_picked-Change pick uris m)
    | inr (s, e) ↦
        rw (e, renew_picked)
          (if_elim
            (λ (r : Bool × Manager).
              Change Any m.subscriptions (renew_picked server clock pick uris r.1).1.subscriptions)
            (is_active s && pick s) _ _
            (first_then (renew-Change server clock Any uri none none none m)
              (renew_picked-Change pick uris (renew_plain server clock uri m).1))
            (renew_picked-Change pick uris m))
  ]

  check_restored-Change :
      (uri : Bytes) (s : SubscriptionState) (m : Manager)
      → Change Any m.subscriptions (check_restored server clock uri s m).1.subscriptions
  unfolding check_restored
  check_restored-Change uri s m =
      let Ok : Manager → Type 0 = λ n. Change Any m.subscriptions n.subscriptions in
      let r = renew_plain server clock uri m in
      let change = renew-Change server clock Any uri none none none m in
      if_elim (λ (t : Bool × Manager). Ok (if t.0 then t.1 else forget uri t.1)) s.unmanaged _ _
        stays (if_elim Ok r.0 _ _ change (first_then change (drops uri)))

  validate_each-Change :
      (uris : List Bytes) (m : Manager)
      → Change Any m.subscriptions (validate_each server clock uris m).1.subscriptions
  unfolding validate_each
  validate_each-Change [] m = stays
  validate_each-Change (uri ∷ uris) m = elim (Option-cases (Dict.get uri m.subscriptions)) [
    | inl e ↦ rw (e, validate_each) (validate_each-Change uris m)
    | inr (s, e) ↦
        rw (e, validate_each)
          (if_elim (λ (r : (ℕ × ℕ) × Manager). Change Any m.subscriptions r.1.subscriptions)
            (not (is_active s)) _ _ (validate_each-Change uris m)
            (first_then (check_restored-Change uri s m)
              (validate_each-Change uris (check_restored server clock uri s m).1)))
  ]

  run_op-IsSound :
      (op : Op) (m : Manager) → IsSound m.subscriptions → IsSound (run_op op m).subscriptions
  unfolding run_op cancel_all validate_restored_subscriptions renew_all renew_stale
  run_op-IsSound (subscribes sub_list_href resource resource_type encoding level limit) m h =
      Change-IsSound
        (subscribe-Change server clock Any sub_list_href resource resource_type encoding level limit
          m tt)
        h
  run_op-IsSound (cancels uri) m h = Change-IsSound (cancel-Change server clock Any uri m) h
  run_op-IsSound cancels_all m h = empty-IsSound
  run_op-IsSound (renews uri encoding level limit) m h =
      Change-IsSound (renew-Change server clock Any uri encoding level limit m) h
  run_op-IsSound (reconciles sub_list_href desired renew_kept) m h =
      (reconcile-Within server clock sub_list_href desired renew_kept m h).1
  run_op-IsSound (compares sub_list_href again listed) m h =
      Change-IsSound (reconcile_with_server-Change server clock sub_list_href again listed m h) h
  run_op-IsSound (closes_one uri) m h = Change-IsSound (mark_cancelled-Change Any uri m) h
  run_op-IsSound restarts m h = restored-IsSound m m h
  run_op-IsSound validates m h =
      Change-IsSound (validate_each-Change (Dict.keys m.subscriptions) m) h
  run_op-IsSound renews_all m h =
      Change-IsSound (renew_picked-Change (λ s. true) (Dict.keys m.subscriptions) m) h
  run_op-IsSound (renews_stale interval) m h =
      Change-IsSound (renew_picked-Change _ (Dict.keys m.subscriptions) m) h

  run_ops-keeps :
      (ops : List Op) (m : Manager)
      → IsSound m.subscriptions
      → IsSound (run_ops ops m).subscriptions
  unfolding run_ops
  run_ops-keeps [] m h = h
  run_ops-keeps (op ∷ ops) m h = run_ops-keeps ops (run_op op m) (run_op-IsSound op m h)

  -- However a new manager is used and restarted, and whatever the server answers, each subscription
  -- stands once, under its own href, and no two active ones are for one resource.
  pub run_ops-IsSound :
      (uri : Bytes) (max_notifications : ℕ) (fallback on_lost : Bool) (method : Bytes)
      (compat : Option Bool) (m : Manager) (ops : List Op)
      → new_manager uri max_notifications fallback on_lost method compat ≡ some m
      → IsSound (run_ops ops m).subscriptions
  unfolding new_manager
  run_ops-IsSound uri max_notifications fallback on_lost method compat m ops made =
      run_ops-keeps ops m (elim (Option-cases (renewal_method_of method)) [
        | inl e ↦ absurd (ground arith)
        | inr (renewal, e) ↦
            let none_yet : m.subscriptions ≡ [] = ground arith in rw none_yet empty-IsSound
      ])
