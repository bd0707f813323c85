-- ===== src/Subscription/Tests.antt =====
-- Runs of the subscriptions on concrete inputs.
use py.Prelude.{
  ℕ, Bytes, bytes_key, bytes_beq, none, some, List, [], ◌∷◌, true, false, ◌≡◌, refl, length, keep,
  ◌+◌, ◌++◌, ◌==◌, ◌||◌,
}
use py.Prelude.Dict
use py.Prelude.Dict.{get, put, delete}
use py.Prelude.Sets.{contains}
use py.Prelude.Text.{text, given, split, strip, lstrip, add_front}
use py.Subscription.{
  SubscriptionState, RenewalMethod, Manager, Effect, Answer, posts, puts, deletes, rediscovers,
  answered, rejected, renewal_method_of, new_manager, is_active,
}
use py.Subscription.Calls.{renew}
use py.Subscription.Files.{IsSound, empty-IsSound, put-IsSound}
use py.Subscription.Changes.{Within}
use py.Subscription.Renewal.{Outcome, renew_lem}
use py.Subscription.Reconcile.{
  reconcile, dict_of, reconcile_with_server, Listed, reconcile_states, reconcile_one, adopt,
  server_resources, server_uris,
}
use py.Subscription.Reconcile.Wanted.{Desired, reconcile-Within}
use py.Subscription.Upkeep.{
  to_checkpoint, restore_from_checkpoint, should_process_notification, record_notification_ancestry,
  note_ancestors, join_parts,
}
use py.Subscription.Checkpoint.{unlisted_at, restore_from_checkpoint_lem}
use py.Subscription.Course.{Op, run_ops, run_ops-IsSound}

-- A server that gives each subscription the number of the requests before it, and has lost the rest.
abbrev number : List Effect → Bytes
number log = text "/sub/" ++ (48 + length log) ∷ []

abbrev server : List Effect → Effect → Answer
server log (posts href sub) = answered (some (number log))
server log (puts href sub) = rejected 404
server log (deletes href) = answered none
server log rediscovers = answered none

abbrev clock : List Effect → ℕ
clock log = length log

abbrev new : Manager
new = record {
  renewal_method = RenewalMethod.put;
  notification_uri = text "/ntfy";
  subscriptions = [];
  notifications = [];
  max_notifications = 10;
  dedup_cache = [];
  resubscribe_suppressed = [];
  missing_location_fallback = false;
  on_subscription_lost = true;
  sent = [];
}

new_test : new_manager (text "/ntfy") 10 false true (text "put") none ≡ some new
unfolding new_manager renewal_method_of bytes_beq
new_test = refl

abbrev course : List Op
course =
    Op.subscribes (text "/subs") (text "/derp") (text "DERProgramList") 0 (text "+S1") 1
    ∷ Op.subscribes (text "/subs") (text "/fsa") (text "FSAList") 0 (text "+S1") 1
    ∷ Op.renews_all
    ∷ Op.restarts
    ∷ []

run_ops-IsSound_example : IsSound (run_ops server clock course new).subscriptions
run_ops-IsSound_example =
    run_ops-IsSound server clock (text "/ntfy") 10 false true (text "put") none new course new_test

abbrev wishes : List (Bytes × Bytes)
wishes = (text "/fsa", text "FSAList") ∷ (text "/edev", text "EndDeviceList") ∷ []

abbrev used : Manager
used = run_ops server clock course new

reconcile-Within_example :
    Within
      (Desired (dict_of wishes []))
      (reconcile server clock (text "/subs") wishes true used).1.subscriptions
    × IsSound (reconcile server clock (text "/subs") wishes true used).1.subscriptions
reconcile-Within_example = reconcile-Within server clock (text "/subs") wishes true used (
    run_ops-IsSound server clock (text "/ntfy") 10 false true (text "put") none new course new_test)

-- A list subscription, and the manager that has it.
abbrev state : Bytes → Bytes → SubscriptionState
state uri resource = record {
  subscription_uri = uri;
  subscribed_resource = resource;
  notification_uri = text "/ntfy";
  resource_type = text "FSAList";
  status = text "active";
  created_at = 0;
  is_list_subscription = true;
  unmanaged = false;
  sub_list_href = some (text "/subs");
}

abbrev one : Manager
one = record new { subscriptions = (text "/sub/1", state (text "/sub/1") (text "/fsa")) ∷ [] }

no_entry : (k : Bytes) (t : SubscriptionState) → get k [] ≡ some t → k ≡ text "/sub/1"
unfolding get
no_entry k t e = cc

one-IsSound : IsSound one.subscriptions
unfolding put
one-IsSound =
    put-IsSound (state (text "/sub/1") (text "/fsa")) [] (λ a k t e b same. no_entry k t e)
      empty-IsSound

renew_lem_example :
    Outcome server clock
      (state (text "/sub/1") (text "/fsa"))
      one
      (renew server clock (text "/sub/1") none none none one)
unfolding get is_active bytes_beq
renew_lem_example =
    renew_lem server clock (text "/sub/1") none none none (state (text "/sub/1") (text "/fsa")) one
      refl refl refl

restore_from_checkpoint_lem_example :
    ((k : Bytes)
      → get k (restore_from_checkpoint (to_checkpoint one) new).subscriptions
        ≡ unlisted_at (get k one.subscriptions) none)
    × ((k href : Bytes) (s : SubscriptionState)
        → get k one.subscriptions ≡ some s
        → (should_process_notification k href (restore_from_checkpoint (to_checkpoint one) new)
            ≡ (href == s.subscribed_resource))
          × (should_process_notification k href one
              ≡ (s.is_list_subscription || href == s.subscribed_resource)))
restore_from_checkpoint_lem_example = restore_from_checkpoint_lem one new one-IsSound

-- Two subscriptions whose numbers the server has swapped: the first is lost.
abbrev two : Manager
two = record new {
  subscriptions =
      (text "/sub/1", state (text "/sub/1") (text "/fsa"))
      ∷ (text "/sub/2", state (text "/sub/2") (text "/derp"))
      ∷ [];
}

abbrev swapped : List Listed
swapped =
    (some (text "/fsa"), some (text "/sub/2")) ∷ (some (text "/derp"), some (text "/sub/1")) ∷ []

swap_test :
    Dict.keys
      (reconcile_with_server server clock (text "/subs") true (some swapped) two).1.subscriptions
    ≡ text "/sub/1" ∷ []
unfolding reconcile_with_server reconcile_states keep is_active bytes_beq reconcile_one contains
    server_resources given adopt get server_uris put delete
swap_test = refl

-- The control list of a program: the program and the list of programs are noted, the device is not.
ancestry_test :
    Dict.keys (record_notification_ancestry 7 (text "/edev/1/derp/3/derc") new).dedup_cache
    ≡ text "/edev/1/derp/3" ∷ text "/edev/1/derp" ∷ []
unfolding record_notification_ancestry note_ancestors split strip lstrip add_front bytes_beq put
    join_parts
ancestry_test = refl
