-- ===== src/Events/Life/Arrival.antt =====
-- What process_controls of events/processor.py does with a control takes the events of the store onward.
use py.Prelude.{
  ℕ, ◌≤◌, string_key, Bytes, bytes_key, none, some, List, not, ◌&&◌, ◌≡◌, ◌∙◌, ==-refl, refl, sym,
  ap, inl, inr, ◌==◌, Option-cases, arith,
}
use py.Prelude.Int.{ℤ, leb_ℤ}
use py.Prelude.Dict
use py.Prelude.Dict.{Dict, get-put}
use py.Prelude.Sets
use py.Events.Control.{Dercontrol}
use py.Events.Store.{EventState, active, is_live, EventRecord, EventStore, end, get, upsert}
use py.Events.Store.Laws.{get-Keyed}
use py.Events.Processor.{is_server_cancelled}
use py.Events.Life.{World, write}
use py.Events.Life.Discovery.{
  Poll, Class, skipped, already_handled, expired, pre_cancelled, joins, new_record, add_record,
  reopen_defaults, join, take_in, refresh, update, process_control, reconcile, effective_times,
}
use py.Events.Life.Edges.{
  stage, Onward, Onward-self, Onward-trans, put-Onward, change-Onward, either-Onward,
  on_record-Onward,
}
use py.Events.Life.Laws.{Sound, Goes, Here, cancellation-Onward, opt_out-Onward}

pub reconcile-Onward :
    (p : Poll) (served : List Bytes) (mrid : Bytes) (w : World)
    → Sound w
    → Goes w (reconcile p served mrid w)
unfolding reconcile
reconcile-Onward p served mrid w h = on_record-Onward mrid w _ h (λ r here.
    either-Onward w.store (r.program_href == p.program_href && not (Sets.contains r.mrid served)) _
      _
      (λ _.
        either-Onward w.store (leb_ℤ (end r) p.now) _ _ (λ _. Onward-self w.store h)
          (λ _. cancellation-Onward p.current r w h))
      (λ _. Onward-self w.store h))

absent :
    (store : EventStore) (m : Bytes) (n : ℕ)
    → Dict.get m store ≡ none
    → (r0 : EventRecord) → Dict.get m store ≡ some r0
    → stage r0.state ≤ n
absent store m n e r0 e' = absurd (cc)

add-Onward :
    (r : EventRecord) (w : World)
    → Sound w
    → Dict.get r.mrid w.store ≡ none
    → Onward w.store (add_record r w).store
unfolding add_record upsert
add-Onward r w h e = put-Onward w.store r h (absent w.store r.mrid (stage r.state) e)

join-Onward :
    (p : Poll) (state : EventState) (r : EventRecord) (w : World)
    → Sound w
    → Dict.get r.mrid w.store ≡ none
    → Goes w (join p state r w)
unfolding join reopen_defaults add_record upsert
join-Onward p active r w h e =
    let added = add-Onward r w h e in
    either-Onward w.store w.comms_loss.active _ _
      (λ _. Onward-trans w.store (add_record r w).store _ added (
        opt_out-Onward p.current r r (reopen_defaults p.program_href (add_record r w)) added.formed
          (rw (get-put r.mrid r.mrid r w.store, ==-refl r.mrid) refl) refl (omega arith)))
      (λ _. added)
join-Onward p _ r w h e = add-Onward r w h e

take_in-Onward :
    (p : Poll) (derc : Dercontrol) (start duration : ℤ) (c : Class) (w : World)
    → Sound w
    → Dict.get derc.m_rid w.store ≡ none
    → Goes w (take_in p derc start duration c w)
unfolding take_in new_record
take_in-Onward p derc start duration skipped w h e = Onward-self w.store h
take_in-Onward p derc start duration already_handled w h e = Onward-self w.store h
take_in-Onward p derc start duration expired w h e = Onward-self w.store h
take_in-Onward p derc start duration pre_cancelled w h e = add-Onward _ w h e
take_in-Onward p derc start duration (joins state) w h e = join-Onward p state _ w h e

update-Onward :
    (p : Poll) (derc : Dercontrol) (r : EventRecord) (w : World)
    → Sound w
    → Here r w
    → Goes w (update p derc r w)
unfolding update refresh write
update-Onward p derc r w h here =
    either-Onward w.store (is_server_cancelled derc && is_live r.state) _ _
      (λ _. cancellation-Onward p.current (refresh derc r) w h)
      (λ _. change-Onward w.store r (refresh derc r) h here refl (omega arith))

under_mrid :
    (w : World) → Sound w → (m : Bytes) (r : EventRecord) → Dict.get m w.store ≡ some r → Here r w
under_mrid w h m r e = ap (λ k. Dict.get k w.store) (sym (get-Keyed m w.store r h.keyed e)) ∙ e

pub control-Onward :
    (p : Poll) (derc : Dercontrol) (w : World) → Sound w → Goes w (process_control p derc w)
unfolding process_control get
control-Onward p derc w h =
    let times = effective_times p derc w.store w.offsets in
    let w' : World = record w { offsets = times.2 } in
    elim (Option-cases (Dict.get derc.m_rid w.store)) [
      | inl e ↦ rw (e, process_control) (take_in-Onward p derc times.0 times.1 _ w' h e)
      | inr (r, e) ↦
          rw (e, process_control) (update-Onward p derc r w' h (under_mrid w h derc.m_rid r e))
    ]
