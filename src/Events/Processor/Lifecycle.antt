-- ===== src/Events/Processor/Lifecycle.antt =====
-- Whom the end of an event is told to.
use py.Prelude.{
  String, string_key, List, true, false, not, ◌&&◌, ◌≡◌, ◌⊎◌, inl, inr, refl, arith, Bool-cases,
  is_empty,
}
use py.Prelude.Sets.{contains, diff, contains-diff, contains-is_empty}
use py.Events.Store.{EventRecord}
use py.Events.Processor.{devices, nobody, lifecycle_audience}

lifecycle_nobody :
    (r : EventRecord)
    → (is_empty r.applied_devices && is_empty r.rejected_devices) ≡ false
    → is_empty (diff r.applied_devices r.superseded_devices) ≡ true
    → lifecycle_audience r ≡ nobody
unfolding lifecycle_audience
lifecycle_nobody r sent none_left = rw (sent, none_left, lifecycle_audience) refl

lifecycle_devices :
    (r : EventRecord)
    → (is_empty r.applied_devices && is_empty r.rejected_devices) ≡ false
    → is_empty (diff r.applied_devices r.superseded_devices) ≡ false
    → lifecycle_audience r ≡ devices (diff r.applied_devices r.superseded_devices)
unfolding lifecycle_audience
lifecycle_devices r sent some_left = rw (sent, some_left, lifecycle_audience) refl

-- Once an event was dispatched, its end is told to exactly the devices that applied it and were not
-- taken over since, or to nobody, and then every device that applied it was taken over.
pub lifecycle_audience_lem :
    (r : EventRecord)
    → (is_empty r.applied_devices && is_empty r.rejected_devices) ≡ false
    → ((lifecycle_audience r ≡ nobody)
        × ((d : String)
            → contains d r.applied_devices ≡ true
            → contains d r.superseded_devices ≡ true))
      ⊎ ((told : List String) × (lifecycle_audience r ≡ devices told)
          × ((d : String)
              → contains d told
                ≡ (not (contains d r.superseded_devices) && contains d r.applied_devices)))
lifecycle_audience_lem r sent =
    let left = diff r.applied_devices r.superseded_devices in
    elim (Bool-cases (is_empty left)) [
      | inl none_left ↦ inl (
        lifecycle_nobody r sent none_left,
        λ d applied. ground (
          arith,
          contains-diff d r.applied_devices r.superseded_devices,
          contains-is_empty d left,
          none_left,
        ),
      )
      | inr some_left ↦ inr (
        left,
        lifecycle_devices r sent some_left,
        λ d. contains-diff d r.applied_devices r.superseded_devices,
      )
    ]
