-- ===== src/Events/Tariff/Poll/Profiles.antt =====
-- events/tariff.py: a poll of all the tariffs, with what it acknowledges.
use py.Prelude.{
  nat_key, Bytes, bytes_key, Option, none, some, List, [], ◌∷◌, Bool, ◌++◌, keep, map, is_empty,
  if◌then◌else◌,
}
use py.Prelude.Int.{ℤ, pos, ltb_ℤ}
use py.Prelude.Sets
use py.Events.Randomization.{RandomizationCache, get_offsets}
use py.Events.Randomization
use py.Events.Response.{acknowledged, response_required_allows}
use py.Events.Response.Tracker.{retain_mrids}
use py.Events.Response.Keys.{Key}
use py.Events.Tariff.{TimeTariffInterval, RateComponent, TariffProfile, Draws, active_interval}
use py.Events.Tariff.Poll.{TariffProcessor, ack_each, relay_if_changed}

unfoldable pub live_hrefs : List TariffProfile → List Bytes
live_hrefs [] = []
live_hrefs (tp ∷ tps) = map (λ (rc : RateComponent). rc.href) tp.rate_components ++ live_hrefs tps

unfoldable pub component_mrids : List RateComponent → List Bytes
component_mrids [] = []
component_mrids (rc ∷ rcs) =
    map (λ (i : TimeTariffInterval). i.m_rid) rc.time_tariff_intervals ++ component_mrids rcs

unfoldable pub live_mrids : List TariffProfile → List Bytes
live_mrids [] = []
live_mrids (tp ∷ tps) = component_mrids tp.rate_components ++ live_mrids tps

unfoldable pub least : ℤ → List ℤ → ℤ
least n [] = n
least n (m ∷ ms) = least (if ltb_ℤ m n then m else n) ms

-- The lowest clock of the profiles' scopes, or that of the global one.
unfoldable pub least_clock : (Option Bytes → ℤ) → List TariffProfile → ℤ
least_clock clock [] = clock none
least_clock clock (tp ∷ tps) =
    least (clock tp.discovered_from_fsa_href)
      (map (λ (t : TariffProfile). clock t.discovered_from_fsa_href) tps)

module _ {Price : Type 0} where
  unfoldable pub ack_received :
      (Key → Bool)
      → List Bytes
      → ℤ
      → TimeTariffInterval
      → TariffProcessor Price
      → TariffProcessor Price
  ack_received lands lfdis now interval p =
      if response_required_allows interval.response_required acknowledged
      then record p { response_tracker = ack_each lands interval now lfdis p.response_tracker }
      else p

  unfoldable pub ack_intervals :
      (Key → Bool)
      → List Bytes
      → ℤ
      → List TimeTariffInterval
      → TariffProcessor Price
      → TariffProcessor Price
  ack_intervals lands lfdis now [] p = p
  ack_intervals lands lfdis now (interval ∷ intervals) p =
      ack_intervals lands lfdis now intervals (ack_received lands lfdis now interval p)

  unfoldable pub process_component :
      Draws
      → (Bytes → Option (List Price))
      → (Key → Bool)
      → List Bytes
      → ℤ
      → TariffProfile
      → RateComponent
      → TariffProcessor Price
      → TariffProcessor Price
  process_component draws get_list lands lfdis now tp rc p =
      let p1 = ack_intervals lands lfdis now rc.time_tariff_intervals p in
      let (active, cache) = active_interval draws rc.time_tariff_intervals now p1.randomization in
      relay_if_changed draws get_list tp rc active lfdis (record p1 { randomization = cache })

  unfoldable pub process_components :
      Draws
      → (Bytes → Option (List Price))
      → (Key → Bool)
      → List Bytes
      → ℤ
      → TariffProfile
      → List RateComponent
      → TariffProcessor Price
      → TariffProcessor Price
  process_components draws get_list lands lfdis now tp [] p = p
  process_components draws get_list lands lfdis now tp (rc ∷ rcs) p =
      process_components draws get_list lands lfdis now tp rcs
        (process_component draws get_list lands lfdis now tp rc p)

  -- `clock` is the whole seconds of a scope's clock.
  unfoldable pub process_profiles :
      Draws
      → (Bytes → Option (List Price))
      → (Key → Bool)
      → List Bytes
      → (Option Bytes → ℤ)
      → List TariffProfile
      → TariffProcessor Price
      → TariffProcessor Price
  process_profiles draws get_list lands lfdis clock [] p = p
  process_profiles draws get_list lands lfdis clock (tp ∷ tps) p =
      process_profiles draws get_list lands lfdis clock tps (
        process_components draws get_list lands lfdis (clock tp.discovered_from_fsa_href) tp
          tp.rate_components p)

  -- `none` is a KeyError of the pruning.
  unfoldable pub process_tariffs :
      Draws
      → (Bytes → Option (List Price))
      → (Key → Bool)
      → List Bytes
      → (Option Bytes → ℤ)
      → List TariffProfile
      → TariffProcessor Price
      → Option (TariffProcessor Price)
  process_tariffs draws get_list lands lfdis clock tps p =
      elim (Randomization.prune (least_clock clock tps) (pos 10) p.randomization) [
        | none ↦ none
        | some cache ↦
            let p1 = record p { randomization = cache } in
            if is_empty lfdis
            then some p1
            else let p2 = process_profiles draws get_list lands lfdis clock tps p1 in
              some (record p2 {
                response_tracker = retain_mrids (live_mrids tps) p2.response_tracker;
                active = keep (λ entry. Sets.contains entry.0 (live_hrefs tps)) p2.active;
              })
      ]
