-- ===== src/Events/Tariff/Poll.antt =====
-- events/tariff.py: a poll of the tariffs, what it acknowledges and what it relays.
pub mod Profiles
use py.Prelude.{
  ℕ, nat_key, Bytes, bytes_key, Option, none, some, List, [], ◌∷◌, Bool, true, false, ◌==◌, ◌++◌,
  keep, map, is_empty, if◌then◌else◌,
}
use py.Prelude.Int.{ℤ, pos, ◌-ℤ◌, ltb_ℤ}
use py.Prelude.Dict
use py.Prelude.Dict.{Dict}
use py.Prelude.Sets
use py.Prelude.Text.{given}
use py.Events.Randomization.{RandomizationCache, get_offsets}
use py.Events.Randomization
use py.Events.Response.{acknowledged, response_required_allows}
use py.Events.Response.Tracker.{
  ResponseTracker, reserve, must_post, already, wait_for, mark_sent, release, retain_mrids,
  Reserved,
}
use py.Events.Response.Keys.{Key}
use py.Events.Tariff.{
  TimeTariffInterval, RateComponent, TariffProfile, Draws, effective_window, active_interval,
}

-- What is relayed of an interval, with its prices.
pub record Notification (Price : Type 0) : Type 0 where
  pub mrid : Bytes
  pub current_status : Option ℕ
  pub program_href : Bytes
  pub primacy : ℕ
  pub start : ℤ
  pub duration : ℤ
  pub end : ℤ
  pub affected_lfdis : List Bytes
  pub rate_component_href : Bytes
  pub prices : List Price

-- `active` has the interval that was relayed last for a rate component, `relays` the last one first.
pub record TariffProcessor (Price : Type 0) : Type 0 where
  pub randomization : RandomizationCache
  pub active : Dict Bytes (Option Bytes)
  pub response_tracker : ResponseTracker
  pub relays : List (Notification Price)

unfoldable pub mrid_of : Option TimeTariffInterval → Option Bytes
mrid_of none = none
mrid_of (some interval) = some interval.m_rid

unfoldable pub same_mrid : Option Bytes → Option Bytes → Bool
same_mrid none none = true
same_mrid (some a) (some b) = a == b
same_mrid _ _ = false

-- What a POST of the key comes to for the tracker, which no one else asks meanwhile.
unfoldable pub post_claimed : (Key → Bool) → ℤ → Key → Reserved × ResponseTracker → ResponseTracker
post_claimed lands now key (must_post, t) = if lands key then mark_sent key now t else release key t
post_claimed lands now key (already, t) = t
post_claimed lands now key (wait_for future, t) = t

unfoldable pub post_price_response :
    (Key → Bool) → TimeTariffInterval → ℤ → Bytes → ResponseTracker → ResponseTracker
post_price_response lands interval now lfdi t =
    let key : Key = (interval.m_rid, (acknowledged, lfdi)) in
    if response_required_allows interval.response_required acknowledged
    then elim (given interval.reply_to) [
      | none ↦ t
      | some path ↦ post_claimed lands now key (reserve key t)
    ]
    else t

unfoldable pub ack_each :
    (Key → Bool) → TimeTariffInterval → ℤ → List Bytes → ResponseTracker → ResponseTracker
ack_each lands interval now [] t = t
ack_each lands interval now (lfdi ∷ lfdis) t =
    ack_each lands interval now lfdis (post_price_response lands interval now lfdi t)

module _ {Price : Type 0} where
  unfoldable pub fetch_prices :
      (Bytes → Option (List Price)) → TimeTariffInterval → Option (List Price)
  fetch_prices get_list interval = elim (given interval.cti_href) [
    | none ↦ some []
    | some href ↦ get_list href
  ]

  -- `_build_notification` and `_emit`
  unfoldable pub relay :
      Draws
      → TariffProfile
      → RateComponent
      → TimeTariffInterval
      → List Price
      → List Bytes
      → TariffProcessor Price
      → TariffProcessor Price
  relay draws tp rc interval prices lfdis p =
      let (window, cache) = effective_window draws interval p.randomization in
      let notification : Notification Price = record {
        mrid = interval.m_rid;
        current_status = interval.current_status;
        program_href = tp.href;
        primacy = tp.primacy;
        start = window.0;
        duration = window.1 -ℤ window.0;
        end = window.1;
        affected_lfdis = lfdis;
        rate_component_href = rc.href;
        prices = prices;
      } in
      record p { randomization = cache; relays = notification ∷ p.relays }

  unfoldable pub relay_active :
      Draws
      → (Bytes → Option (List Price))
      → TariffProfile
      → RateComponent
      → Option TimeTariffInterval
      → List Bytes
      → TariffProcessor Price
      → TariffProcessor Price
  relay_active draws get_list tp rc none lfdis p = record p {
    active = Dict.put rc.href none p.active;
  }
  relay_active draws get_list tp rc (some interval) lfdis p =
      elim (fetch_prices get_list interval) [
        | none ↦ p
        | some prices ↦
            relay draws tp rc interval prices lfdis
              (record p { active = Dict.put rc.href (some interval.m_rid) p.active })
      ]

  unfoldable pub relay_if_changed :
      Draws
      → (Bytes → Option (List Price))
      → TariffProfile
      → RateComponent
      → Option TimeTariffInterval
      → List Bytes
      → TariffProcessor Price
      → TariffProcessor Price
  relay_if_changed draws get_list tp rc interval lfdis p =
      if same_mrid (mrid_of interval) (Dict.get_default rc.href p.active none)
      then p
      else relay_active draws get_list tp rc interval lfdis p

  -- Polls in which the same interval is active, each with what its fetch of prices gets.
  unfoldable pub relay_polls :
      Draws
      → TariffProfile
      → RateComponent
      → Option TimeTariffInterval
      → List Bytes
      → List (Bytes → Option (List Price))
      → TariffProcessor Price
      → TariffProcessor Price
  relay_polls draws tp rc interval lfdis [] p = p
  relay_polls draws tp rc interval lfdis (get_list ∷ polls) p =
      relay_polls draws tp rc interval lfdis polls
        (relay_if_changed draws get_list tp rc interval lfdis p)
