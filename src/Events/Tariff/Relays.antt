-- ===== src/Events/Tariff/Relays.antt =====
-- How often an interval is relayed, in events/tariff.py.
use py.Prelude.{
  ℕ, ◌+◌, Bytes, bytes_key, Option, none, some, List, [], ◌∷◌, Bool, true, false, not, ◌&&◌, ◌||◌,
  ◌≡◌, refl, ◌∙◌, ap, ==-refl, inl, inr, any, length, is_some, Bool-cases, Option-cases,
  if◌then◌else◌, arith,
}
use py.Prelude.Dict
use py.Prelude.Dict.{get_default-put}
use py.Events.Tariff.{TimeTariffInterval, RateComponent, TariffProfile, Draws}
use py.Events.Tariff.Poll.{
  TariffProcessor, same_mrid, mrid_of, fetch_prices, relay, relay_active, relay_if_changed,
  relay_polls,
}

module _ {Price : Type 0} (draws : Draws) (tp : TariffProfile) (rc : RateComponent)
    (i : TimeTariffInterval) (lfdis : List Bytes) where
  -- Whether the interval is the one that was relayed last for its component.
  abbrev pub is_current : TariffProcessor Price → Bool
  is_current p = same_mrid (some i.m_rid) (Dict.get_default rc.href p.active none)

  abbrev pub fetches : (Bytes → Option (List Price)) → Bool
  fetches get_list = is_some (fetch_prices get_list i)

  abbrev poll : (Bytes → Option (List Price)) → TariffProcessor Price → TariffProcessor Price
  poll get_list p = relay_if_changed draws get_list tp rc (some i) lfdis p

  -- The interval is current after a poll if it was, or its prices came; only then it is relayed.
  poll_lem :
      (get_list : Bytes → Option (List Price)) (p : TariffProcessor Price)
      → (is_current (poll get_list p) ≡ (is_current p || fetches get_list))
        × (length (poll get_list p).relays ≡ (
            if not (is_current p) && fetches get_list
            then length p.relays + 1
            else length p.relays))
  unfolding relay_if_changed relay_active relay same_mrid mrid_of
  poll_lem get_list p = elim (Bool-cases (is_current p)) [
    | inl on ↦
        let same : poll get_list p ≡ p = rw on refl in (rw (same, on) refl, rw (same, on) refl)
    | inr off ↦ elim (Option-cases (fetch_prices get_list i)) [
      | inl e ↦
          let same : poll get_list p ≡ p = rw (off, relay_active, e) refl in
          (rw (same, off, e) refl, rw (same, off, e) refl)
      | inr (prices, e) ↦
          let put = get_default-put rc.href rc.href (some i.m_rid) none p.active in
          let made : poll get_list p
              ≡ relay draws tp rc i prices lfdis
                  (record p { active = Dict.put rc.href (some i.m_rid) p.active }) =
            rw (off, relay_active, e) refl in
          (
            rw (made, put, ==-refl rc.href, ==-refl i.m_rid, off, e) refl,
            rw (made, off, e) (omega arith),
          )
    ]
  ]

  after-current :
      (polls : List (Bytes → Option (List Price))) (p : TariffProcessor Price)
      → is_current p ≡ true
      → relay_polls draws tp rc (some i) lfdis polls p ≡ p
  unfolding relay_polls relay_if_changed mrid_of
  after-current [] p on = refl
  after-current (get_list ∷ polls) p on = rw on (after-current polls p on)

  -- While an interval that is not current is active, it is relayed once: by the first poll that gets its
  -- prices. Until then no poll takes it for relayed.
  pub relay_polls_lem :
      (polls : List (Bytes → Option (List Price))) (p : TariffProcessor Price)
      → is_current p ≡ false
      → (length (relay_polls draws tp rc (some i) lfdis polls p).relays
          ≡ (if any fetches polls then length p.relays + 1 else length p.relays))
        × (is_current (relay_polls draws tp rc (some i) lfdis polls p) ≡ any fetches polls)
  unfolding relay_polls any
  relay_polls_lem [] p off = (refl, off)
  relay_polls_lem (get_list ∷ polls) p off =
      let (current, relayed) = poll_lem get_list p in
      elim (Bool-cases (fetches get_list)) [
        | inl came ↦
            let on : is_current (poll get_list p) ≡ true =
              current ∙ ap (λ (b : Bool). is_current p || b) came ∙ ground arith in
            let rest = after-current polls (poll get_list p) on in
            (rw (rest, came, relayed, off, came) refl, rw (rest, came) on)
        | inr failed ↦
            let still : is_current (poll get_list p) ≡ false = ground arith in
            let rest = relay_polls_lem polls (poll get_list p) still in
            let as_many : length (poll get_list p).relays ≡ length p.relays =
              relayed ∙ rw (off, failed) refl in
            (
              rw failed (rest.0 ∙ ap (λ (n : ℕ). if any fetches polls then n + 1 else n) as_many),
              rw failed rest.1,
            )
      ]
