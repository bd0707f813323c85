-- ===== src/Events/Tariff/Active.antt =====
-- The selection of the active interval, in events/tariff.py.
use mathlib.Core.Path.{subst}
use py.Prelude.{
  bytes_key, Option, none, some, List, [], ◌∷◌, Bool, true, false, not, ◌&&◌, ◌≡◌, refl, sym, ◌∙◌,
  ap, ◌⊎◌, inl, inr, All, All-map, In, here, there, Bool-cases, Option-cases, or_else,
  if◌then◌else◌, arith,
}
use py.Prelude.Int.{ℤ, pos}
use py.Prelude.Dict
use py.Prelude.Dict.{get-put}
use py.Events.Randomization.{RandomizationCache}
use py.Events.Tariff.{
  TimeTariffInterval, Draws, Window, is_cancelled, covers, Rank, rank, rank_lt, Best, better, weigh,
  active_loop, active_interval,
}
use py.Events.Tariff.Windows.{
  Grows, window_by, window_in, in_effect, rank_lt_trans, rank_lt_refl, rank_lt_asym, weigh_lem,
}

-- An interval that is in effect ranks no higher than the one that was chosen.
abbrev Beaten : RandomizationCache → ℤ → Best → TimeTariffInterval → Type 0
Beaten c now r j =
    in_effect c now j ≡ true
    → (b : TimeTariffInterval × Rank) × (r ≡ some b)
      × (rank_lt b.1 (rank j (window_in c j)) ≡ false)

record Chosen (now : ℤ) (intervals : List TimeTariffInterval) (best : Best) (c : RandomizationCache)
    (r : Best) (d : RandomizationCache) : Type 0 where
  grows : Grows c d
  above :
      (a : TimeTariffInterval × Rank)
      → best ≡ some a
      → (b : TimeTariffInterval × Rank) × (r ≡ some b) × (rank_lt b.1 a.1 ≡ false)
  beats : All (Beaten d now r) intervals
  origin :
      (r ≡ best)
      ⊎ ((i : TimeTariffInterval) × In i intervals
          × (r ≡ some (i, rank i (window_in d i)))
          × (in_effect d now i ≡ true))

skip-Chosen :
    (now : ℤ) (i : TimeTariffInterval) (is : List TimeTariffInterval) (best : Best)
    (c : RandomizationCache) (r : Best) (d : RandomizationCache)
    → is_cancelled i ≡ true
    → Chosen now is best c r d
    → Chosen now (i ∷ is) best c r d
skip-Chosen now i is best c r d off h = record {
  grows = h.grows;
  above = h.above;
  beats = ((λ live. absurd (ground arith)), h.beats);
  origin = elim h.origin [
    | inl same ↦ inl same
    | inr (j, among, e, live) ↦ inr (j, there among, e, live)
  ];
}

module _ (now : ℤ) (i : TimeTariffInterval) (is : List TimeTariffInterval) (best : Best) (o : ℤ × ℤ)
    (c c' : RandomizationCache) (r : Best) (d : RandomizationCache) (on : is_cancelled i ≡ false)
    (found : Dict.get i.m_rid c'.cache ≡ some o) (grows : Grows c c') where
  abbrev window : Window
  window = window_by i o

  abbrev key : Rank
  key = rank i window

  same_window : Grows c' d → window_in d i ≡ window
  same_window later =
      ap (λ (x : Option (ℤ × ℤ)). window_by i (or_else x (pos 0, pos 0))) (later i.m_rid o found)

  same_live : Grows c' d → in_effect d now i ≡ covers window now
  same_live later =
      ap (λ (b : Bool). not b && covers (window_in d i) now) on
      ∙ ap (λ (w : Window). covers w now) (same_window later)

  take_new :
      covers window now ≡ true
      → better key best ≡ true
      → Chosen now is (some (i, key)) c' r d
      → Chosen now (i ∷ is) best c r d
  unfolding better
  take_new covered wins h =
      let (b, e, least) = h.above (i, key) refl in
      let same = ap (λ (w : Window). rank i w) (same_window h.grows) in
      record {
        grows = λ m p k. h.grows m p (grows m p k);
        above = λ a at.
            let higher : rank_lt a.1 key ≡ true = ap (λ (x : Best). better key x) (sym at) ∙ wins in
            (b, e, rank_lt_trans b.1 key a.1 least (rank_lt_asym a.1 key higher));
        beats = ((λ live. (b, e, ap (rank_lt b.1) same ∙ least)), h.beats);
        origin = elim h.origin [
          | inl it ↦ inr (
            i,
            here refl,
            it ∙ ap (λ (k : Rank). some (i, k)) (sym same),
            same_live h.grows ∙ covered,
          )
          | inr (j, among, e', live) ↦ inr (j, there among, e', live)
        ];
      }

  take_old :
      (covers window now && better key best) ≡ false
      → Chosen now is best c' r d
      → Chosen now (i ∷ is) best c r d
  unfolding better
  take_old loses h =
      let same = ap (λ (w : Window). rank i w) (same_window h.grows) in
      record {
        grows = λ m p k. h.grows m p (grows m p k);
        above = h.above;
        beats = (
          (λ live.
              let covered : covers window now ≡ true = sym (same_live h.grows) ∙ live in
              let weaker : better key best ≡ false =
                ap (λ (x : Bool). x && better key best) (sym covered) ∙ loses in
              elim (Option-cases best) [
                | inl none_yet ↦ absurd (ground (arith, ap (λ (x : Best). better key x) none_yet))
                | inr (a, at) ↦
                    let (b, e, least) = h.above a at in
                    let under : rank_lt a.1 key ≡ false =
                      ap (λ (x : Best). better key x) (sym at) ∙ weaker in
                    (b, e, ap (rank_lt b.1) same ∙ rank_lt_trans b.1 a.1 key least under)
              ]),
          h.beats,
        );
        origin = elim h.origin [
          | inl it ↦ inl it
          | inr (j, among, e', live) ↦ inr (j, there among, e', live)
        ];
      }

active_loop-Chosen :
    (draws : Draws) (now : ℤ) (is : List TimeTariffInterval) (best : Best) (c : RandomizationCache)
    → Chosen now is best c (active_loop draws now is best c).0 (active_loop draws now is best c).1
unfolding active_loop
active_loop-Chosen draws now [] best c = record {
  grows = λ m o h. h;
  above = λ a at. (a, at, rank_lt_refl a.1);
  beats = tt;
  origin = inl refl;
}
active_loop-Chosen draws now (i ∷ is) best c =
    let w = weigh draws now i best c in
    let rest = active_loop draws now is w.0 w.1 in
    let h = active_loop-Chosen draws now is w.0 w.1 in
    elim (weigh_lem draws now i best c) [
      | inl (off, same) ↦
          skip-Chosen now i is best c rest.0 rest.1 off
            (subst (λ (x : Best × RandomizationCache). Chosen now is x.0 x.1 rest.0 rest.1) same h)
      | inr (o, on, found, made, grows) ↦
          let win = window_by i o in
          let k = rank i win in
          let From : Best → Type 0 = λ b. Chosen now is b w.1 rest.0 rest.1 in
          let pick : Bool → Best = λ t. if t then some (i, k) else best in
          elim (Bool-cases (covers win now && better k best)) [
            | inl wins ↦
                take_new now i is best o c w.1 rest.0 rest.1 on found grows (ground arith)
                  (ground arith) (subst From (made ∙ ap pick wins) h)
            | inr loses ↦
                take_old now i is best o c w.1 rest.0 rest.1 on found grows loses
                  (subst From (made ∙ ap pick loses) h)
          ]
    ]

some-none : (a : TimeTariffInterval × Rank) → ◌≡◌ {A = Best} (some a) none → ⊥
some-none a e = cc

some_injective : (a b : TimeTariffInterval × Rank) → ◌≡◌ {A = Best} (some a) (some b) → a ≡ b
some_injective a b e = cc

-- What the selection returns, read off the cache that it leaves.
abbrev pub Selected :
    ℤ → List TimeTariffInterval → Option TimeTariffInterval × RandomizationCache → Type 0
Selected now intervals (none, d) = All (λ j. in_effect d now j ≡ false) intervals
Selected now intervals (some i, d) =
    In i intervals
    × (in_effect d now i ≡ true)
    × All
        (λ j.
          in_effect d now j ≡ true
          → rank_lt (rank i (window_in d i)) (rank j (window_in d j)) ≡ false)
        intervals

-- None is returned just when no interval is in effect: not cancelled, and its window, with the offsets
-- drawn for it, around now. Otherwise one that is in effect, such that none in effect is newer, or as
-- new with a later start.
pub active_interval_lem :
    (draws : Draws) (intervals : List TimeTariffInterval) (now : ℤ) (c : RandomizationCache)
    → Selected now intervals (active_interval draws intervals now c)
unfolding active_interval
active_interval_lem draws intervals now c =
    let h = active_loop-Chosen draws now intervals none c in
    let r = active_loop draws now intervals none c in
    elim h.origin [
      | inl same ↦ rw same (
          All-map
            (λ j beaten. elim (Bool-cases (in_effect r.1 now j)) [
              | inl live ↦ let (b, e, _) = beaten live in absurd (some-none b (sym e ∙ same))
              | inr idle ↦ idle
            ])
            intervals h.beats)
      | inr (i, among, e, live) ↦ rw e (
        among,
        live,
        All-map
            (λ j beaten live'.
              let (b, e', least) = beaten live' in
              let same = some_injective (i, rank i (window_in r.1 i)) b (sym e ∙ e') in
              ap (λ (a : TimeTariffInterval × Rank). rank_lt a.1 (rank j (window_in r.1 j))) same
              ∙ least)
            intervals h.beats,
      )
    ]
