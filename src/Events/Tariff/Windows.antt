-- ===== src/Events/Tariff/Windows.antt =====
-- The windows that the selection of events/tariff.py weighs, and the order of the ranks.
use py.Prelude.{
  Bytes, bytes_key, none, some, Bool, true, false, not, ◌&&◌, ◌==◌, ◌≡◌, refl, ap, ==→eq, ==-refl,
  ◌⊎◌, inl, inr, Bool-cases, Option-cases, or_else, if◌then◌else◌, arith,
}
use py.Prelude.Int.{ℤ, pos, ◌+ℤ◌}
use py.Prelude.Dict
use py.Prelude.Dict.{get-put}
use py.Events.Randomization.{RandomizationCache, get_offsets}
use py.Events.Tariff.{
  TimeTariffInterval, Draws, Window, effective_window, is_cancelled, covers, Rank, rank, rank_lt,
  Best, better, weigh,
}

abbrev pub Grows : RandomizationCache → RandomizationCache → Type 0
Grows c d = (m : Bytes) (o : ℤ × ℤ) → Dict.get m c.cache ≡ some o → Dict.get m d.cache ≡ some o

abbrev pub window_by : TimeTariffInterval → ℤ × ℤ → Window
window_by i o = (i.start +ℤ o.0, i.start +ℤ o.0 +ℤ i.duration +ℤ o.1)

-- The window of an interval, with the offsets that the cache has for it.
abbrev pub window_in : RandomizationCache → TimeTariffInterval → Window
window_in c i = window_by i (or_else (Dict.get i.m_rid c.cache) (pos 0, pos 0))

abbrev pub in_effect : RandomizationCache → ℤ → TimeTariffInterval → Bool
in_effect c now i = not (is_cancelled i) && covers (window_in c i) now

pub rank_lt_trans : (a b c : Rank) → rank_lt a b ≡ false → rank_lt b c ≡ false → rank_lt a c ≡ false
unfolding rank_lt
rank_lt_trans a b c h k = ground arith

pub rank_lt_refl : (a : Rank) → rank_lt a a ≡ false
unfolding rank_lt
rank_lt_refl a = ground arith

pub rank_lt_asym : (a b : Rank) → rank_lt a b ≡ true → rank_lt b a ≡ false
unfolding rank_lt
rank_lt_asym a b h = ground arith

put_found :
    (k : Bytes) (v : ℤ × ℤ) (d : Dict.Dict Bytes (ℤ × ℤ)) → Dict.get k (Dict.put k v d) ≡ some v
put_found k v d = ground (arith, get-put k k v d, ==-refl k)

put_grows :
    (k m : Bytes) (v w : ℤ × ℤ) (d : Dict.Dict Bytes (ℤ × ℤ))
    → Dict.get k d ≡ none
    → Dict.get m d ≡ some w
    → Dict.get m (Dict.put k v d) ≡ some w
put_grows k m v w d absent e = elim (Bool-cases (k == m)) [
  | inl same ↦
      let again = ap (λ (j : Bytes). Dict.get j d) (==→eq k m same) in absurd (ground arith)
  | inr other ↦ ground (arith, get-put k m v d)
]

effective_window_lem :
    (draws : Draws) (i : TimeTariffInterval) (c : RandomizationCache)
    → (o : ℤ × ℤ) × (Dict.get i.m_rid (effective_window draws i c).1.cache ≡ some o)
      × ((effective_window draws i c).0 ≡ window_by i o)
      × Grows c (effective_window draws i c).1
unfolding effective_window get_offsets
effective_window_lem draws i c = elim (Option-cases (Dict.get i.m_rid c.cache)) [
  | inr (o, e) ↦ rw (e, effective_window, get_offsets) (o, e, refl, λ m o' h. h)
  | inl e ↦
      rw (e, effective_window, get_offsets)
        (_, put_found i.m_rid _ c.cache, refl, λ m o' h. put_grows i.m_rid m _ o' c.cache e h)
]

abbrev pub weighed : TimeTariffInterval → ℤ → Window → Best → Best
weighed i now window best =
    if covers window now && better (rank i window) best then some (i, rank i window) else best

-- What a round does to the best interval so far and to the cache.
pub weigh_lem :
    (draws : Draws) (now : ℤ) (i : TimeTariffInterval) (best : Best) (c : RandomizationCache)
    → ((is_cancelled i ≡ true) × (weigh draws now i best c ≡ (best, c)))
      ⊎ ((o : ℤ × ℤ) × (is_cancelled i ≡ false)
          × (Dict.get i.m_rid (weigh draws now i best c).1.cache ≡ some o)
          × ((weigh draws now i best c).0 ≡ weighed i now (window_by i o) best)
          × Grows c (weigh draws now i best c).1)
unfolding weigh
weigh_lem draws now i best c = elim (Bool-cases (is_cancelled i)) [
  | inl off ↦ inl (off, rw off refl)
  | inr on ↦
      let (o, found, window, grows) = effective_window_lem draws i c in
      inr (rw on (o, refl, found, ap (λ (w : Window). weighed i now w best) window, grows))
]
