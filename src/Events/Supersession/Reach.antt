-- ===== src/Events/Supersession/Reach.antt =====
-- `programs_sharing` finds every program that reaches a device of the given one, and raises nothing.
use py.Prelude.{
  ◌≡◌, ◌∙◌, refl, String, string_key, some, List, [], ◌∷◌, ◌++◌, Bool, true, false, ◌||◌,
  Bool-cases, inl, inr, ◌==◌, ==→eq, arith,
}
use text.Mathlib.TextEquality.{eq_iff}
use py.Prelude.Dict
use py.Prelude.Dict.{Dict, get_default-put, get-put}
use py.Prelude.Sets
use py.Prelude.Sets.{Distinct, contains-add, contains-union, contains-snoc}
use py.Events.Supersession.{devices_of, on_devices, programs_on, reach_from, programs_sharing}

abbrev Table : Type 0
Table = Dict String (List String)

-- Whether the table gives device `d` the program `q`.
abbrev known : String → String → Table → Bool
known q d on = Sets.contains q (Dict.get_default d on [])

module _ (q d : String) where
  on_devices-keeps :
      (p : String) (ds : List String) (on : Table)
      → known q d on ≡ true
      → known q d (on_devices p ds on) ≡ true
  unfolding on_devices
  on_devices-keeps p [] on h = h
  on_devices-keeps p (x ∷ ds) on h = on_devices-keeps p ds _ (
      ground (
        arith,
        get_default-put x d (Sets.add p (Dict.get_default x on [])) [] on,
        contains-add q p (Dict.get_default x on []),
        eq_iff x d,
      ))

  on_devices-adds :
      (ds : List String) (on : Table)
      → Sets.contains d ds ≡ true
      → known q d (on_devices q ds on) ≡ true
  unfolding on_devices Sets.contains
  on_devices-adds [] on h = cc
  on_devices-adds (x ∷ ds) on h = elim (Bool-cases (Sets.contains d ds)) [
    | inl later ↦ on_devices-adds ds _ later
    | inr absent ↦ on_devices-keeps q ds _ (
        ground (
          arith,
          get_default-put x d (Sets.add q (Dict.get_default x on [])) [] on,
          contains-add q q (Dict.get_default x on []),
          eq_iff x d,
          eq_iff d x,
          eq_iff q q,
        ))
  ]

  programs_on-keeps :
      (items on : Table) → known q d on ≡ true → known q d (programs_on items on) ≡ true
  unfolding programs_on
  programs_on-keeps [] on h = h
  programs_on-keeps ((p, ds) ∷ items) on h =
      programs_on-keeps items (on_devices p ds on) (on_devices-keeps p ds on h)

  programs_on-first :
      (p : String) (ds : List String) (items on : Table)
      → p ≡ q
      → Sets.contains d ds ≡ true
      → known q d (programs_on items (on_devices p ds on)) ≡ true
  programs_on-first p ds items on e h =
      programs_on-keeps items (on_devices p ds on) (rw e (on_devices-adds ds on h))

  programs_on-adds :
      (items on : Table)
      → Sets.contains d (devices_of items q) ≡ true
      → known q d (programs_on items on) ≡ true
  unfolding programs_on Dict.get_default Dict.get Sets.contains
  programs_on-adds [] on h = cc
  programs_on-adds ((p, ds) ∷ items) on h = elim (Bool-cases (p == q)) [
    | inl same ↦ programs_on-first p ds items on (==→eq p q same) (ground arith)
    | inr other ↦ programs_on-adds items (on_devices p ds on) (ground arith)
  ]

-- A device with a program stands in the table.
known-get :
    (q d : String) (on : Table)
    → known q d on ≡ true
    → (ps : List String) × (Dict.get d on ≡ some ps) × (Sets.contains q ps ≡ true)
unfolding Dict.get_default Sets.contains
known-get q d on h = ground arith

snoc-Distinct :
    (p : String) (ps : List String)
    → Distinct ps
    → Sets.contains p ps ≡ false
    → Distinct (ps ++ p ∷ [])
unfolding Sets.contains
snoc-Distinct p [] h new = (refl, tt)
snoc-Distinct p (x ∷ ps) h new =
    ground (arith, snoc-Distinct p ps h.1, contains-snoc x p ps, eq_iff x p, eq_iff p x)

add-Distinct : (p : String) (ps : List String) → Distinct ps → Distinct (Sets.add p ps)
unfolding Sets.add
add-Distinct p ps h = elim (Bool-cases (Sets.contains p ps)) [
  | inl old ↦ rw old h
  | inr new ↦ rw new (snoc-Distinct p ps h new)
]

union-Distinct : (ps qs : List String) → Distinct ps → Distinct (Sets.union ps qs)
unfolding Sets.union
union-Distinct ps [] h = h
union-Distinct ps (q ∷ qs) h = union-Distinct (Sets.add q ps) qs (add-Distinct q ps h)

-- What `reach_from` answers: a set that holds `reach` and the programs of the devices.
pub record Reaches (ds : List String) (on : Table) (reach : List String) : Type 0 where
  pub found : List String
  pub returns : reach_from ds on reach ≡ some found
  pub distinct : Distinct found
  pub keeps : (q : String) → Sets.contains q reach ≡ true → Sets.contains q found ≡ true
  pub covers :
      (q d : String)
      → Sets.contains d ds ≡ true
      → known q d on ≡ true
      → Sets.contains q found ≡ true

reach_from_next :
    (d : String) (ds : List String) (on : Table) (reach ps : List String)
    → Dict.get d on ≡ some ps
    → reach_from (d ∷ ds) on reach ≡ reach_from ds on (Sets.union reach ps)
unfolding reach_from
reach_from_next d ds on reach ps e = ground arith

known_union :
    (q x d : String) (on : Table) (reach ps : List String)
    → x ≡ d
    → Dict.get d on ≡ some ps
    → known q x on ≡ true
    → (Sets.contains q reach || Sets.contains q ps) ≡ true
unfolding Dict.get_default
known_union q x d on reach ps same e l = ground arith

reach_from-Reaches :
    (ds : List String) (on : Table) (reach : List String)
    → Distinct reach
    → ((d : String) → Sets.contains d ds ≡ true → (q : String) × (known q d on ≡ true))
    → Reaches ds on reach
unfolding Sets.contains
reach_from-Reaches [] on reach h all = record {
  found = reach;
  returns = unfold reach_from in refl;
  distinct = h;
  keeps = λ q e. e;
  covers = λ q d e k. cc;
}
reach_from-Reaches (d ∷ ds) on reach h all =
    let (p, k) = all d (ground (arith, eq_iff d d)) in
    let (ps, e, _) = known-get p d on k in
    let rest =
      reach_from-Reaches ds on (Sets.union reach ps) (union-Distinct reach ps h)
        (λ x m. all x (ground arith)) in
    record {
      found = rest.found;
      returns = reach_from_next d ds on reach ps e ∙ rest.returns;
      distinct = rest.distinct;
      keeps = λ q m. rest.keeps q (ground (arith, contains-union q reach ps));
      covers = λ q x m l. elim (Bool-cases (x == d)) [
        | inl same ↦
            rest.keeps q (rw contains-union (known_union q x d on reach ps (==→eq x d same) e l))
        | inr other ↦ rest.covers q x (ground arith) l
      ];
    }

-- The programs that `programs_sharing` answers for `p`: it raises no KeyError, holds no program
-- twice, and holds each program that has a device of `p`.
pub record Shares (p2d : Table) (p : String) : Type 0 where
  pub found : List String
  pub returns : programs_sharing p2d (programs_on p2d []) p ≡ some found
  pub distinct : Distinct found
  pub covers :
      (q d : String)
      → Sets.contains d (devices_of p2d p) ≡ true
      → Sets.contains d (devices_of p2d q) ≡ true
      → Sets.contains q found ≡ true

pub programs_sharing-Shares : (p2d : Table) (p : String) → Shares p2d p
programs_sharing-Shares p2d p =
    let r =
      reach_from-Reaches (devices_of p2d p) (programs_on p2d []) [] tt
        (λ d m. (p, programs_on-adds p d p2d [] m)) in
    record {
      found = r.found;
      returns = unfold programs_sharing in r.returns;
      distinct = r.distinct;
      covers = λ q d m l. r.covers q d m (programs_on-adds q d p2d [] l);
    }
