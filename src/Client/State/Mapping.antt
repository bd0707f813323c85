-- ===== src/Client/State/Mapping.antt =====
-- The mapping between programs and devices, in client/state.py, is the same both ways.
use mathlib.Core.Path.{subst}
use py.Prelude.{
  String, string_key, none, some, List, [], ◌∷◌, true, false, not, ◌&&◌, ◌||◌, ◌==◌, ==→eq, ==-comm,
  ◌++◌, ◌≡◌, refl, sym, ◌∙◌, ap, inl, inr, Bool-cases, Option-cases, if◌then◌else◌, arith,
}
use py.Prelude.Dict
use py.Prelude.Dict.{Dict, get-put, get_default-put, get-delete}
use py.Prelude.Sets.{contains, contains-snoc, Distinct}
use py.Client.State.{DeviceMapping, append_at, add, remove_first, detach_one, detach}

abbrev pub listed : String → Dict String (List String) → List String
listed k d = Dict.get_default k d []

Distinct-snoc :
    (v : String) (xs : List String) → contains v xs ≡ false → Distinct xs → Distinct (xs ++ v ∷ [])
unfolding contains
Distinct-snoc v [] h d = (refl, tt)
Distinct-snoc v (x ∷ xs) h (x_once, d) = (
  contains-snoc x v xs ∙ ground (arith, ==-comm x v, x_once),
  Distinct-snoc v xs (ground arith) d,
)

-- The element that is removed from a list where it stands once is not there, and the others are.
contains-remove_first :
    (v a : String) (xs : List String)
    → Distinct xs
    → contains a (remove_first v xs) ≡ (contains a xs && not (v == a))
unfolding contains remove_first
contains-remove_first v a [] d = refl
contains-remove_first v a (x ∷ xs) (once, d) = elim (Bool-cases (x == v)) [
  | inl same ↦
      let xv = ==→eq x v same in
      elim (Bool-cases (a == x)) [
        | inl e ↦
            let va : (v == a) ≡ true = rw (← xv) (==-comm x a ∙ e) in
            let gone : contains a xs ≡ false =
              ap (λ (b : String). contains b xs) (==→eq a x e) ∙ once in
            rw same (ground arith)
        | inr n ↦ let va : (v == a) ≡ false = rw (← xv) (==-comm x a ∙ n) in rw same (ground arith)
      ]
  | inr other ↦
      let rest = contains-remove_first v a xs d in
      elim (Bool-cases (a == x)) [
        | inl e ↦
            let va : (v == a) ≡ false =
              ap (λ (b : String). v == b) (==→eq a x e) ∙ ==-comm v x ∙ other in
            rw other (ground arith)
        | inr n ↦ rw other (ground arith)
      ]
]

remove_first-Distinct : (v : String) (xs : List String) → Distinct xs → Distinct (remove_first v xs)
unfolding remove_first contains
remove_first-Distinct v [] d = tt
remove_first-Distinct v (x ∷ xs) (once, d) = elim (Bool-cases (x == v)) [
  | inl same ↦ rw same d
  | inr other ↦
      rw other (contains-remove_first v x xs d ∙ ground (arith, once), remove_first-Distinct v xs d)
]

-- Every list of the dict has each element once.
abbrev pub Once : Dict String (List String) → Type 0
Once d = (k : String) → Distinct (listed k d)

pub record IsMapping (m : DeviceMapping) : Type 0 where
  pub programs_once : Once m.program_to_devices
  pub devices_once : Once m.device_to_programs
  pub both :
      (p d : String)
      → contains d (listed p m.program_to_devices) ≡ contains p (listed d m.device_to_programs)

append_at-listed :
    (k j v : String) (d : Dict String (List String))
    → listed j (append_at k v d) ≡ (if k == j then listed k d ++ v ∷ [] else listed j d)
unfolding append_at
append_at-listed k j v d = get_default-put k j (listed k d ++ v ∷ []) [] d

append_at-Once :
    (k v : String) (d : Dict String (List String))
    → contains v (listed k d) ≡ false
    → Once d
    → Once (append_at k v d)
append_at-Once k v d fresh once j = elim (Bool-cases (k == j)) [
  | inl same ↦ rw (append_at-listed k j v d, same) (Distinct-snoc v (listed k d) fresh (once k))
  | inr other ↦ rw (append_at-listed k j v d, other) (once j)
]

-- `a` is listed under `j` after the append just if it was, or is what was appended there.
append_at-contains :
    (k j v a : String) (d : Dict String (List String))
    → contains a (listed j (append_at k v d)) ≡ (contains a (listed j d) || (k == j && a == v))
append_at-contains k j v a d = elim (Bool-cases (k == j)) [
  | inl same ↦
      let at = ap (λ (i : String). contains a (listed i d)) (==→eq k j same) in
      rw (append_at-listed k j v d, same) (contains-snoc a v (listed k d) ∙ ground arith)
  | inr other ↦ rw (append_at-listed k j v d, other) (ground arith)
]

pub add-IsMapping : (p d : String) (m : DeviceMapping) → IsMapping m → IsMapping (add p d m)
unfolding add
add-IsMapping p d m h = elim (Bool-cases (contains p (listed d m.device_to_programs))) [
  | inl there ↦ rw there h
  | inr new ↦ rw new (record {
    programs_once = append_at-Once p d m.program_to_devices (h.both p d ∙ new) h.programs_once;
    devices_once = append_at-Once d p m.device_to_programs new h.devices_once;
    both = λ q e.
        append_at-contains p q d e m.program_to_devices
        ∙ ground (arith, h.both q e, ==-comm p q, ==-comm e d)
        ∙ sym (append_at-contains d e p q m.device_to_programs);
  })
]

listed-some :
    (v : String) (programs : List String) (d : Dict String (List String))
    → Dict.get v d ≡ some programs
    → listed v d ≡ programs
unfolding Dict.get_default
listed-some v programs d e = ground arith

listed-none : (v : String) (d : Dict String (List String)) → Dict.get v d ≡ none → listed v d ≡ []
unfolding Dict.get_default
listed-none v d e = ground arith

module _ (p v : String) (d : Dict String (List String)) (once : Once d) where
  put-Once :
      (programs : List String)
      → Dict.get v d ≡ some programs
      → Once (Dict.put v (remove_first p programs) d)
  put-Once programs e j = elim (Bool-cases (v == j)) [
    | inl same ↦
        let mine = subst Distinct (listed-some v programs d e) (once v) in
        rw (get_default-put v j (remove_first p programs) [] d, same)
          (remove_first-Distinct p programs mine)
    | inr other ↦ rw (get_default-put v j (remove_first p programs) [] d, other) (once j)
  ]

  put-contains :
      (programs : List String) (q e : String)
      → Dict.get v d ≡ some programs
      → contains q (listed e (Dict.put v (remove_first p programs) d))
        ≡ (contains q (listed e d) && not (e == v && p == q))
  put-contains programs q e at = elim (Bool-cases (v == e)) [
    | inl same ↦
        let mine = subst Distinct (listed-some v programs d at) (once v) in
        let now = contains-remove_first p q programs mine in
        let was : contains q (listed e d) ≡ contains q programs =
          ap (λ (i : String). contains q (listed i d)) (sym (==→eq v e same))
          ∙ ap (contains q) (listed-some v programs d at) in
        let turned : (e == v) ≡ true = ==-comm e v ∙ same in
        rw (get_default-put v e (remove_first p programs) [] d, same) (now ∙ ground arith)
    | inr other ↦
        let apart : (e == v) ≡ false = ==-comm e v ∙ other in
        rw (get_default-put v e (remove_first p programs) [] d, other, apart) (ground arith)
  ]

  detach_one-Once : Once (detach_one p v d)
  unfolding detach_one
  detach_one-Once = elim (Option-cases (Dict.get v d)) [
    | inl absent ↦ rw (absent, detach_one) once
    | inr (programs, e) ↦ rw (e, detach_one) (put-Once programs e)
  ]

  detach_one-contains :
      (q e : String)
      → contains q (listed e (detach_one p v d))
        ≡ (contains q (listed e d) && not (e == v && p == q))
  unfolding detach_one contains
  detach_one-contains q e = elim (Option-cases (Dict.get v d)) [
    | inl absent ↦ elim (Bool-cases (e == v)) [
      | inl same ↦
          let empty : contains q (listed e d) ≡ false =
            ap (λ (i : String). contains q (listed i d)) (==→eq e v same)
            ∙ ap (contains q) (listed-none v d absent) in
          rw (absent, detach_one, empty) refl
      | inr other ↦ rw (absent, detach_one, other) (ground arith)
    ]
    | inr (programs, at) ↦ rw (at, detach_one) (put-contains programs q e at)
  ]

pub detach_lem :
    (p : String) (ds : List String) (d : Dict String (List String))
    → Once d
    → Once (detach p ds d)
      × ((q e : String)
          → contains q (listed e (detach p ds d))
            ≡ (contains q (listed e d) && not (contains e ds && p == q)))
unfolding detach contains
detach_lem p [] d once = (once, λ q e. ground arith)
detach_lem p (v ∷ ds) d once =
    let (kept, left) = detach_lem p ds (detach_one p v d) (detach_one-Once p v d once) in
    (kept, λ q e. left q e ∙ ground (arith, detach_one-contains p v d once q e))
