-- ===== src/Events/Supersession/Index.antt =====
-- What `indices_of`, the bisection and the sort of `later` come to: the places, behind a given one,
-- of the events whose programs are in a set, in their order.
use py.Prelude.{
  ℕ, zero, suc, ◌+◌, ◌≤◌, ◌<◌, ◌≡◌, refl, ap, ◌∙◌, sym, String, string_key, List, [], ◌∷◌, ◌++◌,
  ◌==◌, drop, if◌then◌else◌, arith, bytes_key,
}
use text.Mathlib.TextEquality.{eq_iff}
use mathlib.Core.List.{append-nil, append_assoc}
use py.Prelude.Dict
use py.Prelude.Dict.{Dict, get_default-put}
use py.Prelude.Sets
use py.Prelude.Sets.{Distinct}
use py.Events.Store.{EventRecord}
use py.Events.Supersession.{indices_of, bisect_right, later_of, insert, sort}

-- The places of a program's events, counted from `k`.
unfoldable pub positions : String → ℕ → List EventRecord → List ℕ
positions p k [] = []
positions p k (e ∷ es) =
    if e.program_href == p then k ∷ positions p (suc k) es else positions p (suc k) es

indices_of-positions :
    (p : String) (k : ℕ) (es : List EventRecord) (acc : Dict String (List ℕ))
    → Dict.get_default p (indices_of k es acc) [] ≡ Dict.get_default p acc [] ++ positions p k es
unfolding indices_of positions
indices_of-positions p k [] acc = sym (append-nil _)
indices_of-positions p k (e ∷ es) acc =
    let found = Dict.get_default e.program_href acc [] in
    ground (
      arith,
      indices_of-positions p (suc k) es (Dict.put e.program_href (found ++ k ∷ []) acc),
      get_default-put e.program_href p (found ++ k ∷ []) [] acc,
      append_assoc found (k ∷ []) (positions p (suc k) es),
      eq_iff e.program_href p,
    )

bisect-positions :
    (p : String) (i k : ℕ) (es : List EventRecord) → i < k → bisect_right (positions p k es) i ≡ 0
unfolding bisect_right positions
bisect-positions p i k [] h = refl
bisect-positions p i k (e ∷ es) h = ground (arith, bisect-positions p i (suc k) es (omega arith))

abbrev after : ℕ → List ℕ → List ℕ
after i xs = drop (bisect_right xs i) xs

after_step :
    (p : String) (i k : ℕ) (e : EventRecord) (es : List EventRecord)
    → k ≤ i
    → after i (positions p k (e ∷ es)) ≡ after i (positions p (suc k) es)
unfolding bisect_right positions
after_step p i k e es h = ground arith

after-positions :
    (p : String) (i k d : ℕ) (es : List EventRecord)
    → k + d ≡ suc i
    → after i (positions p k es) ≡ positions p (k + d) (drop d es)
after-positions p i k zero es h =
    rw (bisect-positions p i k es (omega arith)) (ap (λ n. positions p n es) (omega arith))
after-positions p i k (suc d) [] h = unfold positions bisect_right in refl
after-positions p i k (suc d) (e ∷ es) h =
    after_step p i k e es (omega arith)
    ∙ after-positions p i (suc k) d es (omega arith)
    ∙ ap (λ n. positions p n (drop d es)) (omega arith)

-- The places of the events of several programs, one program after the other.
unfoldable pub gather : List String → ℕ → List EventRecord → List ℕ
gather [] k es = []
gather (p ∷ ps) k es = positions p k es ++ gather ps k es

-- The same places in increasing order.
unfoldable pub targets : List String → ℕ → List EventRecord → List ℕ
targets ps k [] = []
targets ps k (e ∷ es) =
    if Sets.contains e.program_href ps then k ∷ targets ps (suc k) es else targets ps (suc k) es

insert-insert : (a b : ℕ) (xs : List ℕ) → insert a (insert b xs) ≡ insert b (insert a xs)
unfolding insert
insert-insert a b [] = ground arith
insert-insert a b (x ∷ xs) = ground (arith, insert-insert a b xs)

insert_all : List ℕ → List ℕ → List ℕ
insert_all [] ys = ys
insert_all (x ∷ xs) ys = insert x (insert_all xs ys)

sort-append : (xs ys : List ℕ) → sort (xs ++ ys) ≡ insert_all xs (sort ys)
unfolding sort insert_all
sort-append [] ys = refl
sort-append (x ∷ xs) ys = ap (insert x) (sort-append xs ys)

insert_all-insert :
    (xs : List ℕ) (k : ℕ) (ys : List ℕ) → insert_all xs (insert k ys) ≡ insert k (insert_all xs ys)
unfolding insert_all
insert_all-insert [] k ys = refl
insert_all-insert (x ∷ xs) k ys =
    ap (insert x) (insert_all-insert xs k ys) ∙ insert-insert x k (insert_all xs ys)

sort-gather-cons :
    (ps : List String) (k : ℕ) (e : EventRecord) (es : List EventRecord)
    → Distinct ps
    → sort (gather ps k (e ∷ es)) ≡ (
        if Sets.contains e.program_href ps
        then insert k (sort (gather ps (suc k) es))
        else sort (gather ps (suc k) es))
unfolding Sets.contains gather positions insert_all
sort-gather-cons [] k e es h = refl
sort-gather-cons (p ∷ ps) k e es h = ground (
  arith,
  sort-gather-cons ps k e es h.1,
  sort-append (positions p k (e ∷ es)) (gather ps k (e ∷ es)),
  sort-append (positions p (suc k) es) (gather ps (suc k) es),
  insert_all-insert (positions p (suc k) es) k (sort (gather ps (suc k) es)),
  eq_iff e.program_href p,
)

insert-targets :
    (ps : List String) (j k : ℕ) (es : List EventRecord)
    → j ≤ k
    → insert j (targets ps k es) ≡ j ∷ targets ps k es
unfolding insert targets
insert-targets ps j k [] h = refl
insert-targets ps j k (e ∷ es) h = ground (arith, insert-targets ps j (suc k) es (omega arith))

sort-gather-nil : (ps : List String) (k : ℕ) → sort (gather ps k []) ≡ []
unfolding sort gather positions
sort-gather-nil [] k = refl
sort-gather-nil (p ∷ ps) k = sort-gather-nil ps k

sort-gather :
    (ps : List String) (k : ℕ) (es : List EventRecord)
    → Distinct ps
    → sort (gather ps k es) ≡ targets ps k es
unfolding targets
sort-gather ps k [] h = sort-gather-nil ps k
sort-gather ps k (e ∷ es) h = ground (
  arith,
  sort-gather-cons ps k e es h,
  sort-gather ps (suc k) es h,
  insert-targets ps k (suc k) es (omega arith),
)

found_positions :
    (p : String) (es : List EventRecord)
    → Dict.get_default p (indices_of 0 es []) [] ≡ positions p 0 es
unfolding Dict.get_default Dict.get
found_positions p es = indices_of-positions p 0 es []

later_of-gather :
    (es : List EventRecord) (i : ℕ) (ps : List String)
    → later_of (indices_of 0 es []) i ps ≡ gather ps (suc i) (drop (suc i) es)
unfolding later_of gather
later_of-gather es i [] = refl
later_of-gather es i (p ∷ ps) =
    rw (found_positions p es, later_of-gather es i ps)
      (ap (λ l. l ++ gather ps (suc i) (drop (suc i) es))
        (after-positions p i 0 (suc i) es (omega arith)
          ∙ ap (λ n. positions p n (drop (suc i) es)) (omega arith)))

-- What `later` holds after its sort: the places behind `i` of the events of the programs, in order.
pub later_targets :
    (es : List EventRecord) (i : ℕ) (ps : List String)
    → Distinct ps
    → sort (later_of (indices_of 0 es []) i ps) ≡ targets ps (suc i) (drop (suc i) es)
later_targets es i ps h = rw later_of-gather (sort-gather ps (suc i) (drop (suc i) es) h)
