-- ===== src/Diagnostics/Laws.antt =====
-- What the store of diagnostics keeps.
use py.Prelude.{
  if◌then◌else◌, ℕ, zero, suc, ◌+◌, ◌-◌, ◌≤◌, ◌≡◌, refl, sym, String, string_key, Option, none,
  some, List, [], ◌∷◌, ◌++◌, Bool, true, false, length, drop, arith, Bool-cases, Option-cases, inl,
  inr, length-drop,
}
use py.Diagnostics.{
  empty_store, Level, errors, warnings, info, DiagnosticEntry, DiagnosticsStore, entries,
  put_entries, has_key, append, hit, hit_key, add, clear, clear_level, remove_first, remove_in,
  levels, dismiss, resolve_dedup,
}

-- The entries that have a key.
pub key_count : String → List DiagnosticEntry → ℕ
key_count key [] = 0
key_count key (e ∷ dq) = let rest = key_count key dq in if has_key key e then suc rest else rest

-- A list of entries that keeps the bound, with one entry at most for each key.
pub record Fine (n : ℕ) (dq : List DiagnosticEntry) : Type 0 where
  pub bounded : length dq ≤ n
  pub one_each : (key : String) → key_count key dq ≤ 1

unfoldable pub AllFine : DiagnosticsStore → Type 0
AllFine s = (level : Level) → Fine s.max_entries (entries s level)

put_entries-AllFine :
    (level : Level) (dq : List DiagnosticEntry) (s : DiagnosticsStore)
    → AllFine s
    → Fine s.max_entries dq
    → AllFine (put_entries level dq s)
unfolding AllFine put_entries entries
put_entries-AllFine errors dq s b h errors = h
put_entries-AllFine errors dq s b h warnings = b warnings
put_entries-AllFine errors dq s b h info = b info
put_entries-AllFine warnings dq s b h errors = b errors
put_entries-AllFine warnings dq s b h warnings = h
put_entries-AllFine warnings dq s b h info = b info
put_entries-AllFine info dq s b h errors = b errors
put_entries-AllFine info dq s b h warnings = b warnings
put_entries-AllFine info dq s b h info = h

length-append_bounded :
    (n : ℕ) (dq : List DiagnosticEntry) (e : DiagnosticEntry) → length (append n dq e) ≤ n
unfolding append
length-append_bounded n dq e = omega (arith, length-drop (length (dq ++ e ∷ []) - n) (dq ++ e ∷ []))

key_count-drop :
    (key : String) (n : ℕ) (dq : List DiagnosticEntry)
    → key_count key (drop n dq) ≤ key_count key dq
unfolding key_count
key_count-drop key zero dq = omega arith
key_count-drop key (suc n) [] = omega arith
key_count-drop key (suc n) (e ∷ dq) = ground (arith, key_count-drop key n dq)

key_count-snoc :
    (key : String) (dq : List DiagnosticEntry) (e : DiagnosticEntry)
    → key_count key (dq ++ e ∷ []) ≡ key_count key dq + key_count key (e ∷ [])
unfolding key_count
key_count-snoc key [] e = omega arith
key_count-snoc key (f ∷ dq) e = ground (arith, key_count-snoc key dq e)

hit-Fine :
    (k key : String) (now : ℕ) (dq dq' : List DiagnosticEntry)
    → hit key now dq ≡ some dq'
    → (length dq' ≡ length dq) × (key_count k dq' ≡ key_count k dq)
unfolding hit key_count has_key
hit-Fine k key now [] dq' h = cc
hit-Fine k key now (e ∷ dq) dq' h = elim (Option-cases (hit key now dq)) [
  | inl n ↦ ground arith
  | inr (x, n) ↦ let ih = hit-Fine k key now dq x n in ground arith
]

hit-none :
    (key : String) (now : ℕ) (dq : List DiagnosticEntry)
    → hit key now dq ≡ none
    → key_count key dq ≡ 0
unfolding hit key_count
hit-none key now [] h = refl
hit-none key now (e ∷ dq) h = elim (Option-cases (hit key now dq)) [
  | inl n ↦ let none_left = hit-none key now dq n in ground arith
  | inr (x, n) ↦ ground arith
]

remove_first-Fine :
    (k : String) (p : DiagnosticEntry → Bool) (dq dq' : List DiagnosticEntry)
    → remove_first p dq ≡ some dq'
    → (suc (length dq') ≡ length dq) × (key_count k dq' ≤ key_count k dq)
unfolding remove_first key_count
remove_first-Fine k p [] dq' h = cc
remove_first-Fine k p (e ∷ dq) dq' h = elim (Option-cases (remove_first p dq)) [
  | inl n ↦ ground arith
  | inr (x, n) ↦ let ih = remove_first-Fine k p dq x n in ground arith
]

has_key_inv : (key : String) (e : DiagnosticEntry) → has_key key e ≡ true → e.dedup_key ≡ some key
unfolding has_key
has_key_inv key e h = elim (Option-cases e.dedup_key) [
  | inl n ↦ ground arith
  | inr (k, n) ↦ ground (arith, string_key.same_iff k key)
]

no_hit :
    (key : String) (now : ℕ) (o : Option String) (dq : List DiagnosticEntry)
    → o ≡ some key
    → hit_key o now dq ≡ none
    → key_count key dq ≡ 0
unfolding hit_key
no_hit key now none dq e h = cc
no_hit key now (some k) dq e h = let same : k ≡ key = cc in rw (sym same) (hit-none k now dq h)

one_more :
    (key : String) (e : DiagnosticEntry)
    → (has_key key e ≡ true → key_count key (e ∷ []) ≡ 1)
      × (has_key key e ≡ false → key_count key (e ∷ []) ≡ 0)
unfolding key_count
one_more key e = ground arith

append-one_each :
    (key : String) (n now : ℕ) (dq : List DiagnosticEntry) (e : DiagnosticEntry)
    → key_count key dq ≤ 1
    → hit_key e.dedup_key now dq ≡ none
    → key_count key (append n dq e) ≤ 1
unfolding append
append-one_each key n now dq e one h =
    let less = key_count-drop key (length (dq ++ e ∷ []) - n) (dq ++ e ∷ []) in
    let sum = key_count-snoc key dq e in
    let (one', zero') = one_more key e in
    elim (Bool-cases (has_key key e)) [
      | inl has ↦ omega (arith, one' has, no_hit key now e.dedup_key dq (has_key_inv key e has) h)
      | inr lacks ↦ omega (arith, zero' lacks)
    ]

append-Fine :
    (n now : ℕ) (dq : List DiagnosticEntry) (e : DiagnosticEntry)
    → Fine n dq
    → hit_key e.dedup_key now dq ≡ none
    → Fine n (append n dq e)
append-Fine n now dq e f h = record {
  bounded = length-append_bounded n dq e;
  one_each = λ key. append-one_each key n now dq e (f.one_each key) h;
}

hit_key-Fine :
    (n now : ℕ) (o : Option String) (dq dq' : List DiagnosticEntry)
    → Fine n dq
    → hit_key o now dq ≡ some dq'
    → Fine n dq'
unfolding hit_key
hit_key-Fine n now none dq dq' f h = cc
hit_key-Fine n now (some k) dq dq' f h = record {
  bounded = omega (arith, f.bounded, hit-Fine k k now dq dq' h);
  one_each = λ key. omega (arith, f.one_each key, hit-Fine key k now dq dq' h);
}

add-AllFine :
    (level : Level) (message : String) (o : Option String) (now id : ℕ) (s : DiagnosticsStore)
    → AllFine s
    → AllFine ((add level message o now id s).0)
unfolding add AllFine
add-AllFine level message o now id s f = elim (Option-cases (hit_key o now (entries s level))) [
  | inl e ↦
      rw (e, add)
        (put_entries-AllFine level _ s f
          (append-Fine s.max_entries now (entries s level) _ (f level) e))
  | inr (dq, e) ↦
      rw (e, add)
        (put_entries-AllFine level dq s f
          (hit_key-Fine s.max_entries now o (entries s level) dq (f level) e))
]

remove_in-AllFine :
    (p : DiagnosticEntry → Bool) (ls : List Level) (s : DiagnosticsStore)
    → AllFine s
    → AllFine ((remove_in p ls s).0)
unfolding remove_in AllFine
remove_in-AllFine p [] s f = f
remove_in-AllFine p (level ∷ rest) s f = elim (Option-cases (remove_first p (entries s level))) [
  | inl e ↦ rw (e, remove_in) (remove_in-AllFine p rest s f)
  | inr (dq, e) ↦
      rw (e, remove_in)
        (put_entries-AllFine level dq s f (record {
          bounded = omega (arith, (f level).bounded, remove_first-Fine "" p (entries s level) dq e);
          one_each = λ key.
              omega (arith, (f level).one_each key, remove_first-Fine key p (entries s level) dq e);
        }))
]

-- The stores that the operations make.
pub data Reachable : DiagnosticsStore → Type 0 where
  made : (n : ℕ) → Reachable (empty_store n)
  added :
      {s : DiagnosticsStore} (level : Level) (message : String) (key : Option String) (now id : ℕ)
      → Reachable s
      → Reachable ((add level message key now id s).0)
  cleared : {s : DiagnosticsStore} → Reachable s → Reachable (clear s)
  level_cleared :
      {s : DiagnosticsStore} (level : Level) → Reachable s → Reachable (clear_level level s)
  dismissed : {s : DiagnosticsStore} (id : ℕ) → Reachable s → Reachable ((dismiss id s).0)
  resolved :
      {s : DiagnosticsStore} (key : String) → Reachable s → Reachable ((resolve_dedup key s).0)

nothing-Fine : (n : ℕ) → Fine n []
unfolding key_count
nothing-Fine n = record { bounded = omega arith; one_each = λ key. omega arith }

cleared_level : (s : DiagnosticsStore) → AllFine (clear s)
unfolding AllFine clear entries
cleared_level s errors = nothing-Fine s.max_entries
cleared_level s warnings = nothing-Fine s.max_entries
cleared_level s info = nothing-Fine s.max_entries

-- In every store that the operations make from an empty one, no level has more entries than the
-- bound, and no level has two entries with one dedup key.
pub Reachable-AllFine : (s : DiagnosticsStore) → Reachable s → AllFine s
unfolding AllFine clear clear_level empty_store dismiss resolve_dedup entries
Reachable-AllFine s (made n) = cleared_level (empty_store n)
Reachable-AllFine s (added level message key now id r) =
    add-AllFine level message key now id _ (Reachable-AllFine _ r)
Reachable-AllFine s (cleared {s = s'} r) = cleared_level s'
Reachable-AllFine s (level_cleared level r) =
    put_entries-AllFine level [] _ (Reachable-AllFine _ r) (nothing-Fine _)
Reachable-AllFine s (dismissed id r) = remove_in-AllFine _ levels _ (Reachable-AllFine _ r)
Reachable-AllFine s (resolved key r) = remove_in-AllFine _ levels _ (Reachable-AllFine _ r)
