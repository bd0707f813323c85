-- ===== src/Diagnostics.antt =====
-- diagnostics.py: the bounded store of diagnostics. A clock reading is a number; an entry's
-- identifier is drawn by the caller; the message, its source and its details are one text.
pub mod Laws
pub mod Tests
use py.Prelude.{
  ℕ, zero, suc, ◌+◌, ◌-◌, ◌≡◌, String, string_key, nat_key, Option, none, some, List, [], ◌∷◌, ◌++◌,
  map, Bool, true, false, not, ◌&&◌, ◌==◌, ltb, leb, length, drop, any, if◌then◌else◌,
}

pub data Level : Type 0 where
  errors warnings info : Level

pub record DiagnosticEntry : Type 0 where
  pub timestamp : ℕ
  pub message : String
  pub dedup_key : Option String
  pub last_seen : ℕ
  pub count : ℕ
  pub id : ℕ

pub record DiagnosticsStore : Type 0 where
  pub max_entries : ℕ
  pub errors_list : List DiagnosticEntry
  pub warnings_list : List DiagnosticEntry
  pub info_list : List DiagnosticEntry

unfoldable pub entries : DiagnosticsStore → Level → List DiagnosticEntry
entries s errors = s.errors_list
entries s warnings = s.warnings_list
entries s info = s.info_list

unfoldable pub put_entries : Level → List DiagnosticEntry → DiagnosticsStore → DiagnosticsStore
put_entries errors dq s = record s { errors_list = dq }
put_entries warnings dq s = record s { warnings_list = dq }
put_entries info dq s = record s { info_list = dq }

unfoldable pub empty_store : ℕ → DiagnosticsStore
empty_store max_entries = record {
  max_entries = max_entries;
  errors_list = [];
  warnings_list = [];
  info_list = [];
}

unfoldable pub has_key : String → DiagnosticEntry → Bool
has_key key e = elim e.dedup_key [ none ↦ false | some k ↦ k == key ]

unfoldable pub has_id : ℕ → DiagnosticEntry → Bool
has_id id e = e.id == id

-- `deque(maxlen=n).append`: the oldest entries go, and with `n` zero the new one.
unfoldable pub append : ℕ → List DiagnosticEntry → DiagnosticEntry → List DiagnosticEntry
append n dq e = drop (length (dq ++ e ∷ []) - n) (dq ++ e ∷ [])

-- The search of `add` for the first entry with the key; `none` where there is none.
unfoldable pub hit : String → ℕ → List DiagnosticEntry → Option (List DiagnosticEntry)
hit key now [] = none
hit key now (e ∷ dq) =
    let rest = hit key now dq in
    if has_key key e
    then some (record e { last_seen = now; count = e.count + 1 } ∷ dq)
    else elim rest [ none ↦ none | some dq' ↦ some (e ∷ dq') ]

unfoldable pub hit_key : Option String → ℕ → List DiagnosticEntry → Option (List DiagnosticEntry)
hit_key none now dq = none
hit_key (some key) now dq = hit key now dq

unfoldable pub add :
    Level → String → Option String → ℕ → ℕ → DiagnosticsStore → DiagnosticsStore × Bool
add level message dedup_key now id s = elim (hit_key dedup_key now (entries s level)) [
  | some dq ↦ (put_entries level dq s, false)
  | none ↦
      let e : DiagnosticEntry = record {
        timestamp = now;
        message = message;
        dedup_key = dedup_key;
        last_seen = now;
        count = 1;
        id = id;
      } in
      (put_entries level (append s.max_entries (entries s level) e) s, true)
]

unfoldable pub clear : DiagnosticsStore → DiagnosticsStore
clear s = record s { errors_list = []; warnings_list = []; info_list = [] }

unfoldable pub clear_level : Level → DiagnosticsStore → DiagnosticsStore
clear_level level s = put_entries level [] s

-- `del dq[idx]` at the first entry that a test finds; `none` where there is none.
unfoldable pub remove_first :
    (DiagnosticEntry → Bool) → List DiagnosticEntry → Option (List DiagnosticEntry)
remove_first p [] = none
remove_first p (e ∷ dq) =
    let rest = remove_first p dq in
    if p e then some dq else elim rest [ none ↦ none | some dq' ↦ some (e ∷ dq') ]

-- The loop over LEVELS that `dismiss` and `resolve_dedup` share.
unfoldable pub remove_in :
    (DiagnosticEntry → Bool) → List Level → DiagnosticsStore → DiagnosticsStore × Bool
remove_in p [] s = (s, false)
remove_in p (level ∷ rest) s =
    let later = remove_in p rest s in
    elim (remove_first p (entries s level)) [
      | some dq ↦ (put_entries level dq s, true)
      | none ↦ later
    ]

abbrev pub levels : List Level
levels = errors ∷ warnings ∷ info ∷ []

unfoldable pub dismiss : ℕ → DiagnosticsStore → DiagnosticsStore × Bool
dismiss id s = remove_in (has_id id) levels s

unfoldable pub resolve_dedup : String → DiagnosticsStore → DiagnosticsStore × Bool
resolve_dedup key s = remove_in (has_key key) levels s

-- `report` and `resolve` do nothing before the store is made.
unfoldable pub report :
    Level → String → Option String → ℕ → ℕ → Option DiagnosticsStore → Option DiagnosticsStore
report level message dedup_key now id none = none
report level message dedup_key now id (some s) = some ((add level message dedup_key now id s).0)

unfoldable pub resolve : String → Option DiagnosticsStore → Option DiagnosticsStore
resolve key none = none
resolve key (some s) = some ((resolve_dedup key s).0)
