-- ===== src/EntrySpans/Runs.antt =====
-- Each trace's entries are a list that only its own calls change.
use apm_go.Prelude.{
  ℕ, List, [], ◌∷◌, ◌++◌, Option, none, some, ◌≡◌, refl, sym, arith, Bytes, bytes_eq,
  bytes_eq_sound, if◌then◌else◌, Option-cases, inl, inr, Bool-cases,
}
use apm_go.EntrySpans.{
  EntrySpan, SpanMap, Manager, std_manager, noop_manager, store, last_entry, rename_last,
  remove_entry, current_unsafe, new_entry, push_entry, delete_entry, set_transaction_name,
}

-- The calls that change the manager, for a trace.
pub data SpanCall : Type 0 where
  push_call : Bytes → Bytes → ℕ → SpanCall
  delete_call name_call : Bytes → Bytes → SpanCall

abbrev pub trace_of : SpanCall → Bytes
trace_of (push_call tid sid handle) = tid
trace_of (delete_call tid sid) = tid
trace_of (name_call tid name) = tid

unfoldable pub step : SpanCall → Manager → Manager
unfolding push_entry delete_entry set_transaction_name
step (push_call tid sid handle) m = push_entry tid sid handle m
step (delete_call tid sid) m = (delete_entry tid sid m).0
step (name_call tid name) m = (set_transaction_name tid name m).0

abbrev pub run : List SpanCall → Manager → Manager
run [] m = m
run (c ∷ cs) m = run cs (step c m)

-- What is in front of the first entry of an id, and what is behind it.
abbrev pub before_first : Bytes → List EntrySpan → List EntrySpan
before_first sid [] = []
before_first sid (e ∷ es) =
    let rest = before_first sid es in if bytes_eq e.span_id sid then [] else e ∷ rest

abbrev pub after_first : Bytes → List EntrySpan → List EntrySpan
after_first sid [] = []
after_first sid (e ∷ es) =
    let rest = after_first sid es in if bytes_eq e.span_id sid then es else rest

-- The last entry as a list of at most one, and what is in front of it.
abbrev pub last_part : List EntrySpan → List EntrySpan
last_part [] = []
last_part (e ∷ []) = e ∷ []
last_part (e ∷ d ∷ es) = last_part (d ∷ es)

abbrev pub front_part : List EntrySpan → List EntrySpan
front_part [] = []
front_part (e ∷ []) = []
front_part (e ∷ d ∷ es) = e ∷ front_part (d ∷ es)

abbrev pub all_named : Bytes → List EntrySpan → List EntrySpan
all_named name [] = []
all_named name (e ∷ es) = record e { txn_name = name } ∷ all_named name es

-- A call's effect on its trace's own list, told apart from the code's loops.
unfoldable pub list_step : SpanCall → List EntrySpan → List EntrySpan
list_step (push_call tid sid handle) l = l ++ new_entry sid handle ∷ []
list_step (delete_call tid sid) l = before_first sid l ++ after_first sid l
list_step (name_call tid name) l = front_part l ++ all_named name (last_part l)

-- What the loop of delete leaves of a list.
left_by : List EntrySpan → Option (List EntrySpan) → List EntrySpan
left_by l r = elim r [ none ↦ l | some kept ↦ kept ]

remove_entry-parts :
    (sid : Bytes) (l : List EntrySpan)
    → left_by l (remove_entry sid l) ≡ before_first sid l ++ after_first sid l
unfolding remove_entry left_by
remove_entry-parts sid [] = refl
remove_entry-parts sid (e ∷ es) = ground (arith, remove_entry-parts sid es)

rename_last-parts :
    (name : Bytes) (l : List EntrySpan)
    → rename_last name l ≡ front_part l ++ all_named name (last_part l)
unfolding rename_last
rename_last-parts name [] = refl
rename_last-parts name (e ∷ []) = refl
rename_last-parts name (e ∷ d ∷ es) = ground (arith, rename_last-parts name (d ∷ es))

abbrev pub list_run : Bytes → List SpanCall → List EntrySpan → List EntrySpan
list_run tid [] l = l
list_run tid (c ∷ cs) l = list_run tid cs (if bytes_eq tid (trace_of c) then list_step c l else l)

-- A trace without a list has the empty one.
abbrev pub entries : Manager → Bytes → List EntrySpan
entries (std_manager m) tid = elim (m tid) [ none ↦ [] | some l ↦ l ]
entries noop_manager tid = []

-- The same effect by the code's loops.
code_step : SpanCall → List EntrySpan → List EntrySpan
code_step (push_call tid sid handle) l = l ++ new_entry sid handle ∷ []
code_step (delete_call tid sid) l = left_by l (remove_entry sid l)
code_step (name_call tid name) l = rename_last name l

code_step-list_step : (c : SpanCall) (l : List EntrySpan) → code_step c l ≡ list_step c l
unfolding code_step list_step
code_step-list_step (push_call tid sid handle) l = refl
code_step-list_step (delete_call tid sid) l = remove_entry-parts sid l
code_step-list_step (name_call tid name) l = rename_last-parts name l

last_entry-none : (l : List EntrySpan) → last_entry l ≡ none → l ≡ []
unfolding last_entry
last_entry-none [] h = refl
last_entry-none (e ∷ es) h = ground (arith, last_entry-none es)

step-code_step :
    (c : SpanCall) (m : SpanMap) (tid : Bytes)
    → (m' : SpanMap) × (step c (std_manager m) ≡ std_manager m')
      × (entries (std_manager m') tid ≡ (
          if bytes_eq tid (trace_of c)
          then code_step c (entries (std_manager m) tid)
          else entries (std_manager m) tid))
unfolding step code_step left_by push_entry delete_entry set_transaction_name store current_unsafe
step-code_step (push_call t sid handle) m tid = elim (Bool-cases (bytes_eq tid t)) [
  | inl same ↦ (_, refl, ground (arith, bytes_eq_sound tid t same))
  | inr other ↦ (_, refl, ground arith)
]
step-code_step (delete_call t sid) m tid = elim (Option-cases (m t)) [
  | inl absent ↦ (m, ground (arith, absent), ground (arith, absent, bytes_eq_sound tid t))
  | inr (l, present) ↦ elim (Option-cases (remove_entry sid l)) [
    | inl lost ↦
        (m, ground (arith, present, lost), ground (arith, present, lost, bytes_eq_sound tid t))
    | inr ([], kept) ↦ (
      store t none m,
      ground (arith, present, kept),
      ground (arith, present, kept, bytes_eq_sound tid t),
    )
    | inr (e ∷ es, kept) ↦ (
      store t (some (e ∷ es)) m,
      ground (arith, present, kept),
      ground (arith, present, kept, bytes_eq_sound tid t),
    )
  ]
]
step-code_step (name_call t name) m tid = elim (Option-cases (m t)) [
  | inl absent ↦
      (m, ground (arith, absent), ground (arith, absent, bytes_eq_sound tid t, rename_last))
  | inr (l, present) ↦ elim (Option-cases (last_entry l)) [
    | inl none_left ↦ (
      m,
      ground (arith, present, none_left),
      ground (arith, present, last_entry-none l none_left, bytes_eq_sound tid t, rename_last),
    )
    | inr (e, found) ↦ (
      store t (some (rename_last name l)) m,
      ground (arith, present, found),
      ground (arith, present, found, bytes_eq_sound tid t),
    )
  ]
]

pub step-entries :
    (c : SpanCall) (m : SpanMap) (tid : Bytes)
    → (m' : SpanMap) × (step c (std_manager m) ≡ std_manager m')
      × (entries (std_manager m') tid ≡ (
          if bytes_eq tid (trace_of c)
          then list_step c (entries (std_manager m) tid)
          else entries (std_manager m) tid))
step-entries c m tid =
    let (m', e, l) = step-code_step c m tid in
    (m', e, ground (arith, l, code_step-list_step c (entries (std_manager m) tid)))

-- For any run of calls on a manager that tracks spans, a trace's entries are those that its own calls, in their order,
-- make of its list: push appends, delete takes away the first entry of that id, and naming changes the last entry.
pub run-entries :
    (cs : List SpanCall) (m : SpanMap) (tid : Bytes)
    → entries (run cs (std_manager m)) tid ≡ list_run tid cs (entries (std_manager m) tid)
run-entries [] m tid = refl
run-entries (c ∷ cs) m tid =
    let (m', e, l) = step-entries c m tid in rw (e, sym l) (run-entries cs m' tid)
