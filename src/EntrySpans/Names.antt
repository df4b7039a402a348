-- ===== src/EntrySpans/Names.antt =====
-- The transaction name of nested entry spans.
use apm_go.Prelude.{
  ℕ, Bool, true, false, List, [], ◌∷◌, ◌++◌, Option, none, some, ◌≡◌, refl, ap, ◌∙◌, arith, Bytes,
  bytes_eq, bytes_eq_refl, All,
}
use apm_go.EntrySpans.{
  EntrySpan, SpanMap, Manager, std_manager, noop_manager, store, last_entry, rename_last,
  remove_entry, current_unsafe, new_entry, push_entry, delete_entry, set_transaction_name, current,
  entry_name, no_error, null_span_id,
}
use apm_go.EntrySpans.Runs.{entries}

last_entry-snoc : (l : List EntrySpan) (e : EntrySpan) → last_entry (l ++ e ∷ []) ≡ some e
unfolding last_entry
last_entry-snoc [] e = refl
last_entry-snoc (x ∷ l) e = ground (arith, last_entry-snoc l e)

rename_last-snoc :
    (name : Bytes) (l : List EntrySpan) (e : EntrySpan)
    → rename_last name (l ++ e ∷ []) ≡ l ++ record e { txn_name = name } ∷ []
unfolding rename_last
rename_last-snoc name [] e = refl
rename_last-snoc name (x ∷ []) e = refl
rename_last-snoc name (x ∷ y ∷ l) e = ap (λ r. x ∷ r) (rename_last-snoc name (y ∷ l) e)

abbrev pub Fresh : Bytes → List EntrySpan → Type 0
Fresh sid = All (λ e. bytes_eq e.span_id sid ≡ false)

remove_entry-snoc :
    (l : List EntrySpan) (e : EntrySpan)
    → Fresh e.span_id l
    → remove_entry e.span_id (l ++ e ∷ []) ≡ some l
unfolding remove_entry
remove_entry-snoc [] e fresh = ground (arith, bytes_eq_refl e.span_id)
remove_entry-snoc (x ∷ l) e fresh = ground (arith, remove_entry-snoc l e fresh.1)

-- What the package tells of a trace is told by the last of its entries.
abbrev last_name : List EntrySpan → Bytes
last_name l = elim (last_entry l) [ none ↦ [] | some e ↦ e.txn_name ]

abbrev last_id : List EntrySpan → Bytes × Bool
last_id l = elim (last_entry l) [ none ↦ (null_span_id, false) | some e ↦ (e.span_id, true) ]

entry_name-entries :
    (m : SpanMap) (tid : Bytes)
    → entry_name tid (std_manager m) ≡ last_name (entries (std_manager m) tid)
unfolding entry_name current_unsafe last_entry
entry_name-entries m tid = ground arith

-- With tracked spans, the trace's current entry is the last of its list, with no panic, and its name is the name given;
-- with no entry, the id is the zero one and the name is empty.
current_last :
    (m : SpanMap) (tid : Bytes)
    → current tid (std_manager m) ≡ some (last_id (entries (std_manager m) tid))
unfolding current current_unsafe last_entry
current_last m tid = ground arith

store_same : (tid : Bytes) (v : Option (List EntrySpan)) (m : SpanMap) → store tid v m tid ≡ v
unfolding store
store_same tid v m = rw (bytes_eq_refl tid) refl

set_name_found :
    (m : SpanMap) (tid name : Bytes) (l : List EntrySpan) (e : EntrySpan)
    → m tid ≡ some l
    → last_entry l ≡ some e
    → set_transaction_name tid name (std_manager m)
      ≡ (std_manager (store tid (some (rename_last name l)) m), some e.span_handle, no_error)
unfolding set_transaction_name current_unsafe
set_name_found m tid name l e stored found = ground (arith, stored, found)

delete_found :
    (m : SpanMap) (tid : Bytes) (l : List EntrySpan) (e : EntrySpan)
    → m tid ≡ some (l ++ e ∷ [])
    → Fresh e.span_id l
    → (m' : SpanMap) × (delete_entry tid e.span_id (std_manager m) ≡ (std_manager m', no_error))
      × (entries (std_manager m') tid ≡ l)
unfolding delete_entry
delete_found m tid [] e stored fresh = (
  store tid none m,
  ground (arith, stored, remove_entry-snoc [] e fresh),
  rw (entries, store_same tid none m) refl,
)
delete_found m tid (x ∷ l) e stored fresh = (
  store tid (some (x ∷ l)) m,
  ground (arith, stored, remove_entry-snoc (x ∷ l) e fresh),
  rw (entries, store_same tid (some (x ∷ l)) m) refl,
)

-- A span pushed on a manager that tracks spans, with an id that its trace's list lacks, is the trace's current entry;
-- a name set for the trace goes to that span's object and is the name that is told. Its deletion has no
-- error and brings back the list, and with it the current entry and the name, that was there before.
pub nested_entry_span :
    (m : SpanMap) (tid sid name : Bytes) (handle : ℕ)
    → Fresh sid (entries (std_manager m) tid)
    → let outer = std_manager m in
      let (inner, target, err) = set_transaction_name tid name (push_entry tid sid handle outer) in
      let (after, err') = delete_entry tid sid inner in
      (target ≡ some handle)
      × (err ≡ no_error)
      × (current tid inner ≡ some (sid, true))
      × (entry_name tid inner ≡ name)
      × (err' ≡ no_error)
      × (entries after tid ≡ entries outer tid)
      × (current tid after ≡ current tid outer)
      × (entry_name tid after ≡ entry_name tid outer)
unfolding push_entry
nested_entry_span m tid sid name handle fresh =
    let l = entries (std_manager m) tid in
    let e : EntrySpan = record { span_id = sid; span_handle = handle; txn_name = name } in
    let pushed = store tid (some (l ++ new_entry sid handle ∷ [])) m in
    let s : set_transaction_name tid name (push_entry tid sid handle (std_manager m)) ≡ _ =
      set_name_found pushed tid name _ _ (store_same tid _ m)
        (last_entry-snoc l (new_entry sid handle)) in
    let named = store tid (some (rename_last name (l ++ new_entry sid handle ∷ []))) pushed in
    let stored : named tid ≡ some (l ++ e ∷ []) =
      store_same tid _ pushed ∙ ap some (rename_last-snoc name l (new_entry sid handle)) in
    let (m', deleted, restored) = delete_found named tid l e stored fresh in
    (
      rw s refl,
      rw s refl,
      rw (s, current_last named tid, entries, stored, last_id, last_entry-snoc l e) refl,
      rw (s, entry_name-entries named tid, entries, stored, last_name, last_entry-snoc l e) refl,
      rw (s, deleted) refl,
      rw (s, deleted) restored,
      rw (s, deleted, current_last m' tid, current_last m tid, restored) refl,
      rw (s, deleted, entry_name-entries m' tid, entry_name-entries m tid, restored) refl,
    )

-- A pushed span that is deleted leaves its trace's list as it was.
pub delete-push_entry :
    (m : Manager) (tid sid : Bytes) (handle : ℕ)
    → Fresh sid (entries m tid)
    → entries (delete_entry tid sid (push_entry tid sid handle m)).0 tid ≡ entries m tid
unfolding push_entry delete_entry
delete-push_entry noop_manager tid sid handle fresh = refl
delete-push_entry (std_manager m) tid sid handle fresh =
    let l = entries (std_manager m) tid in
    let e = new_entry sid handle in
    let (m', deleted, restored) =
      delete_found (store tid (some (l ++ e ∷ [])) m) tid l e (store_same tid _ m) fresh in
    rw deleted restored
