-- ===== src/EntrySpans.antt =====
-- internal/entryspans/entryspans.go: the entry spans in progress, by trace, and their transaction names. The map is
-- a function, the lock makes each call one step, and a call of the SDK's span is returned as a value.
pub mod Runs
pub mod Names
use apm_go.Prelude.{
  ℕ, Bool, true, false, not, ◌||◌, List, [], ◌∷◌, ◌++◌, Option, none, some, Bytes, codes, bytes_eq,
  if◌then◌else◌,
}
use apm_go.Otel.{SpanContext, SpanContexts}

-- What the code reads of the SDK's span. The handle tells the object to which attributes are set.
pub record Span (T : Type 0) : Type 0 where
  pub handle : ℕ
  pub context : SpanContext T
  pub parent : SpanContext T
  pub name : Bytes
  -- the attributes, each value by its AsString
  pub attributes : List (Bytes × Bytes)

-- entrySpan
pub record EntrySpan : Type 0 where
  pub span_id : Bytes
  pub span_handle : ℕ
  pub txn_name : Bytes

abbrev pub SpanMap : Type 0
SpanMap = Bytes → Option (List EntrySpan)

pub data Manager : Type 0 where
  std_manager : SpanMap → Manager
  noop_manager : Manager

pub data EntrySpanError : Type 0 where
  no_error not_entry_span cannot_set_name no_span_id no_trace_id : EntrySpanError

-- e.spans[tid] = list, or delete(e.spans, tid) for none.
unfoldable pub store : Bytes → Option (List EntrySpan) → SpanMap → SpanMap
store tid v m j = if bytes_eq j tid then v else m j

abbrev pub null_span_id : Bytes
null_span_id = 0 ∷ 0 ∷ 0 ∷ 0 ∷ 0 ∷ 0 ∷ 0 ∷ 0 ∷ []

-- list[l-1]
unfoldable pub last_entry : List EntrySpan → Option EntrySpan
last_entry [] = none
last_entry (e ∷ es) = let rest = last_entry es in elim rest [ none ↦ some e | some l ↦ some l ]

-- curr.txnName = name, for the last entry of the list.
unfoldable pub rename_last : Bytes → List EntrySpan → List EntrySpan
rename_last name [] = []
rename_last name (e ∷ es) =
    let rest = rename_last name es in
    elim es [ [] ↦ record e { txn_name = name } ∷ [] | _ ∷ _ ↦ e ∷ rest ]

-- The loop of delete: the list without the first entry of that id, if there is one.
unfoldable pub remove_entry : Bytes → List EntrySpan → Option (List EntrySpan)
remove_entry sid [] = none
remove_entry sid (e ∷ es) =
    let rest = remove_entry sid es in
    if bytes_eq e.span_id sid
    then some es
    else elim rest [ none ↦ none | some kept ↦ some (e ∷ kept) ]

unfoldable pub current_unsafe : Bytes → SpanMap → Option EntrySpan
unfolding last_entry
current_unsafe tid m = elim (m tid) [ none ↦ none | some l ↦ last_entry l ]

unfoldable pub new_entry : Bytes → ℕ → EntrySpan
new_entry sid handle = record { span_id = sid; span_handle = handle; txn_name = [] }

unfoldable pub push_entry : Bytes → Bytes → ℕ → Manager → Manager
unfolding store new_entry
push_entry tid sid handle noop_manager = noop_manager
push_entry tid sid handle (std_manager m) =
    let list : List EntrySpan = elim (m tid) [ none ↦ [] | some l ↦ l ] in
    std_manager (store tid (some (list ++ new_entry sid handle ∷ [])) m)

unfoldable pub delete_entry : Bytes → Bytes → Manager → Manager × EntrySpanError
unfolding store remove_entry
delete_entry tid sid noop_manager = (noop_manager, no_error)
delete_entry tid sid (std_manager m) = elim (m tid) [
  | none ↦ (std_manager m, no_trace_id)
  | some l ↦ elim (remove_entry sid l) [
    | none ↦ (std_manager m, no_span_id)
    | some [] ↦ (std_manager (store tid none m), no_error)
    | some (e ∷ es) ↦ (std_manager (store tid (some (e ∷ es)) m), no_error)
  ]
]

-- SetTransactionName: the handle of the span that gets the attribute, if any.
unfoldable pub set_transaction_name : Bytes → Bytes → Manager → Manager × Option ℕ × EntrySpanError
unfolding store rename_last current_unsafe
set_transaction_name tid name noop_manager = (noop_manager, none, cannot_set_name)
set_transaction_name tid name (std_manager m) = elim (current_unsafe tid m) [
  | none ↦ (std_manager m, none, no_trace_id)
  | some e ↦ (
    std_manager (store tid (elim (m tid) [ none ↦ none | some l ↦ some (rename_last name l) ]) m),
    some e.span_handle,
    no_error,
  )
]

-- Current: the id, and whether there is an entry; `none` is the panic of a nil entry.
unfoldable pub current : Bytes → Manager → Option (Bytes × Bool)
unfolding current_unsafe
current tid noop_manager = none
current tid (std_manager m) = elim (current_unsafe tid m) [
  | none ↦ some (null_span_id, false)
  | some e ↦ some (e.span_id, true)
]

-- GetTransactionName of the package.
unfoldable pub entry_name : Bytes → Manager → Bytes
unfolding current_unsafe
entry_name tid noop_manager = []
entry_name tid (std_manager m) = elim (current_unsafe tid m) [ none ↦ [] | some e ↦ e.txn_name ]

module _ {T : Type 0} ⦃sc : SpanContexts T⦄ where
  unfoldable pub is_entry_span : Span T → Bool
  is_entry_span span = not (sc.is_valid span.parent) || span.parent.is_remote

  -- Push and Delete
  unfoldable pub push : Span T → Manager → Manager × EntrySpanError
  unfolding is_entry_span push_entry
  push span m =
      if not (is_entry_span span)
      then (m, not_entry_span)
      else (push_entry span.context.trace_id span.context.span_id span.handle m, no_error)

  unfoldable pub delete : Span T → Manager → Manager × EntrySpanError
  unfolding delete_entry
  delete span m = delete_entry span.context.trace_id span.context.span_id m

-- makeManagerFromEnv
unfoldable pub make_manager : Bool → Manager
make_manager has_lambda_env = if has_lambda_env then noop_manager else std_manager (λ tid. none)
