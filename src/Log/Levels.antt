-- ===== src/Log/Levels.antt =====
-- The level of the log through all calls, and what is printed at it.
use apm_go.Prelude.{
  ℕ, zero, suc, ◌<◌, List, [], ◌∷◌, Option, some, ◌≡◌, refl, arith, Bytes, length, get_elem?,
  Option-cases, inl, inr, ◌>>=◌, trim_space,
}
use apm_go.Log.{
  LogLevel, Logger, to_upper, level_str, elem_offset, str_to_level, to_log_level,
  set_level_from_str, set_log_level, get_log_level, log_it, log_prefix,
}

elem_offset_bound : (s : List Bytes) (e : Bytes) (n : ℕ) → elem_offset s e ≡ some n → n < length s
unfolding elem_offset
elem_offset_bound [] e n h = cc
elem_offset_bound (i ∷ s) e n h = elim (Option-cases (elem_offset s e)) [
  | inl f ↦ ground arith
  | inr (m, f) ↦ let below = elem_offset_bound s e m f in ground arith
]

str_to_level_bound : (e : Bytes) → (str_to_level e).0 < 4
unfolding str_to_level
str_to_level_bound e = elim (Option-cases (elem_offset level_str e)) [
  | inl f ↦ ground arith
  | inr (n, f) ↦ let below = elem_offset_bound level_str e n f in ground arith
]

to_log_level_bound : (s : Bytes) → (to_log_level s).0 < 4
unfolding to_log_level
to_log_level_bound s = ground (arith, str_to_level_bound (to_upper (trim_space s)))

-- What the program does with the log.
pub data LogCall : Type 0 where
  sets_from_str sets_log_level : Bytes → LogCall
  prints : Option (Bytes × Bytes) → (level : LogLevel) → level < 4 → Bytes → LogCall

unfoldable pub log_step : LogCall → Logger → Option Logger
log_step (sets_from_str s) l = some (set_level_from_str s l)
log_step (sets_log_level s) l = some (set_log_level s l).1
log_step (prints caller level h msg) l = log_it caller level msg l

unfoldable pub log_run : List LogCall → Logger → Option Logger
log_run [] l = some l
log_run (c ∷ cs) l = log_step c l >>= log_run cs

log_prefix_total :
    (caller : Option (Bytes × Bytes)) (level : LogLevel)
    → level < 4
    → (pre : Bytes) × (log_prefix caller level ≡ some pre)
unfolding log_prefix
log_prefix_total caller zero h = (_, refl)
log_prefix_total caller (suc zero) h = (_, refl)
log_prefix_total caller (suc (suc zero)) h = (_, refl)
log_prefix_total caller (suc (suc (suc zero))) h = (_, refl)
log_prefix_total caller (suc (suc (suc (suc n)))) h = absurd (omega arith)

log_step_total :
    (c : LogCall) (l : Logger)
    → l.log_level < 4
    → (m : Logger) × (log_step c l ≡ some m) × (m.log_level < 4)
unfolding log_step
log_step_total (sets_from_str s) l h = (
  set_level_from_str s l,
  refl,
  unfold set_level_from_str in ground (arith, to_log_level_bound s),
)
log_step_total (sets_log_level s) l h =
    ((set_log_level s l).1, refl, unfold set_log_level in ground (arith, to_log_level_bound s))
log_step_total (prints caller level b msg) l h =
    let (pre, e) = log_prefix_total caller level b in
    elim (Option-cases (log_it caller level msg l)) [
      | inl f ↦ absurd (unfold log_it in ground arith)
      | inr (m, f) ↦ (m, f, unfold log_it in ground arith)
    ]

level_name : (n : ℕ) → n < 4 → (name : Bytes) × (get_elem? level_str n ≡ some name)
level_name zero h = (_, refl)
level_name (suc zero) h = (_, refl)
level_name (suc (suc zero)) h = (_, refl)
level_name (suc (suc (suc zero))) h = (_, refl)
level_name (suc (suc (suc (suc n)))) h = absurd (omega arith)

-- However the level is set, by valid texts and by others, and whatever is logged: no call panics, and the level in
-- force has a name, which GetLogLevel returns.
pub log_run_total :
    (cs : List LogCall) (l : Logger)
    → l.log_level < 4
    → (m : Logger) × (name : Bytes) × (log_run cs l ≡ some m)
      × (m.log_level < 4)
      × (get_log_level m ≡ some name)
unfolding log_run
log_run_total [] l h =
    let (name, e) = level_name l.log_level h in (l, name, refl, h, unfold get_log_level in e)
log_run_total (c ∷ cs) l h =
    let (m, e, b) = log_step_total c l h in
    let (last, name, f, below, named) = log_run_total cs m b in (last, name, rw e f, below, named)
