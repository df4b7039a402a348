-- ===== src/Xtrace/Header.antt =====
-- How a header falls into parts.
use apm_go.Prelude.{
  ℕ, Bool, true, false, List, [], ◌∷◌, ◌++◌, ◌≡◌, ◌≢◌, refl, arith, Bytes, Lacks, is_empty, All,
}
use apm_go.Xtrace.{split_runs, option_parts}

-- Parts with one semicolon between them.
pub join : List Bytes → Bytes
join [] = []
join (p ∷ []) = p
join (p ∷ q ∷ ps) = p ++ b';' ∷ join (q ∷ ps)

-- A part that is not empty and holds no semicolon.
abbrev pub IsPart : Bytes → Type 0
IsPart p = (is_empty p ≡ false) × Lacks b';' p

split_runs_last : (p : Bytes) (behind : Bool) → Lacks b';' p → split_runs behind p ≡ (p, [])
unfolding split_runs
split_runs_last [] behind h = refl
split_runs_last (c ∷ p) behind h = ground (arith, split_runs_last p false h.1)

split_runs_more :
    (p s : Bytes)
    → Lacks b';' p
    → split_runs false (p ++ b';' ∷ s) ≡ (p, (split_runs true s).0 ∷ (split_runs true s).1)
unfolding split_runs
split_runs_more [] s h = refl
split_runs_more (c ∷ p) s h = ground (arith, split_runs_more p s h.1)

split_runs_behind :
    (c : ℕ) (s : Bytes) → c ≢ b';' → split_runs true (c ∷ s) ≡ split_runs false (c ∷ s)
unfolding split_runs
split_runs_behind c s h = ground arith

join_behind :
    (q : Bytes) (ps : List Bytes)
    → IsPart q
    → split_runs true (join (q ∷ ps)) ≡ split_runs false (join (q ∷ ps))
unfolding join
join_behind [] ps h = cc h.0
join_behind (c ∷ q) [] h = split_runs_behind c q h.1.0
join_behind (c ∷ q) (r ∷ ps) h = split_runs_behind c (q ++ b';' ∷ join (r ∷ ps)) h.1.0

split_runs-join :
    (p : Bytes) (ps : List Bytes) → All IsPart (p ∷ ps) → split_runs false (join (p ∷ ps)) ≡ (p, ps)
unfolding join
split_runs-join p [] h = split_runs_last p false h.0.1
split_runs-join p (q ∷ ps) h = ground (
  arith,
  split_runs_more p (join (q ∷ ps)) h.0.1,
  join_behind q ps h.1.0,
  split_runs-join q ps h.1,
)

-- Parts that are not empty and hold no semicolon are read back from the header that joins them.
pub option_parts-join :
    (p : Bytes) (ps : List Bytes) → All IsPart (p ∷ ps) → option_parts (join (p ∷ ps)) ≡ p ∷ ps
unfolding option_parts
option_parts-join p ps h = ground (arith, split_runs-join p ps h)
