-- ===== src/Oboe/Flags/Bits.antt =====
-- The flag sets that the program builds stay below 64, where the bit operations have the laws of sets.
use apm_go.Prelude.{
  ℕ, zero, suc, ◌<◌, bit_and, bit_or, ◌≡◌, refl, Bool, true, false, ◌&&◌, ◌||◌, not, arith, ltb,
  if◌then◌else◌,
}
use apm_go.Oboe.Flags.{
  Flag, override, sample_start, sample_through, sample_through_always, trigger_trace, mask, has,
  and_not, enabled,
}

-- A test of all flag sets under a bound.
passes_under : (ℕ → Bool) → ℕ → Bool
passes_under test zero = true
passes_under test (suc top) = let rest = passes_under test top in if test top then rest else false

passes_under_lem :
    (test : ℕ → Bool) (bound f : ℕ) → f < bound → passes_under test bound ≡ true → test f ≡ true
unfolding passes_under
passes_under_lem test zero f small passed = absurd (omega arith)
passes_under_lem test (suc top) f small passed = ground (arith, passes_under_lem test top f)

-- A law of two flag sets holds if it holds below 64.
pairs_below : (ℕ → ℕ → Bool) → Bool
pairs_below p = passes_under (λ f. passes_under (p f) 64) 64

pairs_below_sound :
    (p : ℕ → ℕ → Bool) (f g : ℕ) → pairs_below p ≡ true → f < 64 → g < 64 → p f g ≡ true
unfolding pairs_below
pairs_below_sound p f g h hf hg =
    passes_under_lem (p f) 64 g hg (passes_under_lem (λ f. passes_under (p f) 64) 64 f hf h)

same : Bool → Bool → Bool
same true b = b
same false b = not b

same_sound : (a b : Bool) → same a b ≡ true → a ≡ b
unfolding same
same_sound true true h = refl
same_sound false false h = refl
same_sound true false h = cc
same_sound false true h = cc

law_of_table :
    (a b : ℕ → ℕ → Bool) (f g : ℕ)
    → pairs_below (λ f g. same (a f g) (b f g)) ≡ true
    → f < 64
    → g < 64
    → a f g ≡ b f g
law_of_table a b f g table hf hg =
    same_sound (a f g) (b f g) (pairs_below_sound (λ f g. same (a f g) (b f g)) f g table hf hg)

has-bit_or_table :
    (k : Flag) → pairs_below (λ f g. same (has (bit_or f g) k) (has f k || has g k)) ≡ true
unfolding pairs_below passes_under same has
has-bit_or_table override = refl
has-bit_or_table sample_start = refl
has-bit_or_table sample_through = refl
has-bit_or_table sample_through_always = refl
has-bit_or_table trigger_trace = refl

has-bit_and_table :
    (k : Flag) → pairs_below (λ f g. same (has (bit_and f g) k) (has f k && has g k)) ≡ true
unfolding pairs_below passes_under same has
has-bit_and_table override = refl
has-bit_and_table sample_start = refl
has-bit_and_table sample_through = refl
has-bit_and_table sample_through_always = refl
has-bit_and_table trigger_trace = refl

has-and_not_table :
    (k : Flag) → pairs_below (λ f g. same (has (and_not f g) k) (has f k && not (has g k))) ≡ true
unfolding pairs_below passes_under same has and_not
has-and_not_table override = refl
has-and_not_table sample_start = refl
has-and_not_table sample_through = refl
has-and_not_table sample_through_always = refl
has-and_not_table trigger_trace = refl

closed_table :
    pairs_below (λ f g. ltb (bit_or f g) 64 && ltb (bit_and f g) 64 && ltb (and_not f g) 64) ≡ true
unfolding pairs_below passes_under and_not
closed_table = refl

enabled_table :
    passes_under (λ f. same (enabled f) (has f sample_start || has f sample_through_always)) 64
    ≡ true
unfolding passes_under same enabled has
enabled_table = refl

pub has-bit_or : (f g : ℕ) (k : Flag) → f < 64 → g < 64 → has (bit_or f g) k ≡ (has f k || has g k)
has-bit_or f g k =
    law_of_table (λ f g. has (bit_or f g) k) (λ f g. has f k || has g k) f g (has-bit_or_table k)

pub has-bit_and :
    (f g : ℕ) (k : Flag) → f < 64 → g < 64 → has (bit_and f g) k ≡ (has f k && has g k)
has-bit_and f g k =
    law_of_table (λ f g. has (bit_and f g) k) (λ f g. has f k && has g k) f g (has-bit_and_table k)

pub has-and_not :
    (f g : ℕ) (k : Flag) → f < 64 → g < 64 → has (and_not f g) k ≡ (has f k && not (has g k))
has-and_not f g k =
    law_of_table (λ f g. has (and_not f g) k) (λ f g. has f k && not (has g k)) f g
      (has-and_not_table k)

pub bits_closed :
    (f g : ℕ) → f < 64 → g < 64 → (bit_or f g < 64) × (bit_and f g < 64) × (and_not f g < 64)
bits_closed f g hf hg =
    let p = λ (f g : ℕ). ltb (bit_or f g) 64 && ltb (bit_and f g) 64 && ltb (and_not f g) 64 in
    let t = pairs_below_sound p f g closed_table hf hg in ground (arith, t)

-- Tracing counts as enabled if a trace may start, or always goes on.
pub enabled_lem : (f : ℕ) → f < 64 → enabled f ≡ (has f sample_start || has f sample_through_always)
enabled_lem f h =
    let both = λ (f : ℕ). same (enabled f) (has f sample_start || has f sample_through_always) in
    same_sound _ _ (passes_under_lem both 64 f h enabled_table)

pub mask-lt : (k : Flag) → mask k < 64
mask-lt override = omega arith
mask-lt sample_start = omega arith
mask-lt sample_through = omega arith
mask-lt sample_through_always = omega arith
mask-lt trigger_trace = omega arith
