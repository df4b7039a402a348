-- ===== src/Prelude/Split.antt =====
-- Texts that are cut and split at a byte.
use Prim.Native.Nat.{ℕ}
use mathlib.Core.Path.{◌≡◌, refl}
use mathlib.Core.Logic.{inl, inr}
use mathlib.Core.Bool.{Bool, true, false, ◌||◌}
use mathlib.Core.List.{List, [], ◌∷◌, ◌++◌}
use native.Mathlib.Omega.{arith}
use apm_go.Prelude.Tests.{◌==◌, Bool-cases}
use apm_go.Prelude.Text.{Bytes, Lacks, cut, split_parts}

unfoldable pub has_byte : ℕ → Bytes → Bool
has_byte b [] = false
has_byte b (c ∷ s) = c == b || has_byte b s

pub cut_found : (sep : ℕ) (a b : Bytes) → Lacks sep a → cut sep (a ++ sep ∷ b) ≡ (a, b, true)
unfolding cut
cut_found sep [] b h = ground arith
cut_found sep (c ∷ a) b h = ground (arith, cut_found sep a b h.1)

pub cut_token-Lacks : (sep : ℕ) (s : Bytes) → Lacks sep (cut sep s).0
unfolding cut
cut_token-Lacks sep [] = tt
cut_token-Lacks sep (c ∷ s) = ground (arith, cut_token-Lacks sep s)

pub split_first :
    (sep : ℕ) (a b : Bytes)
    → Lacks sep a
    → split_parts sep (a ++ sep ∷ b) ≡ (a, (split_parts sep b).0 ∷ (split_parts sep b).1)
unfolding split_parts
split_first sep [] b h = ground arith
split_first sep (c ∷ a) b h = ground (arith, split_first sep a b h.1)

pub split_alone : (sep : ℕ) (a : Bytes) → Lacks sep a → split_parts sep a ≡ (a, [])
unfolding split_parts
split_alone sep [] h = refl
split_alone sep (c ∷ a) h = ground (arith, split_alone sep a h.1)

pub has_byte-Lacks : (b : ℕ) (s : Bytes) → has_byte b s ≡ false → Lacks b s
unfolding has_byte
has_byte-Lacks b [] h = tt
has_byte-Lacks b (c ∷ s) h = ground (arith, has_byte-Lacks b s)

pub split_further :
    (sep : ℕ) (s : Bytes)
    → has_byte sep s ≡ true
    → (p q : Bytes) × (qs : List Bytes) × (split_parts sep s ≡ (p, q ∷ qs))
unfolding split_parts has_byte
split_further sep [] h = cc
split_further sep (c ∷ s) h = elim (Bool-cases (c == sep)) [
  | inl here ↦ ([], (split_parts sep s).0, (split_parts sep s).1, rw here refl)
  | inr later ↦
      let (p, q, qs, e) = split_further sep s (ground arith) in (c ∷ p, q, qs, rw (later, e) refl)
]
