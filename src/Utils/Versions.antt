-- ===== src/Utils/Versions.antt =====
-- Parts of versions are compared as numbers.
use apm_go.Prelude.{
  ℕ, zero, suc, ◌+◌, ◌-◌, ◌*◌, ◌≤◌, [], ◌∷◌, ◌++◌, ◌≡◌, refl, arith, Bytes, length, All, ltb,
  if◌then◌else◌, sym,
}
use apm_go.Utils.{zeros, compare_texts, padded, compare_parts, Comparison, below, same, above}

abbrev pub IsDigits : Bytes → Type 0
IsDigits = All (λ c. (b'0' ≤ c) × (c ≤ b'9'))

-- The number that digits spell.
abbrev pub number_from : ℕ → Bytes → ℕ
number_from n [] = n
number_from n (c ∷ s) = number_from (n * 10 + (c - b'0')) s

abbrev pub compare_numbers : ℕ → ℕ → Comparison
compare_numbers m n = if ltb m n then below else if ltb n m then above else same

-- Texts of one length are ordered as the numbers, behind a difference that there was before.
compare_from :
    (s t : Bytes) (m n : ℕ)
    → IsDigits s
    → IsDigits t
    → length s ≡ length t
    → compare_numbers (number_from m s) (number_from n t)
      ≡ (if ltb m n then below else if ltb n m then above else compare_texts s t)
unfolding compare_texts
compare_from [] [] m n hs ht e = ground arith
compare_from [] (b ∷ t) m n hs ht e = absurd (omega arith)
compare_from (a ∷ s) [] m n hs ht e = absurd (omega arith)
compare_from (a ∷ s) (b ∷ t) m n hs ht e =
    ground
      (arith, compare_from s t (m * 10 + (a - b'0')) (n * 10 + (b - b'0')) hs.1 ht.1 (omega arith))

number-zeros : (k : ℕ) (s : Bytes) → number_from 0 (zeros k ++ s) ≡ number_from 0 s
unfolding zeros
number-zeros zero s = refl
number-zeros (suc k) s = number-zeros k s

padded-IsDigits : (k : ℕ) (s : Bytes) → IsDigits s → IsDigits (zeros k ++ s)
unfolding zeros
padded-IsDigits zero s h = h
padded-IsDigits (suc k) s h = ((omega arith, omega arith), padded-IsDigits k s h)

length-zeros : (k : ℕ) (s : Bytes) → length (zeros k ++ s) ≡ k + length s
unfolding zeros
length-zeros zero s = omega arith
length-zeros (suc k) s = omega (arith, length-zeros k s)

-- Two parts of versions that are digits compare as the numbers they spell, with whatever zeros before them.
pub compare_parts_lem :
    (s t : Bytes)
    → IsDigits s
    → IsDigits t
    → compare_parts s t ≡ compare_numbers (number_from 0 s) (number_from 0 t)
unfolding compare_parts padded
compare_parts_lem s t hs ht =
    let l = if ltb (length t) (length s) then length s else length t in
    let all =
      compare_from (padded l s) (padded l t) 0 0 (padded-IsDigits (l - length s) s hs)
        (padded-IsDigits (l - length t) t ht)
        (ground (arith, length-zeros (l - length s) s, length-zeros (l - length t) t)) in
    sym (rw (number-zeros, number-zeros) at all)
