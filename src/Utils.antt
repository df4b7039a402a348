-- ===== src/Utils.antt =====
-- internal/utils/utils.go and internal/utils/version.go, without the parts that only its tests use: the Go version and the
-- library's. The running Go's version is an argument.
pub mod Versions
use apm_go.Prelude.{
  ℕ, zero, suc, ◌-◌, Bool, true, false, List, [], ◌∷◌, ◌++◌, Bytes, codes, is_empty, split,
  starts_with, drop, length, ltb, if◌then◌else◌,
}

unfoldable pub min_int : ℕ → ℕ → ℕ
min_int x y = if ltb x y then x else y

unfoldable pub max_int : ℕ → ℕ → ℕ
max_int x y = if ltb y x then x else y

-- strings.Repeat("0", n)
unfoldable pub zeros : ℕ → Bytes
zeros zero = []
zeros (suc n) = b'0' ∷ zeros n

-- strings.Compare: -1, 0 and 1.
pub data Comparison : Type 0 where
  below same above : Comparison

unfoldable pub compare_texts : Bytes → Bytes → Comparison
compare_texts [] [] = same
compare_texts [] (b ∷ t) = below
compare_texts (a ∷ s) [] = above
compare_texts (a ∷ s) (b ∷ t) =
    let rest = compare_texts s t in if ltb a b then below else if ltb b a then above else rest

-- A part with zeros before it, to the length of the longer of two.
unfoldable pub padded : ℕ → Bytes → Bytes
unfolding zeros
padded l part = zeros (l - length part) ++ part

unfoldable pub compare_parts : Bytes → Bytes → Comparison
unfolding padded compare_texts
compare_parts go comp =
    let l = if ltb (length comp) (length go) then length go else length comp in
    compare_texts (padded l go) (padded l comp)

-- The loop of IsHigherOrEqualGoVersion.
unfoldable pub higher_or_equal : List Bytes → List Bytes → Bool
unfolding compare_parts
higher_or_equal [] comps = true
higher_or_equal (go ∷ gos) [] = true
higher_or_equal (go ∷ gos) (comp ∷ comps) =
    let rest = higher_or_equal gos comps in
    elim (compare_parts go comp) [ above ↦ true | below ↦ false | same ↦ rest ]

unfoldable pub is_higher_or_equal_go_version : Bytes → Bytes → Bool
unfolding higher_or_equal split
is_higher_or_equal_go_version running version =
    higher_or_equal (split b'.' running) (split b'.' version)

unfoldable pub join_sem_ver : Bytes → Bytes → Bytes → Bytes
join_sem_ver base pre build =
    let v = if is_empty pre then base else base ++ b'-' ∷ pre in
    if is_empty build then v else v ++ b'+' ∷ build

-- Version and GoVersion
abbrev pub agent_version : Bytes
agent_version = join_sem_ver (codes "1.3.5") [] []

unfoldable pub go_version : Bytes → Bytes
unfolding starts_with
go_version running = if starts_with (codes "go") running then drop 2 running else running
