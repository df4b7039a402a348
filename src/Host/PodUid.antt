-- ===== src/Host/PodUid.antt =====
-- The pod's id in the lines of a mount table.
use apm_go.Prelude.{
  ℕ, zero, suc, not, ◌&&◌, subst, ap, length, drop, Bool, true, false, List, [], ◌∷◌, ◌++◌, some,
  ◌≡◌, refl, arith, Bytes, codes, is_empty, take, Bool-cases, inl, inr,
}
use mathlib.Core.List.{Memᴰ}
use apm_go.Prelude.Find.{contains}
use apm_go.Host.{has_shape, uuid_shape, find_uuid, pod_uid_of_lines}

has_shape-take :
    (bs : List Bool) (s : Bytes)
    → has_shape bs s ≡ true
    → (has_shape bs (take (length bs) s) ≡ true) × (length (take (length bs) s) ≡ length bs)
unfolding has_shape
has_shape-take [] s h = (refl, refl)
has_shape-take (b ∷ bs) [] h = cc
has_shape-take (b ∷ bs) (c ∷ s) h =
    let (shape, size) = has_shape-take bs s (ground arith) in (ground arith, ap suc size)

-- A text around which another stands.
abbrev pub IsWithin : Bytes → Bytes → Type 0
IsWithin part s = (pre post : Bytes) × (s ≡ pre ++ (part ++ post))

take-drop : (n : ℕ) (s : Bytes) → s ≡ take n s ++ drop n s
take-drop zero s = refl
take-drop (suc n) [] = refl
take-drop (suc n) (c ∷ s) = ap (λ t. c ∷ t) (take-drop n s)

find_uuid_lem :
    (s : Bytes)
    → is_empty (find_uuid s) ≡ false
    → IsWithin (find_uuid s) s
      × (has_shape uuid_shape (find_uuid s) ≡ true)
      × (length (find_uuid s) ≡ 36)
unfolding find_uuid
find_uuid_lem [] h = cc
find_uuid_lem (c ∷ s) h = elim (Bool-cases (has_shape uuid_shape (c ∷ s))) [
  | inl here ↦
      let (shape, size) = has_shape-take uuid_shape (c ∷ s) here in
      rw here (([], drop 36 (c ∷ s), take-drop 36 (c ∷ s)), shape, size)
  | inr later ↦
      let ((pre, post, e), shape, size) = find_uuid_lem s (ground arith) in
      rw later ((c ∷ pre, post, ap (λ t. c ∷ t) e), shape, size)
]

-- The pod's id that is found has the shape of a UUID, and stands in one of the lines, which mentions "kube".
pub pod_uid_of_lines_lem :
    (lines : List Bytes) (uid : Bytes)
    → pod_uid_of_lines lines ≡ some uid
    → (line : Bytes) × Memᴰ line lines
      × (contains (codes "kube") line ≡ true)
      × IsWithin uid line
      × (has_shape uuid_shape uid ≡ true)
      × (length uid ≡ 36)
unfolding pod_uid_of_lines
pod_uid_of_lines_lem [] uid h = cc
pod_uid_of_lines_lem (l ∷ lines) uid h =
    elim (Bool-cases (contains (codes "kube") l && not (is_empty (find_uuid l)))) [
      | inl here ↦
          let (within, shape, size) = find_uuid_lem l (ground arith) in
          let same : find_uuid l ≡ uid = ground arith in
          (
            l,
            Memᴰ.head refl,
            ground arith,
            subst (λ u. IsWithin u l) same within,
            subst (λ u. has_shape uuid_shape u ≡ true) same shape,
            subst (λ u. length u ≡ 36) same size,
          )
      | inr later ↦
          let (line, m, kube, within, shape, size) =
            pod_uid_of_lines_lem lines uid (ground arith) in
          (line, Memᴰ.tail m, kube, within, shape, size)
    ]
