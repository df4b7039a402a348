-- ===== src/Config/Service.antt =====
-- The service key: from what was configured to the token and the service's name that the agent uses.
use apm_go.Prelude.{
  true, false, [], ◌∷◌, ◌++◌, ◌≡◌, refl, arith, Bytes, Lacks, split, is_empty, if◌then◌else◌,
  Bool-cases, inl, inr,
}
use apm_go.Prelude.Split.{
  has_byte, has_byte-Lacks, cut_found, split_first, split_alone, split_further,
}
use apm_go.Config.Getters.{parse_service_key}
use apm_go.Config.Validate.{is_valid_service_key}

valid_key_sizes :
    (token name : Bytes)
    → Lacks b':' token
    → is_valid_service_key (token ++ b':' ∷ name) ≡ true
    → (is_empty token ≡ false) × (is_empty name ≡ false)
unfolding is_valid_service_key
valid_key_sizes [] name ht h = absurd (ground (arith, cut_found b':' [] name tt))
valid_key_sizes (c ∷ token) [] ht h = absurd (ground (arith, cut_found b':' (c ∷ token) [] ht))
valid_key_sizes (c ∷ token) (d ∷ name) ht h = (refl, refl)

-- A valid service key whose service name has no colon is taken apart into its token and that name. A valid key whose service
-- name has a colon, which the pattern of valid keys and the cleaning of names allow, is refused.
pub parse_service_key_lem :
    (token name : Bytes)
    → Lacks b':' token
    → is_valid_service_key (token ++ b':' ∷ name) ≡ true
    → parse_service_key (token ++ b':' ∷ name) ≡ (
        if has_byte b':' name
        then (record { token = []; service_name = [] }, false)
        else (record { token = token; service_name = name }, true))
unfolding parse_service_key split
parse_service_key_lem token name ht h =
    let (et, en) = valid_key_sizes token name ht h in
    elim (Bool-cases (has_byte b':' name)) [
      | inl more ↦
          let (p, q, qs, e) = split_further b':' name more in
          rw (more, parse_service_key, split, split_first b':' token name ht, e) refl
      | inr none_left ↦
          rw
            (
              none_left,
              parse_service_key,
              split,
              split_first b':' token name ht,
              split_alone b':' name (has_byte-Lacks b':' name none_left),
              split_first b':' token name ht,
              split_alone b':' name (has_byte-Lacks b':' name none_left),
              et,
              en,
            )
            refl
    ]
