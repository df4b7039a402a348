-- ===== src/Config/Keys.antt =====
-- Service keys as they are stored and shown.
use apm_go.Prelude.{
  ℕ, ◌-◌, ◌<◌, true, [], ◌∷◌, ◌++◌, ◌≡◌, refl, arith, Bytes, codes, cut, length, take, drop, Lacks,
  Bool-cases, inl, inr,
}
use apm_go.Prelude.Split.{cut_found, cut_token-Lacks, split_first, split_alone}
use apm_go.Config.{clean_byte, is_name_char, clean_name, to_service_key, stars, mask_service_key}

clean_byte_again : (c : ℕ) → is_name_char c ≡ true → clean_byte c ≡ c
unfolding is_name_char clean_byte
clean_byte_again c h = ground arith

clean_name_cons :
    (c : ℕ) (s : Bytes) → is_name_char c ≡ true → clean_name s ≡ s → clean_name (c ∷ s) ≡ c ∷ s
unfolding clean_name
clean_name_cons c s h e = rw (clean_byte_again c h, h, e) refl

clean_name_twice : (s : Bytes) → clean_name (clean_name s) ≡ clean_name s
unfolding clean_name
clean_name_twice [] = refl
clean_name_twice (c ∷ s) = elim (Bool-cases (is_name_char (clean_byte c))) [
  | inl kept ↦
      rw (clean_name, kept)
        (clean_name_cons (clean_byte c) (clean_name s) kept (clean_name_twice s))
  | inr dropped ↦ rw (clean_name, dropped) (clean_name_twice s)
]

-- A key that was cleaned stays as it is when it is cleaned again.
pub to_service_key_twice : (s : Bytes) → to_service_key (to_service_key s) ≡ to_service_key s
unfolding to_service_key
to_service_key_twice s = elim (Bool-cases (cut b':' s).2) [
  | inl found ↦
      let l = cut_found b':' (cut b':' s).0 (clean_name (cut b':' s).1) (cut_token-Lacks b':' s) in
      ground (arith, l, clean_name_twice (cut b':' s).1)
  | inr lost ↦ ground arith
]

-- Of a token of more than eight bytes, the masked key shows the first four and the last four, with a star for each byte
-- between them, before the service's name.
pub mask_service_key_lem :
    (token name : Bytes)
    → Lacks b':' token
    → Lacks b':' name
    → 8 < length token
    → mask_service_key (token ++ b':' ∷ name)
      ≡ take 4 token
        ++ stars (length token - 8)
        ++ drop (length token - 4) token
        ++ codes ":"
        ++ name
unfolding mask_service_key
mask_service_key_lem token name ht hn long =
    let n : length token - 4 - 4 ≡ length token - 8 = omega arith in
    ground (arith, n, split_first b':' token name ht, split_alone b':' name hn)
