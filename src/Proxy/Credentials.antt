-- ===== src/Proxy/Credentials.antt =====
-- The credentials are read back from the header.
use apm_go.Prelude.{
  ℕ, ◌+◌, ◌-◌, ◌*◌, ◌/◌, ◌%◌, ◌<◌, true, false, [], ◌∷◌, ◌++◌, ◌≡◌, refl, arith, Bytes, All, Lacks,
  cut, ◌==◌, if◌then◌else◌, leb, ◌&&◌, All-append,
}
use apm_go.Prelude.Split.{cut_found}
use apm_go.Proxy.{base64_char, encode_to_string, basic_auth}

-- What a server makes of base64.
abbrev base64_value : ℕ → ℕ
base64_value c =
    if leb b'A' c && leb c b'Z'
    then c - b'A'
    else if leb b'a' c && leb c b'z'
    then c - b'a' + 26
    else if leb b'0' c && leb c b'9'
    then c - b'0' + 52
    else if c == b'+'
    then 62
    else 63

base64_value-base64_char : (n : ℕ) → n < 64 → base64_value (base64_char n) ≡ n
unfolding base64_char
base64_value-base64_char n h = ground arith

abbrev pub base64_decode : Bytes → Bytes
base64_decode (w ∷ x ∷ y ∷ z ∷ s) =
    let rest = base64_decode s in
    let a = base64_value w * 4 + base64_value x / 16 in
    let b = base64_value x % 16 * 16 + base64_value y / 4 in
    let c = base64_value y % 4 * 64 + base64_value z in
    if y == b'=' then a ∷ [] else if z == b'=' then a ∷ b ∷ [] else a ∷ b ∷ c ∷ rest
base64_decode _ = []

base64_char-no_pad : (n : ℕ) → n < 64 → (base64_char n == b'=') ≡ false
unfolding base64_char
base64_char-no_pad n h = ground arith

first_byte : (a x : ℕ) → x < 16 → a / 4 * 4 + (a % 4 * 16 + x) / 16 ≡ a
first_byte a x h = omega arith

second_byte : (k b x : ℕ) → b < 256 → x < 4 → (k * 16 + b / 16) % 16 * 16 + (b % 16 * 4 + x) / 4 ≡ b
second_byte k b x hb hx =
    let high : (k * 16 + b / 16) % 16 ≡ b / 16 = omega arith in
    let low : (b % 16 * 4 + x) / 4 ≡ b % 16 = omega arith in omega arith

third_byte : (k c : ℕ) → c < 256 → (k * 4 + c / 64) % 4 * 64 + c % 64 ≡ c
third_byte k c h = let high : (k * 4 + c / 64) % 4 ≡ c / 64 = omega arith in omega arith

base64_decode-encode_to_string :
    (s : Bytes) → All (λ c. c < 256) s → base64_decode (encode_to_string s) ≡ s
unfolding encode_to_string
base64_decode-encode_to_string [] h = refl
base64_decode-encode_to_string (a ∷ []) h =
    let byte : a / 4 * 4 + a % 4 * 16 / 16 ≡ a = omega arith in
    rw
      (
        base64_value-base64_char (a / 4) (omega (arith, h.0)),
        base64_value-base64_char (a % 4 * 16) (omega arith),
        byte,
      )
      refl
base64_decode-encode_to_string (a ∷ b ∷ []) h =
    let second : b / 16 < 16 = omega (arith, h.1.0) in
    let last : (a % 4 * 16 + b / 16) % 16 * 16 + b % 16 * 4 / 4 ≡ b =
      let high : (a % 4 * 16 + b / 16) % 16 ≡ b / 16 = omega (arith, second) in omega arith in
    rw
      (
        base64_char-no_pad (b % 16 * 4) (omega arith),
        base64_value-base64_char (a / 4) (omega (arith, h.0)),
        base64_value-base64_char (a % 4 * 16 + b / 16) (omega (arith, second)),
        base64_value-base64_char (b % 16 * 4) (omega arith),
        first_byte a (b / 16) second,
        last,
      )
      refl
base64_decode-encode_to_string (a ∷ b ∷ c ∷ s) h =
    let second : b / 16 < 16 = omega (arith, h.1.0) in
    let third : c / 64 < 4 = omega (arith, h.1.1.0) in
    rw
      (
        base64_char-no_pad (b % 16 * 4 + c / 64) (omega (arith, third)),
        base64_char-no_pad (c % 64) (omega arith),
        base64_value-base64_char (a / 4) (omega (arith, h.0)),
        base64_value-base64_char (a % 4 * 16 + b / 16) (omega (arith, second)),
        base64_value-base64_char (b % 16 * 4 + c / 64) (omega (arith, third)),
        base64_value-base64_char (c % 64) (omega arith),
        first_byte a (b / 16) second,
        second_byte (a % 4) b (c / 64) h.1.0 third,
        third_byte (b % 16) c h.1.1.0,
        base64_decode-encode_to_string s h.1.1.1,
      )
      refl

-- From the credentials in the request's header a proxy reads back the user and the password, if the user's name has no colon.
pub basic_auth_lem :
    (username password : Bytes)
    → All (λ c. c < 256) username
    → All (λ c. c < 256) password
    → Lacks b':' username
    → cut b':' (base64_decode (basic_auth username password)) ≡ (username, password, true)
unfolding basic_auth
basic_auth_lem username password hu hp lacks =
    let bytes = All-append (λ c. c < 256) username (b':' ∷ password) hu (omega arith, hp) in
    rw
      (
        base64_decode-encode_to_string (username ++ b':' ∷ password) bytes,
        cut_found b':' username password lacks,
      )
      refl
