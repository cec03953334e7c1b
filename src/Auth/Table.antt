-- ===== src/Auth/Table.antt =====
-- A table of three signed tokens in the place of the JWT library, for the tests.
use snow_radar.Common.{
  ℕ, ◌*◌, String, ◌≡◌, refl, ◌∙◌, sym, Bool, true, ◌&&◌, Option, none, some, ◌==◌, string_eq,
  nat_eq, ltb, if◌then◌else◌, arith, eq_iff, Bool-cases, inl, inr,
}
use snow_radar.Auth.{Claims, Jwt, TokenIssuer, token_access, token_refresh, second, claims_for}

unfoldable pub claims_beq : Claims → Claims → Bool
claims_beq c d =
    c.user_id == d.user_id
    && (c.token_type == d.token_type
        && (c.id == d.id
            && (c.issued_at == d.issued_at
                && (c.expires_at == d.expires_at
                    && (c.issuer == d.issuer && c.subject == d.subject)))))

claims_beq_sound : (c d : Claims) → claims_beq c d ≡ true → c ≡ d
unfolding claims_beq
claims_beq_sound c d h = ground (
  arith,
  eq_iff c.user_id d.user_id,
  eq_iff c.token_type d.token_type,
  eq_iff c.id d.id,
  eq_iff c.issuer d.issuer,
  eq_iff c.subject d.subject,
)

abbrev pub times : TokenIssuer
times = record { access_ttl = 900 * second; refresh_ttl = 9000 * second }

-- The refresh token j1 of user a, and the pair that follows it.
abbrev pub old_claims : Claims
old_claims = claims_for "a" token_refresh "j1" (9000 * second) second

abbrev pub access_claims : Claims
access_claims = claims_for "a" token_access "" (900 * second) (2 * second)

abbrev pub new_claims : Claims
new_claims = claims_for "a" token_refresh "0f" (9000 * second) (2 * second)

unfoldable pub table_sign : Claims → Option String
unfolding claims_beq
table_sign c =
    if claims_beq c old_claims
    then some "t0"
    else if claims_beq c access_claims
    then some "t1"
    else if claims_beq c new_claims
    then some "t2"
    else none

unfoldable pub check : String → ℕ → Claims → Option Claims
check issuer now c = if c.issuer == issuer && ltb now (c.expires_at * second) then some c else none

unfoldable pub table_parse : String → ℕ → String → Option Claims
unfolding check
table_parse issuer now token =
    if token == "t0"
    then check issuer now old_claims
    else if token == "t1"
    then check issuer now access_claims
    else if token == "t2"
    then check issuer now new_claims
    else none

check_sound : (issuer : String) (now : ℕ) (c d : Claims) → check issuer now c ≡ some d → c ≡ d
unfolding check
check_sound issuer now c d h =
    elim (Bool-cases (c.issuer == issuer && ltb now (c.expires_at * second))) [
      | inl hit ↦ (let e : some c ≡ some d = rw hit at h in cc)
      | inr miss ↦ cc (rw miss at h)
    ]

pub table_parse-sign :
    (c : Claims) (token issuer : String) (now : ℕ)
    → table_sign c ≡ some token
    → table_parse issuer now token
      ≡ (if c.issuer == issuer && ltb now (c.expires_at * second) then some c else none)
unfolding table_sign table_parse check
table_parse-sign c token issuer now h = elim (Bool-cases (claims_beq c old_claims)) [
  | inl a ↦
      let t : some "t0" ≡ some token = rw a at h in
      let e : ◌≡◌ {A = String} "t0" token = cc in rw (← e, claims_beq_sound c old_claims a) refl
  | inr n ↦ elim (Bool-cases (claims_beq c access_claims)) [
    | inl a ↦
        let t : some "t1" ≡ some token = rw (n, a) at h in
        let e : ◌≡◌ {A = String} "t1" token = cc in
        rw (← e, claims_beq_sound c access_claims a) refl
    | inr m ↦ elim (Bool-cases (claims_beq c new_claims)) [
      | inl a ↦
          let t : some "t2" ≡ some token = rw (n, m, a) at h in
          let e : ◌≡◌ {A = String} "t2" token = cc in rw (← e, claims_beq_sound c new_claims a) refl
      | inr k ↦ cc (rw (n, m, k) at h)
    ]
  ]
]

-- The claims of a token of the table.
claims_at : String → Claims
claims_at token =
    if token == "t0" then old_claims else if token == "t1" then access_claims else new_claims

table_parse_sound :
    (token issuer : String) (now : ℕ) (c : Claims)
    → table_parse issuer now token ≡ some c
    → c ≡ claims_at token
unfolding table_parse claims_at
table_parse_sound token issuer now c h = ground (
  arith,
  check_sound issuer now old_claims c,
  check_sound issuer now access_claims c,
  check_sound issuer now new_claims c,
)

pub table_parse_stable :
    (token issuer : String) (now later : ℕ) (c d : Claims)
    → table_parse issuer now token ≡ some c
    → table_parse issuer later token ≡ some d
    → c ≡ d
table_parse_stable token issuer now later c d h k =
    table_parse_sound token issuer now c h ∙ sym (table_parse_sound token issuer later d k)

abbrev pub table : Jwt
table = record {
  sign = table_sign;
  parse = table_parse;
  parse-sign = table_parse-sign;
  parse_stable = table_parse_stable;
}
