-- ===== src/Billing/Checkout/Samples.antt =====
-- A small authentication code and a small JSON in the place of the libraries, for the tests.
use snow_radar.Common.{
  ℕ, zero, suc, ◌+◌, ◌%◌, ◌≡◌, ◌≢◌, refl, some, none, Option, List, [], ◌∷◌, arith, All, length,
}
use snow_radar.Codec.RoundTrip.{IsByte}
use snow_radar.Billing.{Hmac}
use snow_radar.Billing.Checkout.{CheckoutClaims, ClaimsJson}

unfoldable pub total : List ℕ → ℕ
total [] = 0
total (n ∷ ns) = n + total ns

unfoldable pub zeros : ℕ → List ℕ
zeros zero = []
zeros (suc n) = 0 ∷ zeros n

pub zeros-IsByte : (n : ℕ) → All IsByte (zeros n)
unfolding zeros
zeros-IsByte zero = tt
zeros-IsByte (suc n) = (omega arith, zeros-IsByte n)

pub length-zeros : (n : ℕ) → length (zeros n) ≡ n
unfolding zeros
length-zeros zero = refl
length-zeros (suc n) = omega (arith, length-zeros n)

-- A code of 32 bytes that depends on the key and on the message.
abbrev pub sums : Hmac
sums = record {
  mac = λ key message. (total key % 256) ∷ (total message % 256) ∷ zeros 30;
  mac-IsByte = λ key message. (omega arith, (omega arith, zeros-IsByte 30));
  mac-length = λ key message. omega (arith, length-zeros 30);
}

unfoldable pub ones : ℕ → List ℕ
ones zero = 0 ∷ []
ones (suc n) = 1 ∷ ones n

pub ones-IsByte : (n : ℕ) → All IsByte (ones n)
unfolding ones
ones-IsByte zero = (omega arith, tt)
ones-IsByte (suc n) = (omega arith, ones-IsByte n)

unfoldable pub read_expiry : List ℕ → Option CheckoutClaims
read_expiry [] = none
read_expiry (n ∷ []) = some (record { user_id = "u1"; expiry = 0; nonce = "AQID" })
read_expiry (n ∷ m ∷ ns) = elim (read_expiry (m ∷ ns)) [
  | none ↦ none
  | some c ↦ some (record c { expiry = c.expiry + 1 })
]

pub cons-ne-nil : (n : ℕ) (ns : List ℕ) → (n ∷ ns) ≢ []
cons-ne-nil n ns e = cc

-- The claims of user u1 with the nonce of the bytes 1, 2 and 3, by their expiry.
abbrev pub counted : ClaimsJson
counted = record {
  marshal = λ c. 123 ∷ ones c.expiry;
  unmarshal = λ ns. elim ns [ [] ↦ none | n ∷ rest ↦ read_expiry rest ];
  marshal-IsByte = λ c. (omega arith, ones-IsByte c.expiry);
  marshal-ne-nil = λ c. cons-ne-nil 123 (ones c.expiry);
}
