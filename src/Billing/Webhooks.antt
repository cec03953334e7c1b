-- ===== src/Billing/Webhooks.antt =====
-- api/internal/billing/billing.go: the webhooks of Paddle. HMAC-SHA256 and the JSON of the standard
-- library are parameters. A header is read by its characters; times are in nanoseconds since 1970.
pub mod Headers
pub mod Paddle
mod Tests
use Prim.Native.Char.{Char, code}
use Prim.Native.String
use snow_radar.Common.{
  ℕ, zero, suc, ◌+◌, ◌*◌, String, Bool, true, false, not, ◌||◌, Option, none, some, List, [], ◌∷◌,
  ◌++◌, ◌==◌, string_eq, ltb, nat_beq, if◌then◌else◌,
}
use snow_radar.Common.Texts.{concat, bytes}
use snow_radar.Common.Scan.{ℤ, pos, negsuc, scan_int, trim_prefix, push}
use snow_radar.Codec.{hex_encode}
use snow_radar.Billing.{Hmac}

abbrev pub second : ℕ
second = 1000000000

-- `splitSemi`: an empty piece at the end is dropped.
unfoldable pub split_semi : String → List String
split_semi String.[] = []
split_semi (String.◌∷◌ c s) =
    let rest = split_semi s in if nat_beq (code c) b';' then "" ∷ rest else push c rest

-- `len(kv) > 3 && kv[:3] == key`
unfoldable pub value_of : String → String → String → String
value_of key kv old = elim (trim_prefix key kv) [
  | none ↦ old
  | some value ↦ if value == "" then old else value
]

-- The loop of `VerifyPaddle` over the pieces of the header.
unfoldable pub read_pieces : List String → String → String → String × String
unfolding value_of
read_pieces [] ts h1 = (ts, h1)
read_pieces (kv ∷ rest) ts h1 = read_pieces rest (value_of "ts=" kv ts) (value_of "h1=" kv h1)

-- `skew > 5*time.Minute || skew < -2*time.Minute`, where the skew is the time since a second. It is
-- computed on integers of any size: where the source's clock arithmetic wraps around or saturates,
-- both are out of the window.
unfoldable pub is_skewed : ℤ → ℕ → Bool
is_skewed (pos t) now = ltb (t * second + 300 * second) now || ltb (now + 120 * second) (t * second)
is_skewed (negsuc t) now = ltb (300 * second) (now + suc t * second)

abbrev pub mac_of : Hmac → String → String → List ℕ → String
mac_of h secret ts raw = hex_encode (h.mac (bytes secret) (bytes (concat (ts ∷ ":" ∷ [])) ++ raw))

-- `VerifyPaddle` after the header is read.
pub check_pieces : Hmac → String → List ℕ → ℕ → String × String → Bool
unfolding is_skewed
check_pieces h secret raw now (ts, h1) =
    if ts == "" || h1 == "" then false else elim (scan_int ts) [
      | none ↦ false
      | some (t, rest) ↦ if is_skewed t now then false else h1 == mac_of h secret ts raw
    ]

-- Its only error is ErrBadSignature.
unfoldable pub verify_paddle : Hmac → String → String → List ℕ → ℕ → Bool
unfolding check_pieces
verify_paddle h secret header raw now =
    check_pieces h secret raw now (read_pieces (split_semi header) "" "")

pub record Event : Type 0 where
  pub provider : String
  pub external : String
  pub state : String
  pub checkout_token : String

-- The payload that `ParsePaddle` reads: `custom_data` is a pointer, with one field.
pub record Payload : Type 0 where
  pub id : String
  pub status : String
  pub custom_data : Option String

-- The states of the source's table; a status that is not there reads as the empty text.
unfoldable pub paddle_state : String → String
paddle_state status =
    if status == "active"
    then "active"
    else if status == "trialing"
    then "trialing"
    else if status == "past_due"
    then "past_due"
    else if status == "canceled" || status == "cancelled"
    then "cancelled"
    else ""

-- `ParsePaddle` after `json.Unmarshal`.
pub event_of : Payload → Option Event
unfolding paddle_state
event_of p = elim p.custom_data [
  | none ↦ none
  | some token ↦
      if p.id == "" || token == ""
      then none
      else some (record {
        provider = "paddle";
        external = p.id;
        state = paddle_state p.status;
        checkout_token = token;
      })
]

-- `json` is `json.Unmarshal` into the payload, none where it fails.
unfoldable pub parse_paddle : (List ℕ → Option Payload) → List ℕ → Option Event
unfolding event_of
parse_paddle json raw = elim (json raw) [ none ↦ none | some p ↦ event_of p ]

-- `ReadBody`: no more than so many bytes of a body; none where reading it fails.
unfoldable pub limit : ℕ → List ℕ → List ℕ
limit zero body = []
limit (suc n) [] = []
limit (suc n) (b ∷ body) = b ∷ limit n body

unfoldable pub read_body : ℕ → Option (List ℕ) → Option (List ℕ)
unfolding limit
read_body n none = none
read_body n (some body) = some (limit n body)
