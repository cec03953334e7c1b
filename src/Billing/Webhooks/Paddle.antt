-- ===== src/Billing/Webhooks/Paddle.antt =====
-- `VerifyPaddle` of api/internal/billing/billing.go: which webhooks it accepts.
use Prim.Native.String.{String}
use snow_radar.Common.{
  ℕ, suc, ◌+◌, ◌*◌, ◌^◌, ◌<◌, ◌≤◌, ◌≡◌, ◌≢◌, ◌↔◌, ◌∙◌, refl, ap, true, false, not, ◌||◌, some, List,
  [], ◌∷◌, ◌++◌, ◌==◌, string_eq, arith, eq_iff, Bool-cases, Option-cases, inl, inr,
}
use snow_radar.Common.Texts.{concat, bytes, decimal}
use snow_radar.Codec.{hex_encode}
use snow_radar.Common.Scan.{ℤ, pos, negsuc, scan_int, scan_digits}
use snow_radar.Common.Scan.Decimals.{scan_int-digits, digits-ne-nil}
use snow_radar.Billing.{Hmac}
use snow_radar.Billing.Webhooks.{
  second, split_semi, read_pieces, is_skewed, mac_of, check_pieces, verify_paddle,
}
use snow_radar.Billing.Webhooks.Headers.{hex-IsWhole, hex-ne-nil, header_of, header-read}

-- From two minutes in the future to five minutes in the past.
abbrev pub InWindow : ℤ → ℕ → Type 0
InWindow (pos t) now = (now ≤ t * second + 300 * second) × (t * second ≤ now + 120 * second)
InWindow (negsuc t) now = now + suc t * second ≤ 300 * second

is_skewed-InWindow : (t : ℤ) (now : ℕ) → is_skewed t now ≡ false → InWindow t now
unfolding is_skewed
is_skewed-InWindow (pos t) now h = ground arith
is_skewed-InWindow (negsuc t) now h = ground arith

module _ (h : Hmac) where
  -- What stands behind a header that verifies.
  pub record Signed (secret header : String) (raw : List ℕ) (now : ℕ) : Type 0 where
    ts : String
    h1 : String
    time : ℤ
    rest : String
    read : read_pieces (split_semi header) "" "" ≡ (ts, h1)
    numbered : scan_int ts ≡ some (time, rest)
    in_window : InWindow time now
    coded : h1 ≡ hex_encode (h.mac (bytes secret) (bytes (concat (ts ∷ ":" ∷ [])) ++ raw))

  check-Signed :
      (secret header : String) (raw : List ℕ) (now : ℕ) (r : String × String)
      → read_pieces (split_semi header) "" "" ≡ r
      → check_pieces h secret raw now r ≡ true
      → Signed secret header raw now
  unfolding check_pieces
  check-Signed secret header raw now (ts, h1) read e = elim (Bool-cases (ts == "" || h1 == "")) [
    | inl empty ↦ cc (rw (check_pieces, empty) at e)
    | inr full ↦ elim (Option-cases (scan_int ts)) [
      | inl n ↦ cc (rw (check_pieces, full, n) at e)
      | inr ((t, rest), n) ↦ elim (Bool-cases (is_skewed t now)) [
        | inl late ↦ cc (rw (check_pieces, full, n, late) at e)
        | inr fresh ↦ record {
          ts = ts;
          h1 = h1;
          time = t;
          rest = rest;
          read = read;
          numbered = n;
          in_window = is_skewed-InWindow t now fresh;
          coded = (eq_iff h1 (mac_of h secret ts raw)).0 (rw (check_pieces, full, n, fresh) at e);
        }
      ]
    ]
  ]

  -- A webhook that verifies has a header with a time and a code; the time is a number of seconds
  -- between two minutes ahead and five minutes ago, and the code is the one of that time and the
  -- body under the secret.
  pub verify_paddle-Signed :
      (secret header : String) (raw : List ℕ) (now : ℕ)
      → verify_paddle h secret header raw now ≡ true
      → Signed secret header raw now
  unfolding verify_paddle
  verify_paddle-Signed secret header raw now e =
      check-Signed secret header raw now (read_pieces (split_semi header) "" "") refl e

  check-own :
      (secret ts : String) (raw : List ℕ) (t now : ℕ)
      → ts ≢ ""
      → mac_of h secret ts raw ≢ ""
      → scan_int ts ≡ some (pos t, "")
      → check_pieces h secret raw now (ts, mac_of h secret ts raw) ≡ not (is_skewed (pos t) now)
  unfolding check_pieces
  check-own secret ts raw t now n m e =
      rw (check_pieces, e)
        (ground (
          arith,
          eq_iff ts "",
          eq_iff (mac_of h secret ts raw) "",
          eq_iff (mac_of h secret ts raw) (mac_of h secret ts raw),
        ))

  window_iff : (t now : ℕ) → (not (is_skewed (pos t) now) ≡ true) ↔ InWindow (pos t) now
  unfolding is_skewed
  window_iff t now = (λ e. ground arith, λ e. ground arith)

  verify-own :
      (secret : String) (raw : List ℕ) (t now : ℕ)
      → t < 2 ^ 63
      → verify_paddle h secret (header_of t (mac_of h secret (decimal t) raw)) raw now
        ≡ not (is_skewed (pos t) now)
  unfolding verify_paddle decimal scan_digits
  verify-own secret raw t now small =
      let ts = decimal t in
      let code = mac_of h secret ts raw in
      let message = bytes (concat (ts ∷ ":" ∷ [])) ++ raw in
      let full : code ≢ "" =
        hex-ne-nil (h.mac (bytes secret) message)
          (omega (arith, h.mac-length (bytes secret) message)) in
      let whole =
        hex-IsWhole (h.mac (bytes secret) message) (h.mac-IsByte (bytes secret) message) in
      ap (λ (r : String × String). check_pieces h secret raw now r) (header-read t code whole full)
      ∙ check-own secret ts raw t now (digits-ne-nil t "") full
          (scan_int-digits t "" (λ acc. refl) small)

  -- A body that is signed at a time under the secret, with the header as Paddle writes it, verifies
  -- exactly from two minutes before that time until five minutes after it.
  pub verify_paddle-header :
      (secret : String) (raw : List ℕ) (t now : ℕ)
      → t < 2 ^ 63
      → let message = bytes (concat (decimal t ∷ ":" ∷ [])) ++ raw in
        (verify_paddle h secret (header_of t (hex_encode (h.mac (bytes secret) message))) raw now
          ≡ true)
        ↔ ((now ≤ t * second + 300 * second) × (t * second ≤ now + 120 * second))
  verify_paddle-header secret raw t now small =
      rw (verify-own secret raw t now small) (window_iff t now)
