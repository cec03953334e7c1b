-- ===== src/Billing/Checkout/Tests.antt =====
-- Each theorem on checkout tokens at an input that meets its conditions.
use snow_radar.Common.{◌+◌, ◌*◌, String, ◌≡◌, ◌≢◌, refl, [], ◌∷◌, ok, err, ltb, if◌then◌else◌}
use snow_radar.Common.Texts.{concat, bytes, cut}
use snow_radar.Codec.{encode_to_string, decode_string, letter, sextet}
use snow_radar.Billing.{bad_checkout_token, expired_checkout_token}
use snow_radar.Billing.Checkout.{second, sign, body_of, mint, read_claims, verify}
use snow_radar.Billing.Checkout.Verifying.{verify-mint, verify_other_secret}
use snow_radar.Billing.Checkout.Samples.{sums, counted, total, zeros, ones, read_expiry}

abbrev minted : String
minted = concat (
    body_of sums counted "u1" second (1 ∷ 2 ∷ 3 ∷ []) second
    ∷ "."
    ∷ sign sums counted (7 ∷ []) (body_of sums counted "u1" second (1 ∷ 2 ∷ 3 ∷ []) second)
    ∷ [])

verifying : Unit {0}
unfolding mint sign verify read_claims total zeros ones read_expiry encode_to_string decode_string
    bytes concat cut letter sextet
verifying = tt

mint_test : mint sums counted (7 ∷ []) "u1" second (1 ∷ 2 ∷ 3 ∷ []) second ≡ ok minted
unfolding verifying
mint_test = refl

mint_unnamed : mint sums counted (7 ∷ []) "" second [] 0 ≡ err bad_checkout_token
unfolding verifying
mint_unnamed = refl

verify_tests :
    (verify sums counted (7 ∷ []) minted second ≡ ok "u1")
    × (verify sums counted (7 ∷ []) minted (3 * second) ≡ err expired_checkout_token)
    × (verify sums counted (8 ∷ []) minted second ≡ err bad_checkout_token)
    × (verify sums counted (7 ∷ []) "abc" second ≡ err bad_checkout_token)
    × (verify sums counted (7 ∷ []) "abc." second ≡ err bad_checkout_token)
unfolding verifying
verify_tests = (refl, refl, refl, refl, refl)

verify-mint_example :
    verify sums counted (7 ∷ []) minted (2 * second)
    ≡ (if ltb (second + second) (2 * second) then err expired_checkout_token else ok "u1")
unfolding verifying
verify-mint_example =
    verify-mint sums counted (7 ∷ []) "u1" second (1 ∷ 2 ∷ 3 ∷ []) second (2 * second) minted refl
      refl

keys_differ : (body : String) → sums.mac (8 ∷ []) (bytes body) ≢ sums.mac (7 ∷ []) (bytes body)
unfolding total
keys_differ body e = cc

verify_other_secret_example : verify sums counted (8 ∷ []) minted second ≡ err bad_checkout_token
verify_other_secret_example =
    verify_other_secret sums counted (8 ∷ []) (7 ∷ []) "u1" second (1 ∷ 2 ∷ 3 ∷ []) second second
      minted mint_test (keys_differ (body_of sums counted "u1" second (1 ∷ 2 ∷ 3 ∷ []) second))
