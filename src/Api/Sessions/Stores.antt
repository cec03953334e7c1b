-- ===== src/Api/Sessions/Stores.antt =====
-- The two stores of api/internal/store under the session handlers of api/internal/api/router.go.
use snow_radar.Common.{◌≡◌, ap, sym, ◌∙◌, List}
use snow_radar.Auth.{Jwt, TokenIssuer}
use snow_radar.Store.Memory.{Memory, memory}
use snow_radar.Store.Memory.Ledger.{memory_view, memory-KeepsLedger}
use snow_radar.Store.Postgres.{Postgres, postgres}
use snow_radar.Store.Postgres.Quiet.{IsQuiet, tables_view}
use snow_radar.Store.Postgres.Ledger.{HasAccount, postgres-KeepsLedger}
use snow_radar.Api.Sessions.Ledger.{Request, answers_on, answers, answers-answers_on}

-- While every statement of the database works, the handlers of refresh and logout answer any requests
-- one after another over the Postgres store as over a memory store with the same tokens.
pub answers-postgres-memory :
    (jwt : Jwt) (t : TokenIssuer) (p : Postgres) (m : Memory) (rs : List Request)
    → IsQuiet p
    → tables_view p ≡ memory_view m
    → answers jwt t postgres p rs ≡ answers jwt t memory m rs
answers-postgres-memory jwt t p m rs q e =
    answers-answers_on jwt t postgres IsQuiet HasAccount tables_view postgres-KeepsLedger rs p q
    ∙ ap (λ l. answers_on jwt t l rs) e
    ∙ sym (
        answers-answers_on jwt t memory (λ m. Unit) (λ user_id m. Unit) memory_view
          memory-KeepsLedger rs m tt)
