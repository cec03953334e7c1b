-- ===== src/Store/Postgres/Spent.antt =====
-- A refresh token that no row of the table has unused (api/internal/store/postgres.go), through every
-- statement and whatever becomes of it.
use snow_radar.Common.{
  ℕ, ◌+◌, String, ◌≡◌, ◌≢◌, refl, Bool, true, false, not, ◌&&◌, Option, none, some, List, [], ◌∷◌,
  ◌++◌, ◌==◌, string_eq, arith, eq_iff, Bool-cases, inl, inr, All,
}
use snow_radar.Store.{User, Peer, Subscription}
use snow_radar.Store.Schema.{
  TokenRow, Tables, Statement, select, update, exists, insert_user, upsert_peer,
  upsert_subscription_row, upsert_token,
}
use snow_radar.Store.Postgres.{Outcome, works, refused, lost, Turn, Postgres, run, exec}

-- No row has the token unused.
abbrev pub is_live : String → TokenRow → Bool
is_live jti r = r.jti == jti && not r.consumed

abbrev pub IsSpent : String → Tables → Type 0
IsSpent jti t = All (λ (r : TokenRow). is_live jti r ≡ false) t.refresh_tokens

pub spend_rows-Keeps :
    (jti : String) (test : TokenRow → Bool) (rows : List TokenRow)
    → All (λ (r : TokenRow). is_live jti r ≡ false) rows
    → All
        (λ (r : TokenRow). is_live jti r ≡ false)
        (update test (λ r. record r { consumed = true }) rows)
unfolding update
spend_rows-Keeps jti test [] h = tt
spend_rows-Keeps jti test (r ∷ rows) h = (ground (arith, h.0), spend_rows-Keeps jti test rows h.1)

-- The rows that the first statement changes are the live ones.
pub spend_live :
    (jti : String) (rows : List TokenRow)
    → All
        (λ (r : TokenRow). is_live jti r ≡ false)
        (update (is_live jti) (λ r. record r { consumed = true }) rows)
unfolding update
spend_live jti [] = tt
spend_live jti (r ∷ rows) = (ground arith, spend_live jti rows)

pub select-spent :
    (jti : String) (rows : List TokenRow)
    → All (λ (r : TokenRow). is_live jti r ≡ false) rows
    → select (is_live jti) rows ≡ []
unfolding select
select-spent jti [] h = refl
select-spent jti (r ∷ rows) h = rw (h.0) (select-spent jti rows h.1)

pub update-row :
    (jti j user_id : String) (rows : List TokenRow)
    → j ≢ jti
    → All (λ (r : TokenRow). is_live jti r ≡ false) rows
    → All
        (λ (r : TokenRow). is_live jti r ≡ false)
        (update
          (λ (r : TokenRow). r.jti == j)
          (λ r. record { jti = j; user_id = user_id; consumed = false })
          rows)
unfolding update
update-row jti j user_id [] n h = tt
update-row jti j user_id (r ∷ rows) n h =
    (ground (arith, h.0, n, eq_iff j jti), update-row jti j user_id rows n h.1)

pub append-row :
    (jti : String) (row : TokenRow) (rows : List TokenRow)
    → is_live jti row ≡ false
    → All (λ (r : TokenRow). is_live jti r ≡ false) rows
    → All (λ (r : TokenRow). is_live jti r ≡ false) (rows ++ (row ∷ []))
append-row jti row [] l h = (l, tt)
append-row jti row (r ∷ rows) l h = (h.0, append-row jti row rows l h.1)

pub run-Keeps :
    {A : Type 0} (jti : String) (o : Outcome) (stmt : Statement A) (t : Tables)
    → IsSpent jti t
    → IsSpent jti (stmt t).0
    → IsSpent jti (run o stmt t).0
unfolding run
run-Keeps jti works stmt t h k = k
run-Keeps jti (refused m) stmt t h k = h
run-Keeps jti (lost m) stmt t h k = k

pub exec-Keeps :
    {A : Type 0} (jti : String) (stmt : ℕ → Statement A) (p : Postgres)
    → IsSpent jti p.tables
    → ((now : ℕ) → IsSpent jti (stmt now p.tables).0)
    → IsSpent jti (exec stmt p).0.tables
unfolding exec
exec-Keeps jti stmt p h k = go p.turns refl
  where
    go : (turns : List Turn) → p.turns ≡ turns → IsSpent jti (exec stmt p).0.tables
    go [] e = rw (exec, e) (run-Keeps jti works (stmt p.clock) p.tables h (k p.clock))
    go (t ∷ ts) e =
        rw (exec, e)
          (run-Keeps jti t.outcome (stmt (p.clock + t.wait)) p.tables h (k (p.clock + t.wait)))

pub upsert_token-Keeps :
    (jti j user_id : String) (t : Tables)
    → j ≢ jti
    → IsSpent jti t
    → IsSpent jti (upsert_token j user_id t).0
unfolding upsert_token
upsert_token-Keeps jti j user_id t n h =
    elim (Bool-cases (exists (λ (u : User). u.id == user_id) t.users)) [
      | inr unknown ↦ rw (upsert_token, unknown) h
      | inl known ↦ elim (Bool-cases (exists (λ (r : TokenRow). r.jti == j) t.refresh_tokens)) [
        | inl there ↦
            rw (upsert_token, known, there) (update-row jti j user_id t.refresh_tokens n h)
        | inr new ↦
            rw (upsert_token, known, new)
              (append-row jti (record { jti = j; user_id = user_id; consumed = false })
                t.refresh_tokens (ground (arith, eq_iff j jti)) h)
      ]
    ]

-- Statements that leave the tokens alone.
pub insert_user-tokens :
    (id : Option String) (email hash : String) (t : Tables)
    → (insert_user id email hash t).0.refresh_tokens ≡ t.refresh_tokens
unfolding insert_user
insert_user-tokens none email hash t = refl
insert_user-tokens (some id) email hash t = ground arith

pub upsert_peer-tokens :
    (q : Peer) (t : Tables) → (upsert_peer q t).0.refresh_tokens ≡ t.refresh_tokens
unfolding upsert_peer
upsert_peer-tokens q t = ground arith

pub upsert_subscription_row-tokens :
    (s : Subscription) (now : ℕ) (t : Tables)
    → (upsert_subscription_row s now t).0.refresh_tokens ≡ t.refresh_tokens
unfolding upsert_subscription_row
upsert_subscription_row-tokens s now t = ground arith
