-- ===== src/Store/Postgres/Concurrent/Winning.antt =====
-- Calls of ConsumeRefreshToken of api/internal/store/postgres.go for the same token at the same time.
use snow_radar.Common.{
  ℕ, zero, suc, ◌+◌, ◌≤◌, String, ◌≡◌, ◌⊎◌, refl, Option, none, some, List, [], ◌∷◌, Result, ok,
  err, ◌==◌, string_eq, arith, inl, inr, All,
}
use snow_radar.Store.Schema.{TokenRow, spend_rows}
use snow_radar.Store.Memory.Tokens.{Call, Issues}
use snow_radar.Store.Postgres.{Postgres, exec}
use snow_radar.Store.Postgres.Spent.{is_live, IsSpent}
use snow_radar.Store.Postgres.SingleUse.{
  step, step-Keeps, spend-exec, select-exec, exec-spends, exec-none,
}
use snow_radar.Store.Postgres.Concurrent.{
  Consuming, starting, confirming, burning, finished, after_spend, after_select, proceed, Event,
  proceeds, calls, proceed_at, happen, has_won, winners,
}

-- No other call issues the token.
abbrev pub LeavesToken : String → Event → Type 0
LeavesToken jti (proceeds n) = Unit
LeavesToken jti (calls c) = ¬ Issues jti c

-- Nobody has won yet, or one call has, and the token is spent.
abbrev WonOnce : String → ℕ → Postgres → Type 0
WonOnce jti n p = (n ≡ 0) ⊎ ((n ≡ 1) × IsSpent jti p.tables)

after_select-loses : (r : Result String (Option TokenRow)) → has_won (after_select r) ≡ 0
unfolding after_select
after_select-loses (err m) = refl
after_select-loses (ok none) = refl
after_select-loses (ok (some row)) = refl

-- A statement of a call keeps a spent token spent, and does not win once it is.
proceed-IsSpent :
    (jti : String) (c : Consuming) (p : Postgres)
    → IsSpent jti p.tables
    → IsSpent jti (proceed jti c p).0.tables × (has_won (proceed jti c p).1 ≡ has_won c)
unfolding proceed
proceed-IsSpent jti starting p h = (spend-exec jti (is_live jti) p h, loses _ refl)
  where
    loses :
        (r : Result String (Option TokenRow))
        → (exec (λ now. spend_rows (is_live jti)) p).1 ≡ r
        → has_won (after_spend (exec (λ now. spend_rows (is_live jti)) p).1) ≡ 0
    loses (err m) e = rw e (unfold after_spend in refl)
    loses (ok none) e = rw e (unfold after_spend in refl)
    loses (ok (some row)) e = absurd (exec-none jti p h row e)
proceed-IsSpent jti confirming p h = (select-exec jti jti p h, after_select-loses _)
proceed-IsSpent jti (burning user_id) p h =
    (spend-exec jti (λ (r : TokenRow). r.user_id == user_id) p h, refl)
proceed-IsSpent jti (finished user_id e) p h = (h, refl)

-- A statement that wins spends the token.
proceed-wins :
    (jti : String) (c : Consuming) (p : Postgres)
    → has_won c ≡ 0
    → WonOnce jti (has_won (proceed jti c p).1) (proceed jti c p).0
unfolding proceed
proceed-wins jti starting p h = wins _ refl
  where
    wins :
        (r : Result String (Option TokenRow))
        → (exec (λ now. spend_rows (is_live jti)) p).1 ≡ r
        → WonOnce jti
            (has_won (after_spend (exec (λ now. spend_rows (is_live jti)) p).1))
            (exec (λ now. spend_rows (is_live jti)) p).0
    wins (err m) e = rw e (unfold after_spend in inl refl)
    wins (ok none) e = rw e (unfold after_spend in inl refl)
    wins (ok (some row)) e = inr (rw e (unfold after_spend in refl), exec-spends jti p (some row) e)
proceed-wins jti confirming p h = inl (after_select-loses _)
proceed-wins jti (burning user_id) p h = inl refl
proceed-wins jti (finished user_id e) p h = inl h

WonOnce-spent :
    (jti : String) (k : ℕ) (c : Consuming) (p : Postgres)
    → (k + has_won c ≡ 1) × IsSpent jti p.tables
    → WonOnce jti (k + has_won (proceed jti c p).1) (proceed jti c p).0
WonOnce-spent jti k c p (one, h) =
    let (spent, same) = proceed-IsSpent jti c p h in inr (rw same one, spent)

WonOnce-new :
    (jti : String) (k : ℕ) (c : Consuming) (p : Postgres)
    → k + has_won c ≡ 0
    → WonOnce jti (k + has_won (proceed jti c p).1) (proceed jti c p).0
WonOnce-new jti k c p e = elim (proceed-wins jti c p (omega (arith, e))) [
  | inl l ↦ inl (omega (arith, e, l))
  | inr (w, spent) ↦ inr (omega (arith, e, w), spent)
]

proceed-WonOnce :
    (jti : String) (k : ℕ) (c : Consuming) (p : Postgres)
    → WonOnce jti (k + has_won c) p
    → WonOnce jti (k + has_won (proceed jti c p).1) (proceed jti c p).0
proceed-WonOnce jti k c p (inl e) = WonOnce-new jti k c p e
proceed-WonOnce jti k c p (inr h) = WonOnce-spent jti k c p h

regroup : (a b c : ℕ) → a + (b + c) ≡ a + c + b
regroup a b c = omega arith

assoc : (a b c : ℕ) → a + (b + c) ≡ a + b + c
assoc a b c = omega arith

proceed_at-WonOnce :
    (jti : String) (k n : ℕ) (cs : List Consuming) (p : Postgres)
    → WonOnce jti (k + winners cs) p
    → WonOnce jti (k + winners (proceed_at jti n cs p).1) (proceed_at jti n cs p).0
unfolding proceed_at
proceed_at-WonOnce jti k n [] p h = h
proceed_at-WonOnce jti k zero (c ∷ cs) p h =
    rw (regroup k (has_won (proceed jti c p).1) (winners cs))
      (proceed-WonOnce jti (k + winners cs) c p (rw (regroup k (has_won c) (winners cs)) at h))
proceed_at-WonOnce jti k (suc n) (c ∷ cs) p h =
    rw (assoc k (has_won c) (winners (proceed_at jti n cs p).1))
      (proceed_at-WonOnce jti (k + has_won c) n cs p (rw (assoc k (has_won c) (winners cs)) at h))

zero_add : (n : ℕ) → 0 + n ≡ n
zero_add n = omega arith

call-WonOnce :
    (jti : String) (n : ℕ) (c : Call) (p : Postgres)
    → ¬ Issues jti c
    → WonOnce jti n p
    → WonOnce jti n (step p c)
call-WonOnce jti n c p l (inl e) = inl e
call-WonOnce jti n c p l (inr (e, h)) = inr (e, step-Keeps jti p c l h)

happen-WonOnce :
    (jti : String) (es : List Event) (cs : List Consuming) (p : Postgres)
    → All (LeavesToken jti) es
    → WonOnce jti (winners cs) p
    → WonOnce jti (winners (happen jti es cs p).1) (happen jti es cs p).0
unfolding happen
happen-WonOnce jti [] cs p l h = h
happen-WonOnce jti (proceeds n ∷ es) cs p l h =
    happen-WonOnce jti es (proceed_at jti n cs p).1 (proceed_at jti n cs p).0 l.1 (
      rw (zero_add (winners (proceed_at jti n cs p).1)) at
        (proceed_at-WonOnce jti 0 n cs p (rw (zero_add (winners cs)) h)))
happen-WonOnce jti (calls c ∷ es) cs p l h =
    happen-WonOnce jti es cs (step p c) l.1 (call-WonOnce jti (winners cs) c p l.0 h)

-- Of any number of calls that consume the same token at the same time, whatever the order of their
-- statements, whatever becomes of each statement, and whatever other calls come between that do not
-- issue the token anew, at most one ends with success.
pub consume-at_most_once :
    (jti : String) (es : List Event) (cs : List Consuming) (p : Postgres)
    → winners cs ≡ 0
    → All (LeavesToken jti) es
    → winners (happen jti es cs p).1 ≤ 1
consume-at_most_once jti es cs p e l = elim (happen-WonOnce jti es cs p l (inl e)) [
  | inl none_won ↦ omega (arith, none_won)
  | inr (one, h) ↦ omega (arith, one)
]
