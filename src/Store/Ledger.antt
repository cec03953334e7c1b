-- ===== src/Store/Ledger.antt =====
-- What a store promises of refresh tokens, as an abstract ledger: to each jti its user and whether it
-- has been used. The contract is the part of the Store interface of api/internal/store/store.go that
-- the session handlers rely on.
use snow_radar.Common.{
  String, ◌≡◌, ap, arith, eq_iff, Option-cases, Bool-cases, inl, inr, Bool, true, false, ◌||◌,
  Option, none, some, ◌==◌, string_eq, if◌then◌else◌,
}
use snow_radar.Store.{StoreError, not_found, token_replayed, Store}

abbrev pub Ledger : Type 0
Ledger = String → Option (String × Bool)

-- A token is issued, used, or used up with all the others of its user.
abbrev pub put : String → String → Ledger → Ledger
put jti user_id l j = if jti == j then some (user_id, false) else l j

abbrev pub use_up : String → String → Ledger → Ledger
use_up jti user_id l j = if jti == j then some (user_id, true) else l j

abbrev pub mark : String → Option (String × Bool) → Option (String × Bool)
mark user_id none = none
mark user_id (some (owner, used)) = some (owner, used || owner == user_id)

abbrev pub use_up_all : String → Ledger → Ledger
use_up_all user_id l j = mark user_id (l j)

-- The answer to a use, by what the ledger has for the token.
pub settle : String → Option (String × Bool) → Ledger → Ledger × String × Option StoreError
settle jti none l = (l, "", some not_found)
settle jti (some (user_id, true)) l = (use_up_all user_id l, user_id, some token_replayed)
settle jti (some (user_id, false)) l = (use_up jti user_id l, user_id, none)

unfoldable pub consume : String → Ledger → Ledger × String × Option StoreError
unfolding settle
consume jti l = settle jti (l jti) l

-- What an answer shows of the state that comes with it.
abbrev pub viewed :
    {S : Type 0}
    → (S → Ledger)
    → S × String × Option StoreError
    → Ledger × String × Option StoreError
viewed view (s, user_id, e) = (view s, user_id, e)

-- A store keeps the ledger that a view of its states shows: for the users that it has, of which each
-- token belongs to one.
pub record KeepsLedger {S : Type 0} (st : Store S) (IsOk : S → Type 0)
    (HasUser : String → S → Type 0) (view : S → Ledger) : Type 0 where
  pub belongs :
      (jti user_id : String) (used : Bool) (s : S)
      → IsOk s
      → view s jti ≡ some (user_id, used)
      → HasUser user_id s
  pub saves :
      (jti user_id : String) (s : S)
      → IsOk s
      → HasUser user_id s
      → IsOk (st.save_refresh_token jti user_id s).0
        × ((st.save_refresh_token jti user_id s).1 ≡ none)
        × (view (st.save_refresh_token jti user_id s).0 ≡ put jti user_id (view s))
  pub consumes :
      (jti : String) (s : S)
      → IsOk s
      → IsOk (st.consume_refresh_token jti s).0
        × (viewed view (st.consume_refresh_token jti s) ≡ consume jti (view s))
  pub revokes :
      (user_id : String) (s : S)
      → IsOk s
      → IsOk (st.revoke_all_refresh_tokens user_id s).0
        × ((st.revoke_all_refresh_tokens user_id s).1 ≡ none)
        × (view (st.revoke_all_refresh_tokens user_id s).0 ≡ use_up_all user_id (view s))

-- A token that is used for the first time is then its user's, and used.
pub consume-first_use :
    (jti user_id : String) (l k : Ledger)
    → consume jti l ≡ (k, user_id, none)
    → k jti ≡ some (user_id, true)
unfolding consume settle
consume-first_use jti user_id l k e = elim (Option-cases (l jti)) [
  | inl f ↦ cc (rw (consume, f) at e)
  | inr ((u, used), f) ↦ elim (Bool-cases used) [
    | inl old ↦ cc (rw (consume, f, old) at e)
    | inr fresh ↦
        let e' : ◌≡◌ {A = Ledger × String × Option StoreError} (use_up jti u l, u, none)
            (k, user_id, none) =
          rw (consume, f, fresh) at e in
        let is : use_up jti u l ≡ k = ap (λ (x : Ledger × String × Option StoreError). x.0) e' in
        let own : u ≡ user_id = ap (λ (x : Ledger × String × Option StoreError). x.1) e' in
        rw (← is) (ground (arith, eq_iff jti jti))
  ]
]
