-- ===== src/Store/Postgres/Gaps.antt =====
-- Where api/internal/store/postgres.go and the schema of api/migrations/001_init.sql do not fit: the id
-- of an account, and the address of a peer.
use snow_radar.Common.{
  ℕ, ◌+◌, String, ◌≡◌, refl, ap, false, none, some, List, [], ◌∷◌, Result, err, arith,
}
use snow_radar.Netalloc.{Prefix, host}
use snow_radar.Netalloc.Search.{IsHost}
use snow_radar.Store.{other, User, Peer}
use snow_radar.Store.Schema.{Tables, Statement, insert_user, is_cidr, upsert_peer}
use snow_radar.Store.Postgres.{
  Outcome, works, refused, lost, Turn, Postgres, run, exec, done, with_returned_id, create_user,
  save_peer,
}

-- A statement that breaks a constraint at every time.
abbrev Breaks : {A : Type 0} → Statement A → Tables → Type 0
Breaks stmt t = (message : String) × (stmt t ≡ (t, err message))

run-Breaks :
    {A : Type 0} (o : Outcome) (stmt : Statement A) (t : Tables)
    → Breaks stmt t
    → (message : String) × (run o stmt t ≡ (t, err message))
unfolding run
run-Breaks works stmt t b = b
run-Breaks (refused m) stmt t b = (m, refl)
run-Breaks (lost m) stmt t (n, e) = (m, rw e refl)

abbrev Fails : {A : Type 0} → Postgres → Postgres × Result String A → Type 0
Fails p r = (q : Postgres) × (message : String) × (q.tables ≡ p.tables) × (r ≡ (q, err message))

exec-Breaks :
    {A : Type 0} (stmt : ℕ → Statement A) (p : Postgres)
    → ((now : ℕ) → Breaks (stmt now) p.tables)
    → Fails p (exec stmt p)
unfolding exec
exec-Breaks {A} stmt p b = go p.turns refl
  where
    go : (turns : List Turn) → p.turns ≡ turns → Fails p (exec stmt p)
    go [] e =
        let (m, f) = run-Breaks works (stmt p.clock) p.tables (b p.clock) in
        (
          record { tables = (run works (stmt p.clock) p.tables).0; clock = p.clock; turns = [] },
          m,
          ap (λ (r : Tables × Result String A). r.0) f,
          rw (exec, e, f) refl,
        )
    go (t ∷ ts) e =
        let (m, f) =
          run-Breaks t.outcome (stmt (p.clock + t.wait)) p.tables (b (p.clock + t.wait)) in
        (
          record {
            tables = (run t.outcome (stmt (p.clock + t.wait)) p.tables).0;
            clock = p.clock + t.wait;
            turns = ts;
          },
          m,
          ap (λ (r : Tables × Result String A). r.0) f,
          rw (exec, e, f) refl,
        )

-- Whatever becomes of the statement, `CreateUser` over the schema of the migration answers with an
-- error and writes no row: the statement gives no id, and the column has no default.
pub create_user-refused :
    (random : List ℕ) (u : User) (p : Postgres)
    → (message : String) × ((create_user random u p).1 ≡ err (other message))
      × ((create_user random u p).0.tables ≡ p.tables)
unfolding create_user with_returned_id insert_user
create_user-refused random u p =
    let (q, m, same, e) =
      exec-Breaks (λ now. insert_user none u.email u.password_hash) p
        (λ now. ("users.id is null", refl)) in
    rw e (m, refl, same)

host-ne-cidr :
    (base : Prefix) (h : ℕ)
    → IsHost h
    → base.bits ≡ 24
    → is_cidr (record { addr = host base h; bits = base.bits }) ≡ false
unfolding is_cidr host
host-ne-cidr base h k e = rw e (ground (arith))

-- A peer with the address of a host of a pool of 24 bits is not saved.
pub save_peer-host :
    (peer : Peer) (base : Prefix) (h : ℕ) (p : Postgres)
    → IsHost h
    → base.bits ≡ 24
    → peer.address ≡ record { addr = host base h; bits = base.bits }
    → (message : String) × ((save_peer peer p).1 ≡ some (other message))
      × ((save_peer peer p).0.tables ≡ p.tables)
unfolding save_peer done upsert_peer
save_peer-host peer base h p k bits e =
    let c : is_cidr peer.address ≡ false = rw e (host-ne-cidr base h k bits) in
    let (q, m, same, f) =
      exec-Breaks (λ now. upsert_peer peer) p
        (λ now. ("invalid cidr value", rw (upsert_peer, c) refl)) in
    rw f (m, refl, same)
