-- ===== src/Store/Postgres/Rows.antt =====
-- The rows of the table of refresh tokens (api/internal/store/postgres.go): the row of a jti through
-- the statements that change the table.
use snow_radar.Common.{
  String, ◌≡◌, refl, Bool, true, false, not, ◌&&◌, Option, none, some, List, [], ◌∷◌, ◌++◌, ◌==◌,
  string_eq, if◌then◌else◌, arith, eq_iff, All, Bool-cases, inl, inr, subst,
}
use snow_radar.Store.Schema.{TokenRow, select, first, update, exists}

-- The row of a jti.
unfoldable pub find : String → List TokenRow → Option TokenRow
find jti [] = none
find jti (r ∷ rows) = if r.jti == jti then some r else find jti rows

abbrev pub is_found : Option TokenRow → Bool
is_found none = false
is_found (some r) = true

abbrev pub change_if : (TokenRow → Bool) → (TokenRow → TokenRow) → TokenRow → TokenRow
change_if test change r = if test r then change r else r

abbrev pub changed : (TokenRow → TokenRow) → Option TokenRow → Option TokenRow
changed change none = none
changed change (some r) = some (change r)

pub first-select :
    (jti : String) (rows : List TokenRow)
    → first (select (λ (r : TokenRow). r.jti == jti) rows) ≡ find jti rows
unfolding first select find
first-select jti [] = refl
first-select jti (r ∷ rows) = ground (arith, first-select jti rows)

pub exists-find :
    (jti : String) (rows : List TokenRow)
    → exists (λ (r : TokenRow). r.jti == jti) rows ≡ is_found (find jti rows)
unfolding exists find
exists-find jti [] = refl
exists-find jti (r ∷ rows) = ground (arith, exists-find jti rows)

-- The row that is found has the jti.
pub find_jti :
    (jti : String) (rows : List TokenRow) (r : TokenRow) → find jti rows ≡ some r → r.jti ≡ jti
unfolding find
find_jti jti [] r h = cc
find_jti jti (q ∷ rows) r h = ground (arith, find_jti jti rows r, eq_iff q.jti jti)

-- The change keeps the jti of the rows that it is made for.
abbrev pub KeepsJti : (TokenRow → Bool) → (TokenRow → TokenRow) → Type 0
KeepsJti test change = (r : TokenRow) → test r ≡ true → (change r).jti ≡ r.jti

change_if-jti :
    (test : TokenRow → Bool) (change : TokenRow → TokenRow) (r : TokenRow)
    → KeepsJti test change
    → (change_if test change r).jti ≡ r.jti
change_if-jti test change r k = ground (arith, k r)

pub find-update :
    (test : TokenRow → Bool) (change : TokenRow → TokenRow) (jti : String) (rows : List TokenRow)
    → KeepsJti test change
    → find jti (update test change rows) ≡ changed (change_if test change) (find jti rows)
unfolding find update
find-update test change jti [] k = refl
find-update test change jti (r ∷ rows) k =
    rw (change_if-jti test change r k, find-update test change jti rows k) (ground arith)

pub find-append :
    (j : String) (rows : List TokenRow) (r : TokenRow)
    → find j (rows ++ (r ∷ []))
      ≡ (if is_found (find j rows) then find j rows else if r.jti == j then some r else none)
unfolding find
find-append j [] r = refl
find-append j (q ∷ rows) r = ground (arith, find-append j rows r)

-- The primary key.
abbrev pub HasKey : List TokenRow → Type 0
HasKey [] = Unit
HasKey (r ∷ rows) = (find r.jti rows ≡ none) × HasKey rows

pub HasKey-update :
    (test : TokenRow → Bool) (change : TokenRow → TokenRow) (rows : List TokenRow)
    → KeepsJti test change
    → HasKey rows
    → HasKey (update test change rows)
unfolding update
HasKey-update test change [] k h = tt
HasKey-update test change (r ∷ rows) k h = (
  rw (change_if-jti test change r k, find-update test change r.jti rows k, h.0) refl,
  HasKey-update test change rows k h.1,
)

pub HasKey-append :
    (rows : List TokenRow) (r : TokenRow)
    → HasKey rows
    → find r.jti rows ≡ none
    → HasKey (rows ++ (r ∷ []))
unfolding find
HasKey-append [] r h n = (refl, tt)
HasKey-append (q ∷ rows) r h n = (
  ground (arith, find-append q.jti rows r, eq_iff q.jti r.jti, eq_iff r.jti q.jti),
  HasKey-append rows r h.1 (ground arith),
)

-- With the key, a jti has at most one row, so what is selected by it and a test is that row if it
-- passes.
pub first-select_fresh :
    (jti : String) (rows : List TokenRow)
    → HasKey rows
    → first (select (λ (r : TokenRow). r.jti == jti && not r.consumed) rows)
      ≡ (elim (find jti rows) [ none ↦ none | some r ↦ if r.consumed then none else some r ])
unfolding first select find
first-select_fresh jti [] h = refl
first-select_fresh jti (r ∷ rows) h =
    ground (arith, first-select_fresh jti rows h.1, eq_iff r.jti jti)

-- Every row has a property.
pub All-update :
    (P : TokenRow → Type 0) (test : TokenRow → Bool) (change : TokenRow → TokenRow)
    (rows : List TokenRow)
    → ((r : TokenRow) → P r → P (change_if test change r))
    → All P rows
    → All P (update test change rows)
unfolding update
All-update P test change [] keep h = tt
All-update P test change (r ∷ rows) keep h = (keep r h.0, All-update P test change rows keep h.1)

pub All-append_one :
    (P : TokenRow → Type 0) (rows : List TokenRow) (r : TokenRow)
    → All P rows
    → P r
    → All P (rows ++ (r ∷ []))
All-append_one P [] r h p = (p, tt)
All-append_one P (q ∷ rows) r h p = (h.0, All-append_one P rows r h.1 p)

pub All-find :
    (P : TokenRow → Type 0) (jti : String) (rows : List TokenRow) (r : TokenRow)
    → All P rows
    → find jti rows ≡ some r
    → P r
unfolding find
All-find P jti [] r h e = cc
All-find P jti (q ∷ rows) r h e = elim (Bool-cases (q.jti == jti)) [
  | inl hit ↦ (let is : q ≡ r = ground arith in subst P is h.0)
  | inr miss ↦ All-find P jti rows r h.1 (rw miss at e)
]
