-- ===== src/Store/Memory/Users.antt =====
-- The accounts of api/internal/store/memory.go and its two indexes of them.
use snow_radar.Common.{
  ℕ, String, ◌≡◌, inl, inr, refl, ap, sym, ◌∙◌, none, some, List, arith, string_eq, eq_iff,
  Option-cases, Result, ok, err,
}
use snow_radar.Common.Dict.{lookup, insert, lookup-insert, lookup-insert_self}
use snow_radar.Store.{StoreError, other, User}
use snow_radar.Store.Memory.{Memory, with_id, create_user, get_user_by_email, get_user}

-- Each account that is found by an email has that email, and is found by its id.
pub record IsCoherent (m : Memory) : Type 0 where
  pub emails : (email : String) (u : User) → lookup email m.by_email ≡ some u → u.email ≡ email
  pub ids :
      (email : String) (u : User) → lookup email m.by_email ≡ some u → lookup u.id m.users ≡ some u

-- What `CreateUser` does.
pub data Creates (random : List ℕ) (u : User) (m : Memory) (r : Memory × Result StoreError User)
    : Type 0 where
  taken :
      (old : User)
      → lookup u.email m.by_email ≡ some old
      → r ≡ (m, err (other "email already registered"))
      → Creates random u m r
  created :
      lookup u.email m.by_email ≡ none
      → r ≡ (
        record m {
          users = insert (with_id random u).id (with_id random u) m.users;
          by_email = insert u.email (with_id random u) m.by_email;
        },
        ok (with_id random u),
      )
      → Creates random u m r

with_id-email : (random : List ℕ) (u : User) → (with_id random u).email ≡ u.email
unfolding with_id
with_id-email random u = ground arith

pub create_user-Creates :
    (random : List ℕ) (u : User) (m : Memory) → Creates random u m (create_user random u m)
unfolding create_user
create_user-Creates random u m = elim (Option-cases (lookup u.email m.by_email)) [
  | inl e ↦ created e (rw (e, create_user) (rw (with_id-email random u)))
  | inr (old, e) ↦ taken old e (rw (e, create_user))
]

-- Creating a user keeps the indexes in agreement, if its id is not one of another user.
pub create_user-IsCoherent :
    (random : List ℕ) (u : User) (m : Memory)
    → IsCoherent m
    → lookup (with_id random u).id m.users ≡ none
    → IsCoherent (create_user random u m).0
create_user-IsCoherent random u m v fresh = elim (create_user-Creates random u m) [
  | taken old e r ↦ rw r v
  | created e r ↦ rw r (record {
    emails = λ email w h. ground (
      arith,
      lookup-insert u.email email (with_id random u) m.by_email,
      eq_iff u.email email,
      with_id-email random u,
      v.emails email w,
    );
    ids = λ email w h. ground (
      arith,
      lookup-insert u.email email (with_id random u) m.by_email,
      lookup-insert (with_id random u).id w.id (with_id random u) m.users,
      eq_iff (with_id random u).id w.id,
      v.ids email w,
    );
  })
]

created-state :
    (random : List ℕ) (u made : User) (m : Memory)
    → (create_user random u m).1 ≡ ok made
    → (made ≡ with_id random u)
      × ((create_user random u m).0 ≡ record m {
        users = insert made.id made m.users;
        by_email = insert u.email made m.by_email;
      })
created-state random u made m h = elim (create_user-Creates random u m) [
  | taken old e r ↦ ground arith
  | created e r ↦
      let is : with_id random u ≡ made = ground arith in
      (sym is, ap (λ (x : Memory × Result StoreError User). x.0) r ∙ rw is refl)
]

create_user_again :
    (random : List ℕ) (w old : User) (m : Memory)
    → lookup w.email m.by_email ≡ some old
    → create_user random w m ≡ (m, err (other "email already registered"))
create_user_again random w old m h = elim (create_user-Creates random w m) [
  | taken o e r ↦ r
  | created e r ↦ cc
]

-- An account that was created is found by its email and by its id; it keeps the email and the password hash that
-- were given; and another account cannot be registered with that email, which changes nothing.
pub create_user_lem :
    (random random' : List ℕ) (u w made : User) (m : Memory)
    → (create_user random u m).1 ≡ ok made
    → w.email ≡ u.email
    → (get_user_by_email u.email (create_user random u m).0 ≡ ok made)
      × (get_user made.id (create_user random u m).0 ≡ ok made)
      × (made.email ≡ u.email)
      × (made.password_hash ≡ u.password_hash)
      × (create_user random' w (create_user random u m).0
          ≡ ((create_user random u m).0, err (other "email already registered")))
unfolding get_user_by_email get_user with_id
create_user_lem random random' u w made m h same =
    let (is, state) = created-state random u made m h in
    rw state (
      rw (lookup-insert_self u.email made m.by_email),
      rw (lookup-insert_self made.id made m.users),
      ground arith,
      ground arith,
      create_user_again random' w made _ (rw same (lookup-insert_self u.email made m.by_email)),
    )
