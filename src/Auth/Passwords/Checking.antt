-- ===== src/Auth/Passwords/Checking.antt =====
-- `HashPassword` and `VerifyPassword` of api/internal/auth/auth.go together.
use snow_radar.Common.{
  ℕ, ◌≡◌, ◌↔◌, ◌∙◌, refl, sym, ap, String, Bool, true, Option, some, List, [], ◌∷◌, nat_eq, arith,
  All, length,
}
use snow_radar.Common.Texts.{bytes}
use snow_radar.Codec.RoundTrip.{IsByte}
use snow_radar.Auth.Passwords.{
  Argon2, argon_time, argon_memory, argon_threads, argon_key_len, phc_of, bytes_beq, hash_password,
  verify_password,
}
use snow_radar.Auth.Passwords.Reading.{phc-read}

bytes_beq_refl : (xs : List ℕ) → bytes_beq xs xs ≡ true
unfolding bytes_beq
bytes_beq_refl [] = refl
bytes_beq_refl (x ∷ xs) = ground (arith, bytes_beq_refl xs)

bytes_beq_sound : (xs ys : List ℕ) → bytes_beq xs ys ≡ true → xs ≡ ys
unfolding bytes_beq
bytes_beq_sound [] [] h = refl
bytes_beq_sound [] (y ∷ ys) h = cc
bytes_beq_sound (x ∷ xs) [] h = cc
bytes_beq_sound (x ∷ xs) (y ∷ ys) h = ground (arith, bytes_beq_sound xs ys)

module _ (a : Argon2) where
  -- The key of a password and a salt, with the costs of the source.
  abbrev pub key_of : String → List ℕ → Option (List ℕ)
  key_of password salt =
      a.id_key (bytes password) salt argon_time argon_memory argon_threads argon_key_len

  key_made :
      (password : String) (salt : List ℕ)
      → (key : List ℕ) × (key_of password salt ≡ some key) × (length key ≡ 32) × All IsByte key
  key_made password salt =
      a.id_key-some (bytes password) salt argon_time argon_memory argon_threads argon_key_len
        (omega arith) (omega arith) (omega arith)

  hash_made :
      (password : String) (salt key : List ℕ)
      → key_of password salt ≡ some key
      → hash_password a password (some salt) ≡ some (phc_of a.version salt key)
  unfolding hash_password
  hash_made password salt key e = rw e refl

  checked :
      (other : String) (salt key got : List ℕ)
      → All IsByte salt
      → All IsByte key
      → length key ≡ 32
      → key_of other salt ≡ some got
      → verify_password a other (phc_of a.version salt key) ≡ some (bytes_beq got key)
  unfolding verify_password
  checked other salt key got hs hk l e =
      rw (verify_password, phc-read a.version salt key a.version-lt hs hk) (rw l (rw e refl))

  -- Every password has a hash with a salt that is drawn; every password is checked against it, and is
  -- accepted exactly if its key under the salt is that of the hashed one.
  pub verify_password-hash_password :
      (password other : String) (salt : List ℕ)
      → All IsByte salt
      → (hash : String) × (accepts : Bool) × (hash_password a password (some salt) ≡ some hash)
        × (verify_password a other hash ≡ some accepts)
        × ((accepts ≡ true) ↔ (key_of other salt ≡ key_of password salt))
  verify_password-hash_password password other salt hs =
      let (key, e, l, hk) = key_made password salt in
      let (got, f, m, hg) = key_made other salt in
      (
        phc_of a.version salt key,
        bytes_beq got key,
        hash_made password salt key e,
        checked other salt key got hs hk l f,
        (
          λ h. f ∙ ap (λ (k : List ℕ). some k) (bytes_beq_sound got key h) ∙ sym e,
          λ h.
              (let i : some got ≡ some key = sym f ∙ h ∙ e in
                let j : got ≡ key = cc in rw j (bytes_beq_refl key)),
        ),
      )
