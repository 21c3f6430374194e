-- ===== src/Portal/Verified.antt =====
-- Portal/Password: what `verify_password` makes of a hash that `hash_password` made.
use opti_gate.Base.{String, some, ◌≡◌, refl, sym, some_inj}
use opti_gate.Base.{
  int_of, has_char, none-some, string_eq, ◌<>◌, ◌>>=◌, IsFree, cut-append, Option-cases, inl, inr,
  ◌==◌,
}
use opti_gate.Portal.Password.{Pbkdf2, parse, hash_password, compare_digest}
use opti_gate.Portal.Password.{verify_password}

parse-encoded :
    (salt digest : String)
    → IsFree b'$' salt
    → parse ("pbkdf2_sha256$260000$" <> (salt <> ("$" <> digest)))
      ≡ some (record {
        algorithm = "pbkdf2_sha256";
        iterations = 260000;
        salt = salt;
        expected_hex = digest;
      })
unfolding parse has_char int_of
parse-encoded salt digest h =
    rw
      (
        cut-append "$" "pbkdf2_sha256" ("260000$" <> (salt <> ("$" <> digest))) refl,
        cut-append "$" "260000" (salt <> ("$" <> digest)) refl,
        cut-append "$" salt digest h,
      )
      refl

module _ (pbkdf2 : Pbkdf2) where
  -- A hash that `hash_password` made, of a salt without `$`, verifies a guess exactly if the digests
  -- of the guess and of the password, with that salt and 260000 iterations, are the same text; it
  -- raises exactly if the derivation of the guess's digest does.
  pub verify_password-hash_password :
      (salt password guess encoded : String)
      → IsFree b'$' salt
      → hash_password pbkdf2 salt password ≡ some encoded
      → verify_password pbkdf2 guess encoded ≡ (do
        digest ← pbkdf2 guess salt 260000
        expected ← pbkdf2 password salt 260000
        some (digest == expected))
  unfolding verify_password hash_password compare_digest
  verify_password-hash_password salt password guess encoded free h =
      elim (Option-cases (pbkdf2 password salt 260000)) [
        | inl e ↦ absurd (none-some (rw e at h))
        | inr (digest, e) ↦
            let q = some_inj (rw e at h) in rw (sym q, parse-encoded salt digest free, e) refl
      ]
