-- ===== src/Portal/Password.antt =====
-- common/auth.py: the hashes of passwords. The key derivation is Python's: `pbkdf2 password salt n`
-- is the digest in hexadecimal digits, or none where `bytes.fromhex` or the derivation raises.
use opti_gate.Base.{ℕ, String, Option, none, some, Bool, false, if◌then◌else◌, ◌==◌, string_eq}
use opti_gate.Base.{cut, int_of, ◌<>◌, ◌>>=◌, is_empty, from_option, ◌||◌}

abbrev pub Pbkdf2 : Type 0
Pbkdf2 = String → String → ℕ → Option String

-- The parts of an encoded hash.
pub record Encoded : Type 0 where
  pub algorithm : String
  pub iterations : ℕ
  pub salt : String
  pub expected_hex : String

-- `encoded.split("$", 3)` into four parts, and `int` of the second.
unfoldable pub parse : String → Option Encoded
parse encoded = do
  first ← cut b'$' encoded
  second ← cut b'$' first.1
  third ← cut b'$' second.1
  iterations ← int_of second.0
  some (record {
    algorithm = first.0;
    iterations = iterations;
    salt = third.0;
    expected_hex = third.1;
  })

module _ (pbkdf2 : Pbkdf2) where
  -- `hash_password`, with the salt that `os.urandom` gives.
  unfoldable pub hash_password : (salt password : String) → Option String
  hash_password salt password = do
    digest ← pbkdf2 password salt 260000
    some ("pbkdf2_sha256$260000$" <> (salt <> ("$" <> digest)))

  unfoldable pub compare_digest : String → Option Encoded → Option Bool
  compare_digest password none = some false
  compare_digest password (some e) =
      if e.algorithm == "pbkdf2_sha256"
      then (do digest ← pbkdf2 password e.salt e.iterations; some (digest == e.expected_hex))
      else some false

  unfoldable pub verify_password : (password encoded : String) → Option Bool
  verify_password password encoded = compare_digest password (parse encoded)

  unfoldable pub verify_admin_credentials :
      (username password : String) (expected_username expected_hash : Option String) → Option Bool
  verify_admin_credentials username password expected_username expected_hash =
      let name = from_option "" expected_username in
      let hash = from_option "" expected_hash in
      if is_empty name || is_empty hash
      then some false
      else if username == name
      then verify_password password hash
      else some false
