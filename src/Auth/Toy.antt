-- ===== src/Auth/Toy.antt =====
-- Data for the tests: one user, a toy signature and a toy hash.
use sharm.Common.{
  ℕ, ◌&&◌, Bool, false, [], ◌∷◌, ◌++◌, map, Text, text, text_beq, ◌==◌, nat_eq, leb, if◌then◌else◌,
}
use sharm.Domain.{User}
use sharm.Domain.Errors
use sharm.Store.{empty_db}
use sharm.World.{World}
use sharm.Auth.{Crypto, Unicode}

abbrev pub toy_hash : Text → Text
toy_hash password = b'$' ∷ password

abbrev pub toy : Crypto
toy = record {
  generate_from_password = λ password. Errors.ok (toy_hash password);
  compare_hash_and_password = λ hash password. text_beq hash (toy_hash password);
  sign = λ key message. map (λ c. if c == b':' then b'-' else c) (key ++ message);
}

abbrev between : ℕ → ℕ → ℕ → Bool
between a b r = leb a r && leb r b

abbrev pub ascii : Unicode
ascii = record {
  runes = λ s. s;
  is_letter = λ r. between b'a' b'z' r;
  is_digit = λ r. between b'0' b'9' r;
  is_upper = λ r. between b'A' b'Z' r;
  is_lower = λ r. between b'a' b'z' r;
  is_number = λ r. between b'0' b'9' r;
  is_punct = λ r. between b'!' b'/' r;
  is_symbol = λ r. false;
}

abbrev pub alice : User
alice = record {
  id = 1;
  username = text "alice";
  password_hash = toy_hash (text "old");
  created_at = 0;
  updated_at = 0;
}

abbrev pub key : Text
key = text "secret"

-- A hundred seconds after the epoch.
abbrev pub world : World
world = record {
  db = record empty_db { users = alice ∷ [] };
  events = [];
  outcomes = [];
  commands = [];
  removed = [];
  now = 62135596900000000000;
}
