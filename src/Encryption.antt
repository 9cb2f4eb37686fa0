-- ===== src/Encryption.antt =====
-- packages/face-auth/src/facetech_auth/encryption.py: versioned keys of one purpose, and the envelope
-- of a record: a fresh key under the ring's key, and the record under the fresh key. AES-GCM, the JSON
-- of an envelope and the context of a record are arguments; a random key or nonce is one too.
pub mod Rewrap
mod Tests
use factech.Base.{
  ℕ, Bool, true, false, not, ◌&&◌, ◌||◌, Option, none, some, List, [], ◌∷◌, ◌++◌, String, Dict,
  lookup, erase, any, length, size, leb, ltb, nat_beq, ◌==◌, string_eq, if◌then◌else◌, ◌≡◌,
}
use factech.Contracts.{Denied, Result, ok, err, ◌>>=◌, ◌>>◌}

-- KeyFailure(code); an Unavailable
abbrev pub key_failure : String → Denied
key_failure code = record { code = code; status = 503; retry_after = none }

-- Bytes are lists of numbers.
abbrev pub Bytes : Type 0
Bytes = List ℕ

pub record Keyring : Type 0 where
  pub keys : Dict String Bytes
  pub active : String
  pub purpose : String

abbrev pub is_purpose : String → Bool
is_purpose purpose = purpose == "template" || purpose == "evaluation" || purpose == "backup"

abbrev pub is_version : String → Bool
is_version version = not (version == "") && leb (size version) 80

abbrev pub has_key : String → Dict String Bytes → Bool
has_key version keys = any (λ (k : String × Bytes). k.0 == version) keys

-- Keyring.__init__ past its check of the purpose
unfoldable pub new_keyring : Dict String Bytes → String → String → Result Keyring
new_keyring keys active purpose =
    if not (has_key active keys)
      || any (λ (k : String × Bytes). not (nat_beq (length k.1) 32)) keys
      || any (λ (k : String × Bytes). not (is_version k.0)) keys
    then err (key_failure "KEY_UNAVAILABLE")
    else ok (record { keys = keys; active = active; purpose = purpose })

abbrev pub found_key : Option Bytes → Result Bytes
found_key none = err (key_failure "KEY_UNAVAILABLE")
found_key (some k) = ok k

unfoldable pub key : Keyring → String → String → Result Bytes
key ring version purpose =
    if not (purpose == ring.purpose)
    then err (key_failure "KEY_PURPOSE_DENIED")
    else found_key (lookup version ring.keys)

unfoldable pub retire : Keyring → String → Bool → Bool → Bool → Result Keyring
retire ring version references backups_verified backup_references =
    if version == ring.active || references || not backups_verified || backup_references
    then err (key_failure "KEY_STILL_REFERENCED")
    else ok (record ring { keys = erase version ring.keys })

-- What `decode` gives where it does not raise; base64 texts are bytes.
pub record Envelope : Type 0 where
  pub key_version : String
  pub wrapped : Bytes
  pub ciphertext : Bytes

-- The parts of a record's context.
pub record Place : Type 0 where
  pub tenant : String
  pub kind : String
  pub identity : String

-- AES-GCM over base64, JSON, and the additional data that each ciphertext is bound to.
pub record Crypto (Text : Type 0) : Type 0 where
  pub encrypt : Bytes → Bytes → Bytes → Bytes → Bytes
  pub decrypt : Bytes → Bytes → Bytes → Option Bytes
  pub encode : Envelope → Text
  pub decode : Text → Option Envelope
  pub wrap_data : Place → String → Bytes
  pub record_data : Place → Bytes

-- What is documented of the two: what was encrypted is decrypted with the same key and data, and the
-- JSON of an envelope is read back.
pub record IsCrypto {Text : Type 0} (c : Crypto Text) : Type 0 where
  pub decrypt-encrypt :
      (k nonce raw aad : Bytes) → c.decrypt k (c.encrypt k nonce raw aad) aad ≡ some raw
  pub decode-encode : (e : Envelope) → c.decode (c.encode e) ≡ some e

abbrev pub or_invalid : {A : Type 0} → Option A → Result A
or_invalid none = err (key_failure "CIPHERTEXT_INVALID")
or_invalid (some a) = ok a

abbrev pub is_expected : Option String → String → Bool
is_expected none version = true
is_expected (some expected) version = version == expected

module _ {Text : Type 0} (c : Crypto Text) where
  -- seal; `dek` and the nonces are random
  unfoldable pub seal : Keyring → Place → Bytes → Bytes → Bytes → Bytes → Result Text
  seal ring place dek wrap_nonce data_nonce raw = do
    k ← key ring ring.active place.kind
    ok (
        c.encode (record {
          key_version = ring.active;
          wrapped = c.encrypt k wrap_nonce dek (c.wrap_data place ring.active);
          ciphertext = c.encrypt dek data_nonce raw (c.record_data place);
        }))

  -- The fresh key of an envelope.
  abbrev pub unwrap : Keyring → Place → Envelope → Result Bytes
  unwrap ring place envelope = do
    k ← key ring envelope.key_version place.kind
    or_invalid (c.decrypt k envelope.wrapped (c.wrap_data place envelope.key_version))

  abbrev pub expected : Option String → Envelope → Result (Unit {0})
  expected version envelope =
      if is_expected version envelope.key_version
      then ok tt
      else err (key_failure "CIPHERTEXT_INVALID")

  -- open
  unfoldable pub open_sealed : Keyring → Place → Text → Option String → Result Bytes
  open_sealed ring place value expected_version = do
    envelope ← or_invalid (c.decode value)
    expected expected_version envelope
    dek ← unwrap ring place envelope
    or_invalid (c.decrypt dek envelope.ciphertext (c.record_data place))

  unfoldable pub rewrap : Keyring → Place → Bytes → Text → Result Text
  rewrap ring place nonce value = do
    raw ← open_sealed ring place value none
    envelope ← or_invalid (c.decode value)
    dek ← unwrap ring place envelope
    k ← key ring ring.active place.kind
    ok (
        c.encode (record envelope {
          key_version = ring.active;
          wrapped = c.encrypt k nonce dek (c.wrap_data place ring.active);
        }))
