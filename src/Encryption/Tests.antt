-- ===== src/Encryption/Tests.antt =====
-- A record through a change of keys, with a cipher that adds nothing and envelopes in place of JSON.
use factech.Base.{true, false, none, some, [], ◌∷◌, lookup, erase, ◌≡◌, refl}
use factech.Contracts.{ok, err}
use factech.Encryption.{
  Keyring, Envelope, Place, Crypto, IsCrypto, key_failure, key, retire, seal, open_sealed, rewrap,
}
use factech.Encryption.Rewrap.{rotation_keeps}

abbrev plain : Crypto Envelope
plain = record {
  encrypt = λ k nonce raw aad. raw;
  decrypt = λ k value aad. some value;
  encode = λ e. e;
  decode = λ e. some e;
  wrap_data = λ place version. [];
  record_data = λ place. [];
}

plain-IsCrypto : IsCrypto plain
plain-IsCrypto = record { decrypt-encrypt = λ k nonce raw aad. refl; decode-encode = λ e. refl }

abbrev ring_one : Keyring
ring_one = record {
  keys = ("v1", 1 ∷ []) ∷ ("v2", 2 ∷ []) ∷ [];
  active = "v1";
  purpose = "template";
}

abbrev place_one : Place
place_one = record { tenant = "t1"; kind = "template"; identity = "f1" }

abbrev sealed_one : Envelope
sealed_one = record { key_version = "v1"; wrapped = 7 ∷ []; ciphertext = 9 ∷ [] }

sealed : seal plain ring_one place_one (7 ∷ []) [] [] (9 ∷ []) ≡ ok sealed_one
unfolding seal key lookup
sealed = refl

rewrapped :
    rewrap plain (record ring_one { active = "v2" }) place_one [] sealed_one
    ≡ ok (record sealed_one { key_version = "v2" })
unfolding rewrap open_sealed key lookup
rewrapped = refl

abbrev ring_two : Keyring
ring_two = record { keys = ("v2", 2 ∷ []) ∷ []; active = "v2"; purpose = "template" }

retired : retire (record ring_one { active = "v2" }) "v1" false true false ≡ ok ring_two
unfolding retire erase
retired = refl

-- The old envelope does not open with the new ring.
old_refused :
    open_sealed plain ring_two place_one sealed_one none ≡ err (key_failure "KEY_UNAVAILABLE")
unfolding open_sealed key lookup
old_refused = refl

rotation_keeps_example :
    open_sealed plain ring_two place_one (record sealed_one { key_version = "v2" }) none
    ≡ ok (9 ∷ [])
rotation_keeps_example =
    rotation_keeps plain plain-IsCrypto ring_one ring_two place_one "v2" "v1" (7 ∷ []) [] [] []
      (9 ∷ []) sealed_one (record sealed_one { key_version = "v2" }) false true false sealed
      rewrapped retired
