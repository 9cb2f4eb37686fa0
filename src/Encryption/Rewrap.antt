-- ===== src/Encryption/Rewrap.antt =====
-- What was sealed opens, and goes on opening when the ring's active key changes.
use factech.Base.{
  Bool, true, not, Option, none, some, String, ◌==◌, string_eq, erase, lookup-erase, ◌||◌, ◌≡◌,
  refl, sym, ap, ◌∙◌, subst, Bool-cases, inl, inr,
}
use factech.Contracts.{ok, ok-injective, then-ok}
use factech.Encryption.{
  Bytes, Keyring, key, Envelope, Place, Crypto, IsCrypto, or_invalid, is_expected, seal, retire,
  unwrap, open_sealed, rewrap,
}

or_invalid-ok : {A : Type 0} (o : Option A) (a : A) → or_invalid o ≡ ok a → o ≡ some a
or_invalid-ok none a h = absurd (cc)
or_invalid-ok (some b) a h = ap some (ok-injective b a h)

-- A ring loses no key but the one that is retired, which is not its active one.
retire-key :
    (ring next : Keyring) (version purpose : String)
    (references backups_verified backup_references : Bool) (k : Bytes)
    → retire ring version references backups_verified backup_references ≡ ok next
    → key ring ring.active purpose ≡ ok k
    → key next ring.active purpose ≡ ok k
unfolding retire key
retire-key ring next version purpose references backups_verified backup_references k h e =
    elim (Bool-cases (version == ring.active)) [
      | inl f ↦ let h' = rw f at h in absurd (cc)
      | inr f ↦ elim (Bool-cases (references || not backups_verified || backup_references)) [
        | inl g ↦ let h' = rw (f, g) at h in absurd (cc)
        | inr g ↦
            subst (λ (r : Keyring). key r ring.active purpose ≡ ok k)
              (ok-injective (record ring { keys = erase version ring.keys }) next (rw (f, g) at h))
              (rw (lookup-erase version ring.active ring.keys, f) e)
      ]
    ]

same_key :
    (ring : Keyring) (new version purpose : String)
    → key (record ring { active = new }) version purpose ≡ key ring version purpose
unfolding key
same_key ring new version purpose = refl

module _ {Text : Type 0} (c : Crypto Text) (laws : IsCrypto c) where
  -- An envelope of the version.
  abbrev made : Place → Bytes → String → Bytes → Bytes → Bytes → Envelope
  made place k version nonce dek ciphertext = record {
    key_version = version;
    wrapped = c.encrypt k nonce dek (c.wrap_data place version);
    ciphertext = ciphertext;
  }

  open_made :
      (ring : Keyring) (place : Place) (k nonce dek ciphertext : Bytes) (version : String)
      (wanted : Option String)
      → key ring version place.kind ≡ ok k
      → is_expected wanted version ≡ true
      → open_sealed c ring place (c.encode (made place k version nonce dek ciphertext)) wanted
        ≡ or_invalid (c.decrypt dek ciphertext (c.record_data place))
  unfolding open_sealed
  open_made ring place k nonce dek ciphertext version wanted h w =
      rw
        (
          laws.decode-encode (made place k version nonce dek ciphertext),
          w,
          h,
          laws.decrypt-encrypt k nonce dek (c.wrap_data place version),
        )
        refl

  -- What was sealed for a place opens there under any ring that has the key, and gives what was sealed.
  sealed-opens :
      (ring other : Keyring) (place : Place) (dek wrap_nonce data_nonce raw : Bytes) (value : Text)
      → seal c ring place dek wrap_nonce data_nonce raw ≡ ok value
      → key other ring.active place.kind ≡ key ring ring.active place.kind
      → open_sealed c other place value none ≡ ok raw
  unfolding seal
  sealed-opens ring other place dek wrap_nonce data_nonce raw value h same =
      let (k, e, h1) = then-ok (key ring ring.active place.kind) _ value h in
      subst (λ v. open_sealed c other place v none ≡ ok raw) (ok-injective _ value h1)
        (open_made other place k wrap_nonce dek (c.encrypt dek data_nonce raw (c.record_data place))
            ring.active none (same ∙ e) refl
          ∙ ap or_invalid (laws.decrypt-encrypt dek data_nonce raw (c.record_data place)))

  -- What a call of `rewrap` that returns has found and made.
  rewrap-made :
      (ring : Keyring) (place : Place) (nonce : Bytes) (value next : Text)
      → rewrap c ring place nonce value ≡ ok next
      → (k : Bytes) × (dek : Bytes) × (ciphertext : Bytes) × (raw : Bytes) × (key ring ring.active
            place.kind
          ≡ ok k)
        × (c.encode (made place k ring.active nonce dek ciphertext) ≡ next)
        × (open_sealed c ring place value none ≡ ok raw)
        × (or_invalid (c.decrypt dek ciphertext (c.record_data place)) ≡ ok raw)
  unfolding rewrap open_sealed
  rewrap-made ring place nonce value next h =
      let (raw, opened, h1) = then-ok (open_sealed c ring place value none) _ next h in
      let (envelope, e, h2) = then-ok (or_invalid (c.decode value)) _ next h1 in
      let (dek, u, h3) = then-ok (unwrap c ring place envelope) _ next h2 in
      let (k, f, h4) = then-ok (key ring ring.active place.kind) _ next h3 in
      (k, dek, envelope.ciphertext, raw, f, ok-injective _ next h4, opened, rw (e, u) at opened)

  -- The change of keys: a record that was sealed under one active key and rewrapped under another
  -- opens to what was sealed after the retirement of the old key, or of any key that may be retired.
  pub rotation_keeps :
      (ring last : Keyring) (place : Place) (new version : String)
      (dek wrap_nonce data_nonce nonce raw : Bytes) (value next : Text)
      (references backups_verified backup_references : Bool)
      → seal c ring place dek wrap_nonce data_nonce raw ≡ ok value
      → rewrap c (record ring { active = new }) place nonce value ≡ ok next
      → retire (record ring { active = new }) version references backups_verified backup_references
        ≡ ok last
      → open_sealed c last place next none ≡ ok raw
  rotation_keeps ring last place new version dek wrap_nonce data_nonce nonce raw value next
        references backups_verified backup_references sealed rewrapped retired =
      let ring2 = record ring { active = new } in
      let (k, dek2, ciphertext, raw2, e, same, opened, inner) =
        rewrap-made ring2 place nonce value next rewrapped in
      let opens : open_sealed c ring2 place value none ≡ ok raw =
        sealed-opens ring ring2 place dek wrap_nonce data_nonce raw value sealed
          (same_key ring new ring.active place.kind) in
      subst (λ v. open_sealed c last place v none ≡ ok raw) same
        (open_made last place k nonce dek2 ciphertext new none
            (retire-key ring2 last version place.kind references backups_verified backup_references
              k retired e)
            refl
          ∙ inner
          ∙ sym opened
          ∙ opens)
