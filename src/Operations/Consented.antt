-- ===== src/Operations/Consented.antt =====
-- What a consent is that packages/face-auth/src/facetech_auth/operations.py acts on, by its columns.
use factech.Base.{
  ℕ, true, Option, none, some, Member, string_eq, nat_beq, nat_beq_iff, ◌≡◌, sym, ap, subst, arith,
  Bool-cases, Option-cases, inl, inr,
}
use factech.Contracts.{Result, ok, ok-injective}
use factech.Database.{Db, Consent, first, first-eq_some}
use factech.Database.Tx.{outcome-cases}
use factech.Guard.{Access}
use factech.Operations.{consent, consent_of, unconsented}
use factech.Operations.Scan.{reconsent}

-- The person has agreed to authentication by template, in the present text, at this revision.
pub record IsConsent {F : Type 0} (access : Access) (revision : ℕ) (db : Db F) : Type 0 where
  pub row : Consent
  pub read : Member row db.consents
  pub of_tenant : row.tenant ≡ access.principal.tenant_id
  pub of_subject : row.subject_id ≡ access.target.id
  pub of_scope : row.scope ≡ "template_authentication"
  pub granted : row.granted ≡ true
  pub of_actor : row.actor_id ≡ access.principal.actor_id
  pub of_version : row.text_version ≡ "template-authentication-v1"
  pub of_revision : row.revision ≡ revision

-- The same where the operation has a consent.
abbrev pub IsConsentIf : {F : Type 0} → Option ℕ → Access → Db F → Type 0
IsConsentIf none access db = Unit {0}
IsConsentIf (some revision) access db = IsConsent access revision db

module _ {F : Type 0} where
  pub consent-ok :
      (access : Access) (n : ℕ) (db db' : Db F)
      → consent access db ≡ (ok n, db')
      → IsConsent access n db × (db' ≡ db)
  unfolding consent
  consent-ok access n db db' h = elim (Option-cases (first (consent_of access) db.consents)) [
    | inl e ↦ let h1 = rw e at h in absurd (cc)
    | inr (c, e) ↦
        let h1 = rw e at h in
        elim (Bool-cases (unconsented access c)) [
          | inl f ↦ let h2 = rw f at h1 in absurd (cc)
          | inr f ↦
              let h2 = rw f at h1 in
              let (m, q) = first-eq_some (consent_of access) db.consents c e in
              (
                record {
                  row = c;
                  read = m;
                  of_tenant =
                      ground (arith, q, string_eq.beq_iff c.tenant access.principal.tenant_id);
                  of_subject = ground (arith, q, string_eq.beq_iff c.subject_id access.target.id);
                  of_scope = ground (arith, q, string_eq.beq_iff c.scope "template_authentication");
                  granted = ground (arith, f);
                  of_actor =
                      ground (arith, f, string_eq.beq_iff c.actor_id access.principal.actor_id);
                  of_version =
                      ground
                        (arith, f, string_eq.beq_iff c.text_version "template-authentication-v1");
                  of_revision = ok-injective c.revision n (ap (λ (p : Result ℕ × Db F). p.0) h2);
                },
                sym (ap (λ (p : Result ℕ × Db F). p.1) h2),
              )
        ]
  ]

  pub reconsent-IsConsentIf :
      (revision : Option ℕ) (access : Access) (db : Db F)
      → reconsent revision access db ≡ (ok tt, db)
      → IsConsentIf revision access db
  unfolding reconsent
  reconsent-IsConsentIf none access db h = tt
  reconsent-IsConsentIf (some n) access db h = elim (outcome-cases (consent access db)) [
    | inl (d, s, e) ↦ let h1 = rw e at h in absurd (cc)
    | inr (m, s, e) ↦
        let h1 = rw e at h in
        let (c, same) = consent-ok access m db s e in
        elim (Bool-cases (nat_beq m n)) [
          | inl f ↦ subst (λ k. IsConsent access k db) ((nat_beq_iff m n).0 f) c
          | inr f ↦ let h2 = rw f at h1 in absurd (cc)
        ]
  ]
