-- ===== src/Recovery/Restored.antt =====
-- What a restored database holds when its reads are opened.
use factech.Base.{
  Option, none, ◌<◌, ℕ, ◌+◌, Bool, true, false, not, ◌&&◌, some, List, [], ◌∷◌, String, any, filter,
  All, All-imp, All-Member, All-of_Member, Member, here, there, Member-of_any, ◌==◌, string_eq, ◌≡◌,
  ◌⊎◌, refl, sym, ap, subst, arith, Bool-cases, Option-cases, inl, inr,
}
use factech.Contracts.{Result, ok}
use factech.Database.{
  Db, purge_beq, Session, Resource, Challenge, Template, Operation, Consent, Deletion, Purge,
  delete_where, All-updated, All-update_where, All-update_from, All-filter_imp,
}
use factech.Database.Tx.{outcome-cases}
use factech.Lifecycle.{schedule, template_key, capture_rows, is_processing, is_capture}
use factech.Lifecycle.Expiry.{Mark, schedule_marks, schedule_marks_revokes}
use factech.Lifecycle.Revoke.{IsRevoked}
use factech.Operations.{is_after}
use factech.Recovery.{
  Snapshot, Summary, apply, check_templates, drop_template, capture_marks, recover, replay_ledger,
  replay_entry, revoke_entry, end_all, upsert_consents, is_kept, is_model, permits,
}

-- A template that may be used again.
abbrev pub is_usable : ℕ → List String → (Template → Bool) → List Consent → Template → Bool
is_usable now model_ids opens consents t = is_kept now consents t && is_model model_ids t && opens t

-- A template that may be used again: in use and unexpired, of a known model, with a ciphertext that
-- opens, and with a row in which its owner agrees to authentication by template.
pub record IsUsable (now : ℕ) (model_ids : List String) (opens : Template → Bool)
    (consents : List Consent) (t : Template) : Type 0 where
  pub in_use : t.active ≡ true
  pub unexpired : (e : ℕ) × (t.expires_at ≡ some e) × (now < e)
  pub of_model : Member t.model_fingerprint model_ids
  pub opens_up : opens t ≡ true
  pub agreed : Consent
  pub agreed_read : Member agreed consents
  pub of_tenant : agreed.tenant ≡ t.tenant
  pub of_subject : agreed.subject_id ≡ t.subject_id
  pub of_scope : agreed.scope ≡ "template_authentication"
  pub granted : agreed.granted ≡ true
  pub of_version : agreed.text_version ≡ "template-authentication-v1"
  pub of_owner : agreed.actor_id ≡ t.owner_actor_id

ahead : (now : ℕ) (o : Option ℕ) → is_after o now ≡ true → (e : ℕ) × (o ≡ some e) × (now < e)
ahead now none h = absurd (cc)
ahead now (some e) h = (e, refl, ground (arith, h))

IsUsable-of_test :
    (now : ℕ) (model_ids : List String) (opens : Template → Bool) (consents : List Consent)
    (t : Template)
    → is_usable now model_ids opens consents t ≡ true
    → IsUsable now model_ids opens consents t
unfolding is_kept permits
IsUsable-of_test now model_ids opens consents t h =
    let (c, m, q) = Member-of_any (permits t) consents (ground (arith, h)) in
    let (model, n, e) =
      Member-of_any (λ m'. m' == t.model_fingerprint) model_ids (ground (arith, h)) in
    record {
      in_use = ground (arith, h);
      unexpired = ahead now t.expires_at (ground (arith, h));
      of_model =
          subst (λ m'. Member m' model_ids) ((string_eq.beq_iff model t.model_fingerprint).0 e) n;
      opens_up = ground (arith, h);
      agreed = c;
      agreed_read = m;
      of_tenant = ground (arith, q, string_eq.beq_iff c.tenant t.tenant);
      of_subject = ground (arith, q, string_eq.beq_iff c.subject_id t.subject_id);
      of_scope = ground (arith, q, string_eq.beq_iff c.scope "template_authentication");
      granted = ground (arith, q);
      of_version = ground (arith, q, string_eq.beq_iff c.text_version "template-authentication-v1");
      of_owner = ground (arith, q, string_eq.beq_iff c.actor_id t.owner_actor_id);
    }

abbrev names : Resource → Mark → Bool
names r m = m.tenant == r.tenant && purge_beq m.kind Purge.capture && m.id == r.id

-- A capture in use is one of the marked.
abbrev IsMarked : List Mark → Resource → Type 0
IsMarked marks r = (is_capture r.kind && r.active) ≡ true → any (names r) marks ≡ true

marks_all :
    (rs : List Resource)
    → All (IsMarked (capture_marks (filter (λ (r : Resource). is_capture r.kind) rs))) rs
marks_all [] = tt
marks_all (r ∷ rs) =
    let p = λ (q : Resource). is_capture q.kind in
    elim (Bool-cases (is_capture r.kind)) [
      | inr e ↦
          let step : filter p (r ∷ rs) ≡ filter p rs = rw e refl in
          subst (λ l. All (IsMarked (capture_marks l)) (r ∷ rs)) (sym step)
            ((λ q. absurd (ground arith)), marks_all rs)
      | inl e ↦
          let step : filter p (r ∷ rs) ≡ r ∷ filter p rs = rw e refl in
          subst (λ l. All (IsMarked (capture_marks l)) (r ∷ rs)) (sym step)
            (
              (λ q.
                  ground (arith, string_eq.beq_iff r.tenant r.tenant, string_eq.beq_iff r.id r.id)),
              All-imp rs (λ u g q. ground (arith, g q)) (marks_all rs),
            )
    ]

capture-of_beq : (k : Purge) → purge_beq k Purge.capture ≡ true → k ≡ Purge.capture
capture-of_beq Purge.template h = absurd (cc)
capture-of_beq Purge.capture h = refl

module _ (now : ℕ) (model_ids : List String) (opens : Template → Bool) where
  abbrev IsPending : List Consent → List Template → Template → Type 0
  IsPending consents ts u = Member u ts ⊎ (is_usable now model_ids opens consents u ≡ true)

  not_head :
      (consents : List Consent) (t : Template) (ts : List Template) (u : Template)
      → IsPending consents (t ∷ ts) u
      → (u.id == t.id) ≡ false
      → IsPending consents ts u
  not_head consents t ts u (inl here) apart = absurd (ground (arith, string_eq.beq_iff t.id t.id))
  not_head consents t ts u (inl (there m)) apart = inl m
  not_head consents t ts u (inr q) apart = inr q

  head_usable :
      (consents : List Consent) (t : Template) (ts : List Template)
      → is_usable now model_ids opens consents t ≡ true
      → (u : Template) → IsPending consents (t ∷ ts) u
      → IsPending consents ts u
  head_usable consents t ts q u (inl here) = inr q
  head_usable consents t ts q u (inl (there m)) = inl m
  head_usable consents t ts q u (inr p) = inr p

ended_capture :
    (tenant id : String) (r : Resource)
    → tenant ≡ r.tenant
    → id ≡ r.id
    → (capture_rows tenant id r && r.active) ≡ false
    → (is_capture r.kind && r.active) ≡ false
ended_capture tenant id r a b h =
    ground (arith, string_eq.beq_iff r.tenant tenant, string_eq.beq_iff r.id id)

module _ {F : Type 0} where
  -- No session, nonce or operation of the backup goes on.
  abbrev pub IsQuiet : Db F → Type 0
  IsQuiet db =
      All (λ (s : Session). s.active ≡ false) db.sessions
      × All (λ (c : Challenge F). c.consumed ≡ true) db.challenges
      × All (λ (o : Operation). is_processing o.state ≡ false) db.operations

  end_all-IsQuiet : (db : Db F) → IsQuiet (end_all db)
  unfolding end_all
  end_all-IsQuiet db = (
    All-updated (λ (s : Session). s.active ≡ false) (λ s. s.active) _ db.sessions (λ s q. refl)
        (λ s q. q),
    All-updated (λ (c : Challenge F). c.consumed ≡ true) (λ c. not c.consumed) _ db.challenges
        (λ c q. refl) (λ c q. ground arith),
    All-updated (λ (o : Operation). is_processing o.state ≡ false) (λ o. is_processing o.state) _
        db.operations (λ o q. refl) (λ o q. q),
  )

  replay_entry-IsQuiet :
      (e : Deletion) (k : Purge) (db : Db F) → IsQuiet db → IsQuiet (revoke_entry k e db)
  replay_entry-IsQuiet e Purge.template db h = h
  replay_entry-IsQuiet e Purge.capture db h = h

  replay_ledger-IsQuiet :
      (ledger : List Deletion) (db : Db F) → IsQuiet db → IsQuiet (replay_ledger ledger db)
  unfolding replay_ledger replay_entry
  replay_ledger-IsQuiet [] db h = h
  replay_ledger-IsQuiet (e ∷ ledger) db h =
      replay_ledger-IsQuiet ledger (replay_entry e db) (replay_entry-IsQuiet e e.kind _ h)

  -- What the loop leaves alone.
  abbrev IsFrame : Db F → Db F → Type 0
  IsFrame db db' =
      (db'.sessions ≡ db.sessions)
      × (db'.challenges ≡ db.challenges)
      × (db'.operations ≡ db.operations)
      × (db'.consents ≡ db.consents)

  module _ (now : ℕ) (model_ids : List String) (opens : Template → Bool) where
    abbrev dropped : Template → Db F → Db F
    dropped t db = (drop_template now t db).1

    dropped-IsPending :
        (t : Template) (ts : List Template) (db : Db F)
        → All (IsPending now model_ids opens db.consents (t ∷ ts)) db.templates
        → All (IsPending now model_ids opens db.consents ts) (dropped t db).templates
    unfolding schedule delete_where
    dropped-IsPending t ts db h =
        All-filter_imp
          (λ (u : Template).
            ((u.id == t.id) ≡ true) ⊎ IsPending now model_ids opens db.consents (t ∷ ts) u)
          (IsPending now model_ids opens db.consents ts) (λ u. not (u.id == t.id)) _
          (λ u p q. elim p [
            | inl e ↦ absurd (ground arith)
            | inr g ↦ not_head now model_ids opens db.consents t ts u g (ground arith)
          ])
          (All-update_from (IsPending now model_ids opens db.consents (t ∷ ts))
            (λ (u : Template).
              ((u.id == t.id) ≡ true) ⊎ IsPending now model_ids opens db.consents (t ∷ ts) u)
            (template_key t.tenant t.id) (λ u. record u { active = false; revoked_at = some now })
            db.templates (λ u g q. inl (ground arith)) (λ u g q. inr g) h)

    check_templates-ok :
        (ts : List Template) (db db' : Db F)
        → check_templates now model_ids opens ts db ≡ (ok tt, db')
        → All (IsPending now model_ids opens db.consents ts) db.templates
        → All (λ u. is_usable now model_ids opens db'.consents u ≡ true) db'.templates
          × IsFrame db db'
    unfolding check_templates schedule delete_where
    check_templates-ok [] db db' h k =
        subst
          (λ d.
            All (λ u. is_usable now model_ids opens d.consents u ≡ true) d.templates × IsFrame db d)
          (ap (λ (p : Result (Unit {0}) × Db F). p.1) h)
          (
            All-imp db.templates (λ u p. elim p [ inl m ↦ elim m [ ] | inr q ↦ q ]) k,
            (refl, refl, refl, refl),
          )
    check_templates-ok (t ∷ ts) db db' h k = elim (Bool-cases (is_kept now db.consents t)) [
      | inl e ↦
          let h1 = rw e at h in
          elim (Bool-cases (is_model model_ids t && opens t)) [
            | inl f ↦
                let h2 = rw f at h1 in
                check_templates-ok ts db db' h2 (
                  All-imp db.templates
                    (head_usable now model_ids opens db.consents t ts (ground arith)) k)
            | inr f ↦ let h2 = rw f at h1 in absurd (cc)
          ]
      | inr e ↦
          let h1 = rw e at h in
          check_templates-ok ts (dropped t db) db' h1 (dropped-IsPending t ts db k)
    ]

  -- What holds where reads are opened.
  abbrev pub IsRestored : ℕ → List String → (Template → Bool) → Db F → Type 0
  IsRestored now model_ids opens db =
      IsQuiet db
      × All (IsUsable now model_ids opens db.consents) db.templates
      × All (λ (r : Resource). (is_capture r.kind && r.active) ≡ false) db.resources

  -- What the loop over the captures leaves alone.
  abbrev IsWideFrame : Db F → Db F → Type 0
  IsWideFrame db db' = IsFrame db db' × (db'.templates ≡ db.templates)

  captures-ok :
      (now : ℕ) (all_marks : List Mark) (rs : List Resource) (db db' : Db F)
      → schedule_marks (capture_marks rs) now db ≡ (ok tt, db')
      → All (IsMarked all_marks) db.resources
      → All (IsMarked all_marks) db'.resources × IsWideFrame db db'
  unfolding schedule_marks schedule
  captures-ok now all_marks [] db db' h k =
      subst (λ d. All (IsMarked all_marks) d.resources × IsWideFrame db d)
        (ap (λ (p : Result (Unit {0}) × Db F). p.1) h) (k, ((refl, refl, refl, refl), refl))
  captures-ok now all_marks (r ∷ rs) db db' h k = elim (Option-cases r.owner_actor_id) [
    | inl e ↦ let h1 = rw e at h in absurd (cc)
    | inr (actor, e) ↦
        let h1 = rw e at h in
        captures-ok now all_marks rs (schedule r.tenant Purge.capture r.id actor now db) db' h1 (
          All-update_where (IsMarked all_marks) (λ q. capture_rows r.tenant r.id q && q.active)
            (λ q. record q { active = false; generation = q.generation + 1 }) db.resources
            (λ q p g w. absurd (ground arith)) k)
  ]

  marked_ended :
      (marks : List Mark) (db : Db F) (r : Resource)
      → All (λ (m : Mark). IsRevoked m.tenant m.kind m.id db) marks
      → Member r db.resources
      → IsMarked marks r
      → (is_capture r.kind && r.active) ≡ false
  marked_ended marks db r revoked m marked = elim (Bool-cases (is_capture r.kind && r.active)) [
    | inr e ↦ e
    | inl e ↦
        let (k, km, q) = Member-of_any (names r) marks (marked e) in
        let of_k = All-Member (λ (m : Mark). IsRevoked m.tenant m.kind m.id db) revoked km in
        let kind : k.kind ≡ Purge.capture = capture-of_beq k.kind (ground arith) in
        let ended = subst (λ p. IsRevoked k.tenant p k.id db) kind of_k in
        ended_capture k.tenant k.id r (ground (arith, string_eq.beq_iff k.tenant r.tenant))
          (ground (arith, string_eq.beq_iff k.id r.id))
          (All-Member (λ (q : Resource). (capture_rows k.tenant k.id q && q.active) ≡ false) ended.0
            m)
  ]

  -- Where reads are opened, no session of the backup is active, no nonce is unspent and no operation is
  -- under way; every template is in use, unexpired, consented to by its owner, of a known model, and
  -- opens; no capture is in use.
  pub apply_restores :
      (snapshot : Snapshot) (now : ℕ) (model_ids : List String) (opens : Template → Bool)
      (counts : Summary) (db db' : Db F)
      → apply snapshot now model_ids opens db ≡ (ok counts, db')
      → IsRestored now model_ids opens db'
  unfolding apply recover
  apply_restores snapshot now model_ids opens counts db db' h =
      let mid = record (recover snapshot.entries db) {
        consents = upsert_consents snapshot.consents (recover snapshot.entries db).consents;
      } in
      let quiet = replay_ledger-IsQuiet snapshot.entries (end_all db) (end_all-IsQuiet db) in
      elim (outcome-cases (check_templates now model_ids opens mid.templates mid)) [
        | inl (d, s, e) ↦ let h1 = rw e at h in absurd (cc)
        | inr (u, s, e) ↦
            let h1 = rw e at h in
            let marks = capture_marks (filter (λ (r : Resource). is_capture r.kind) s.resources) in
            elim (outcome-cases (schedule_marks marks now s)) [
              | inl (d, t, f) ↦ let h2 = rw f at h1 in absurd (cc)
              | inr (v, t, f) ↦
                  let h2 = rw f at h1 in
                  let (usable, (fs, fc, fo, fr)) =
                    check_templates-ok now model_ids opens mid.templates mid s e (
                      All-of_Member (IsPending now model_ids opens mid.consents mid.templates)
                        mid.templates (λ x m. inl m)) in
                  let (marked, ((gs, gc, go, gr), gt)) =
                    captures-ok now marks (filter (λ (r : Resource). is_capture r.kind) s.resources)
                      s t f (marks_all s.resources) in
                  let revoked = schedule_marks_revokes marks now s t f in
                  let after = ap (λ (p : Result Summary × Db F). p.1) h2 in
                  subst (IsRestored now model_ids opens) after (
                    (rw (gs, fs) quiet.0, rw (gc, fc) quiet.1, rw (go, fo) quiet.2),
                    rw (gt, gr)
                        (All-imp s.templates (IsUsable-of_test now model_ids opens s.consents)
                          usable),
                    All-of_Member (λ (r : Resource). (is_capture r.kind && r.active) ≡ false)
                        t.resources
                        (λ r m.
                          marked_ended marks t r revoked m (All-Member (IsMarked marks) marked m)),
                  )
            ]
      ]
