-- ===== src/Lifecycle/Withdrawal.antt =====
-- What `withdraw` leaves of a person's templates, operations and captures when consent is taken back.
use factech.Base.{
  ℕ, ◌+◌, some, Bool, true, false, not, ◌&&◌, List, [], ◌∷◌, ◌++◌, String, map, filter, All,
  All-Member, All-of_Member, Member, here, there, filter-Member, Member-map, Member-append_left,
  Member-append_right, Member-of_any, string_eq, ◌==◌, ◌≡◌, arith, subst, Bool-cases, inl, inr,
}
use factech.Policy.{is_text}
use factech.Database.{
  Db, Purge, Template, Operation, Resource, Recording, RecordingState, All-updated,
  All-update_where,
}
use factech.Lifecycle.{
  schedule, schedule_all, withdraw, fail_operations, active_of, template_key, capture_rows,
  recording_key, is_processing, is_deleted, is_capture, distinct, one_of,
}
use factech.Lifecycle.Revoke.{schedule_all_revokes}

module _ (tenant subject : String) where
  -- Such a template of the subject is one of those.
  abbrev IsListed : List String → Template → Type 0
  IsListed ids t = active_of tenant subject t ≡ true → Member t.id ids

  unlisted :
      (ids : List String) (t : Template)
      → IsListed ids t
      → (Member t.id ids → (template_key tenant t.id t && t.active) ≡ false)
      → active_of tenant subject t ≡ false
  unlisted ids t listed revoked = elim (Bool-cases (active_of tenant subject t)) [
    | inl e ↦ ground (arith, revoked (listed e), string_eq.beq_iff t.id t.id)
    | inr e ↦ e
  ]

module _ {F : Type 0} (tenant subject actor : String) where
  schedule_all-IsListed :
      (all_ids ids : List String) (now : ℕ) (db : Db F)
      → All (IsListed tenant subject all_ids) db.templates
      → All
          (IsListed tenant subject all_ids)
          (schedule_all tenant Purge.template ids actor now db).templates
  unfolding schedule_all schedule
  schedule_all-IsListed all_ids [] now db h = h
  schedule_all-IsListed all_ids (i ∷ ids) now db h =
      schedule_all-IsListed all_ids ids now (schedule tenant Purge.template i actor now db) (
        All-update_where (IsListed tenant subject all_ids) (template_key tenant i)
          (λ t. record t { active = false; revoked_at = some now }) db.templates
          (λ t q g e. absurd (ground arith)) h)

  abbrev ids_of : Db F → List String
  ids_of db = map (λ (t : Template). t.id) (filter (active_of tenant subject) db.templates)

  -- Taking back the consent to template authentication takes every active template of the subject out
  -- of use, and ends every operation of the subject that is under way, in one transaction.
  pub withdraw_templates :
      (now : ℕ) (db : Db F)
      → All
          (λ t. active_of tenant subject t ≡ false)
          (withdraw tenant subject actor "template_authentication" now db).templates
        × All
            (λ (o : Operation).
              (o.tenant == tenant && o.subject_id == subject && is_processing o.state) ≡ false)
            (withdraw tenant subject actor "template_authentication" now db).operations
  unfolding withdraw fail_operations
  withdraw_templates now db = (
    All-of_Member _ _ (λ t m.
        unlisted tenant subject (ids_of db) t
          (All-Member (IsListed tenant subject (ids_of db))
            (schedule_all-IsListed (ids_of db) (ids_of db) now db start) m)
          (λ n.
            All-Member (λ (u : Template). (template_key tenant t.id u && u.active) ≡ false)
              (schedule_all_revokes tenant Purge.template (ids_of db) actor now db n) m)),
    All-updated
        (λ (o : Operation).
          (o.tenant == tenant && o.subject_id == subject && is_processing o.state) ≡ false)
        (λ o. o.tenant == tenant && o.subject_id == subject && is_processing o.state) _ _
        (λ o q. ground arith) (λ o q. q),
  )
    where
      start : All (IsListed tenant subject (ids_of db)) db.templates
      start = All-of_Member (IsListed tenant subject (ids_of db)) db.templates (λ t m e.
          Member-map (λ (u : Template). u.id) (filter-Member (active_of tenant subject) m e))

Member-again : {s x : String} (l : List String) → Member s (x ∷ l) → one_of x l ≡ true → Member s l
Member-again {s} l here e =
    let (y, n, q) = Member-of_any (λ t. t == s) l e in
    subst (λ z. Member z l) ((string_eq.beq_iff y s).0 q) n
Member-again l (there n) e = n

Member-distinct : {s : String} (l : List String) → Member s l → Member s (distinct l)
unfolding distinct
Member-distinct [] m = elim m [ ]
Member-distinct (x ∷ l) here = elim (Bool-cases (one_of x l)) [
  | inl e ↦ rw e (Member-distinct l (Member-again l here e))
  | inr e ↦ rw e here
]
Member-distinct (x ∷ l) (there m) = elim (Bool-cases (one_of x l)) [
  | inl e ↦ rw e (Member-distinct l m)
  | inr e ↦ rw e (there (Member-distinct l m))
]

module _ (tenant subject actor : String) where
  abbrev pub stored_of : Recording → Bool
  stored_of r = r.tenant == tenant && r.subject_id == subject && not (is_deleted r.state)

  abbrev pub captured_by : Resource → Bool
  captured_by r =
      r.tenant == tenant && is_text r.owner_actor_id actor && is_capture r.kind && r.active

  abbrev IsListedRecording : List String → Recording → Type 0
  IsListedRecording ids r = stored_of r ≡ true → Member r.id ids

  abbrev IsListedCapture : List String → Resource → Type 0
  IsListedCapture ids r = captured_by r ≡ true → Member r.id ids

  not_stored :
      (ids : List String) (r : Recording)
      → IsListedRecording ids r
      → (Member r.id ids → (recording_key tenant r.id r && not (is_deleted r.state)) ≡ false)
      → stored_of r ≡ false
  not_stored ids r listed revoked = elim (Bool-cases (stored_of r)) [
    | inl e ↦ ground (arith, revoked (listed e), string_eq.beq_iff r.id r.id)
    | inr e ↦ e
  ]

  not_captured :
      (ids : List String) (r : Resource)
      → IsListedCapture ids r
      → (Member r.id ids → (capture_rows tenant r.id r && r.active) ≡ false)
      → captured_by r ≡ false
  not_captured ids r listed revoked = elim (Bool-cases (captured_by r)) [
    | inl e ↦ ground (arith, revoked (listed e), string_eq.beq_iff r.id r.id)
    | inr e ↦ e
  ]

module _ {F : Type 0} (tenant subject actor : String) where
  schedule_all_captures :
      (all_ids ids : List String) (now : ℕ) (db : Db F)
      → All (IsListedRecording tenant subject actor all_ids) db.recordings
      → All (IsListedCapture tenant subject actor all_ids) db.resources
      → All
          (IsListedRecording tenant subject actor all_ids)
          (schedule_all tenant Purge.capture ids actor now db).recordings
        × All
            (IsListedCapture tenant subject actor all_ids)
            (schedule_all tenant Purge.capture ids actor now db).resources
  unfolding schedule_all schedule
  schedule_all_captures all_ids [] now db h k = (h, k)
  schedule_all_captures all_ids (i ∷ ids) now db h k =
      schedule_all_captures all_ids ids now (schedule tenant Purge.capture i actor now db)
        (All-update_where (IsListedRecording tenant subject actor all_ids) (recording_key tenant i)
          (λ r. record r { state = RecordingState.deleted }) db.recordings
          (λ r q g e. absurd (ground arith)) h)
        (All-update_where (IsListedCapture tenant subject actor all_ids)
          (λ r. capture_rows tenant i r && r.active)
          (λ r. record r { active = false; generation = r.generation + 1 }) db.resources
          (λ r q g e. absurd (ground arith)) k)

  abbrev recordings_of : Db F → List String
  recordings_of db =
      map (λ (r : Recording). r.id) (filter (stored_of tenant subject actor) db.recordings)

  abbrev captures_of : Db F → List String
  captures_of db =
      map (λ (r : Resource). r.id) (filter (captured_by tenant subject actor) db.resources)

  -- Taking back any other consent leaves no recording of the subject that is not deleted, and no
  -- active capture of the actor.
  pub withdraw_captures :
      (scope : String) (now : ℕ) (db : Db F)
      → (scope == "template_authentication") ≡ false
      → All
          (λ r. stored_of tenant subject actor r ≡ false)
          (withdraw tenant subject actor scope now db).recordings
        × All
            (λ r. captured_by tenant subject actor r ≡ false)
            (withdraw tenant subject actor scope now db).resources
  unfolding withdraw
  withdraw_captures scope now db h = rw h (
    All-of_Member _ _ (λ r m.
        not_stored tenant subject actor ids r
          (All-Member (IsListedRecording tenant subject actor ids) listed.0 m)
          (λ n.
            All-Member
              (λ (u : Recording). (recording_key tenant r.id u && not (is_deleted u.state)) ≡ false)
              (schedule_all_revokes tenant Purge.capture ids actor now db n).1 m)),
    All-of_Member _ _ (λ r m.
        not_captured tenant subject actor ids r
          (All-Member (IsListedCapture tenant subject actor ids) listed.1 m)
          (λ n.
            All-Member (λ (u : Resource). (capture_rows tenant r.id u && u.active) ≡ false)
              (schedule_all_revokes tenant Purge.capture ids actor now db n).0 m)),
  )
    where
      ids : List String
      ids = distinct (recordings_of db ++ captures_of db)

      listed :
          All
            (IsListedRecording tenant subject actor ids)
            (schedule_all tenant Purge.capture ids actor now db).recordings
          × All
              (IsListedCapture tenant subject actor ids)
              (schedule_all tenant Purge.capture ids actor now db).resources
      listed =
          schedule_all_captures ids ids now db
            (All-of_Member (IsListedRecording tenant subject actor ids) db.recordings (λ r m e.
              Member-distinct _ (
                Member-append_left (captures_of db) (
                  Member-map (λ (u : Recording). u.id)
                    (filter-Member (stored_of tenant subject actor) m e)))))
            (All-of_Member (IsListedCapture tenant subject actor ids) db.resources (λ r m e.
              Member-distinct _ (
                Member-append_right (recordings_of db) (
                  Member-map (λ (u : Resource). u.id)
                    (filter-Member (captured_by tenant subject actor) m e)))))
