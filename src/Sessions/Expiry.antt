-- ===== src/Sessions/Expiry.antt =====
-- What `cleanup_expired_sessions` of src/services/platform.py leaves in the table.
use disposable_compute_platf.Prelude.{
  ℕ, String, ◌≡◌, true, false, none, some, List, [], ◌∷◌, arith, Option-cases, inl, inr,
  if◌then◌else◌, eq_iff, str_eq, contains,
}
use disposable_compute_platf.Prelude.Dict.{Dict, get, put, get-put, get-del}
use disposable_compute_platf.Prelude.Float.{Float}
use disposable_compute_platf.Sessions.Types.{SessionStatus, Session, SessionManager}
use disposable_compute_platf.Sessions.Lifecycle.{
  update_session, begin_destroy, finish_destroy, destroy_session, is_expired, expired_ids,
  remove_session, remove_sessions, cleanup_expired_sessions,
}

module _ {F : Type 0} (fl : Float F) (now : ℕ) where
  contains-expired_ids :
      (d : Dict Session) (i : String) (s : Session)
      → get i d ≡ some s
      → is_expired fl now s ≡ true
      → contains (expired_ids fl now d) i ≡ true
  unfolding expired_ids contains get
  contains-expired_ids [] i s e x = cc
  contains-expired_ids ((j, t) ∷ d) i s e x =
      ground (arith, contains-expired_ids d i s, eq_iff i j, eq_iff j i)

  -- Removing one session touches no other.
  get-remove_session :
      (m : SessionManager F) (i j : String)
      → get j (remove_session fl now m i).sessions ≡ (if str_eq i j then none else get j m.sessions)
  unfolding remove_session destroy_session begin_destroy finish_destroy update_session
  get-remove_session m i j = elim (Option-cases (get i m.sessions)) [
    | inl e ↦ ground (arith, eq_iff i j, get-del i j m.sessions)
    | inr (s, e) ↦
        let stopping = record s { destroy_lock = true; status = SessionStatus.stopping } in
        let d = put i stopping m.sessions in
        let gone = record s {
          destroy_lock = false;
          status = SessionStatus.destroyed;
          updated_at = now;
        } in
        ground (
          arith,
          eq_iff i j,
          eq_iff i i,
          get-put i i stopping m.sessions,
          get-put i j stopping m.sessions,
          get-put i j gone d,
          get-del i j m.sessions,
          get-del i j (put i gone d),
        )
  ]

  get-remove_sessions :
      (m : SessionManager F) (ids : List String) (j : String)
      → get j (remove_sessions fl now m ids).sessions
        ≡ (if contains ids j then none else get j m.sessions)
  unfolding remove_sessions contains
  get-remove_sessions m [] j = ground arith
  get-remove_sessions m (i ∷ ids) j = ground (
    arith,
    eq_iff i j,
    eq_iff j i,
    get-remove_session m i j,
    get-remove_sessions (remove_session fl now m i) ids j,
  )

  -- Each session that is in the table after a clean-up has not expired at that time, and was in
  -- the table before, unchanged.
  pub cleanup_expired_sessions-live :
      (m : SessionManager F) (i : String) (s : Session)
      → get i (cleanup_expired_sessions fl now m).0.sessions ≡ some s
      → (is_expired fl now s ≡ false) × (get i m.sessions ≡ some s)
  unfolding cleanup_expired_sessions
  cleanup_expired_sessions-live m i s e = ground (
    arith,
    get-remove_sessions m (expired_ids fl now m.sessions) i,
    contains-expired_ids m.sessions i s,
  )
