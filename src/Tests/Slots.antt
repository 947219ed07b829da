-- ===== src/Tests/Slots.antt =====
-- The place of a remote session, and reconnecting, in concrete sessions.
use getsloth.Base.{◌+◌, true, none, some, [], ◌∷◌, ◌≡◌, ◌≢◌, refl, arith, lookup}
use getsloth.Protocol.{auth_code_failed, auth_code_occupied}
use getsloth.Relay.Session.{World, send, new_session, reconnect_window}
use getsloth.Relay.Connection.{new_connection}
use getsloth.Relay.Control.{handle_viewer_disconnect}
use getsloth.Relay.Auth.{auth_refused, handle_auth_response, handle_resume, token_expired}
use getsloth.Relay.Auth.Slot.{ghost_keeps_slot}
use getsloth.Relay.Auth.Resume.{resume_in_time, resume_too_late, stale_disconnect_evicts, gone}
use getsloth.Tests.{
  open_world, waiting_world, answer_to, attempt_of_one, attempt_of_two, token_of_one, apart,
}

ghost_keeps_slot_example :
    let gone = (handle_viewer_disconnect 5 1 waiting_world).0 in
    let w' = (handle_auth_response 6 (answer_to "r1") (some "t") gone).0 in
    (lookup "v1" w'.session.viewers ≡ none)
    × (w'.session.remote_viewer_id ≡ "v1")
    × ((handle_auth_response 900 (answer_to "r2") (some "u") w').1
        ≡ send 2 (auth_refused auth_code_occupied 0) ∷ [])
unfolding lookup new_session new_connection
ghost_keeps_slot_example =
    ghost_keeps_slot 5 6 900 1 (answer_to "r1") (answer_to "r2") "t" "u" attempt_of_one
      attempt_of_two waiting_world refl refl refl refl (apart "v1" "" refl) refl refl
      (apart "v2" "v1" refl) refl (apart "r2" "r1" refl) refl

abbrev back : World
back = (handle_resume 10 3 (some "t1") (gone 7 10 1 3 "t1" token_of_one open_world)).0

resume_in_time_example :
    (lookup "v1" back.session.viewers ≡ some 3)
    × ((back.conns 3).id ≡ "v1")
    × ((back.conns 3).authenticated ≡ true)
    × (back.session.active_writer_id ≢ "v1")
unfolding lookup new_session new_connection
resume_in_time_example =
    resume_in_time 7 10 1 3 "t1" token_of_one open_world refl refl refl (apart "v1" "host" refl)
      (omega arith)

resume_too_late_example :
    let w' = gone 7 (8 + reconnect_window) 1 3 "t1" token_of_one open_world in
    let (w'', out) = handle_resume (8 + reconnect_window) 3 (some "t1") w' in
    (out ≡ send 3 (auth_refused auth_code_failed 0) ∷ [])
    × (lookup "t1" w''.session.tokens ≡ none)
    × (w''.conns ≡ w'.conns)
    × (w''.session.viewers ≡ w'.session.viewers)
unfolding lookup new_session new_connection
resume_too_late_example =
    resume_too_late 7 (8 + reconnect_window) 1 3 "t1" token_of_one open_world refl refl refl
      (omega arith)

stale_disconnect_evicts_example :
    let resumed = (handle_resume 10 3 (some "t1") open_world).0 in
    let w' = (handle_viewer_disconnect 7 1 resumed).0 in
    (lookup "v1" resumed.session.viewers ≡ some 3)
    × (lookup "v1" w'.session.viewers ≡ none)
    × ((w'.conns 3).id ≡ "v1")
    × ((w'.conns 3).authenticated ≡ true)
unfolding lookup new_session new_connection token_expired
stale_disconnect_evicts_example =
    stale_disconnect_evicts 7 10 1 3 "t1" token_of_one open_world (λ e. ground arith) refl refl refl
