-- ===== src/Tests/Kills.antt =====
-- The kill switch in concrete sessions.
use getsloth.Base.{none, some, [], ◌∷◌, ◌≡◌, refl, values}
use getsloth.Protocol.{Msg, auth_code_failed}
use getsloth.Relay.Connection.{new_connection}
use getsloth.Relay.Session.{World, send, live_viewers, new_session}
use getsloth.Relay.KillSwitch.{handle_kill_switch}
use getsloth.Relay.Auth.{handle_resume, handle_auth_response, auth_refused}
use getsloth.Relay.Auth.Revoked.{closes, among, kill_switch_revokes}
use getsloth.Relay.Server.{handle_viewer_message}
use getsloth.Relay.Server.Kicked.{kicked_still_types}
use getsloth.Tests.{frame, frames, open_session, open_world, world_of, answer_to, apart}

kill_switch_revokes_example :
    let (w', out) = handle_kill_switch open_world in
    (closes 2 out ≡ among 2 (values open_world.session.viewers))
    × (w'.conns ≡ open_world.conns)
    × (live_viewers w' ≡ [])
    × (handle_resume 9 3 (some "t1") w' ≡ (w', send 3 (auth_refused auth_code_failed 0) ∷ []))
    × (handle_auth_response 9 (answer_to "r1") (some "t") w' ≡ (w', []))
kill_switch_revokes_example = kill_switch_revokes open_world 9 3 2 "t1" (answer_to "r1") (some "t")

-- The first viewer is the writer.
abbrev steered_world : World
steered_world =
    world_of (record open_session { active_writer_id = "v1"; active_writer_role = "viewer" })

kicked_still_types_example :
    let w' = (handle_kill_switch steered_world).0 in
    handle_viewer_message frames 9 none 1 "a" (frame "input" "bHM=") w'
    ≡ (w', send 0 (Msg.input_forward "bHM=" "v1") ∷ [])
unfolding new_session new_connection
kicked_still_types_example =
    kicked_still_types frames (frame "input" "bHM=") refl 9 1 0 "a" "bHM=" none steered_world refl
      refl (apart "remote" "group" refl) refl refl
