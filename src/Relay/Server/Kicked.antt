-- ===== src/Relay/Server/Kicked.antt =====
-- What a viewer whom the kill switch disconnects can still do before the relay notices that its
-- connection is closed.
use getsloth.Base.{
  ℕ, String, Option, ◌∙◌, true, some, [], ◌∷◌, ◌≡◌, ◌≢◌, refl, ap, ne→eq_false, eq→eq_true,
}
use getsloth.Protocol.{Msg, session_mode_group}
use getsloth.Relay.Session.{World, send}
use getsloth.Relay.Control.{handle_input}
use getsloth.Relay.KillSwitch.{handle_kill_switch, kill_session}
use getsloth.Relay.Server.{Decoder, handle_viewer_message, handle_member_message}

writer_input :
    (conn h : ℕ) (text : String) (w : World)
    → w.session.host ≡ some h
    → w.session.mode ≢ session_mode_group
    → w.session.active_writer_id ≡ (w.conns conn).id
    → handle_input conn (some text) w ≡ send h (Msg.input_forward text (w.conns conn).id) ∷ []
unfolding handle_input
writer_input conn h text w host remote writer =
    rw
      (
        ne→eq_false w.session.mode session_mode_group remote,
        eq→eq_true w.session.active_writer_id (w.conns conn).id writer,
        host,
      )
      refl

module _ {Raw : Type 0} (d : Decoder Raw) (raw : Raw) (typed : d.envelope raw ≡ some "input") where
  input_arrives :
      (now conn : ℕ) (addr text : String) (random : Option String) (w : World)
      → (w.conns conn).authenticated ≡ true
      → d.input_data raw ≡ some text
      → handle_viewer_message d now random conn addr raw w ≡ (w, handle_input conn (some text) w)
  unfolding handle_viewer_message handle_member_message
  input_arrives now conn addr text random w joined decoded =
      rw (typed, joined, decoded, handle_viewer_message) refl

  -- The kill switch does not take the writer's right away: when the message of a viewer who was the
  -- writer has already arrived, the relay still forwards its input to the host.
  pub kicked_still_types :
      (now conn h : ℕ) (addr text : String) (random : Option String) (w : World)
      → (w.conns conn).authenticated ≡ true
      → w.session.host ≡ some h
      → w.session.mode ≢ session_mode_group
      → w.session.active_writer_id ≡ (w.conns conn).id
      → d.input_data raw ≡ some text
      → let w' = (handle_kill_switch w).0 in
        handle_viewer_message d now random conn addr raw w'
        ≡ (w', send h (Msg.input_forward text (w.conns conn).id) ∷ [])
  unfolding handle_kill_switch kill_session
  kicked_still_types now conn h addr text random w joined host remote writer decoded =
      let w' = (handle_kill_switch w).0 in
      input_arrives now conn addr text random w' joined decoded
      ∙ ap (λ out. (w', out)) (writer_input conn h text w' host remote writer)
