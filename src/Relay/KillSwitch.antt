-- ===== src/Relay/KillSwitch.antt =====
-- internal/relay/killswitch.go.
use getsloth.Base.{ℕ, String, List, [], ◌∷◌, ◌++◌, Map, values}
use getsloth.Protocol.{Msg, reason_kill_switch, close_kicked}
use getsloth.Relay.RateLimit.{RateLimiter, release}
use getsloth.Relay.Session.{World, Session, PendingAuth, Event, send, close, Reply}
use getsloth.Relay.Presence.{broadcast_presence}

-- Every attempt that awaits a verdict gives its slot back.
unfoldable pub release_all : String → Map PendingAuth → RateLimiter → RateLimiter
release_all session_id [] r = r
release_all session_id ((request, p) ∷ pending) r =
    release_all session_id pending (release session_id p.remote_addr r)

abbrev pub kick : List ℕ → List Event
kick [] = []
kick (v ∷ vs) = send v (Msg.kicked reason_kill_switch) ∷ close v close_kicked "kicked" ∷ kick vs

unfoldable pub kill_session : Session → Session
kill_session s = record s {
  viewers = [];
  tokens = [];
  remote_viewer_id = "";
  remote_slot_expiry = 0;
  pending_auth = [];
}

unfoldable pub handle_kill_switch : World → Reply
unfolding kill_session release_all
handle_kill_switch w =
    let s = w.session in
    let w' = record w {
      session = kill_session s;
      limiter = release_all s.id s.pending_auth w.limiter;
    } in
    (w', kick (values s.viewers) ++ broadcast_presence w')
