-- ===== src/Relay/Presence.antt =====
-- internal/relay/presence.go.
use getsloth.Base.{ℕ, String, Option, none, some, List, [], ◌∷◌, ◌++◌, map, ◌==◌}
use getsloth.Protocol.{PresenceConnectionInfo, Msg}
use getsloth.Relay.Connection.{Connection, health_snapshot}
use getsloth.Relay.Session.{World, Event, to_all, to_host, live_viewers}

unfoldable pub host_info : String → Option ℕ → List PresenceConnectionInfo
host_info active none = []
host_info active (some h) =
    record {
      id = "host";
      role = "host";
      display_name = "";
      is_active_writer = active == "host";
      rtt_ms = none;
      quality = "";
    }
    ∷ []

unfoldable pub viewer_info : String → Connection → PresenceConnectionInfo
unfolding health_snapshot
viewer_info active v = record {
  id = v.id;
  role = "viewer";
  display_name = v.display_name;
  is_active_writer = v.id == active;
  rtt_ms = (health_snapshot v).0;
  quality = (health_snapshot v).1;
}

-- The roster: the host, then every authenticated viewer.
unfoldable pub roster : World → List PresenceConnectionInfo
roster w =
    host_info w.session.active_writer_id w.session.host
    ++ map (λ v. viewer_info w.session.active_writer_id (w.conns v)) (live_viewers w)

unfoldable pub broadcast_presence : World → List Event
broadcast_presence w =
    to_host (Msg.presence (roster w)) w.session.host
    ++ to_all (Msg.presence (roster w)) (live_viewers w)
