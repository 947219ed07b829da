-- ===== src/Tests/Consoles.antt =====
-- The console's history and charts at concrete samples.
use getsloth.Base.{true, false, none, some, List, []}
use getsloth.Host.Status.{Viewer, Snapshot}

abbrev pub snapshot_of : List Viewer → Snapshot
snapshot_of viewers = record {
  live = true;
  mode = "remote";
  invite_url = "";
  qr_invite_url = "";
  password = "";
  controller_id = "host";
  controller_role = "host";
  viewers = viewers;
  events = [];
}

abbrev ann : Viewer
ann = record { id = "v1"; name = "ann"; is_controller = false; rtt_ms = some 40; quality = "good" }

abbrev bob : Viewer
bob = record { id = "v2"; name = "bob"; is_controller = false; rtt_ms = none; quality = "" }
