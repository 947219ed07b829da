-- ===== src/Host/Status/Ops.antt =====
-- The operations of `hostSessionStatus`.
use getsloth.Base.{
  String, Bool, true, false, not, ◌&&◌, ◌||◌, none, some, get_or, List, [], ◌∷◌, map, ◌==◌,
  if◌then◌else◌, Map, lookup, insert,
}
use getsloth.Protocol.{PresenceConnectionInfo, ControlChangedMsg, viewer_quality_unknown}
use getsloth.Host.Status.{
  Viewer, Snapshot, Status, Platform, ◌+++◌, append_event, append_events, named,
  safe_terminal_label, render_title, print,
}

-- The names of the viewers that the previous map does not have.
unfoldable pub joined_names : Map String → Map String → List String
joined_names previous [] = []
joined_names previous ((id, name) ∷ viewers) =
    let rest = joined_names previous viewers in
    elim (lookup id previous) [ none ↦ name ∷ rest | some _ ↦ rest ]

abbrev pub is_controller : Status → String → Bool
is_controller s id = s.active_writer_role == "viewer" && s.active_writer_id == id

unfoldable pub snapshot_viewers : Status → Map String → List Viewer
snapshot_viewers s [] = []
snapshot_viewers s ((id, name) ∷ viewers) =
    let health = get_or (lookup id s.health) (record { rtt_ms = none; quality = "" }) in
    record {
      id = id;
      name = name;
      is_controller = is_controller s id;
      rtt_ms = health.rtt_ms;
      quality = health.quality;
    }
    ∷ snapshot_viewers s viewers

-- Any of the operations that change the status.
pub data Op : Type 0 where
  invites : (url password : String) → Op
  qr_invites : (url : String) → Op
  presence : (connections : List PresenceConnectionInfo) → Op
  control : (m : ControlChangedMsg) → Op
  chat : (sender text : String) → Op
  kill_switch : Op
  disconnects : Op
  prints : Op

unfoldable pub set_invite : String → String → Status → Status
set_invite url password s = record s { invite_url = url; password = password }

unfoldable pub set_qr_invite : String → Status → Status
set_qr_invite url s = record s { qr_invite_url = url }

unfoldable pub note_writer : PresenceConnectionInfo → Status → Status
note_writer c s =
    if c.is_active_writer
    then record s { active_writer_id = c.id; active_writer_role = c.role }
    else s

abbrev pub control_event : ControlChangedMsg → Status → String
control_event m s =
    if m.active_writer_role == "host"
    then "Host reclaimed control"
    else named (get_or (lookup m.active_writer_id s.viewers) "") "Viewer" +++ " took control"

module _ (p : Platform) where
  unfoldable pub new_status : String → Status
  unfolding render_title
  new_status mode = render_title p (record {
    mode = mode;
    invite_url = "";
    qr_invite_url = "";
    password = "";
    viewers = [];
    health = [];
    events = [];
    active_writer_id = "host";
    active_writer_role = "host";
    live = true;
    written = [];
  })

  -- One turn of the loop over the roster.
  unfoldable pub note_viewer : PresenceConnectionInfo → Status → Status
  unfolding safe_terminal_label
  note_viewer c s =
      if c.role == "viewer"
      then record s {
        viewers = insert c.id (safe_terminal_label p (named c.display_name "viewer")) s.viewers;
        health =
            insert c.id
              (record { rtt_ms = c.rtt_ms; quality = named c.quality viewer_quality_unknown })
              s.health;
      }
      else s

  unfoldable pub note_connections : List PresenceConnectionInfo → Status → Status
  unfolding note_viewer note_writer
  note_connections [] s = s
  note_connections (c ∷ cs) s = note_connections cs (note_writer c (note_viewer c s))

  unfoldable pub update_presence : List PresenceConnectionInfo → Status → Status
  unfolding note_connections joined_names append_events render_title
  update_presence connections s =
      let s' = note_connections connections (record s { viewers = []; health = [] }) in
      let joined =
        map (λ name. name +++ " joined") (p.sort_strings (joined_names s.viewers s'.viewers)) in
      render_title p (append_events joined s')

  unfoldable pub update_control : ControlChangedMsg → Status → Status
  unfolding append_event render_title
  update_control m s =
      let s' = record s {
        active_writer_id = m.active_writer_id;
        active_writer_role = m.active_writer_role;
      } in
      render_title p (
        if not (s.active_writer_id == m.active_writer_id)
          || not (s.active_writer_role == m.active_writer_role)
        then append_event (control_event m s) s'
        else s')

  unfoldable pub note_chat : String → String → Status → Status
  unfolding append_event safe_terminal_label render_title
  note_chat sender text s = render_title p (
      append_event
        ("Chat from " +++ safe_terminal_label p sender +++ ": " +++ safe_terminal_label p text) s)

  unfoldable pub note_kill_switch : Status → Status
  unfolding append_event render_title
  note_kill_switch s =
      render_title p (append_event "Host triggered kill switch - viewers disconnected" s)

  unfoldable pub set_disconnected : Status → Status
  unfolding render_title
  set_disconnected s = render_title p (record s { live = false })

  unfoldable pub snapshot : Status → Snapshot
  unfolding snapshot_viewers
  snapshot s = record {
    live = s.live;
    mode = s.mode;
    invite_url = s.invite_url;
    qr_invite_url = s.qr_invite_url;
    password = s.password;
    controller_id = s.active_writer_id;
    controller_role = s.active_writer_role;
    viewers = p.sort_viewers (snapshot_viewers s s.viewers);
    events = s.events;
  }

  unfoldable pub apply_op : Op → Status → Status
  apply_op (invites url password) s = set_invite url password s
  apply_op (qr_invites url) s = set_qr_invite url s
  apply_op (presence connections) s = update_presence connections s
  apply_op (control m) s = update_control m s
  apply_op (chat sender text) s = note_chat sender text s
  apply_op kill_switch s = note_kill_switch s
  apply_op disconnects s = set_disconnected s
  apply_op prints s = print p s

  unfoldable pub apply_ops : List Op → Status → Status
  unfolding apply_op
  apply_ops [] s = s
  apply_ops (op ∷ ops) s = apply_ops ops (apply_op op s)
