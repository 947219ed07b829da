-- ===== src/Relay/Server/Machine.antt =====
-- The control model of docs/protocol.md as a machine of its own: who writes, which grid is the
-- canonical one, and what may change them. Relay/Server/Machine/Refines shows that the handlers
-- make only these moves.
pub mod Refines
pub mod Laws
use getsloth.Base.{ℕ, ◌-◌, ◌≤◌, String, Bool, true, ◌≡◌, ◌≢◌, ◌⊎◌}
use getsloth.Protocol.{session_mode_remote, session_mode_group}
use getsloth.Relay.Session.{Session, valid_terminal_size, host_lock_window}

pub record Machine : Type 0 where
  pub mode : String
  pub writer : String
  pub role : String
  pub cols : ℕ
  pub rows : ℕ
  pub host_cols : ℕ
  pub host_rows : ℕ
  pub reclaimed_at : ℕ

-- What the machine sees of a session.
abbrev pub machine : Session → Machine
machine s = record {
  mode = s.mode;
  writer = s.active_writer_id;
  role = s.active_writer_role;
  cols = s.cols;
  rows = s.rows;
  host_cols = s.host_cols;
  host_rows = s.host_rows;
  reclaimed_at = s.last_host_reclaim;
}

abbrev pub at_host : Machine → Machine
at_host m = record m { writer = "host"; role = "host"; cols = m.host_cols; rows = m.host_rows }

pub data Move (now : ℕ) (m n : Machine) : Type 0 where
  -- nothing changes
  stay : n ≡ m → Move now m n
  -- the host takes control, at any time
  reclaim : n ≡ record (at_host m) { reclaimed_at = now } → Move now m n
  -- a viewer takes control with its own grid: in a remote session, outside the host's window
  take :
      (id : String) (cols rows : ℕ)
      → id ≢ "host"
      → m.mode ≢ session_mode_group
      → host_lock_window ≤ now - m.reclaimed_at
      → valid_terminal_size cols rows ≡ true
      → n ≡ record m { writer = id; role = "viewer"; cols = cols; rows = rows }
      → Move now m n
  -- the viewer in control changes the grid
  drive :
      (cols rows : ℕ)
      → m.writer ≢ "host"
      → m.mode ≢ session_mode_group
      → valid_terminal_size cols rows ≡ true
      → n ≡ record m { cols = cols; rows = rows }
      → Move now m n
  -- the host's terminal changes while the host writes
  follow :
      (cols rows : ℕ)
      → m.role ≡ "host"
      → valid_terminal_size cols rows ≡ true
      → n ≡ record m { cols = cols; rows = rows; host_cols = cols; host_rows = rows }
      → Move now m n
  -- the host's terminal changes while a viewer writes
  remember :
      (cols rows : ℕ)
      → m.role ≢ "host"
      → valid_terminal_size cols rows ≡ true
      → n ≡ record m { host_cols = cols; host_rows = rows }
      → Move now m n
  -- the viewer in control is gone
  give_back : m.writer ≢ "host" → n ≡ at_host m → Move now m n

-- The host sets the mode and the grid of the session.
pub data Configured (m n : Machine) : Type 0 where
  configured :
      (mode : String) (cols rows : ℕ)
      → (mode ≡ session_mode_remote) ⊎ (mode ≡ session_mode_group)
      → valid_terminal_size cols rows ≡ true
      → n ≡ record m { mode = mode; cols = cols; rows = rows; host_cols = cols; host_rows = rows }
      → Configured m n
