-- ===== src/Relay/Connection.antt =====
-- internal/relay/connection.go and `healthQuality` of health.go. The WebSocket below a connection
-- is not modelled: what is written to it is a list of events (Relay/World). `mu` makes each method
-- one step. Times are nanoseconds since the zero `time.Time`.
pub mod Health
use getsloth.Base.{
  ℕ, ◌-◌, ◌*◌, ◌/◌, String, Bool, true, false, not, ◌||◌, Option, none, some, ◌==◌, ltb, leb,
  if◌then◌else◌,
}
use getsloth.Protocol.{
  viewer_quality_unknown, viewer_quality_good, viewer_quality_laggy, viewer_quality_stalled,
}

abbrev pub millisecond : ℕ
millisecond = 1000000

abbrev pub health_good_limit : ℕ
health_good_limit = 150 * millisecond

abbrev pub health_laggy_limit : ℕ
health_laggy_limit = 500 * millisecond

abbrev pub health_ping_timeout : ℕ
health_ping_timeout = 15000 * millisecond

pub record ConnectionHealth : Type 0 where
  pub pending_nonce : String
  pub pending_at : ℕ
  pub rtt_ms : Option ℕ
  pub quality : String

pub record Connection : Type 0 where
  pub role : String
  pub id : String
  pub authenticated : Bool
  pub display_name : String
  pub health : ConnectionHealth

unfoldable pub new_connection : String → String → Connection
new_connection id role = record {
  role = role;
  id = id;
  authenticated = false;
  display_name = "";
  health = record {
    pending_nonce = "";
    pending_at = 0;
    rtt_ms = none;
    quality = viewer_quality_unknown;
  };
}

abbrev pub set_display_name : String → Connection → Connection
set_display_name name c = record c { display_name = name }

abbrev pub set_id : String → Connection → Connection
set_id id c = record c { id = id }

abbrev pub set_authenticated : Bool → Connection → Connection
set_authenticated v c = record c { authenticated = v }

unfoldable pub health_quality : ℕ → String
health_quality rtt =
    if leb rtt health_good_limit
    then viewer_quality_good
    else if leb rtt health_laggy_limit
    then viewer_quality_laggy
    else viewer_quality_stalled

unfoldable pub begin_health_ping : String → ℕ → Connection → Connection × Bool
begin_health_ping nonce sent_at c =
    if not (c.health.pending_nonce == "")
    then (c, false)
    else (record c { health = record h { pending_nonce = nonce; pending_at = sent_at } }, true)
  where
    h : ConnectionHealth
    h = c.health

unfoldable pub record_health_pong : String → ℕ → Connection → Connection × Bool
unfolding health_quality
record_health_pong nonce received_at c =
    if not (c.health.pending_nonce == nonce)
    then (c, false)
    else if ltb received_at c.health.pending_at
    then (c, false)
    else (
      record c {
        health = record {
          pending_nonce = "";
          pending_at = 0;
          rtt_ms = some ((received_at - c.health.pending_at) / millisecond);
          quality = health_quality (received_at - c.health.pending_at);
        };
      },
      true,
    )

unfoldable pub expire_health_ping : ℕ → ℕ → Connection → Connection × Bool
expire_health_ping now timeout c =
    if c.health.pending_nonce == "" || ltb (now - c.health.pending_at) timeout
    then (c, false)
    else (
      record c {
        health = record {
          pending_nonce = "";
          pending_at = 0;
          rtt_ms = none;
          quality = viewer_quality_stalled;
        };
      },
      true,
    )

unfoldable pub health_snapshot : Connection → Option ℕ × String
health_snapshot c =
    (c.health.rtt_ms, if c.health.quality == "" then viewer_quality_unknown else c.health.quality)
