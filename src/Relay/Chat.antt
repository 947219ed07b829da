-- ===== src/Relay/Chat.antt =====
-- internal/relay/chat.go.
use getsloth.Base.{ℕ, String, Option, none, some, List, [], ◌++◌}
use getsloth.Protocol.{Msg}
use getsloth.Relay.Connection.{Connection}
use getsloth.Relay.Session.{World, Event, to_all, to_host, live_viewers}

unfoldable pub chat_broadcast : Connection → String → Msg
chat_broadcast sender text = Msg.chat_message (record {
  sender_id = sender.id;
  sender_role = sender.role;
  sender_display_name = sender.display_name;
  text = text;
})

unfoldable pub handle_chat_message : ℕ → Option String → World → List Event
unfolding chat_broadcast
handle_chat_message sender none w = []
handle_chat_message sender (some text) w =
    let m = chat_broadcast (w.conns sender) text in
    to_host m w.session.host ++ to_all m (live_viewers w)
