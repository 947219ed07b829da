-- ===== src/Host/Follow.antt =====
-- The host process behind the relay: the flag that gates the host's keyboard, and the writer of the
-- relay's session. The wire between them is taken to deliver each message in order and as it
-- was sent: `sent` is the decoder for messages that json.Marshal wrote. The order is that of the
-- handlers, which the relay's locks do not ensure: Late shows what happens in another one.
pub mod Late
use mathlib.Core.Path.{subst}
use getsloth.Base.{
  ℕ, String, Bool, true, false, Option, none, some, List, [], ◌∷◌, ◌++◌, ◌≡◌, ◌≢◌, refl, sym, ap,
  ◌∙◌, arith, ◌==◌, eq_iff, if◌then◌else◌, eqb, All, ne→eq_false, Bool-cases, Option-cases, inl,
  inr,
}
use getsloth.Protocol.{
  session_mode_group, Msg, type_of, ControlChangedMsg, PresenceConnectionInfo, GridMsg,
  ChatBroadcastMsg,
}
use getsloth.Relay.Session.{World, Event, send, close, new_session}
use getsloth.Relay.Control.{handle_input}
use getsloth.Relay.Server.{Decoder}
use getsloth.Relay.Server.Steps.{Env, Input, run, handle_host_join}
use getsloth.Relay.Server.Roles.{IsViewer, Proper}
use getsloth.Relay.Server.Machine.{machine}
use getsloth.Relay.Server.Machine.Laws.{IsOwned}
use getsloth.Relay.Server.Told.{heard, heard_one}
use getsloth.Relay.Server.Told.Run.{run-Told}
use getsloth.Relay.Server.Life.{created, created_stays_sound, created-Roles}
use getsloth.Host.Status.{Platform}
use getsloth.Host.Keyboard.{Handlers, Key, type_keys, inactive_forwards_nothing}
use getsloth.Host.Loop.{Loop, Wire, AuthRequest, handle_relay_message, on_input, Turn}

abbrev sent_auth_request : Msg → Option AuthRequest
sent_auth_request (Msg.auth_request r k c) =
    some (record { request_id = r; viewer_pubkey = k; ciphertext = c })
sent_auth_request _ = none

abbrev sent_control : Msg → Option ControlChangedMsg
sent_control (Msg.control_changed m) = some m
sent_control _ = none

abbrev sent_presence : Msg → Option (List PresenceConnectionInfo)
sent_presence (Msg.presence cs) = some cs
sent_presence _ = none

abbrev sent_input : Msg → Option String
sent_input (Msg.input_forward text sender) = some text
sent_input _ = none

abbrev sent_resize : Msg → Option GridMsg
sent_resize (Msg.resize cols rows) = some (record { cols = cols; rows = rows })
sent_resize _ = none

abbrev sent_chat : Msg → Option ChatBroadcastMsg
sent_chat (Msg.chat_message m) = some m
sent_chat _ = none

abbrev pub sent : (String → Option (List ℕ)) → Wire Msg
sent decode = record {
  envelope = λ m. some (type_of m);
  auth_request = sent_auth_request;
  control_changed = sent_control;
  presence = sent_presence;
  input = sent_input;
  resize = sent_resize;
  chat_message = sent_chat;
  decode = decode;
}

-- What the flag is after one message.
abbrev believes : Msg → Bool → Bool
believes (Msg.control_changed m) active = m.active_writer_role == "host"
believes _ active = active

module _ (decode : String → Option (List ℕ)) (verify : String → String → Bool) (p : Platform)
    (h : ℕ) where
  -- The host's loop over what the relay wrote to its connection `h`.
  unfoldable pub deliver : List Event → Loop → Turn
  deliver [] l = (l, [])
  deliver (send c m ∷ es) l =
      let (l₁, effects₁) = handle_relay_message (sent decode) verify p m l in
      let here = deliver es l₁ in
      let elsewhere = deliver es l in if eqb c h then (here.0, effects₁ ++ here.1) else elsewhere
  deliver (close c code reason ∷ es) l = deliver es l

  on_input-active :
      (text : Option String) (l : Loop)
      → (on_input (sent decode) verify p text l).0.active ≡ l.active
  unfolding on_input
  on_input-active none l = refl
  on_input-active (some text) l = elim (Option-cases (decode text)) [
    | inl e ↦ rw (e, on_input) refl
    | inr (bytes, e) ↦ rw (e, on_input) refl
  ]

  one_message :
      (c : ℕ) (l : Loop) (role : String) (m : Msg)
      → ((handle_relay_message (sent decode) verify p m l).0.active ≡ believes m l.active)
        × (eqb c h ≡ true → (heard_one h (send c m) role == "host") ≡ believes m (role == "host"))
        × (eqb c h ≡ false → heard_one h (send c m) role ≡ role)
  unfolding handle_relay_message type_of
  one_message c l role (Msg.session_created _ _) = (refl, (λ f. refl), (λ f. refl))
  one_message c l role (Msg.session_ended _) = (refl, (λ f. refl), (λ f. refl))
  one_message c l role (Msg.error _ _) = (refl, (λ f. refl), (λ f. refl))
  one_message c l role (Msg.output _) = (refl, (λ f. refl), (λ f. refl))
  one_message c l role (Msg.auth_request _ _ _) = (refl, (λ f. refl), (λ f. refl))
  one_message c l role (Msg.auth_result _) = (refl, (λ f. refl), (λ f. refl))
  one_message c l role (Msg.input_forward text _) =
      (on_input-active (some text) l, (λ f. refl), (λ f. refl))
  one_message c l role (Msg.resize _ _) = (refl, (λ f. refl), (λ f. refl))
  one_message c l role (Msg.terminal_size _ _) = (refl, (λ f. refl), (λ f. refl))
  one_message c l role (Msg.ping _) = (refl, (λ f. refl), (λ f. refl))
  one_message c l role (Msg.control_changed _) = (refl, (λ f. rw f refl), (λ f. rw f refl))
  one_message c l role (Msg.kicked _) = (refl, (λ f. refl), (λ f. refl))
  one_message c l role (Msg.chat_message _) = (refl, (λ f. refl), (λ f. refl))
  one_message c l role (Msg.presence _) = (refl, (λ f. refl), (λ f. refl))

  pub deliver-heard :
      (es : List Event) (l : Loop) (role : String)
      → l.active ≡ (role == "host")
      → (deliver es l).0.active ≡ (heard h es role == "host")
  unfolding deliver
  deliver-heard [] l role e = e
  deliver-heard (close c code reason ∷ es) l role e = deliver-heard es l role e
  deliver-heard (send c m ∷ es) l role e =
      let one = one_message c l role m in
      let l₁ = (handle_relay_message (sent decode) verify p m l).0 in
      elim (Bool-cases (eqb c h)) [
        | inl f ↦
            rw (f, deliver)
              (deliver-heard es l₁ (heard_one h (send c m) role)
                (one.0 ∙ ap (believes m) e ∙ sym (one.1 f)))
        | inr f ↦
            rw (f, deliver)
              (deliver-heard es l (heard_one h (send c m) role)
                (e ∙ ap (λ r. r == "host") (sym (one.2 f))))
      ]

owned-role :
    (w : World)
    → IsOwned (machine w.session)
    → (w.session.active_writer_role == "host") ≡ (w.session.active_writer_id == "host")
owned-role w o = ground (
  arith,
  eq_iff w.session.active_writer_role "host",
  eq_iff w.session.active_writer_id "host",
  o.by_role,
  o.by_writer,
)

input_from_writer :
    (h conn : ℕ) (text : String) (w : World)
    → handle_input conn (some text) w ≡ send h (Msg.input_forward text (w.conns conn).id) ∷ []
    → w.session.active_writer_id ≡ (w.conns conn).id
unfolding handle_input
input_from_writer h conn text w e = elim (Bool-cases (w.session.mode == session_mode_group)) [
  | inl group ↦ absurd (ground (arith, e))
  | inr remote ↦ ground (arith, e, eq_iff w.session.active_writer_id (w.conns conn).id)
]

module _ {Raw : Type 0} (d : Decoder Raw) (h : ℕ) (session_id : String) (w : World)
    (is : List (Env × Input Raw)) (fresh : (c : ℕ) → c ≢ h → IsViewer (w.conns c).id)
    (proper : All (λ ei. Proper h ei.1) is) (decode : String → Option (List ℕ))
    (verify : String → String → Bool) (p : Platform) (l : Loop) (starts : l.active ≡ true) where
  abbrev last : World
  last = (run d is (created h session_id w)).0

  abbrev host_loop : Loop
  host_loop = (deliver decode verify p h (run d is (created h session_id w)).1 l).0

  told_from_start :
      heard h (run d is (created h session_id w)).1 "host" ≡ last.session.active_writer_role
  unfolding handle_host_join new_session
  told_from_start =
      run-Told d h is (created h session_id w) proper (created-Roles h session_id w fresh)

  -- Over the whole life of a session: when the host process has read what the relay wrote to it,
  -- the flag that lets the host's keyboard through is set exactly when the host is the writer of
  -- the relay's session.
  pub flag_follows_writer : host_loop.active ≡ (last.session.active_writer_id == "host")
  flag_follows_writer =
      let sound = created_stays_sound h session_id w d is fresh proper in
      deliver-heard decode verify p h (run d is (created h session_id w)).1 l "host" starts
      ∙ ap (λ r. r == "host") (told_from_start)
      ∙ owned-role last sound.2

  -- When a host has read what the relay wrote, in the order of the relay's handlers, and the relay
  -- forwards a viewer's input to it, none of the host's own keystrokes reaches the shell.
  pub one_writer :
      (conn : ℕ) (text : String) (handlers : Handlers) (pending : Bool) (keys : List Key)
      → conn ≢ h
      → handle_input conn (some text) last
        ≡ send h (Msg.input_forward text (last.conns conn).id) ∷ []
      → All (λ k. k.1 ≡ host_loop.active) keys
      → (type_keys handlers pending keys).forward ≡ []
  one_writer conn text handlers pending keys away forwarded read =
      let sound = created_stays_sound h session_id w d is fresh proper in
      let writer = input_from_writer h conn text last forwarded in
      let other : last.session.active_writer_id ≢ "host" =
        λ e. sound.0.others conn away (sym writer ∙ e) in
      inactive_forwards_nothing handlers pending keys (
        subst (λ b. All (λ (k : Key). k.1 ≡ b) keys)
          (flag_follows_writer ∙ ne→eq_false last.session.active_writer_id "host" other) read)
