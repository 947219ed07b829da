-- ===== src/Relay/Server/Told.antt =====
-- What the host is told of the writer's role: the messages that a step writes to it, read in order.
pub mod Calm
pub mod Auth
pub mod Run
use getsloth.Base.{
  ℕ, String, Bool, true, false, Option, none, some, List, [], ◌∷◌, ◌++◌, ◌≡◌, refl, sym, ap, ◌∙◌,
  arith, map, All, All-append, All-map_of, if◌then◌else◌, eqb, eqb_refl, Map,
}
use getsloth.Protocol.{Msg, ControlChangedMsg}
use getsloth.Relay.Connection.{Connection}
use getsloth.Relay.Session.{
  World, Session, Event, send, close, Reply, with_session, to_all, to_host, live_viewers, farewell,
}
use getsloth.Relay.Presence.{broadcast_presence}
use getsloth.Relay.Control.{announce_control}
use getsloth.Relay.KillSwitch.{kick}

-- The role that connection `h` believes in after one message.
abbrev pub heard_one : ℕ → Event → String → String
heard_one h (send c (Msg.control_changed m)) role = if eqb c h then m.active_writer_role else role
heard_one h _ role = role

abbrev pub heard : ℕ → List Event → String → String
heard h [] role = role
heard h (e ∷ es) role = heard h es (heard_one h e role)

abbrev pub IsQuietMsg : Msg → Type 0
IsQuietMsg (Msg.control_changed m) = ⊥
IsQuietMsg _ = Unit {0}

-- Not a message on control.
abbrev pub IsQuiet : Event → Type 0
IsQuiet (send c m) = IsQuietMsg m
IsQuiet (close c code reason) = Unit {0}

quiet_msg : (h c : ℕ) (m : Msg) (role : String) → IsQuietMsg m → heard_one h (send c m) role ≡ role
quiet_msg h c (Msg.session_created _ _) role q = refl
quiet_msg h c (Msg.session_ended _) role q = refl
quiet_msg h c (Msg.error _ _) role q = refl
quiet_msg h c (Msg.output _) role q = refl
quiet_msg h c (Msg.auth_request _ _ _) role q = refl
quiet_msg h c (Msg.auth_result _) role q = refl
quiet_msg h c (Msg.input_forward _ _) role q = refl
quiet_msg h c (Msg.resize _ _) role q = refl
quiet_msg h c (Msg.terminal_size _ _) role q = refl
quiet_msg h c (Msg.ping _) role q = refl
quiet_msg h c (Msg.control_changed _) role q = absurd q
quiet_msg h c (Msg.kicked _) role q = refl
quiet_msg h c (Msg.chat_message _) role q = refl
quiet_msg h c (Msg.presence _) role q = refl

pub heard-quiet :
    (h : ℕ) (es : List Event) (role : String) → All IsQuiet es → heard h es role ≡ role
heard-quiet h [] role q = refl
heard-quiet h (send c m ∷ es) role q =
    ap (heard h es) (quiet_msg h c m role q.0) ∙ heard-quiet h es role q.1
heard-quiet h (close c code reason ∷ es) role q = heard-quiet h es role q.1

pub heard-append :
    (h : ℕ) (es fs : List Event) (role : String)
    → heard h (es ++ fs) role ≡ heard h fs (heard h es role)
heard-append h [] fs role = refl
heard-append h (e ∷ es) fs role = heard-append h es fs (heard_one h e role)

heard-control :
    (h : ℕ) (m : ControlChangedMsg) (cs : List ℕ)
    → heard h (to_all (Msg.control_changed m) cs) m.active_writer_role ≡ m.active_writer_role
heard-control h m [] = refl
heard-control h m (c ∷ cs) =
    ap (heard h (to_all (Msg.control_changed m) cs)) (same (eqb c h)) ∙ heard-control h m cs
  where
    same :
        (b : Bool)
        → (if b then m.active_writer_role else m.active_writer_role) ≡ m.active_writer_role
    same true = refl
    same false = refl

heard_own :
    (h : ℕ) (m : ControlChangedMsg) (role : String)
    → heard_one h (send h (Msg.control_changed m)) role ≡ m.active_writer_role
heard_own h m role = ground arith

-- After an announcement the host knows the session's role.
pub heard-announce :
    (h : ℕ) (w : World) (role : String)
    → w.session.host ≡ some h
    → heard h (announce_control w) role ≡ w.session.active_writer_role
heard-announce h w role e =
    let m : ControlChangedMsg = record {
      active_writer_id = w.session.active_writer_id;
      active_writer_role = w.session.active_writer_role;
      cols = w.session.cols;
      rows = w.session.rows;
    } in
    rw e (
      ap (heard h (to_all (Msg.control_changed m) (live_viewers w))) (heard_own h m role)
      ∙ heard-control h m (live_viewers w))

pub to_all-IsQuiet : (m : Msg) (cs : List ℕ) → IsQuietMsg m → All IsQuiet (to_all m cs)
to_all-IsQuiet m cs q = All-map_of IsQuiet (λ c. send c m) cs (λ _. q)

pub to_host-IsQuiet : (m : Msg) (o : Option ℕ) → IsQuietMsg m → All IsQuiet (to_host m o)
to_host-IsQuiet m none q = tt
to_host-IsQuiet m (some h) q = (q, tt)

pub presence-IsQuiet : (w : World) → All IsQuiet (broadcast_presence w)
unfolding broadcast_presence
presence-IsQuiet w =
    All-append _ _ _ (to_host-IsQuiet _ w.session.host tt) (to_all-IsQuiet _ (live_viewers w) tt)

pub farewell-IsQuiet : (reason : String) (cs : List ℕ) → All IsQuiet (farewell reason cs)
farewell-IsQuiet reason [] = tt
farewell-IsQuiet reason (c ∷ cs) = (tt, (tt, farewell-IsQuiet reason cs))

pub kick-IsQuiet : (cs : List ℕ) → All IsQuiet (kick cs)
kick-IsQuiet [] = tt
kick-IsQuiet (c ∷ cs) = (tt, (tt, kick-IsQuiet cs))

-- The host's belief follows the session's role.
abbrev pub Told : ℕ → World → Reply → Type 0
Told h w r = heard h r.1 w.session.active_writer_role ≡ r.0.session.active_writer_role

-- A reply with no word on control and no change of it.
abbrev pub Calm : World → Reply → Type 0
Calm w r = All IsQuiet r.1 × (r.0.session.active_writer_role ≡ w.session.active_writer_role)

pub Told-Calm : (h : ℕ) (w : World) (r : Reply) → Calm w r → Told h w r
Told-Calm h w r c = heard-quiet h r.1 _ c.0 ∙ sym c.1

pub if-Calm :
    (w : World) (b : Bool) (x y : Reply) → Calm w x → Calm w y → Calm w (if b then x else y)
if-Calm w true x y p q = p
if-Calm w false x y p q = q

pub if-Told :
    (h : ℕ) (w : World) (b : Bool) (x y : Reply)
    → Told h w x
    → Told h w y
    → Told h w (if b then x else y)
if-Told h w true x y p q = p
if-Told h w false x y p q = q

pub if-IsQuiet :
    (b : Bool) (x y : List Event) → All IsQuiet x → All IsQuiet y → All IsQuiet (if b then x else y)
if-IsQuiet true x y p q = p
if-IsQuiet false x y p q = q
