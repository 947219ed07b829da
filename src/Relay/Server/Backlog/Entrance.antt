-- ===== src/Relay/Server/Backlog/Entrance.antt =====
-- What a viewer is sent by the two handlers that can let it in: `handleAuthResponse` and
-- `handleResume` of internal/relay/auth.go.
use getsloth.Base.{
  ℕ, ◌≤◌, String, Bool, true, false, Option, none, some, List, [], ◌∷◌, ◌++◌, ◌≡◌, refl, sym, ap,
  ◌∙◌, arith, map, length, lookup, delete, if◌then◌else◌,
}
use getsloth.Protocol.{Msg, AuthResultMsg, AuthResponseMsg, auth_code_failed, auth_code_occupied}
use getsloth.Relay.Session.{
  World, Session, PendingAuth, TokenRecord, Event, send, Reply, replay_output_to, with_session,
  max_output_backlog_chunks,
}
use getsloth.Relay.Presence.{broadcast_presence}
use getsloth.Relay.Auth.{
  auth_refused, slot_taken, take_slot, issue_token, admit, accept_attempt, settle,
  handle_auth_response, token_expired, adopt, drop_token, handle_resume,
}
use getsloth.Relay.Server.{Decoder}
use getsloth.Relay.Server.Steps.{Env, Input, run}
use getsloth.Relay.Server.Backlog.{recent, length-recent}
use getsloth.Relay.Server.Backlog.Run.{Logged, run-Logged}

-- The host's verdict on an attempt, with the token that the relay draws, or a viewer's own token.
pub data Entrance : Type 0 where
  verdict : (m : AuthResponseMsg) (token : Option String) → Entrance
  resume : (conn : ℕ) (token : Option String) → Entrance

abbrev pub enter : ℕ → Entrance → World → Reply
enter now (Entrance.verdict m token) w = handle_auth_response now m token w
enter now (Entrance.resume conn token) w = handle_resume now conn token w

abbrev accepts : List Event → Bool
accepts (send c (Msg.auth_result r) ∷ es) = r.accepted
accepts _ = false

abbrev target_of : List Event → ℕ
target_of (send c m ∷ es) = c
target_of _ = 0

abbrev rest_of : List Event → List Event
rest_of [] = []
rest_of (e ∷ es) = es

-- A reply that begins with an accepted result goes on with the backlog of `w`, then the roster.
abbrev Welcomes : World → Reply → Type 0
Welcomes w r =
    (conn : ℕ) (result : AuthResultMsg) (rest : List Event)
    → r.1 ≡ send conn (Msg.auth_result result) ∷ rest
    → result.accepted ≡ true
    → rest
      ≡ map (λ chunk. send conn (Msg.output chunk)) w.session.output_backlog
        ++ broadcast_presence r.0

closed-Welcomes : (w : World) (r : Reply) → accepts r.1 ≡ false → Welcomes w r
closed-Welcomes w r shut conn result rest e accepted =
    absurd (ground (arith, sym shut ∙ ap accepts e ∙ accepted))

if-Welcomes :
    (w : World) (b : Bool) (x y : Reply)
    → Welcomes w x
    → Welcomes w y
    → Welcomes w (if b then x else y)
if-Welcomes w true x y p q = p
if-Welcomes w false x y p q = q

admit-Welcomes :
    (w w' : World) (c : ℕ) (token id : String)
    → w'.session.output_backlog ≡ w.session.output_backlog
    → Welcomes w (admit c token id w')
unfolding admit replay_output_to
admit-Welcomes w w' c token id same conn result rest e accepted =
    sym (ap rest_of e)
    ∙ ap
        (λ backlog.
          map (λ chunk. send c (Msg.output chunk)) backlog
          ++ broadcast_presence (admit c token id w').0)
        same
    ∙ ap
        (λ to.
          map (λ chunk. send to (Msg.output chunk)) w.session.output_backlog
          ++ broadcast_presence (admit c token id w').0)
        (ap target_of e)

slot_backlog :
    (id token : String) (s : Session)
    → (issue_token token id (take_slot id s)).output_backlog ≡ s.output_backlog
unfolding issue_token take_slot
slot_backlog id token s = ground arith

accept-Welcomes :
    (now : ℕ) (p : PendingAuth) (token : Option String) (w w' : World)
    → w'.session.output_backlog ≡ w.session.output_backlog
    → Welcomes w (accept_attempt now p token w')
unfolding accept_attempt
accept-Welcomes now p none w w' same = closed-Welcomes w _ refl
accept-Welcomes now p (some token) w w' same =
    let seated =
      with_session w' (issue_token token p.viewer_id (take_slot p.viewer_id w'.session)) in
    let occupied : Reply = (w', send p.conn (auth_refused auth_code_occupied 0) ∷ []) in
    if-Welcomes w (slot_taken now p.viewer_id w'.session) occupied
      (admit p.conn token p.viewer_id seated) (closed-Welcomes w occupied refl)
      (admit-Welcomes w seated p.conn token p.viewer_id
        (slot_backlog p.viewer_id token w'.session ∙ same))

adopt_backlog :
    (conn : ℕ) (token : String) (r : TokenRecord) (w : World)
    → (adopt conn token r w).session.output_backlog ≡ w.session.output_backlog
unfolding adopt
adopt_backlog conn token r w = ground arith

-- The two handlers after their look-ups.
decided : ℕ → AuthResponseMsg → Option String → World → Option PendingAuth → Reply
decided now m token w o = elim o [
  | none ↦ (w, [])
  | some p ↦
      let s = record w.session { pending_auth = delete m.request_id w.session.pending_auth } in
      let w' = record w {
        session = s;
        limiter = settle now m.accepted s.id p.remote_addr w.limiter;
      } in
      if m.accepted
      then accept_attempt now p token w'
      else (w', send p.conn (auth_refused auth_code_failed 0) ∷ [])
]

decided-Welcomes :
    (now : ℕ) (m : AuthResponseMsg) (token : Option String) (w : World) (o : Option PendingAuth)
    → Welcomes w (decided now m token w o)
unfolding decided
decided-Welcomes now m token w none = closed-Welcomes w (w, []) refl
decided-Welcomes now m token w (some p) =
    let s = record w.session { pending_auth = delete m.request_id w.session.pending_auth } in
    let w' = record w {
      session = s;
      limiter = settle now m.accepted s.id p.remote_addr w.limiter;
    } in
    let refused : Reply = (w', send p.conn (auth_refused auth_code_failed 0) ∷ []) in
    if-Welcomes w m.accepted (accept_attempt now p token w') refused
      (accept-Welcomes now p token w w' refl) (closed-Welcomes w refused refl)

presented : ℕ → ℕ → String → World → Option TokenRecord → Reply
presented now conn token w o = elim o [
  | none ↦ (w, send conn (auth_refused auth_code_failed 0) ∷ [])
  | some r ↦
      if token_expired now r
      then (
        with_session w (drop_token token r w.session),
        send conn (auth_refused auth_code_failed 0) ∷ [],
      )
      else admit conn token r.connection_id (adopt conn token r w)
]

presented-Welcomes :
    (now conn : ℕ) (token : String) (w : World) (o : Option TokenRecord)
    → Welcomes w (presented now conn token w o)
unfolding presented
presented-Welcomes now conn token w none = closed-Welcomes w (presented now conn token w none) refl
presented-Welcomes now conn token w (some r) =
    let refused : Reply = (
      with_session w (drop_token token r w.session),
      send conn (auth_refused auth_code_failed 0) ∷ [],
    ) in
    if-Welcomes w (token_expired now r) refused
      (admit conn token r.connection_id (adopt conn token r w)) (closed-Welcomes w refused refl)
      (admit-Welcomes w (adopt conn token r w) conn token r.connection_id
        (adopt_backlog conn token r w))

enter-Welcomes : (now : ℕ) (how : Entrance) (w : World) → Welcomes w (enter now how w)
unfolding handle_auth_response handle_resume decided presented
enter-Welcomes now (Entrance.verdict m token) w =
    decided-Welcomes now m token w (lookup m.request_id w.session.pending_auth)
enter-Welcomes now (Entrance.resume conn none) w = closed-Welcomes w (w, []) refl
enter-Welcomes now (Entrance.resume conn (some token)) w =
    presented-Welcomes now conn token w (lookup token w.session.tokens)

module _ {Raw : Type 0} (d : Decoder Raw) where
  -- Whatever has happened in a new session, when the verdict of the host or a viewer's token lets the
  -- viewer in, the relay's reply goes on after the accepted result with the last 256 chunks, or fewer
  -- where there are fewer, of a log of the host's output, in their order, and then the roster. The
  -- log grows by each chunk that the host sends. It starts over with every change of the grid, and
  -- otherwise only when the writer leaves or the host sends a configuration.
  pub viewer_catches_up :
      (is : List (Env × Input Raw)) (w : World) (now : ℕ) (how : Entrance) (conn : ℕ)
      (result : AuthResultMsg) (rest : List Event)
      → w.session.output_backlog ≡ []
      → (enter now how (run d is w).0).1 ≡ send conn (Msg.auth_result result) ∷ rest
      → result.accepted ≡ true
      → (log : List String) × Logged d is w [] log
        × (rest
            ≡ map (λ chunk. send conn (Msg.output chunk)) (recent log)
              ++ broadcast_presence (enter now how (run d is w).0).0)
        × (length (recent log) ≤ max_output_backlog_chunks)
  viewer_catches_up is w now how conn result rest empty told accepted =
      let (log, logged, kept) = run-Logged d is w [] empty in
      let w' = (run d is w).0 in
      (
        log,
        logged,
        enter-Welcomes now how w' conn result rest told accepted
            ∙ ap
                (λ backlog.
                  map (λ chunk. send conn (Msg.output chunk)) backlog
                  ++ broadcast_presence (enter now how w').0)
                kept,
        length-recent log,
      )
