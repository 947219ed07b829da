-- ===== src/Host/Status/Roster.antt =====
-- What the host shows of the relay's roster: `updatePresence` on the message that the relay's
-- `broadcastPresence` sends.
use getsloth.Base.{
  ℕ, String, none, List, [], ◌∷◌, ◌++◌, map, ◌≡◌, ◌≢◌, ◌⊎◌, inl, inr, refl, sym, ap, ◌∙◌, arith,
  ◌==◌, eq_iff, ◌↔◌, lookup, lookup-insert, Bool-cases, All,
}
use getsloth.Protocol.{PresenceConnectionInfo}
use getsloth.Relay.Session.{World, live_viewers}
use getsloth.Relay.Presence.{host_info, viewer_info, roster}
use getsloth.Host.Status.{
  Status, Platform, append_event, append_events, render_title, safe_terminal_label, named,
}
use getsloth.Host.Status.Events.{logged}
use getsloth.Host.Status.Ops.{Op, note_connections, note_viewer, note_writer, update_presence}

append_events-viewers : (es : List String) (s : Status) → (append_events es s).viewers ≡ s.viewers
unfolding append_events append_event
append_events-viewers [] s = refl
append_events-viewers (e ∷ es) s = append_events-viewers es (append_event e s)

append_events-writer :
    (es : List String) (s : Status) → (append_events es s).active_writer_id ≡ s.active_writer_id
unfolding append_events append_event
append_events-writer [] s = refl
append_events-writer (e ∷ es) s = append_events-writer es (append_event e s)

no_viewers : (id : String) → lookup {V = String} id [] ≡ none
unfolding lookup
no_viewers id = refl

note_writer-viewers :
    (c : PresenceConnectionInfo) (s : Status) → (note_writer c s).viewers ≡ s.viewers
unfolding note_writer
note_writer-viewers c s = ground arith

note_connections-append :
    (p : Platform) (cs ds : List PresenceConnectionInfo) (s : Status)
    → note_connections p (cs ++ ds) s ≡ note_connections p ds (note_connections p cs s)
unfolding note_connections
note_connections-append p [] ds s = refl
note_connections-append p (c ∷ cs) ds s = note_connections-append p cs ds _

module _ (p : Platform) (w : World) where
  abbrev entry : ℕ → PresenceConnectionInfo
  entry c = viewer_info w.session.active_writer_id (w.conns c)

  -- One entry adds its own viewer, and no other.
  one_viewer :
      (id : String) (c : ℕ) (s : Status)
      → (lookup id (note_writer (entry c) (note_viewer p (entry c) s)).viewers ≡ none)
        ↔ ((lookup id s.viewers ≡ none) × ((w.conns c).id ≢ id))
  unfolding note_writer note_viewer viewer_info
  one_viewer id c s =
      let label = safe_terminal_label p (named (w.conns c).display_name "viewer") in
      ground (
        arith,
        note_writer-viewers (entry c) (note_viewer p (entry c) s),
        lookup-insert (w.conns c).id id label s.viewers,
        eq_iff (w.conns c).id id,
      )

  many_viewers :
      (id : String) (cs : List ℕ) (s : Status)
      → (lookup id (note_connections p (map entry cs) s).viewers ≡ none)
        ↔ ((lookup id s.viewers ≡ none) × All (λ c. (w.conns c).id ≢ id) cs)
  unfolding note_connections
  many_viewers id [] s = ((λ e. (e, tt)), (λ h. h.0))
  many_viewers id (c ∷ cs) s =
      let later = many_viewers id cs (note_writer (entry c) (note_viewer p (entry c) s)) in
      let first = one_viewer id c s in
      (
        (λ e. let h = later.0 e in ((first.0 h.0).0, ((first.0 h.0).1, h.1))),
        (λ h. later.1 (first.1 (h.0, h.1.0), h.1.1)),
      )

  noted_writer :
      (c : ℕ) (s : Status)
      → (((w.conns c).id ≡ w.session.active_writer_id)
          ⊎ (s.active_writer_id ≡ w.session.active_writer_id))
      → (note_writer (entry c) (note_viewer p (entry c) s)).active_writer_id
        ≡ w.session.active_writer_id
  unfolding note_writer note_viewer viewer_info
  noted_writer c s h = ground (arith, eq_iff (w.conns c).id w.session.active_writer_id)

  many_writers :
      (cs : List ℕ) (s : Status)
      → ((¬ All (λ c. (w.conns c).id ≢ w.session.active_writer_id) cs)
          ⊎ (s.active_writer_id ≡ w.session.active_writer_id))
      → (note_connections p (map entry cs) s).active_writer_id ≡ w.session.active_writer_id
  unfolding note_connections
  many_writers [] s (inl some_one) = absurd (some_one tt)
  many_writers [] s (inr e) = e
  many_writers (c ∷ cs) s h =
      many_writers cs (note_writer (entry c) (note_viewer p (entry c) s))
        (elim (Bool-cases ((w.conns c).id == w.session.active_writer_id)) [
          | inl e ↦ inr (noted_writer c s (inl ((eq_iff _ _).0 e)))
          | inr e ↦ elim h [
            | inl some_one ↦ inl (λ all.
                some_one
                  ((λ q. ground (arith, eq_iff (w.conns c).id w.session.active_writer_id)), all))
            | inr kept ↦ inr (noted_writer c s (inr kept))
          ]
        ])

  -- The host's own entry.
  own_entry :
      (id : String) (s : Status)
      → let s' = note_connections p (host_info w.session.active_writer_id w.session.host) s in
        (lookup id s'.viewers ≡ lookup id s.viewers)
        × ((w.session.active_writer_id ≡ "host" × (w.session.host ≢ none))
            → s'.active_writer_id ≡ w.session.active_writer_id)
  unfolding note_connections host_info note_viewer note_writer
  own_entry id s = ground (arith, eq_iff w.session.active_writer_id "host")

  abbrev after_host : Status → Status
  after_host s =
      note_connections p (host_info w.session.active_writer_id w.session.host)
        (record s { viewers = []; health = [] })

  shown :
      (s : Status)
      → let s' = note_connections p (map entry (live_viewers w)) (after_host s) in
        ((update_presence p (roster w) s).viewers ≡ s'.viewers)
        × ((update_presence p (roster w) s).active_writer_id ≡ s'.active_writer_id)
  unfolding update_presence roster render_title
  shown s =
      let both =
        note_connections-append p (host_info w.session.active_writer_id w.session.host)
          (map entry (live_viewers w)) (record s { viewers = []; health = [] }) in
      let joined = logged p (Op.presence (roster w)) s in
      let noted = note_connections p (roster w) (record s { viewers = []; health = [] }) in
      (
        append_events-viewers joined noted ∙ ap (λ (t : Status). t.viewers) both,
        append_events-writer joined noted ∙ ap (λ (t : Status). t.active_writer_id) both,
      )

  -- After the relay's roster arrives, the host's console lists exactly the ids of the authenticated
  -- viewers of the session.
  pub host_sees_roster :
      (s : Status) (id : String)
      → (lookup id (update_presence p (roster w) s).viewers ≡ none)
        ↔ All (λ c. (w.conns c).id ≢ id) (live_viewers w)
  host_sees_roster s id =
      let cleared = record s { viewers = []; health = [] } in
      let known = many_viewers id (live_viewers w) (after_host s) in
      let empty = (own_entry id cleared).0 ∙ no_viewers id in
      (
        (λ e. (known.0 (sym (ap (lookup id) (shown s).0) ∙ e)).1),
        (λ h. ap (lookup id) (shown s).0 ∙ known.1 (empty, h)),
      )

  -- After the relay's roster arrives, the host's console names the session's writer, when that is
  -- the connected host or an authenticated viewer.
  host_sees_writer :
      (s : Status)
      → ((w.session.active_writer_id ≡ "host") × (w.session.host ≢ none))
        ⊎ (¬ All (λ c. (w.conns c).id ≢ w.session.active_writer_id) (live_viewers w))
      → (update_presence p (roster w) s).active_writer_id ≡ w.session.active_writer_id
  host_sees_writer s present =
      let cleared = record s { viewers = []; health = [] } in
      (shown s).1
      ∙ many_writers (live_viewers w) (after_host s) (elim present [
        | inl own ↦ inr ((own_entry "" cleared).1 own)
        | inr some_one ↦ inl some_one
      ])
