-- ===== src/Tests/Servers.antt =====
-- A server with two sessions, one after the other.
use getsloth.Base.{
  lookup, insert, ℕ, String, true, some, List, [], ◌∷◌, ◌≡◌, refl, All, get_or, ap, arith, ◌≢◌, leb,
  if◌then◌else◌,
}
use getsloth.Relay.Session.{new_session}
use getsloth.Relay.Server.Steps.{Env, Input}
use getsloth.Relay.Registry.{
  Server, Arrival, get_session, serve_one, serve_all, session_unknown, accept_host, accept_viewer,
  remove_session,
}
use getsloth.Relay.Registry.Life.{LeavesAlone, found_until_gone}
use getsloth.Relay.Server.Apart.{target}
use getsloth.Relay.Registry.Apart.{Sorted, sessions_apart}
use getsloth.Tests.{Frame, frame, frames, peers, at_time, apart}

abbrev empty_server : Server
empty_server = record {
  registry = [];
  sessions = λ ptr. new_session "";
  conns = peers true;
  limiter = [];
}

abbrev named : ℕ → String → Env
named now id = record { now = now; random = some id }

-- Another host comes, and a viewer joins the first session.
abbrev before : List (Env × Arrival Frame)
before =
    (named 2 "s2", Arrival.host_connects 3 1 true)
    ∷ (named 3 "v1", Arrival.viewer_connects "s1" 1)
    ∷ (at_time 4, Arrival.inside 0 (Input.host_sends (frame "output" "aGk=")))
    ∷ []

-- The other host goes, too.
abbrev after : List (Env × Arrival Frame)
after =
    (at_time 6, Arrival.host_gone "s2" 1)
    ∷ (at_time 7, Arrival.inside 0 (Input.viewer_leaves 1))
    ∷ []

before-LeavesAlone : All (LeavesAlone "s1") before
before-LeavesAlone = ((λ e. apart "s2" "s1" refl (ap (λ o. get_or o "") e)), (tt, (tt, tt)))

after-LeavesAlone : All (LeavesAlone "s1") after
after-LeavesAlone = (apart "s2" "s1" refl, (tt, tt))

found_until_gone_example :
    let opened =
      (serve_all frames before
        (serve_one frames (named 1 "s1") (Arrival.host_connects 0 0 true) empty_server).0).0 in
    let ended =
      (serve_all frames after
        (serve_one frames (at_time 5) (Arrival.host_gone "s1" 0) opened).0).0 in
    let (final, out) = serve_one frames (at_time 8) (Arrival.viewer_connects "s1" 2) ended in
    (get_session "s1" opened ≡ some 0)
    × (out ≡ session_unknown 2)
    × (final.sessions ≡ ended.sessions)
found_until_gone_example =
    found_until_gone frames "s1" (named 1 "s1") (at_time 5) (at_time 8) 0 0 2 before after
      empty_server refl before-LeavesAlone after-LeavesAlone

-- Connections from 3 on belong to the session at 1, the others to the one at 0.
abbrev owner : ℕ → ℕ
owner c = if leb 3 c then 1 else 0

abbrev started : List (Env × Arrival Frame)
started =
    (named 1 "s1", Arrival.host_connects 0 0 true)
    ∷ (named 2 "s2", Arrival.host_connects 3 1 true)
    ∷ (named 3 "v1", Arrival.viewer_connects "s1" 1)
    ∷ []

-- What reaches the second session: a viewer with its attempt, and the host's output.
abbrev second_busy : List (Env × Arrival Frame)
second_busy =
    (named 4 "v2", Arrival.viewer_connects "s2" 4)
    ∷ (named 5 "r1", Arrival.inside 1 (Input.viewer_sends 4 "addr" (frame "auth" "pw")))
    ∷ (at_time 6, Arrival.inside 1 (Input.host_sends (frame "output" "aGk=")))
    ∷ []

abbrev both : Server
both = (serve_all frames started empty_server).0

both-Sorted : Sorted owner both
unfolding serve_all serve_one accept_host accept_viewer remove_session lookup insert new_session
both-Sorted =
    (sessions_apart owner frames 7 started empty_server
      (refl, (refl, ((λ ptr f. ap (λ o. get_or o 0) f), tt))) (λ ptr. (tt, tt, tt))
      (ground arith, (ground arith, (ground arith, tt)))).3

sessions_apart_example :
    let (srv', out) = serve_all frames second_busy both in
    (srv'.sessions 0 ≡ both.sessions 0)
    × ((c : ℕ) → owner c ≡ 0 → srv'.conns c ≡ both.conns c)
    × All (λ e. owner (target e) ≢ 0) out
    × Sorted owner srv'
unfolding serve_all serve_one accept_host accept_viewer remove_session lookup insert
sessions_apart_example =
    sessions_apart owner frames 0 second_busy both
      ((λ ptr f. ap (λ o. get_or o 1) f), (refl, (tt, tt))) both-Sorted
      (ground arith, (ground arith, (ground arith, tt)))
