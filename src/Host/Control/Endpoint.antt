-- ===== src/Host/Control/Endpoint.antt =====
-- `startHostControlServer` and `Close` of cmd/getsloth/host_control_server.go: what they leave on the
-- machine. Each call of the operating system is an argument: `none` when it succeeds, else its
-- error's text.
use getsloth.Base.{String, Bool, true, false, Option, none, some, ◌≡◌, ◌≢◌, refl, arith}

-- What exists: the directory, the listener on the socket in it, and whether each is restricted to
-- the current user.
pub record Endpoint : Type 0 where
  pub directory : Bool
  pub private_directory : Bool
  pub listener : Bool
  pub private_socket : Bool

abbrev pub untouched : Endpoint
untouched = record {
  directory = false;
  private_directory = false;
  listener = false;
  private_socket = false;
}

-- The results of the calls, in their order; the last two are those of the calls that undo a start.
pub record Outcomes : Type 0 where
  pub make_directory : Option String
  pub restrict_directory : Option String
  pub listen : Option String
  pub restrict_socket : Option String
  pub close_listener : Option String
  pub remove : Option String

-- Removing the directory removes the socket in it. A call that fails is taken to change nothing.
abbrev pub remove_all : Option String → Endpoint → Endpoint
remove_all none m = record m {
  directory = false;
  private_directory = false;
  private_socket = false;
}
remove_all (some e) m = m

abbrev pub close_listener : Option String → Endpoint → Endpoint
close_listener none m = record m { listener = false }
close_listener (some e) m = m

-- The result is the error, `none` for a server.
unfoldable pub start_endpoint : Outcomes → Bool → Endpoint × Option String
start_endpoint o false = (untouched, some "host control snapshot is required")
start_endpoint o true = elim o.make_directory [
  | some e ↦ (untouched, some e)
  | none ↦
      let made = record untouched { directory = true } in
      elim o.restrict_directory [
        | some e ↦ (remove_all o.remove made, some e)
        | none ↦
            let closed_off = record made { private_directory = true } in
            elim o.listen [
              | some e ↦ (remove_all o.remove closed_off, some e)
              | none ↦
                  let listening = record closed_off { listener = true } in
                  elim o.restrict_socket [
                    | some e ↦
                        (remove_all o.remove (close_listener o.close_listener listening), some e)
                    | none ↦ (record listening { private_socket = true }, none)
                  ]
            ]
      ]
]

-- `closeOnce` and `closeErr`
pub record Closing : Type 0 where
  pub machine : Endpoint
  pub closed : Bool
  pub close_err : Option String

-- The errors of `listener.Close` and `os.RemoveAll` are arguments.
unfoldable pub close_endpoint : Option String → Option String → Closing → Closing × Option String
close_endpoint listener_err remove_err c = elim c.closed [
  | true ↦ (c, c.close_err)
  | false ↦
      let err : Option String = elim listener_err [ some e ↦ some e | none ↦ remove_err ] in
      (
        record {
          machine = remove_all remove_err (close_listener listener_err c.machine);
          closed = true;
          close_err = err;
        },
        err,
      )
]

-- A start that succeeds leaves a directory and a socket that only the current user can reach, with
-- the listener open. A start that fails leaves nothing behind when the calls that undo its steps
-- succeed; if closing the listener succeeds, no listener stays open; and where the removal fails and a
-- listener is open, its directory is restricted to the current user.
pub start_all_or_nothing :
    (o : Outcomes) (given : Bool)
    → let (m, err) = start_endpoint o given in
      (err ≡ none
        → m ≡ record {
          directory = true;
          private_directory = true;
          listener = true;
          private_socket = true;
        })
      × (err ≢ none → o.close_listener ≡ none → o.remove ≡ none → m ≡ untouched)
      × (m.listener ≡ true → o.close_listener ≡ none → err ≡ none)
      × (m.listener ≡ true → o.remove ≢ none → m.private_directory ≡ true)
unfolding start_endpoint
start_all_or_nothing o given = ground arith

-- Closing an open endpoint, when the system reports no error, removes all of it; closing it again
-- does nothing and reports the first result again.
close_once :
    (m : Endpoint) (listener_err remove_err listener_err' remove_err' : Option String)
    → let (c, err) =
        close_endpoint listener_err remove_err
          (record { machine = m; closed = false; close_err = none }) in
      (err ≡ none → c.machine ≡ untouched) × (close_endpoint listener_err' remove_err' c ≡ (c, err))
unfolding close_endpoint
close_once m listener_err remove_err listener_err' remove_err' = (ground arith, refl)
