-- ===== src/Ftp/Client/Program.antt =====
-- The whole of `run_client` in tp3_ftp_multiclient_server/common_client.cpp, its connection included.
use mathlib.Core.List.{append_assoc}
use programming_workshop.Common.{
  ℕ, ◌<◌, ◌≡◌, refl, ◌∙◌, ap, false, List, [], ◌∷◌, ◌++◌, arith, Bytes, length,
}
use programming_workshop.Common.Int.{ℤ}
use programming_workshop.Sudoku.Socket.{Arrival, Outcome}
use programming_workshop.Sudoku.Socket.Receive.{available}
use programming_workshop.Sudoku.Socket.Send.{Accepting}
use programming_workshop.Sudoku.Socket.Setup.{Network, is_minus_one}
use programming_workshop.Ftp.Result.{
  Result, returned, threw, faulted, unfinished, Act, continue, ◌>>=◌,
}
use programming_workshop.Ftp.Config.Lookup.{Lacks}
use programming_workshop.Ftp.Socket.{
  Socket, not_connected, client_socket, shutdown, without, get_id,
}
use programming_workshop.Ftp.Socket.Resources.{working, same_socket_refl}
use programming_workshop.Ftp.Connection.Lines.{receive_string_lem}
use programming_workshop.Ftp.Client.Run.{
  Terminal, on_terminal, print_response, receive_hello, run_loop,
}
use programming_workshop.Ftp.Client.Exchange.{
  Turn, AreTurns, typed_lines, answered_lines, finished, run_loop_lem,
}

-- The program of the client: the terminal with the connection, and the object `socket`.
pub record ClientProcess : Type 0 where
  pub terminal : Terminal
  pub socket : Socket

abbrev pub with_socket : {A : Type 0} → ClientProcess → Result Socket A → Result ClientProcess A
with_socket p (returned a s) = returned a (record p { socket = s })
with_socket p (threw m s) = threw m (record p { socket = s })
with_socket p faulted = faulted
with_socket p unfinished = unfinished

abbrev pub on_socket : {A : Type 0} → Act Socket A → Act ClientProcess A
on_socket act p = with_socket p (act p.socket)

abbrev pub with_terminal : {A : Type 0} → ClientProcess → Result Terminal A → Result ClientProcess A
with_terminal p (returned a t) = returned a (record p { terminal = t })
with_terminal p (threw m t) = threw m (record p { terminal = t })
with_terminal p faulted = faulted
with_terminal p unfinished = unfinished

abbrev pub at_terminal : {A : Type 0} → Act Terminal A → Act ClientProcess A
at_terminal act p = with_terminal p (act p.terminal)

-- socket_id = socket.get_id()
abbrev pub keep_id : ClientProcess → ClientProcess
keep_id p = record p {
  terminal = record p.terminal {
    session = record p.terminal.session {
      client = record p.terminal.session.client { socket_id = get_id p.socket };
    };
  };
}

-- catch (std::exception &e), whose message is left out of what is printed.
abbrev pub caught : Result ClientProcess Unit → Result ClientProcess Unit
caught (threw m p) = returned tt p
caught r = r

-- The program, with both its arguments. `down` is what ::shutdown() returns at the end.
unfoldable pub run_client : Network → ℤ → ℕ → ℕ → Bytes → Bytes → Act ClientProcess Unit
unfolding get_id
run_client n down fuel line hostname port p = caught (
    (do
      _ ← on_socket (client_socket n hostname port)
      _ ← (λ q. returned tt (keep_id q))
      _ ← at_terminal (receive_hello line)
      _ ← at_terminal (run_loop fuel line)
      on_socket (shutdown down))
      p)

-- The connection is made and shut down without a failure.
pub record Connects (n : Network) (down : ℤ) (hostname port : Bytes) : Type 0 where
  pub made : client_socket n hostname port not_connected ≡ returned tt (working n.socket_result)
  pub ends : is_minus_one down ≡ false

shutdown-working :
    (down id : ℤ)
    → is_minus_one down ≡ false
    → shutdown down (working id) ≡ returned tt (record (working id) { opened = [] })
unfolding shutdown without
shutdown-working down id h = ground (arith, h, same_socket_refl id)

receive_hello_lem :
    (limit : ℕ) (hello rest : Bytes) (t : Terminal)
    → Lacks b'\n' hello
    → length hello < limit
    → available t.session.arrivals ≡ hello ++ b'\n' ∷ rest
    → (left : List Arrival) × (receive_hello limit t
        ≡ returned tt (record t {
          session = record t.session { arrivals = left };
          stdout = t.stdout ++ (hello ++ b'\n' ∷ []);
        }))
      × (available left ≡ rest)
unfolding receive_hello
receive_hello_lem limit hello rest t l n e =
    let (left, r, k) = receive_string_lem limit t.session hello rest l n e in
    (left, ap (λ x. continue print_response (on_terminal t x)) r, k)

-- The terminal with the greeting printed.
abbrev greeted : Terminal → ℤ → List Arrival → Bytes → Terminal
greeted t id left hello = record t {
  session = record t.session {
    client = record t.session.client { socket_id = id };
    arrivals = left;
  };
  stdout = t.stdout ++ (hello ++ b'\n' ∷ []);
}

-- A player with both arguments and a connection that is made and shut down without a failure, who types
-- lines, none of them empty, up to the end of the input. If the server's greeting and its answers come as
-- lines below the bound, none of them starting a list, in whatever pieces, and no call of send() fails, then
-- with one round more than lines `run_client` returns. It has printed the greeting and the answers and sent
-- each line and an empty one at the end, and no descriptor is left open.
pub run_client_lem :
    (turns : List Turn) (fuel limit : ℕ) (hello rest hostname port : Bytes) (n : Network) (down : ℤ)
    (p : ClientProcess)
    → Connects n down hostname port
    → p.socket ≡ not_connected
    → Lacks b'\n' hello
    → length hello < limit
    → AreTurns limit turns
    → length turns < fuel
    → p.terminal.stdin ≡ typed_lines turns
    → Accepting p.terminal.session.outcomes
    → available p.terminal.session.arrivals ≡ hello ++ b'\n' ∷ (answered_lines turns ++ rest)
    → (left : List Arrival) × (outs : List Outcome) × (p' : ClientProcess) × (run_client n down fuel
          limit hostname port p
        ≡ returned tt p')
      × (p'.socket.opened ≡ [])
      × (p'.terminal.stdout ≡ p.terminal.stdout ++ ((hello ++ b'\n' ∷ []) ++ answered_lines turns))
      × (p'.terminal.session.sent ≡ p.terminal.session.sent ++ (typed_lines turns ++ b'\n' ∷ []))
unfolding run_client get_id
run_client_lem turns fuel limit hello rest hostname port n down p c start l m h k i a e =
    let p1 : ClientProcess = keep_id (record p { socket = working n.socket_result }) in
    let (left1, r1, e1) =
      receive_hello_lem limit hello (answered_lines turns ++ rest) p1.terminal l m e in
    let t2 : Terminal = greeted p.terminal n.socket_result left1 hello in
    let (left, outs, r2, _) = run_loop_lem turns fuel limit rest t2 h k i a e1 in
    let p3 : ClientProcess = record p1 { terminal = finished t2 left outs turns } in
    let last : Act ClientProcess Unit = on_socket (shutdown down) in
    let rest_of : Act ClientProcess Unit = (do _ ← at_terminal (run_loop fuel limit); last) in
    let talk : Act ClientProcess Unit = (do _ ← at_terminal (receive_hello limit); rest_of) in
    (
      left,
      outs,
      record p3 { socket = record (working n.socket_result) { opened = [] } },
      ap caught (
          ap
            (λ s.
              continue (λ (u : Unit {0}) q. talk (keep_id q))
                (with_socket p (client_socket n hostname port s)))
            start
          ∙ ap (λ x. continue (λ (u : Unit {0}) q. talk (keep_id q)) (with_socket p x)) c.made
          ∙ ap (λ x. continue (λ (u : Unit {0}). rest_of) (with_terminal p1 x)) r1
          ∙ ap (λ x. continue (λ (u : Unit {0}). last) (with_terminal p1 x)) r2
          ∙ ap (with_socket p3) (shutdown-working down n.socket_result c.ends)),
      refl,
      append_assoc p.terminal.stdout (hello ++ b'\n' ∷ []) (answered_lines turns),
      refl,
    )
