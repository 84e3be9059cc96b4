-- ===== src/GridConnect/Server/Client/Step.antt =====
-- The calls that reach the server of GridConnectPicoW/CBUSGridConnect.cpp, from the program and from lwIP, as one step function.
use cbuspico_lib.Common.{ℕ, Bool, Option, List, [], ◌∷◌}
use cbuspico_lib.Frame.{CanFrame}
use cbuspico_lib.GridConnect.Server.{Clock, Server, Lwip, Err}
use cbuspico_lib.GridConnect.Server.Send.{Answers, send_can_frame, server_sent}
use cbuspico_lib.GridConnect.Server.Client.{
  start_server, stop_server, server_accept, server_recv, server_poll, server_err, get,
}

pub data Event (P : Type 0) : Type 0 where
  starts : Option ℕ → Err → ℕ → Event P
  stops : Event P
  sends : Answers → CanFrame → Bool → Event P
  gets : Event P
  accepts : Option ℕ → Err → Event P
  receives : Answers → Clock → ℕ → Option P → Err → Event P
  sent : ℕ → Event P
  polls : Answers → ℕ → Event P
  fails : Err → Event P

module _ {P : Type 0} where
  unfoldable pub step : Lwip P → Server P → Event P → Server P
  step w s (starts cb bound listener) = (start_server s cb bound listener).0
  step w s stops = (stop_server s).0
  step w s (sends a f more) = send_can_frame a s f more
  step w s gets = (get s).0
  step w s (accepts pcb err) = (server_accept s pcb err).0
  step w s (receives a clock pcb p err) = (server_recv w a clock s pcb p err).0
  step w s (sent len) = server_sent s len
  step w s (polls a pcb) = (server_poll a s pcb).0
  step w s (fails err) = server_err s err

  unfoldable pub run : Lwip P → Server P → List (Event P) → Server P
  run w s [] = s
  run w s (e ∷ es) = run w (step w s e) es
