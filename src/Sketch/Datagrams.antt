-- ===== src/Sketch/Datagrams.antt =====
-- examples/rf95_reliable_datagram_client and examples/rf95_reliable_datagram_server.
use grove_lo_ra_433mhz_and.Prelude.{ℕ, if◌then◌else◌, not, none, some, List, [], ◌∷◌}
use grove_lo_ra_433mhz_and.Prelude.Commands.{Cmd, pure, when, ◌>>=◌, ◌>>◌}
use grove_lo_ra_433mhz_and.Driver.{Device, Radio}
use grove_lo_ra_433mhz_and.Node.{Node, on_device}
use grove_lo_ra_433mhz_and.Datagram
use grove_lo_ra_433mhz_and.Reliable
use grove_lo_ra_433mhz_and.Sketch.{
  announcing, init_failed, got_reply, got_message, no_reply, not_sent, reply_not_sent, Sketch,
  on_state, print, hello_world, hello_back,
}

abbrev pub client_address : ℕ
client_address = 1

abbrev pub server_address : ℕ
server_address = 2

-- RH_RF95_MAX_MESSAGE_LEN
abbrev pub buffer_size : ℕ
buffer_size = 251

abbrev pub server_reply : List ℕ
server_reply = hello_back (0 ∷ [])

-- `delay` is the function of the Arduino core.
module _ {C : Type 0} (r : Radio C) (delay : ℕ → Cmd (Device C) (Unit {0})) (fuel : ℕ) where
  unfoldable pub client_setup : Cmd (Sketch (Node C)) (Unit {0})
  client_setup = do ready ← on_state (Datagram.init r); when (not ready) (print init_failed)

  unfoldable pub client_loop : Cmd (Sketch (Node C)) (Unit {0})
  client_loop = do
    print announcing
    sent ← on_state (Reliable.sendto_wait r fuel hello_world server_address)
    if sent
        then (do
          got ← on_state (Reliable.recvfrom_ack_timeout r fuel buffer_size 2000)
          elim got [ some m ↦ print (got_reply m.from m.payload) | none ↦ print no_reply ])
        else print not_sent
    on_state (on_device (delay 500))

  unfoldable pub server_setup : Cmd (Sketch (Node C)) (Unit {0})
  server_setup = do ready ← on_state (Datagram.init r); when (not ready) (print init_failed)

  unfoldable pub server_loop : Cmd (Sketch (Node C)) (Unit {0})
  server_loop = do
    ready ← on_state (Datagram.available r)
    when ready (do
      got ← on_state (Reliable.recvfrom_ack r fuel (some buffer_size))
      elim got [
        | Reliable.received m ↦ do
          print (got_message m.from m.payload)
          sent ← on_state (Reliable.sendto_wait r fuel server_reply m.from)
          when (not sent) (print reply_not_sent)
        | _ ↦ pure tt
      ])
