-- ===== src/Sketch/Radios.antt =====
-- examples/rf95_client, examples/rf95_server and examples/rf95_HardwareSerial_server: messages with
-- the RF95 driver alone.
use grove_lo_ra_433mhz_and.Prelude.{ℕ, if◌then◌else◌, Bool, true, false, not, none, some, [], ◌∷◌}
use grove_lo_ra_433mhz_and.Prelude.Commands.{Cmd, Run, pure, modify, when, ◌>>=◌, ◌>>◌}
use grove_lo_ra_433mhz_and.Driver.{Device}
use grove_lo_ra_433mhz_and.Driver.Wait
use grove_lo_ra_433mhz_and.Uart.{Arduino}
use grove_lo_ra_433mhz_and.Rf95
use grove_lo_ra_433mhz_and.Rf95.{Chip, on_port}
use grove_lo_ra_433mhz_and.Rf95.Setup.{init, set_frequency}
use grove_lo_ra_433mhz_and.Sketch.{
  greeting, announcing, init_failed, received, no_reply, not_received, reply_sent, led, Sketch,
  on_state, print, hello_world, hello_back,
}

-- The argument 434.0 of setFrequency, in steps of 32 MHz / 524288.
abbrev pub frf_434 : ℕ
frf_434 = 7110656

-- `while (1);`
abbrev pub hang : {S A : Type 0} → Cmd S A
hang s = Run.out_of_fuel

module _ {W : Type 0} (a : Arduino W) (fuel : ℕ) where
  abbrev wait_packet_sent : Cmd (Device (Chip W)) Bool
  wait_packet_sent = Wait.wait_packet_sent (Rf95.available a fuel) (Rf95.millis a fuel) fuel

  unfoldable pub client_setup : Cmd (Sketch (Device (Chip W))) (Unit {0})
  client_setup = do
    print greeting
    ready ← on_state (init a fuel)
    when (not ready) (print init_failed >> hang)
    on_state (set_frequency a fuel frf_434)
    pure tt

  unfoldable pub client_loop : Cmd (Sketch (Device (Chip W))) (Unit {0})
  client_loop = do
    print announcing
    on_state (Rf95.send a fuel hello_world)
    on_state wait_packet_sent
    ready ←
        on_state
          (Wait.wait_available_timeout (Rf95.available a fuel) (Rf95.millis a fuel) fuel 3000)
    if ready
        then (do
          got ← on_state (Rf95.recv a fuel (some Rf95.max_message_len))
          elim got [ some octets ↦ print (received octets) | none ↦ print not_received ])
        else print no_reply
    on_state (on_port (modify (a.delay 1000)))

  unfoldable pub server_setup : Cmd (Sketch (Device (Chip W))) (Unit {0})
  server_setup = do
    print greeting
    ready ← on_state (init a fuel)
    when (not ready) (print init_failed >> hang)
    on_state (set_frequency a fuel frf_434)
    pure tt

  unfoldable pub server_loop : Cmd (Sketch (Device (Chip W))) (Unit {0})
  server_loop = do
    ready ← on_state (Rf95.available a fuel)
    when ready (do
      got ← on_state (Rf95.recv a fuel (some Rf95.max_message_len))
      elim got [
        | some octets ↦ do
          print (led true)
          print (received octets)
          on_state (Rf95.send a fuel (hello_back (0 ∷ [])))
          on_state wait_packet_sent
          print reply_sent
          print (led false)
        | none ↦ print not_received
      ])

  -- The sketch for a second hardware port; its code is that of rf95_server.
  unfoldable pub hardware_setup : Cmd (Sketch (Device (Chip W))) (Unit {0})
  hardware_setup = do
    print greeting
    ready ← on_state (init a fuel)
    when (not ready) (print init_failed >> hang)
    on_state (set_frequency a fuel frf_434)
    pure tt

  unfoldable pub hardware_loop : Cmd (Sketch (Device (Chip W))) (Unit {0})
  hardware_loop = do
    ready ← on_state (Rf95.available a fuel)
    when ready (do
      got ← on_state (Rf95.recv a fuel (some Rf95.max_message_len))
      elim got [
        | some octets ↦ do
          print (led true)
          print (received octets)
          on_state (Rf95.send a fuel (hello_back (0 ∷ [])))
          on_state wait_packet_sent
          print reply_sent
          print (led false)
        | none ↦ print not_received
      ])
