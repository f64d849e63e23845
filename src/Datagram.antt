-- ===== src/Datagram.antt =====
-- RHDatagram.h and RHDatagram.cpp: addressed datagrams, over the driver's virtual functions.
use grove_lo_ra_433mhz_and.Prelude.{ℕ, Bool, Option, none, some, List}
use grove_lo_ra_433mhz_and.Prelude.Commands.{Cmd, pure, gets, modify, when, ◌>>=◌, ◌>>◌}
use grove_lo_ra_433mhz_and.Driver
use grove_lo_ra_433mhz_and.Driver.{Driver, Device, Radio}
use grove_lo_ra_433mhz_and.Driver.Wait
use grove_lo_ra_433mhz_and.Node.{Node, on_device, on_driver}

-- What `recvfrom` writes through its pointers when it returns true.
pub record Message : Type 0 where
  pub payload : List ℕ
  pub from : ℕ
  pub to : ℕ
  pub id : ℕ
  pub flags : ℕ

-- The received message, with the headers that the driver keeps.
abbrev pub message : List ℕ → Driver → Message
message payload d = record {
  payload = payload;
  from = Driver.header_from d;
  to = Driver.header_to d;
  id = Driver.header_id d;
  flags = Driver.header_flags d;
}

module _ {C : Type 0} where
  -- The constructor.
  abbrev pub construct : ℕ → Node C → Node C
  construct address n = record n { this_address = address }

  unfoldable pub set_header_to : ℕ → Cmd (Node C) (Unit {0})
  set_header_to to = on_driver (Driver.set_header_to to)

  unfoldable pub set_header_from : ℕ → Cmd (Node C) (Unit {0})
  set_header_from from = on_driver (Driver.set_header_from from)

  unfoldable pub set_header_id : ℕ → Cmd (Node C) (Unit {0})
  set_header_id id = on_driver (Driver.set_header_id id)

  unfoldable pub set_header_flags : ℕ → ℕ → Cmd (Node C) (Unit {0})
  set_header_flags set clear = on_driver (Driver.set_header_flags set clear)

  unfoldable pub set_this_address : ℕ → Cmd (Node C) (Unit {0})
  unfolding set_header_from
  set_this_address address = do
    on_driver (Driver.set_this_address address)
    set_header_from address
    modify (λ n. record n { this_address = address })

module _ {C : Type 0} (r : Radio C) where
  unfoldable pub init : Cmd (Node C) Bool
  unfolding set_this_address
  init = do
    ret ← on_device r.init
    address ← gets (λ n. n.this_address)
    when ret (set_this_address address)
    pure ret

  unfoldable pub sendto : List ℕ → ℕ → Cmd (Node C) Bool
  unfolding set_header_to
  sendto buf address = do set_header_to address; on_device (r.send buf)

  unfoldable pub recvfrom : Option ℕ → Cmd (Node C) (Option Message)
  recvfrom len = do
    got ← on_device (r.recv len)
    elim got [
      | none ↦ pure none
      | some payload ↦ gets (λ n. some (message payload n.device.driver))
    ]

  abbrev pub available : Cmd (Node C) Bool
  available = on_device r.available

  abbrev pub millis : Cmd (Node C) ℕ
  millis = on_device r.millis

  abbrev pub wait_available : ℕ → Cmd (Node C) (Unit {0})
  wait_available fuel = on_device (Wait.wait_available r.available r.millis fuel)

  abbrev pub wait_packet_sent : ℕ → Cmd (Node C) Bool
  wait_packet_sent fuel = on_device (Wait.wait_packet_sent r.available r.millis fuel)

  abbrev pub wait_packet_sent_timeout : ℕ → ℕ → Cmd (Node C) Bool
  wait_packet_sent_timeout fuel timeout =
      on_device (Wait.wait_packet_sent_timeout r.available r.millis fuel timeout)

  abbrev pub wait_available_timeout : ℕ → ℕ → Cmd (Node C) Bool
  wait_available_timeout fuel timeout =
      on_device (Wait.wait_available_timeout r.available r.millis fuel timeout)
