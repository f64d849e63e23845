-- ===== src/Sketch.antt =====
-- What the sketches of examples/ share: the console, the texts they send, and the loop of the
-- router and mesh sketches.
pub mod Meshes
pub mod Routers
pub mod Datagrams
pub mod Radios
pub mod Invariant
pub mod Network
pub mod Running
pub mod Line
use grove_lo_ra_433mhz_and.Prelude.{
  ℕ, ◌-◌, ◌==◌, ltb, leb, if◌then◌else◌, Bool, true, false, not, ◌&&◌, Option, none, some, List, [],
  ◌∷◌, ◌++◌, length,
}
use grove_lo_ra_433mhz_and.Prelude.Commands.{Cmd, Run, done, pure, get, modify, when, ◌>>=◌, ◌>>◌}
use grove_lo_ra_433mhz_and.Node.{Node}
use grove_lo_ra_433mhz_and.Router.{Delivery, error_none}

-- A line that a sketch prints, with the values that it prints, or a change of the LED.
pub data Report : Type 0 where
  greeting announcing init_failed no_reply not_sent reply_not_sent reply_sent not_received : Report
  sending : ℕ → Report
  got_reply got_message : (from : ℕ) → List ℕ → Report
  received : List ℕ → Report
  led : Bool → Report

-- The objects of a sketch, the characters that wait at its console, and what it has printed.
pub record Sketch (S : Type 0) : Type 0 where
  pub state : S
  pub keys : List ℕ
  pub console : List Report

module _ {S : Type 0} where
  -- A call of the objects.
  abbrev pub on_state : {A : Type 0} → Cmd S A → Cmd (Sketch S) A
  on_state m s = elim (m s.state) [
    | done a t ↦ done a (record s { state = t })
    | Run.fault ↦ Run.fault
    | Run.out_of_fuel ↦ Run.out_of_fuel
  ]

  abbrev pub print : Report → Cmd (Sketch S) (Unit {0})
  print x = modify (λ s. record s { console = s.console ++ x ∷ [] })

  -- `if (ShowSerial.available()) addr = ShowSerial.read();`, where `addr` was not initialised.
  unfoldable pub read_key : ℕ → Cmd (Sketch S) ℕ
  read_key garbage s = elim s.keys [
    | [] ↦ done garbage s
    | key ∷ keys ↦ done key (record s { keys = keys })
  ]

-- "Hello World!", with the zero at its end.
abbrev pub hello_world : List ℕ
hello_world =
    b'H' ∷ b'e' ∷ b'l' ∷ b'l' ∷ b'o' ∷ b' ' ∷ b'W' ∷ b'o' ∷ b'r' ∷ b'l' ∷ b'd' ∷ b'!' ∷ 0 ∷ []

-- "And hello back to you", with what follows.
abbrev pub hello_back : List ℕ → List ℕ
hello_back rest =
    b'A' ∷ b'n' ∷ b'd' ∷ b' ' ∷ b'h' ∷ b'e' ∷ b'l' ∷ b'l' ∷ b'o' ∷ b' ' ∷ b'b' ∷ b'a' ∷ b'c' ∷ b'k'
    ∷ b' ' ∷ b't' ∷ b'o' ∷ b' ' ∷ b'y' ∷ b'o' ∷ b'u' ∷ rest

-- The members of RHRouter and RHMesh that the sketches call on their `manager`.
pub record Manager (C : Type 0) : Type 0 where
  pub init : Cmd (Node C) Bool
  pub sendto_wait : List ℕ → (dest flags : ℕ) → Cmd (Node C) ℕ
  pub recvfrom_ack : (len : ℕ) → Cmd (Node C) (Option Delivery)
  pub recvfrom_ack_timeout : (len timeout : ℕ) → Cmd (Node C) (Option Delivery)

module _ {C : Type 0} (m : Manager C) where
  -- The `if` on `addr`: `len` octets fit the buffer, and the result is `len` afterwards.
  unfoldable pub send_to : (len dest : ℕ) → Cmd (Sketch (Node C)) ℕ
  send_to len dest = do
    print (sending dest)
    code ← on_state (m.sendto_wait hello_world dest 0)
    if code == error_none
        then (do
          got ← on_state (m.recvfrom_ack_timeout len 3000)
          elim got [
            | some d ↦ do print (got_reply d.source d.payload); pure (length d.payload)
            | none ↦ do print no_reply; pure len
          ])
        else do print not_sent; pure len

  -- The rest of `loop`, in which a message is answered with the text `back`.
  unfoldable pub answer : (back : List ℕ) → (len : ℕ) → Cmd (Sketch (Node C)) (Unit {0})
  answer back len = do
    got ← on_state (m.recvfrom_ack len)
    elim got [
      | none ↦ pure tt
      | some d ↦ do
        print (got_message d.source d.payload)
        code ← on_state (m.sendto_wait back d.source 0)
        when (not (code == error_none)) (print reply_not_sent)
    ]

  -- `loop`, with a buffer of `size` octets.
  unfoldable pub chat : (back : List ℕ) → (size garbage : ℕ) → Cmd (Sketch (Node C)) (Unit {0})
  unfolding read_key send_to answer
  chat back size garbage = do
    addr ← read_key garbage
    len ← if ltb b'0' addr && leb addr b'4' then send_to size (addr - b'0') else pure size
    answer back len

  -- The part of `setup` before the routes.
  unfoldable pub start : Cmd (Sketch (Node C)) (Unit {0})
  start = do ready ← on_state m.init; when (not ready) (print init_failed)
