-- ===== src/Reliable.antt =====
-- RHReliableDatagram.h and RHReliableDatagram.cpp: acknowledged datagrams with retransmission.
pub mod Sending
pub mod Replies
pub mod Receiving
pub mod Timeouts
pub mod Agreement
pub mod Kept
use grove_lo_ra_433mhz_and.Prelude.{
  ℕ, zero, suc, ◌+◌, ◌*◌, ◌/◌, ◌==◌, ltb, leb, if◌then◌else◌, Bool, true, false, not, ◌&&◌, Option,
  none, some, List, [], ◌∷◌, length, u8, u16, u32, sub32, bit_and,
}
use grove_lo_ra_433mhz_and.Prelude.Commands.{
  Cmd, out_of_fuel, pure, get, gets, modify, when, ◌>>=◌, ◌>>◌,
}
use grove_lo_ra_433mhz_and.Driver.{Radio, broadcast_address, flags_none}
use grove_lo_ra_433mhz_and.Node.{Node, on_device, update}
use grove_lo_ra_433mhz_and.Datagram
use grove_lo_ra_433mhz_and.Datagram.{Message, set_header_id, set_header_flags, sendto, recvfrom}

abbrev pub flags_ack : ℕ
flags_ack = 0x80

abbrev pub default_timeout : ℕ
default_timeout = 200

abbrev pub default_retries : ℕ
default_retries = 3

-- `flags & RH_FLAGS_ACK`
abbrev pub is_ack : ℕ → Bool
is_ack flags = not (bit_and flags flags_ack == 0)

-- The test of an `int32_t` that was assigned an `unsigned long`.
abbrev pub is_positive : ℕ → Bool
is_positive w = ltb 0 w && ltb w 2147483648

-- How a call of `recvfromAck` ends. In the last two cases the octets of a message were copied to
-- the caller's buffer, and their number to `*len`.
pub data Receipt : Type 0 where
  nothing : Receipt
  discarded : List ℕ → Receipt
  received : Message → Receipt

module _ {C : Type 0} where
  -- The constructor, for an object in the memory `n`.
  unfoldable pub construct : ℕ → Node C → Node C
  construct address n = record (Datagram.construct address n) {
    retransmissions = 0;
    last_sequence_number = 0;
    timeout = default_timeout;
    retries = default_retries;
  }

  abbrev pub set_timeout : ℕ → Node C → Node C
  set_timeout timeout n = record n { timeout = timeout }

  abbrev pub set_retries : ℕ → Node C → Node C
  set_retries retries n = record n { retries = retries }

  abbrev pub reset_retransmissions : Node C → Node C
  reset_retransmissions n = record n { retransmissions = 0 }

-- The random timeout of one transmission, as the `uint16_t` that holds it.
unfoldable pub retransmit_timeout : (timeout random : ℕ) → ℕ
retransmit_timeout timeout random = u16 (timeout + timeout * random / 256)

module _ {C : Type 0} (r : Radio C) (fuel : ℕ) where
  unfoldable pub acknowledge : (id from : ℕ) → Cmd (Node C) (Unit {0})
  acknowledge id from = do
    set_header_id id
    set_header_flags flags_ack flags_none
    sendto r (b'!' ∷ []) from
    Datagram.wait_packet_sent r fuel
    pure tt

  -- The message that was waited for: is it our ACK?
  unfoldable pub examine : (sequence_number address : ℕ) → Message → Cmd (Node C) Bool
  unfolding acknowledge
  examine sequence_number address m = do
    n ← get
    if m.from == address && m.to == n.this_address && is_ack m.flags && m.id == sequence_number
        then pure true
        else do
          when (not (is_ack m.flags) && m.id == n.seen_ids m.from) (acknowledge m.id m.from)
          pure false

  -- One round of the inner loop, with time left.
  unfoldable pub await_round : (sequence_number address time_left : ℕ) → Cmd (Node C) Bool
  unfolding examine
  await_round sequence_number address time_left = do
    ready ← Datagram.wait_available_timeout r fuel (u16 time_left)
    if ready
        then (do
          got ← recvfrom r none
          elim got [ none ↦ pure false | some m ↦ examine sequence_number address m ])
        else pure false

  -- The inner loop.
  unfoldable pub await_ack : ℕ → (sequence_number address timeout send_time : ℕ) → Cmd (Node C) Bool
  await_ack zero sequence_number address timeout send_time n = out_of_fuel
  await_ack (suc rounds) sequence_number address timeout send_time n =
      (do
        now ← Datagram.millis r
        let time_left = sub32 timeout (sub32 now send_time)
        if is_positive time_left
            then (do
              acked ← await_round sequence_number address time_left
              if acked
                  then pure true
                  else await_ack rounds sequence_number address timeout send_time)
            else pure false)
        n

  -- One transmission.
  unfoldable pub transmit : List ℕ → (sequence_number address : ℕ) → Cmd (Node C) (Unit {0})
  transmit buf sequence_number address = do
    set_header_id sequence_number
    set_header_flags flags_none flags_ack
    sendto r buf address
    Datagram.wait_packet_sent r fuel
    pure tt

  -- What follows a transmission to one node; `retries` counts the transmissions made.
  unfoldable pub await_reply : (sequence_number address retries : ℕ) → Cmd (Node C) Bool
  unfolding await_ack
  await_reply sequence_number address retries = do
    when (ltb 1 retries) (modify (λ n. record n { retransmissions = u32 (n.retransmissions + 1) }))
    send_time ← Datagram.millis r
    random ← on_device (r.random 0 256)
    timeout ← gets (λ n. retransmit_timeout n.timeout random)
    await_ack fuel sequence_number address timeout send_time

  -- The outer loop: `retries` is the `uint8_t` that `retries++ <= _retries` tests.
  unfoldable pub attempt : ℕ → List ℕ → (sequence_number address retries : ℕ) → Cmd (Node C) Bool
  attempt zero buf sequence_number address retries n = out_of_fuel
  attempt (suc rounds) buf sequence_number address retries n =
      if leb retries n.retries
      then ((do
        transmit buf sequence_number address
        if address == broadcast_address then pure true else (do
          acked ← await_reply sequence_number address (u8 (retries + 1))
          if acked
              then pure true
              else (attempt rounds buf sequence_number address (u8 (retries + 1)))))
          n)
      else pure false n

  unfoldable pub sendto_wait : List ℕ → ℕ → Cmd (Node C) Bool
  sendto_wait buf address = do
    modify (λ n. record n { last_sequence_number = u8 (n.last_sequence_number + 1) })
    sequence_number ← gets (λ n. n.last_sequence_number)
    attempt fuel buf sequence_number address 0

  -- What `recvfromAck` does with a message.
  unfoldable pub accept : Message → Cmd (Node C) Receipt
  accept m = if is_ack m.flags then pure (discarded m.payload) else do
    when (not (m.to == broadcast_address)) (acknowledge m.id m.from)
    seen ← gets (λ n. n.seen_ids m.from)
    if m.id == seen then pure (discarded m.payload) else do
      modify (λ n. record n { seen_ids = update n.seen_ids m.from m.id })
      pure (received m)

  unfoldable pub recvfrom_ack : Option ℕ → Cmd (Node C) Receipt
  recvfrom_ack len = do
    ready ← Datagram.available r
    if ready
        then (do got ← recvfrom r len; elim got [ none ↦ pure nothing | some m ↦ accept m ])
        else pure nothing

  -- The loop of `recvfromAckTimeout`, with `*len` as the calls before have left it.
  unfoldable pub recvfrom_ack_loop : ℕ → (len timeout starttime : ℕ) → Cmd (Node C) (Option Message)
  recvfrom_ack_loop zero len timeout starttime n = out_of_fuel
  recvfrom_ack_loop (suc rounds) len timeout starttime n =
      (do
        now ← Datagram.millis r
        let time_left = sub32 timeout (sub32 now starttime)
        if is_positive time_left
            then (do
              ready ← Datagram.wait_available_timeout r fuel (u16 time_left)
              if ready
                  then (do
                    receipt ← recvfrom_ack (some len)
                    elim receipt [
                      | received m ↦ pure (some m)
                      | discarded payload ↦
                          recvfrom_ack_loop rounds (length payload) timeout starttime
                      | nothing ↦ recvfrom_ack_loop rounds len timeout starttime
                    ])
                  else recvfrom_ack_loop rounds len timeout starttime)
            else pure none)
        n

  unfoldable pub recvfrom_ack_timeout : (len timeout : ℕ) → Cmd (Node C) (Option Message)
  recvfrom_ack_timeout len timeout = do
    starttime ← Datagram.millis r
    recvfrom_ack_loop fuel len timeout starttime
