-- ===== src/Rf95/Receiving.antt =====
-- A packet in the buffer of RH_RF95, and how `recv` takes it apart.
use grove_lo_ra_433mhz_and.Prelude.{
  ℕ, ◌+◌, ◌≤◌, ◌<◌, ◌==◌, ◌≡◌, refl, ap, ◌∙◌, true, false, ltb, some, List, [], ◌∷◌, arith, length,
  take, blit, take-min-blit, min, ◌||◌, u16,
}
use grove_lo_ra_433mhz_and.Prelude.Commands.{done, fault}
use grove_lo_ra_433mhz_and.Driver.{Driver, Device}
use grove_lo_ra_433mhz_and.Uart.{Arduino}
use grove_lo_ra_433mhz_and.Rf95.{
  Chip, recv, recv_length, clear_rx_buf, available, validate_rx_buf, header_len, max_message_len,
  fifo_size,
}

-- The octets of a packet: its four headers and the message.
abbrev pub packet : Driver → List ℕ → List ℕ
packet g octets = g.tx_header_to ∷ g.tx_header_from ∷ g.tx_header_id ∷ g.tx_header_flags ∷ octets

recv_length-min :
    (room n : ℕ) → n ≤ max_message_len → recv_length room (n + header_len) ≡ min room n
unfolding recv_length
recv_length-min room n h = ground arith

-- What `recv` copies behind the headers.
pub recv-min :
    {W : Type 0} (a : Arduino W) (fuel room n : ℕ) (e d : Device (Chip W)) {h₀ h₁ h₂ h₃ : ℕ}
    {rest : List ℕ}
    → n ≤ max_message_len
    → available a fuel e ≡ done true d
    → d.chip.buf_len ≡ n + header_len
    → d.chip.buf ≡ h₀ ∷ h₁ ∷ h₂ ∷ h₃ ∷ rest
    → recv a fuel (some room) e
      ≡ done
          (some (take (min room n) rest))
          (record d { chip = record (d.chip) { rx_buf_valid = false; buf_len = 0 } })
unfolding recv clear_rx_buf
recv-min a fuel room n e d short ready l b =
    let fits : ltb fifo_size (header_len + min room n) ≡ false = ground arith in
    rw (ready, l, recv_length-min room n short, fits, b) refl

-- What `validate_rx_buf` makes of a packet that is addressed to the node.
pub validate_rx_buf-addressed :
    {W : Type 0} (d : Device (Chip W)) (n : ℕ) {h₀ h₁ h₂ h₃ : ℕ} {rest : List ℕ}
    → d.chip.buf_len ≡ n + header_len
    → d.chip.buf ≡ h₀ ∷ h₁ ∷ h₂ ∷ h₃ ∷ rest
    → h₀ ≡ d.driver.this_address
    → ((validate_rx_buf d).chip ≡ record (d.chip) { rx_buf_valid = true })
      × ((validate_rx_buf d).driver ≡ record (d.driver) {
        rx_header_to = h₀;
        rx_header_from = h₁;
        rx_header_id = h₂;
        rx_header_flags = h₃;
        rx_good = u16 (d.driver.rx_good + 1);
      })
unfolding validate_rx_buf
validate_rx_buf-addressed d n {h₀} l b to =
    let long : ltb d.chip.buf_len 4 ≡ false = ground arith in
    let mine : (d.driver.promiscuous || h₀ == d.driver.this_address || h₀ == 255) ≡ true =
      ground arith in
    (rw (long, b, mine) refl, rw (long, b, mine) refl)

-- A packet that one node sends and another, to which it is addressed, has received into its buffer, is valid
-- there with the headers of the sender, and `recv` copies as much of the message as there is room for,
-- and leaves the buffer empty and not valid, and the device otherwise as it was.
pub recv-packet :
    {W : Type 0} (a : Arduino W) (fuel room : ℕ) (g : Driver) (octets raw : List ℕ)
    (d e : Device (Chip W))
    → length octets ≤ max_message_len
    → length raw ≡ fifo_size
    → d.chip.buf ≡ blit 0 (packet g octets) raw
    → d.chip.buf_len ≡ length octets + header_len
    → g.tx_header_to ≡ d.driver.this_address
    → available a fuel e ≡ done true (validate_rx_buf d)
    → ((validate_rx_buf d).chip.rx_buf_valid ≡ true)
      × ((validate_rx_buf d).driver.rx_header_to ≡ g.tx_header_to)
      × ((validate_rx_buf d).driver.rx_header_from ≡ g.tx_header_from)
      × ((validate_rx_buf d).driver.rx_header_id ≡ g.tx_header_id)
      × ((validate_rx_buf d).driver.rx_header_flags ≡ g.tx_header_flags)
      × (recv a fuel (some room) e
          ≡ done (some (take room octets)) (record (validate_rx_buf d) {
            chip = record ((validate_rx_buf d).chip) { rx_buf_valid = false; buf_len = 0 };
          }))
recv-packet a fuel room g octets [] d e short size b l to ready = absurd (omega arith)
recv-packet a fuel room g octets (_ ∷ []) d e short size b l to ready = absurd (omega arith)
recv-packet a fuel room g octets (_ ∷ _ ∷ []) d e short size b l to ready = absurd (omega arith)
recv-packet a fuel room g octets (_ ∷ _ ∷ _ ∷ []) d e short size b l to ready = absurd (omega arith)
recv-packet a fuel room g octets (_ ∷ _ ∷ _ ∷ _ ∷ rest) d e short size b l to ready =
    let (chip, driver) = validate_rx_buf-addressed d (length octets) l b to in
    (
      ap (λ c. c.rx_buf_valid) chip,
      ap (λ x. x.rx_header_to) driver,
      ap (λ x. x.rx_header_from) driver,
      ap (λ x. x.rx_header_id) driver,
      ap (λ x. x.rx_header_flags) driver,
      recv-min a fuel room (length octets) e (validate_rx_buf d) short ready
            (ap (λ c. c.buf_len) chip ∙ l) (ap (λ c. c.buf) chip ∙ b)
          ∙ rw (take-min-blit room octets rest (omega arith)) refl,
    )

-- A packet of fewer than four octets that has come while a message is valid, and not yet received, leaves
-- the device as it is, with that message's validity and the short packet's length, and when `available`
-- has answered true on it, `recv` into room for any number of octets copies past the end of the buffer.
pub recv_short :
    {W : Type 0} (a : Arduino W) (fuel room : ℕ) (d e : Device (Chip W))
    → d.chip.rx_buf_valid ≡ true
    → d.chip.buf_len < header_len
    → available a fuel e ≡ done true (validate_rx_buf d)
    → (validate_rx_buf d ≡ d)
      × (available a fuel e ≡ done true d)
      × (recv a fuel (some room) e ≡ fault)
recv_short a fuel room d e valid short ready =
    let less : ltb d.chip.buf_len 4 ≡ true = ground arith in
    let same : validate_rx_buf d ≡ d = unfold validate_rx_buf in rw less refl in
    let ready' : available a fuel e ≡ done true d = ready ∙ ap (λ x. done true x) same in
    let wrapped : recv_length room d.chip.buf_len ≡ 252 + d.chip.buf_len =
      unfold recv_length in ground arith in
    let past : ltb fifo_size (header_len + (252 + d.chip.buf_len)) ≡ true = ground arith in
    (same, ready', unfold recv in rw (ready', wrapped, past) refl)
