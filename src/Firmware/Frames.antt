-- ===== src/Firmware/Frames.antt =====
-- What the firmware does with a write frame of the register protocol, whatever DIO2 does meanwhile.
use grove_lo_ra_433mhz_and.Prelude.{
  ℕ, zero, suc, ◌+◌, ◌-◌, ◌≤◌, ◌<◌, ◌≡◌, refl, ap, Bool, true, List, [], ◌∷◌, ◌++◌, length, set,
  take, arith, length-set, ◌==◌, ◌||◌,
}
use mathlib.Core.List.{append_assoc}
use grove_lo_ra_433mhz_and.Firmware.{
  Firmware, Spi, receive_pending, reset, notify, execute, loop, run, spi_write, buffer_size,
}

-- Between two commands.
pub record IsIdle {S : Type 0} (f : Firmware S) : Type 0 where
  pub command : f.command ≡ 0
  pub count : f.count ≡ 0
  pub size : length f.buffer ≡ buffer_size

-- In a write command, with the octets `got` of its data.
record Collecting {S : Type 0} (f : Firmware S) (r n k : ℕ) (got waiting : List ℕ) (s : S)
    : Type 0 where
  command : f.command ≡ b'W'
  reg : f.reg ≡ r
  len : f.len ≡ n
  count : f.count ≡ 3 + k
  prefix : take k f.buffer ≡ got
  size : length f.buffer ≡ buffer_size
  pending : f.pending ≡ waiting
  bus : f.bus ≡ s

take-set {ℓ} :
    {A : Type ℓ} (k : ℕ) (xs : List A) (v : A)
    → k < length xs
    → take (k + 1) (set xs k v) ≡ take k xs ++ v ∷ []
take-set k [] v h = elim h [ ]
take-set zero (x ∷ xs) v h = refl
take-set (suc k) (x ∷ xs) v h =
    let e : suc k + 1 ≡ suc (k + 1) = omega arith in
    rw e (ap (λ ys. x ∷ ys) (take-set k xs v (omega arith)))

module _ {S : Type 0} (spi : Spi S) where
  -- What a frame leaves behind.
  pub record Written (f : Firmware S) (rest : List ℕ) (s : S) : Type 0 where
    pub idle : IsIdle f
    pub pending : f.pending ≡ rest
    pub bus : f.bus ≡ s

  receive_data :
      (f : Firmware S) (r n k : ℕ) (got : List ℕ) (b : ℕ) (rest : List ℕ) (s : S)
      → k < n
      → n ≤ 255
      → Collecting f r n k got (b ∷ rest) s
      → Collecting (receive_pending f.pending f) r n (k + 1) (got ++ b ∷ []) rest s
  unfolding receive_pending
  receive_data f r n k got b rest s h h' c = record {
    command = ground arith;
    reg = ground arith;
    len = ground arith;
    count = ground arith;
    prefix = ground (arith, take-set k f.buffer b);
    size = ground (arith, length-set f.buffer (f.count - 3) b);
    pending = ground arith;
    bus = ground arith;
  }

  execute_later :
      (f : Firmware S) (r n k : ℕ) (got waiting : List ℕ) (s : S)
      → k < n
      → Collecting f r n k got waiting s
      → execute spi f ≡ f
  unfolding execute
  execute_later f r n k got waiting s h c = ground (arith, c.command, c.count, c.len)

  Collecting-notify :
      (level : Bool) (f : Firmware S) {r n k : ℕ} {got waiting : List ℕ} {s : S}
      → Collecting f r n k got waiting s
      → Collecting (notify level f) r n k got waiting s
  unfolding notify
  Collecting-notify level f c = record {
    command = c.command;
    reg = c.reg;
    len = c.len;
    count = c.count;
    prefix = c.prefix;
    size = c.size;
    pending = c.pending;
    bus = c.bus;
  }

  -- The last octet of a frame: the frame goes out on the bus.
  execute_now :
      (level : Bool) (f : Firmware S) (r n : ℕ) (got waiting : List ℕ) (s : S)
      → Collecting f r n n got waiting s
      → Written (notify level (execute spi f)) waiting (spi_write spi r got s)
  unfolding notify execute
  execute_now level f r n got waiting s c =
      let e : execute spi f ≡ reset (record f { bus = spi_write spi r got s }) =
        ground (arith, c.command, c.count, c.len, c.reg, c.prefix, c.bus) in
      rw e (
        unfold reset in
        record {
          idle = record { command = refl; count = refl; size = refl };
          pending = c.pending;
          bus = refl;
        })

  collect :
      (levels : List Bool) (bs : List ℕ) (f : Firmware S) (r n k : ℕ) (got rest : List ℕ) (s : S)
      → length levels ≡ length bs
      → 0 < length bs
      → k + length bs ≡ n
      → n ≤ 255
      → Collecting f r n k got (bs ++ rest) s
      → Written (run spi levels f) rest (spi_write spi r (got ++ bs) s)
  unfolding run loop
  collect [] bs f r n k got rest s l p e m c = absurd (omega arith)
  collect (v ∷ vs) [] f r n k got rest s l p e m c = absurd (omega arith)
  collect (v ∷ []) (b ∷ []) f r n k got rest s l p e m c =
      let e' : k + 1 ≡ n = omega arith in
      execute_now v _ r n (got ++ b ∷ []) rest s
        (rw e' at (receive_data f r n k got b rest s (omega arith) m c))
  collect (v ∷ []) (b ∷ b' ∷ bs) f r n k got rest s l p e m c = absurd (omega arith)
  collect (v ∷ v' ∷ vs) (b ∷ []) f r n k got rest s l p e m c = absurd (omega arith)
  collect (v ∷ v' ∷ vs) (b ∷ b' ∷ bs) f r n k got rest s l p e m c =
      let c' = receive_data f r n k got b ((b' ∷ bs) ++ rest) s (omega arith) m c in
      rw (← append_assoc got (b ∷ []) (b' ∷ bs)) (
        rw (execute_later _ r n (k + 1) (got ++ b ∷ []) ((b' ∷ bs) ++ rest) s (omega arith) c') (
          collect (v' ∷ vs) (b' ∷ bs) _ r n (k + 1) (got ++ b ∷ []) rest s (omega arith)
            (omega arith) (omega arith) m (Collecting-notify v _ c')))

  -- The first octets of a frame: the command, one loop later the register, then the length.
  pub took_command :
      (level : Bool) (f : Firmware S) (b : ℕ) (waiting : List ℕ)
      → IsIdle f
      → f.pending ≡ b ∷ waiting
      → (b == b'W') || (b == b'R') ≡ true
      → let g = loop spi level f in
        (g.command ≡ b)
        × (g.count ≡ 1)
        × (g.pending ≡ waiting)
        × (g.bus ≡ f.bus)
        × (g.buffer ≡ f.buffer)
  unfolding loop
  took_command level f b waiting i p t = ground arith

  pub took_register :
      (level : Bool) (f : Firmware S) (b r : ℕ) (waiting : List ℕ)
      → f.command ≡ b
      → f.count ≡ 1
      → f.pending ≡ r ∷ waiting
      → let g = loop spi level f in
        (g.command ≡ b)
        × (g.reg ≡ r)
        × (g.count ≡ 2)
        × (g.pending ≡ waiting)
        × (g.bus ≡ f.bus)
        × (g.buffer ≡ f.buffer)
  unfolding loop
  took_register level f b r waiting i c p = ground arith

  header :
      (l l' : Bool) (f : Firmware S) (r n : ℕ) (waiting : List ℕ)
      → IsIdle f
      → f.pending ≡ b'W' ∷ r ∷ n ∷ waiting
      → let g = loop spi l' (loop spi l f) in
        Collecting (receive_pending g.pending g) r n 0 [] waiting f.bus
  header l l' f r n waiting i p =
      let (a, b, c, d, e) = took_command l f b'W' (r ∷ n ∷ waiting) i p refl in
      let (a', b', c', d', e', f') = took_register l' (loop spi l f) b'W' r (n ∷ waiting) a b c in
      unfold receive_pending in
      record {
        command = ground arith;
        reg = ground arith;
        len = ground arith;
        count = ground arith;
        prefix = refl;
        size = ground (arith, i.size);
        pending = ground arith;
        bus = ground arith;
      }

  -- In as many calls of `loop` as it has octets, a write frame is taken from the port and sent
  -- over the SPI bus in one selection, the register first, and the firmware is idle again. The
  -- levels of DIO2 make no difference.
  pub run-write_frame :
      (levels : List Bool) (f : Firmware S) (r : ℕ) (octets rest : List ℕ)
      → length levels ≡ 3 + length octets
      → length octets ≤ 255
      → IsIdle f
      → f.pending ≡ b'W' ∷ r ∷ length octets ∷ octets ++ rest
      → Written (run spi levels f) rest (spi_write spi r octets f.bus)
  unfolding run
  run-write_frame [] f r octets rest l m i p = absurd (omega arith)
  run-write_frame (_ ∷ []) f r octets rest l m i p = absurd (omega arith)
  run-write_frame (_ ∷ _ ∷ []) f r octets rest l m i p = absurd (omega arith)
  run-write_frame (u ∷ v ∷ w ∷ []) f r [] rest l m i p =
      unfold loop in execute_now w _ r 0 [] rest f.bus (header u v f r 0 rest i p)
  run-write_frame (u ∷ v ∷ w ∷ []) f r (b ∷ bs) rest l m i p = absurd (omega arith)
  run-write_frame (u ∷ v ∷ w ∷ x ∷ levels) f r [] rest l m i p = absurd (omega arith)
  run-write_frame (u ∷ v ∷ w ∷ x ∷ levels) f r (b ∷ bs) rest l m i p =
      let n = length (b ∷ bs) in
      let c = header u v f r n ((b ∷ bs) ++ rest) i p in
      let g = loop spi w (loop spi v (loop spi u f)) in
      let c' : Collecting g r n 0 [] ((b ∷ bs) ++ rest) f.bus =
        unfold loop in
        rw (execute_later _ r n 0 [] ((b ∷ bs) ++ rest) f.bus (omega arith) c)
          (Collecting-notify w _ c) in
      collect (x ∷ levels) (b ∷ bs) g r n 0 [] rest f.bus (omega arith) (omega arith) (omega arith)
        m c'
