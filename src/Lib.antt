-- ===== src/Lib.antt =====
-- A model of the RadioHead library for Grove LoRa modules, and of the firmware of the module.
--
-- The program. A host talks to a Grove module over a serial port; the module's firmware turns what
-- it is sent into transfers on the SPI bus of an RFM95 radio. On the host, each class extends the
-- one below or holds a reference to it: the generic driver, the UART driver with the register
-- protocol, the RF95 driver, then datagrams, reliable datagrams with acknowledgements, a router with
-- a routing table, and a mesh that discovers its routes. An application calls one of the upper four.
--
-- The files.
--   Prelude.antt     shared names, octets and words, lists over native numbers, the commands `Cmd`
--                    (a state passed on; a run is done, reads or writes out of bounds, or runs out
--                    of fuel), and rules for what a command leaves behind and for how
--                    long it takes (Post and Takes).
--   Driver.antt      RHGenericDriver.h and RHGenericDriver.cpp. `Driver` has the protected fields,
--                    `Radio` the virtual functions; Driver/Wait.antt has the waiting loops.
--   Uart.antt        RHUartDriver.h and RHUartDriver.cpp, over the functions of the Arduino core that
--                    the record `Arduino` names: the port, `millis`, `random` and `delay`.
--   Rf95.antt        RH_RF95.h and RH_RF95.cpp: interrupts, receiving and sending (`handle_interrupt`,
--                    `available`, `recv`, `send`); Rf95/Codes.antt has its sizes, registers and bits,
--                    and Rf95/Setup.antt configures the chip and makes a `Radio` of the driver.
--   Firmware.antt    examples/Grove_LoRa_firmware/Grove_LoRa_firmware.ino: the globals are the record
--                    `Firmware`, a call of `loop` is one step, the SPI bus is the parameter `Spi`, and
--                    `Board` has what `setup` calls. Firmware/Steps.antt has the states that the
--                    module can come to: its steps are calls of `loop`, interrupts and octets that come.
--   Protocol.antt    the UART driver and the firmware together, in writing and in reading.
--   Node.antt        the fields of RHDatagram, RHReliableDatagram, RHRouter and RHMesh, which one
--                    object holds, with the two static message buffers.
--   Datagram.antt    RHDatagram.h and RHDatagram.cpp.
--   Reliable.antt    RHReliableDatagram.h and RHReliableDatagram.cpp: `sendto_wait` is sendtoWait,
--                    `recvfrom_ack` is recvfromAck, and so on.
--   Table.antt       the routing table of RHRouter.cpp.
--   Router.antt      the rest of RHRouter.h and RHRouter.cpp. `Overrides` has the virtual functions
--                    that RHMesh overrides.
--   Mesh.antt        RHMesh.h and RHMesh.cpp; Mesh/Peeking.antt has the messages and
--                    `peek_at_message`, which is peekAtMessage.
--   Sketch.antt      the sketches of examples/: their `setup` and `loop` act on the objects, the keys
--                    that wait at the console and what is printed. Sketch/Meshes.antt has those of
--                    the mesh, Sketch/Routers.antt those of the router, Sketch/Datagrams.antt those of
--                    the reliable datagrams, and Sketch/Radios.antt those of the driver alone.
--   Examples.antt    a scripted radio, a serial port and concrete runs.
-- Any other module below one of these is named for what it proves.
--
-- Conventions. Octets and words are natural numbers, with the wrap of each assignment written out.
-- A buffer with its length is a list; `none` for a length stands for null pointers. A function that
-- returns bool and writes through pointers returns an `Option`. An access past a buffer is the run
-- `fault`, but for the copy `blit` into a buffer, which keeps the size of the buffer and drops what
-- would lie past its end.
--
-- Fuel. A loop that waits takes the number of its rounds as fuel, and is `out_of_fuel` without.
-- 3001002 rounds are enough for a read of the register protocol, which waits three seconds by a
-- clock that goes on by at least a microsecond with each reading, and so for `available` of
-- RH_RF95. By such a clock a round for each microsecond of the timeout is enough for
-- waitAvailableTimeout, and for waitPacketSent with a timeout. How many rounds the other loops of
-- the datagrams, the router and the mesh make depends on when a transmission ends, of which nothing
-- is assumed: what is said of a call of theirs is said of one that returns. `route`
-- of a mesh node calls itself through the report of a failure; it is given two calls, since the
-- message of the second is its own, whose failure is not reported.
--
-- Not modelled: what only prints (printRoutingTable, printBuffer), the
-- preprocessor's choice of a platform in RadioHead.h, RHutil, the test networks of RHRouter.cpp,
-- which the build leaves out, and in the sketches the configuration of pins and console. The
-- float arithmetic of setFrequency is represented by the integer that it yields. The `YIELD`
-- between two rounds of a loop does nothing.
pub mod Datagram
pub mod Driver
pub mod Examples
pub mod Firmware
pub mod Mesh
pub mod Node
pub mod Prelude
pub mod Protocol
pub mod Reliable
pub mod Rf95
pub mod Router
pub mod Sketch
pub mod Table
pub mod Uart
