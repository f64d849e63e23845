-- ===== src/Reliable/Timeouts.antt =====
-- The time that `sendtoWait` gives an acknowledgement.
