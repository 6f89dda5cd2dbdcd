-- ===== src/Messages/Options.antt =====
-- transport/mod.rs and adapters/events.rs: what the options ask for is what the other side gets.
use msgtrans.Packet.{Packet}
