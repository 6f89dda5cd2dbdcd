-- ===== src/Limits/Tests.antt =====
-- A builder with numbers out of range.
use msgtrans.Prelude.{◌≤◌, ◌≡◌, refl, List, [], ◌∷◌, ◌++◌, some, ok, length, arith}
use msgtrans.Packet.{Bytes, Packet, one_way_packet, IsPacket}
use msgtrans.Packet.Codec.{try_encode, decode_one_with}
use msgtrans.Limits.{
  ServerSetting, sets_connection, sets_mailbox_capacity, sets_max_payload_size, sets_write_deadline,
  build_server, default_server_limits, default_connection_limits, set_server, set_connection,
  clamp_payload, decode_limits, set_max_payload_size, clamp_deadline, set_write_deadline,
}
use msgtrans.Limits.Bounds.{decode_one_with-build_server}

abbrev tiny : List ServerSetting
tiny =
    sets_connection (sets_max_payload_size 1)
    ∷ sets_mailbox_capacity 0
    ∷ sets_connection (sets_write_deadline 0)
    ∷ []

abbrev hello : Packet
hello = one_way_packet 7 (104 ∷ 105 ∷ [])

hello-IsPacket : IsPacket hello
unfolding one_way_packet
hello-IsPacket = record {
  header_valid = record {
    version_one = refl;
    biz_type_u8 = omega arith;
    message_id_u32 = omega arith;
    reserved_u16 = omega arith;
  };
  ext_header_bytes = tt;
  payload_bytes = ground arith;
}

tiny_payload : (((build_server default_server_limits tiny).connection).decode).max_payload_size ≡ 64
unfolding build_server set_server set_connection set_max_payload_size clamp_payload decode_limits
    default_server_limits clamp_deadline set_write_deadline default_connection_limits
tiny_payload = refl

hello_fits :
    length hello.payload
    ≤ (((build_server default_server_limits tiny).connection).decode).max_payload_size
unfolding one_way_packet
hello_fits = omega (arith, tiny_payload)

hello_ext :
    length hello.ext_header
    ≤ (((build_server default_server_limits tiny).connection).decode).max_ext_header_size
unfolding one_way_packet
hello_ext = omega arith

decode_one_with-build_server_example :
    (bytes : Bytes) × (try_encode hello ≡ ok bytes)
    × (decode_one_with
          (bytes ++ (1 ∷ []))
          ((build_server default_server_limits tiny).connection).decode
        ≡ ok (some (hello, length bytes)))
decode_one_with-build_server_example =
    decode_one_with-build_server tiny hello (1 ∷ []) hello-IsPacket hello_fits hello_ext
