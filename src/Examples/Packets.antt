-- ===== src/Examples/Packets.antt =====
-- Signed packets at concrete inputs.
use sidewire.Prelude.{◌≡◌, refl, none, some, [], ◌∷◌, ◌++◌}
use sidewire.Prelude.Results.{ok, map_ok}
use sidewire.Aionetiface.{Bytes, str, bytes}
use sidewire.AppPacket.{
  MsgEnum, to_int, AppPacket, Inbound, pack, pack_async, unpack, signed_section,
}
use sidewire.AppPacket.RoundTrip.{unpack-pack_lem}
use sidewire.AppPacket.Authentic.{unpack_cases, Verdict, pack_async-pack, async_signer}
use sidewire.Wire.Struct.{pack as struct_pack}
use sidewire.Examples.{toy, alice, alice-IsKeyPair, replicate, toy_sign}

abbrev hello : AppPacket
hello = record {
  src_pk_hex = none;
  sig_hex = none;
  queue_id_hex = replicate 64 b'a';
  seq_no = 3;
  timestamp = none;
  msg_type = MsgEnum.msg;
  msg = some (str (b'h' ∷ b'i' ∷ []));
}

abbrev hello_signed : Bytes
hello_signed =
    replicate 32 b'a'
    ++ ((0 ∷ 0 ∷ 0 ∷ 3 ∷ [])
        ++ ((0 ∷ 0 ∷ 0 ∷ 0 ∷ 0 ∷ 0 ∷ 4 ∷ 210 ∷ []) ++ ((1 ∷ []) ++ (b'h' ∷ b'i' ∷ []))))

abbrev hello_bytes : Bytes
hello_bytes = replicate 33 2 ++ (toy_sign (1 ∷ []) hello_signed ++ hello_signed)

abbrev hello_packed : AppPacket
hello_packed = record {
  src_pk_hex = some (replicate 66 2);
  sig_hex = some (replicate 128 47);
  queue_id_hex = replicate 64 b'a';
  seq_no = 3;
  timestamp = some 1234;
  msg_type = MsgEnum.msg;
  msg = some (str (b'h' ∷ b'i' ∷ []));
}

pack-hello : pack toy alice hello 1234 ≡ ok (hello_packed, hello_bytes)
unfolding pack signed_section struct_pack
pack-hello = refl

unpack-pack_lem_example :
    (i : Inbound) × (unpack toy (bytes hello_bytes) ≡ ok (some i))
    × (some (replicate 66 2) ≡ some i.src_pk_hex)
    × (some (replicate 128 47) ≡ some i.sig_hex)
    × (some 1234 ≡ some i.timestamp)
    × (i.queue_id_hex ≡ replicate 64 b'a')
    × (i.seq_no ≡ 3)
    × (i.msg_type ≡ to_int MsgEnum.msg)
    × (i.msg ≡ b'h' ∷ b'i' ∷ [])
unpack-pack_lem_example =
    unpack-pack_lem toy alice hello hello_packed 1234 (replicate 32 b'a') hello_bytes
      alice-IsKeyPair refl refl pack-hello

unpack_cases_example : Verdict toy hello_bytes
unpack_cases_example = unpack_cases toy hello_bytes

pack_async-pack_example :
    map_ok (λ r. r.1) (pack_async toy alice hello 1234)
    ≡ map_ok (λ r. r.1) (pack (async_signer toy) alice hello 1234)
pack_async-pack_example = pack_async-pack toy refl refl alice hello 1234
