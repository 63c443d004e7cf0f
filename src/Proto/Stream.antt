-- ===== src/Proto/Stream.antt =====
-- Streams of packets: what src/chunkymonkey/proto/proto.go reads of packets that were sent one after
-- the other, and `receiveLoop` of src/chunkymonkey/player/player.go, in which nothing clears
-- `rxRunning`, so that it goes on until an error.
use chunkymonkey.Base.{Bool, ℕ, ◌≡◌, refl, ap, ◌∙◌, ◌⊎◌, inl, inr, List, [], ◌∷◌, ◌++◌, arith}
use chunkymonkey.Proto.Wire.{
  Bytes, Received, read_be_loop, read_or, eof, unknown_packet_id, received, failed,
}
use chunkymonkey.Proto.Event.{Event}
use chunkymonkey.Proto.Dispatch.{
  common_read_fns, client_read_fns, server_handle_packet, server_read_packet, client_handle_packet,
  client_read_packet,
}
use chunkymonkey.Proto.Ids.{packet_id_user_list_item}
use chunkymonkey.Proto.Session.{write_user_list_item}
use chunkymonkey.Proto.Sent.Both.{BothSend}
use chunkymonkey.Proto.Sent.Clients.{ClientSends}
use chunkymonkey.Proto.Sent.Entities.{EntitySends}
use chunkymonkey.Proto.Sent.World.{WorldSends}
use chunkymonkey.Proto.Reading.Server.{server_handle_reads}
use chunkymonkey.Proto.Reading.Both.{on_first, handle_common, handle_common_reads}

-- What a client may send, and what a server may send.
abbrev pub FromClient : Bytes → List Event → Type 0
FromClient bs es = BothSend bs es ⊎ ClientSends bs es

abbrev pub FromServer : Bytes → List Event → Type 0
FromServer bs es = BothSend bs es ⊎ (EntitySends bs es ⊎ WorldSends bs es)

-- A packet is read by its first byte.
server_read_packet-on_first :
    (bs : Bytes) → server_read_packet bs ≡ on_first server_handle_packet (failed [] eof) bs
unfolding server_read_packet read_or read_be_loop
server_read_packet-on_first [] = refl
server_read_packet-on_first (b ∷ bs) = ap (λ (id : ℕ). server_handle_packet id bs) (omega arith)

client_read_packet-on_first :
    (bs : Bytes) → client_read_packet bs ≡ on_first client_handle_packet (failed [] eof) bs
unfolding client_read_packet read_or read_be_loop
client_read_packet-on_first [] = refl
client_read_packet-on_first (b ∷ bs) = ap (λ (id : ℕ). client_handle_packet id bs) (omega arith)

-- Both sides try the common readers before their own.
server_handle_both :
    (all rest : Bytes) (es : List Event)
    → ((other : Received Event) → handle_common other all ≡ received es rest)
    → on_first server_handle_packet (failed [] eof) all ≡ received es rest
unfolding server_handle_packet
server_handle_both [] rest es h = h _
server_handle_both (b ∷ bs) rest es h = h _

-- A packet that a client sends, with arguments in their ranges, gets the server's handler the calls
-- that the client meant (an empty slot without its count and data), and nothing of the stream after it
-- is read: any packet that the package can write for a client but PlayerBlockInteract with an item type
-- below -1.
pub server_read_packet-sent :
    (bs : Bytes) (es : List Event)
    → FromClient bs es
    → (rest : Bytes) → server_read_packet (bs ++ rest) ≡ received es rest
server_read_packet-sent bs es (inl sent) rest =
    server_read_packet-on_first (bs ++ rest)
    ∙ server_handle_both (bs ++ rest) rest es (λ other. handle_common_reads other bs es sent rest)
server_read_packet-sent bs es (inr sent) rest =
    server_read_packet-on_first (bs ++ rest) ∙ server_handle_reads bs es sent rest

-- A client does not know the packet by which a server lists a user: whatever its fields are and
-- whatever follows, the client's read fails with the unknown identifier, and calls nothing.
pub client_read_packet-write_user_list_item :
    (username : List ℕ) (online : Bool) (ping_ms : ℕ) (rest : Bytes)
    → client_read_packet (write_user_list_item username online ping_ms ++ rest)
      ≡ failed [] (unknown_packet_id packet_id_user_list_item)
unfolding write_user_list_item client_handle_packet common_read_fns client_read_fns
client_read_packet-write_user_list_item username online ping_ms rest =
    client_read_packet-on_first (write_user_list_item username online ping_ms ++ rest)
