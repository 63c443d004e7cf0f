-- ===== src/Proto/Framing.antt =====
-- Packets broken up on their way: src/chunkymonkey/proto/proto.go reads from a stream of which more may
-- come.
use chunkymonkey.Base.{
  ℕ, ◌≤◌, ◌<◌, ◌≡◌, refl, sym, ap, ◌∙◌, inl, inr, List, [], ◌∷◌, ◌++◌, arith, ◌==◌, Bool-cases,
  length, length-append, All,
}
use chunkymonkey.Proto.Wire.{Bytes, Error, Received, read_be_loop, read_or, eof, received, failed}
use chunkymonkey.Proto.Wire.Stable.{Extends, Stable}
use chunkymonkey.Proto.Event.{Event}
use chunkymonkey.Proto.Dispatch.{
  lookup, common_read_fns, server_read_fns, client_read_fns, use_fn, server_handle_packet,
  server_read_packet, client_handle_packet, client_read_packet,
}
use chunkymonkey.Proto.Stable.Tables.{
  common_read_fns-AreStable, server_read_fns-AreStable, client_read_fns-AreStable,
}
use chunkymonkey.Proto.Stream.{FromClient, server_read_packet-sent}
use chunkymonkey.Proto.Wire.Shrinks.{Within}
use chunkymonkey.Proto.Receive.{server_read_packet-Consumes}
use mathlib.Core.List.{append-nil}

lookup-Stable :
    (entries : List (ℕ × (Bytes → Received Event))) (n : ℕ) (more : Bytes) (id : ℕ) (bs : Bytes)
    (other other' : Received Event)
    → All (λ entry. Stable n more entry.1 entry.1) entries
    → length bs ≤ n
    → Extends more other other'
    → Extends more
        (use_fn (lookup id entries) bs other)
        (use_fn (lookup id entries) (bs ++ more) other')
lookup-Stable [] n more id bs other other' h le k = k
lookup-Stable ((key, fn) ∷ entries) n more id bs other other' h le k =
    elim (Bool-cases (id == key)) [
      | inl here ↦ rw here (h.0 bs le)
      | inr there ↦ rw there (lookup-Stable entries n more id bs other other' h.1 le k)
    ]

failed_apart :
    (es calls : List Event) (e : Error) (rest : Bytes)
    → ¬ (◌≡◌ {A = Received Event} (failed calls e) (received es rest))
failed_apart es calls e rest eq = cc

received_rest :
    (es es' : List Event) (rest rest' : Bytes)
    → ◌≡◌ {A = Received Event} (received es rest) (received es' rest')
    → rest ≡ rest'
received_rest es es' rest rest' eq = cc

-- A read that stops before the end of a packet is one at the end of the stream.
cut_short :
    (r whole : Received Event) (es : List Event) (q : Bytes)
    → Extends q r whole
    → whole ≡ received es []
    → 0 < length q
    → (calls : List Event) × (r ≡ failed calls eof)
cut_short (received es' rest) whole es q ext eq lt = absurd (
    omega
      (arith, length-append rest q, ap length (received_rest es' es (rest ++ q) [] (sym ext ∙ eq))))
cut_short (failed calls e) whole es q (inl at_end) eq lt =
    (calls, ap (λ (x : Error). failed calls x) at_end)
cut_short (failed calls e) whole es q (inr same) eq lt =
    absurd (failed_apart es calls e [] (sym same ∙ eq))

-- What a server reads of a stream does not depend on what follows: a packet that is read is read with
-- the same calls when more is received behind it, which is left in the stream, and an error other
-- than the end of the stream stays the same.
pub server_read_packet-Extends :
    (bs more : Bytes) → Extends more (server_read_packet bs) (server_read_packet (bs ++ more))
unfolding server_read_packet server_handle_packet read_or read_be_loop
server_read_packet-Extends [] more = inl refl
server_read_packet-Extends (b ∷ bs) more =
    lookup-Stable common_read_fns (length bs) more _ bs _ _
      (common_read_fns-AreStable (length bs) more) (omega arith)
      (lookup-Stable server_read_fns (length bs) more _ bs _ _
        (server_read_fns-AreStable (length bs) more) (omega arith) (inr refl))

no_calls :
    (n : ℕ) (r : Received Event) (calls : List Event)
    → Within n r
    → r ≡ failed calls eof
    → r ≡ failed [] eof
no_calls n (received es rest) calls w e = absurd (failed_apart es calls eof rest (sym e))
no_calls n (failed [] k) calls w e = ap (λ (x : Error). failed [] x) same
  where
    same : k ≡ eof
    same = cc
no_calls n (failed (c ∷ es) k) calls w e = absurd (omega (arith, w.1))

-- Where the last bytes are missing of a packet that a client sends, with arguments in their ranges (any
-- that the package can write for a client but PlayerBlockInteract with an item type below -1), the
-- server's read fails with the end of the stream, and no call of the handler was made.
pub server_read_packet-cut_short :
    (p q : Bytes) (es : List Event)
    → FromClient (p ++ q) es
    → 0 < length q
    → server_read_packet p ≡ failed [] eof
unfolding server_read_packet read_or read_be_loop
server_read_packet-cut_short [] q es sent lt = refl
server_read_packet-cut_short (b ∷ bs) q es sent lt =
    let (calls, e) =
      cut_short (server_read_packet (b ∷ bs)) (server_read_packet ((b ∷ bs) ++ q)) es q
        (server_read_packet-Extends (b ∷ bs) q)
        (ap server_read_packet (sym (append-nil ((b ∷ bs) ++ q)))
          ∙ server_read_packet-sent ((b ∷ bs) ++ q) es sent [])
        lt in
    no_calls (length bs) (server_read_packet (b ∷ bs)) calls (server_read_packet-Consumes b bs) e

-- What a client reads of a stream does not depend on what follows: a packet that is read is read with
-- the same calls when more is received behind it, which is left in the stream, and an error other
-- than the end of the stream stays the same.
pub client_read_packet-Extends :
    (bs more : Bytes) → Extends more (client_read_packet bs) (client_read_packet (bs ++ more))
unfolding client_read_packet client_handle_packet read_or read_be_loop
client_read_packet-Extends [] more = inl refl
client_read_packet-Extends (b ∷ bs) more =
    lookup-Stable common_read_fns (length bs) more _ bs _ _
      (common_read_fns-AreStable (length bs) more) (omega arith)
      (lookup-Stable client_read_fns (length bs) more _ bs _ _
        (client_read_fns-AreStable (length bs) more) (omega arith) (inr refl))
