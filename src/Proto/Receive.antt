-- ===== src/Proto/Receive.antt =====
-- `receiveLoop` of src/chunkymonkey/player/player.go. Nothing clears `rxRunning`, so the loop goes on
-- until a read fails. What the player does on a call is a parameter: it may panic, or have the
-- connection closed, as `Stop` in `PacketDisconnect` does by way of `mainLoop`. The stream is what the
-- connection delivers until it ends; where it is closed within a packet, it ends there.
use chunkymonkey.Base.{
  ℕ, zero, suc, ◌≤◌, ◌<◌, ◌≡◌, refl, ap, ◌∙◌, ◌≢◌, inl, inr, List, [], ◌∷◌, ◌++◌, arith, ◌==◌,
  Bool-cases, length, length-append, All,
}
use chunkymonkey.Proto.Wire.{
  Bytes, Error, Received, read_be_loop, read_or, eof, out_of_fuel, panic, closed, received, failed,
}
use chunkymonkey.Proto.Wire.Shrinks.{Within, Consumes}
use chunkymonkey.Proto.Event.{Event}
use chunkymonkey.Proto.Dispatch.{
  lookup, common_read_fns, server_read_fns, use_fn, server_handle_packet, server_read_packet,
}
use chunkymonkey.Proto.Shrinks.Tables.{common_read_fns-Consume, server_read_fns-Consume}
use chunkymonkey.Proto.Stream.{FromClient, server_read_packet-sent}
use mathlib.Core.List.{append_assoc}

-- What has come of the calls so far by the time of the next read: the loop goes on, the player's handler
-- has panicked, or the connection was closed.
pub data Handled : Type 0 where
  goes_on : Handled
  panics : Handled
  closes : Handled

-- The calls that the player's handler gets, and the error in the end. Where it panics, these are all
-- the calls of the packet, also those behind the one that panicked.
unfoldable pub receive_loop : (List Event → Handled) → ℕ → List Event → Bytes → List Event × Error
receive_loop handled zero seen bs = (seen, out_of_fuel)
receive_loop handled (suc fuel) seen bs = elim (server_read_packet bs) [
  | received es rest ↦ elim (handled (seen ++ es)) [
    | goes_on ↦ receive_loop handled fuel (seen ++ es) rest
    | panics ↦ (seen ++ es, panic)
    | closes ↦ (seen ++ es, closed)
  ]
  | failed es e ↦ (seen ++ es, e)
]

lookup-Consumes :
    (entries : List (ℕ × (Bytes → Received Event))) (n id : ℕ) (bs : Bytes) (other : Received Event)
    → All (λ entry. Consumes n entry.1) entries
    → length bs ≤ n
    → Within n other
    → Within n (use_fn (lookup id entries) bs other)
lookup-Consumes [] n id bs other h le k = k
lookup-Consumes ((key, fn) ∷ entries) n id bs other h le k = elim (Bool-cases (id == key)) [
  | inl here ↦ rw here (h.0 bs le)
  | inr there ↦ rw there (lookup-Consumes entries n id bs other h.1 le k)
]

-- A packet takes a byte at least, and reading it ends, without a call if it fails.
pub server_read_packet-Consumes :
    (b : ℕ) (bs : Bytes) → Within (length bs) (server_read_packet (b ∷ bs))
unfolding server_read_packet server_handle_packet read_or read_be_loop
server_read_packet-Consumes b bs =
    lookup-Consumes common_read_fns (length bs) _ bs _ (common_read_fns-Consume (length bs))
      (omega arith)
      (lookup-Consumes server_read_fns (length bs) _ bs _ (server_read_fns-Consume (length bs))
        (omega arith) ((λ e. cc), refl))

-- The receive loop ends on every finite stream, whatever the player does on its calls: as many rounds
-- as the stream has bytes, and one more, are enough.
pub receive_loop-ends :
    (handled : List Event → Handled) (fuel : ℕ) (seen : List Event) (bs : Bytes)
    → length bs < fuel
    → (receive_loop handled fuel seen bs).1 ≢ out_of_fuel
unfolding receive_loop server_read_packet read_or read_be_loop
receive_loop-ends handled zero seen bs h = absurd (omega arith)
receive_loop-ends handled (suc fuel) seen [] h = λ e. cc
receive_loop-ends handled (suc fuel) seen (b ∷ bs) h =
    ends (server_read_packet (b ∷ bs)) (server_read_packet-Consumes b bs)
      (λ es rest le. receive_loop-ends handled fuel (seen ++ es) rest (omega arith))
  where
    after :
        (what : Handled) (es : List Event) (rest : Bytes)
        → (receive_loop handled fuel (seen ++ es) rest).1 ≢ out_of_fuel
        → (elim what as (λ x. List Event × Error) [
          | goes_on ↦ receive_loop handled fuel (seen ++ es) rest
          | panics ↦ (seen ++ es, panic)
          | closes ↦ (seen ++ es, closed)
        ]).1
          ≢ out_of_fuel
    after goes_on es rest later = later
    after panics es rest later = λ e. cc
    after closes es rest later = λ e. cc

    ends :
        (r : Received Event)
        → Within (length bs) r
        → ((es : List Event) (rest : Bytes)
            → length rest ≤ length bs
            → (receive_loop handled fuel (seen ++ es) rest).1 ≢ out_of_fuel)
        → (elim r as (λ x. List Event × Error) [
          | received es rest ↦ elim (handled (seen ++ es)) [
            | goes_on ↦ receive_loop handled fuel (seen ++ es) rest
            | panics ↦ (seen ++ es, panic)
            | closes ↦ (seen ++ es, closed)
          ]
          | failed es e ↦ (seen ++ es, e)
        ]).1
          ≢ out_of_fuel
    ends (received es rest) w later = after (handled (seen ++ es)) es rest (later es rest w)
    ends (failed es e) w later = w.0

sent_not_empty : (bs : Bytes) (es : List Event) → FromClient bs es → 0 < length bs
unfolding server_read_packet read_or read_be_loop
sent_not_empty [] es sent = absurd (apart (server_read_packet-sent [] es sent []))
  where
    apart : ¬ (◌≡◌ {A = Received Event} (failed [] eof) (received es []))
    apart e = cc
sent_not_empty (b ∷ bs) es sent = omega arith

-- The packets of a client, one after the other.
pub data Session : Bytes → List Event → Type 0 where
  quiet : Session [] []
  next :
      (bs : Bytes) (es : List Event) (more : Bytes) (later : List Event)
      → FromClient bs es
      → Session more later
      → Session (bs ++ more) (es ++ later)

-- Where a client sends packets one after the other, with arguments in their ranges (of all that the
-- package can write for a client but PlayerBlockInteract with an item type below -1), and the player
-- neither panics nor has the connection closed on the calls that they mean, the receive loop makes all
-- these calls, in the order in which the packets were sent, and then stops at the end of the stream;
-- one round for each byte and one more are enough.
pub receive_loop-Session :
    (handled : List Event → Handled) (bs : Bytes) (es : List Event)
    → Session bs es
    → (fuel : ℕ) (seen : List Event) → length bs < fuel
    → ((pre post : List Event) → pre ++ post ≡ es → handled (seen ++ pre) ≡ goes_on)
    → receive_loop handled fuel seen bs ≡ (seen ++ es, eof)
unfolding receive_loop server_read_packet read_or read_be_loop
receive_loop-Session handled _ _ quiet zero seen lt h = absurd (omega arith)
receive_loop-Session handled _ _ quiet (suc fuel) seen lt h = refl
receive_loop-Session handled _ _ (next bs es more later sent session) zero seen lt h =
    absurd (omega arith)
receive_loop-Session handled _ _ (next bs es more later sent session) (suc fuel) seen lt h =
    rw (server_read_packet-sent bs es sent more, h es later refl, receive_loop)
      (receive_loop-Session handled more later session fuel (seen ++ es)
          (omega (arith, length-append bs more, sent_not_empty bs es sent))
          (λ pre post e.
            ap handled (append_assoc seen es pre)
            ∙ h (es ++ pre) post (append_assoc es pre post ∙ ap (λ xs. es ++ xs) e))
        ∙ ap (λ (t : List Event). (t, eof)) (append_assoc seen es later))
