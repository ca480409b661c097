-- ===== src/Protocol/Tests.antt =====
-- Runs of the codec on small inputs, and the theorems at inputs that meet their conditions.
use cyu_core.Base.{ℕ, ◌≤◌, ◌≡◌, refl, ap, none, List, [], ◌∷◌, ◌++◌, arith, length, take, ok, err}
use cyu_core.Stream.{read_full, eof}
use cyu_core.Protocol.{
  Writer, io, read_var_int_loop, read_var_int, append_var_int_loop, append_var_int, Acc-below,
  var_int_too_long, invalid_packet_length, read_string, append_string, read_packet, read_body,
  split_packet, write_packet, write_all, write_all_loop, write_both, after_write,
}
use cyu_core.Protocol.VarInt.{read_var_int-append_var_int}
use cyu_core.Protocol.Text.{read_string-append_string}
use cyu_core.Protocol.WriteAll.{Wrote, write_all-Wrote}
use cyu_core.Protocol.Packet.{
  frame, body, write_packet-Wrote, read_packet-write_packet, read_packet-write_packet_over,
}
use native.Mathlib.Decide.{dec_lt}

program : Unit {0}
unfolding read_var_int_loop read_var_int append_var_int_loop append_var_int Acc-below dec_lt
    read_string append_string read_packet read_body split_packet write_packet write_all
    write_all_loop write_both after_write read_full
program = tt

var_int_300 : append_var_int [] 300 ≡ 0xac ∷ 0x02 ∷ []
unfolding program
var_int_300 = refl

-- -1 takes all five bytes.
var_int_minus_one : append_var_int [] 0xffff_ffff ≡ 0xff ∷ 0xff ∷ 0xff ∷ 0xff ∷ 0x0f ∷ []
unfolding program
var_int_minus_one = refl

var_int_cut : read_var_int (0x80 ∷ []) ≡ err (io eof)
unfolding program
var_int_cut = refl

var_int_six_bytes :
    read_var_int (0xff ∷ 0xff ∷ 0xff ∷ 0xff ∷ 0xff ∷ 0x0f ∷ []) ≡ err var_int_too_long
unfolding program
var_int_six_bytes = refl

packet_bytes : read_packet 100 (3 ∷ 0xac ∷ 0x02 ∷ 9 ∷ 8 ∷ []) ≡ ok (300, 9 ∷ [], 8 ∷ [])
unfolding program
packet_bytes = refl

packet_empty : read_packet 100 (0 ∷ 1 ∷ []) ≡ err (invalid_packet_length 0 100)
unfolding program
packet_empty = refl

-- A bytes.Buffer: it takes all that it is given.
take_all : (bs : List ℕ) → take (length bs) bs ≡ bs
take_all [] = refl
take_all (b ∷ bs) = ap (◌∷◌ b) (take_all bs)

count_all : (bs : List ℕ) → length bs ≤ length bs
count_all bs = omega arith

took_all : (s bs : List ℕ) → s ++ bs ≡ s ++ take (length bs) bs
took_all s bs = rw (take_all bs)

abbrev buffer : Writer
buffer = record {
  State = List ℕ;
  write = λ s bs. (length bs, none, s ++ bs);
  written = λ s. s;
  count-le = λ s bs. count_all bs;
  written-write = λ s bs. took_all s bs;
}

packet_sent : write_packet buffer [] 300 (9 ∷ []) 100 ≡ (ok tt, 3 ∷ 0xac ∷ 0x02 ∷ 9 ∷ [])
unfolding program
packet_sent = refl

read_var_int-append_var_int_example :
    read_var_int (append_var_int [] 300 ++ (7 ∷ [])) ≡ ok (300, 7 ∷ [])
read_var_int-append_var_int_example = read_var_int-append_var_int 300 (7 ∷ []) (omega arith)

read_string-append_string_example :
    read_string 10 (append_string [] (104 ∷ 105 ∷ []) ++ (7 ∷ [])) ≡ ok (104 ∷ 105 ∷ [], 7 ∷ [])
read_string-append_string_example =
    read_string-append_string 10 (104 ∷ 105 ∷ []) (7 ∷ []) (omega arith) (omega arith)

write_all-Wrote_example :
    Wrote buffer (1 ∷ []) (2 ∷ 3 ∷ []) (write_all buffer (1 ∷ []) (2 ∷ 3 ∷ []))
write_all-Wrote_example = write_all-Wrote buffer (1 ∷ []) (2 ∷ 3 ∷ [])

write_packet-Wrote_example :
    Wrote buffer [] (frame 300 (9 ∷ [])) (write_packet buffer [] 300 (9 ∷ []) 100)
unfolding program
write_packet-Wrote_example =
    write_packet-Wrote buffer [] 300 (9 ∷ []) 100 (omega arith) (omega arith) (omega arith)

read_packet-write_packet_over_example :
    read_packet 2 ((write_packet buffer [] 300 (9 ∷ []) 100).1 ++ (8 ∷ []))
    ≡ err (invalid_packet_length (length (body 300 (9 ∷ []))) 2)
unfolding program
read_packet-write_packet_over_example =
    read_packet-write_packet_over buffer [] 300 (9 ∷ []) (8 ∷ []) 100 2 (omega arith) (omega arith)
      refl refl (omega arith)

read_packet-write_packet_example :
    read_packet 100 ((write_packet buffer [] 300 (9 ∷ []) 100).1 ++ (8 ∷ []))
    ≡ ok (300, 9 ∷ [], 8 ∷ [])
unfolding program
read_packet-write_packet_example =
    read_packet-write_packet buffer [] 300 (9 ∷ []) (8 ∷ []) 100 (omega arith) (omega arith) refl
      refl
