-- ===== src/Protocol/Packet.antt =====
-- ReadPacket and WritePacket.
use cyu_core.Base.{
  ℕ, ◌+◌, ◌%◌, ◌^◌, ◌≤◌, ◌<◌, ◌≡◌, refl, sym, ap, ◌∙◌, ltb, false, ◌==◌, inl, inr, List, [], ◌++◌,
  arith, length, length-append, Outcome, ok, err, Outcome-cases, ◌||◌,
}
use cyu_core.Stream.{read_full, read_full-append, read_full_takes}
use cyu_core.Protocol.{
  Error, Writer, write_all, write_both, write_packet, append_var_int, read_var_int, read_packet,
  read_body, split_packet, invalid_packet_length,
}
use cyu_core.Protocol.VarInt.{
  append_var_int-groups, length-groups, read_var_int-append_var_int, read_var_int_takes,
}
use cyu_core.Protocol.WriteAll.{Wrote, write_all-Wrote}
use mathlib.Core.List.{append_assoc, append-nil}
use native.Mathlib.Decide.{dec_lt}

-- The packet id and the payload, and the frame that carries them.
abbrev pub body : ℕ → List ℕ → List ℕ
body packet_id payload = append_var_int [] packet_id ++ payload

abbrev pub frame : ℕ → List ℕ → List ℕ
frame packet_id payload =
    append_var_int [] (length (body packet_id payload)) ++ body packet_id payload

pub length-var_int :
    (v : ℕ) → v < 2 ^ 32 → (1 ≤ length (append_var_int [] v)) × (length (append_var_int [] v) ≤ 5)
length-var_int v h = rw (append_var_int-groups [] v h) (length-groups 4 v)

in_limit : (total max : ℕ) → 0 < total → total ≤ max → (total == 0 || ltb max total) ≡ false
in_limit total max pos le = ground arith

module _ (w : Writer) where
  open w use {State, write, written}

  -- Two writes in a row, the second only if the first succeeded.
  two_writes :
      (s : State) (a b : List ℕ) (r : Outcome Error (Unit {0}) × State)
      → Wrote w s a r
      → Wrote w s (a ++ b) (elim r.0 [ err e ↦ (err e, r.1) | ok _ ↦ write_all w r.1 b ])
  two_writes s a b (err e, s') first = record {
    took = first.took;
    left = first.left ++ b;
    split = ap (λ t. t ++ b) first.split ∙ append_assoc first.took first.left b;
    result = first.result;
    complete = λ h. cc;
    ends = first.ends;
    in_range = first.in_range;
  }
  two_writes s a b (ok tt, s') first = record {
    took = a ++ second.took;
    left = second.left;
    split = ap (◌++◌ a) second.split ∙ sym (append_assoc a second.took second.left);
    result =
        second.result
        ∙ ap (λ t. t ++ second.took) (first.result ∙ ap (◌++◌ (written s)) (sym all))
        ∙ append_assoc (written s) a second.took;
    complete = second.complete;
    ends = second.ends;
    in_range = second.in_range;
  }
    where
      second : Wrote w s' b (write_all w s' b)
      second = write_all-Wrote w s' b

      all : a ≡ first.took
      all = first.split ∙ ap (◌++◌ first.took) (first.complete refl) ∙ append-nil first.took

  write_both-Wrote : (s : State) (a b : List ℕ) → Wrote w s (a ++ b) (write_both w s a b)
  unfolding write_both
  write_both-Wrote s a b = two_writes s a b (write_all w s a) (write_all-Wrote w s a)

  -- For a packet id below 2 ^ 32 and a body within a limit below 2 ^ 32 WritePacket ends on every
  -- writer and leaves in it a first part of the frame (the length of the body, the packet id, the
  -- payload), the whole frame if it returns nil.
  pub write_packet-Wrote :
      (s : State) (packet_id : ℕ) (payload : List ℕ) (max : ℕ)
      → packet_id < 2 ^ 32
      → max < 2 ^ 32
      → length (body packet_id payload) ≤ max
      → Wrote w s (frame packet_id payload) (write_packet w s packet_id payload max)
  unfolding write_packet
  write_packet-Wrote s packet_id payload max hid hmax fits =
      let id = append_var_int [] packet_id in
      let header = append_var_int [] (length (body packet_id payload)) in
      rw
        (
          in_limit (length id + length payload) max total_pos
              (omega (arith, length-append id payload)),
          total_mod,
          ← append_assoc header id payload,
        )
        (write_both-Wrote s (header ++ id) payload)
    where
      total_pos : 0 < length (append_var_int [] packet_id) + length payload
      total_pos = omega (arith, length-var_int packet_id hid)

      total_mod :
          (length (append_var_int [] packet_id) + length payload) % 2 ^ 32
          ≡ length (body packet_id payload)
      total_mod = omega (arith, length-append (append_var_int [] packet_id) payload)

  -- A packet whose body is longer than the limit is refused with the length of the body, and
  -- nothing is written.
  write_packet_too_long :
      (s : State) (packet_id : ℕ) (payload : List ℕ) (max : ℕ)
      → max < length (body packet_id payload)
      → write_packet w s packet_id payload max
        ≡ (err (invalid_packet_length (length (body packet_id payload)) max), s)
  unfolding write_packet
  write_packet_too_long s packet_id payload max long =
      ground (arith, length-append (append_var_int [] packet_id) payload)

read_packet-frame :
    (packet_id : ℕ) (payload rest : List ℕ) (max : ℕ)
    → packet_id < 2 ^ 32
    → max < 2 ^ 31
    → length (body packet_id payload) ≤ max
    → read_packet max (frame packet_id payload ++ rest) ≡ ok (packet_id, payload, rest)
unfolding read_packet read_body split_packet
read_packet-frame packet_id payload rest max hid hmax fits =
    rw
      (
        append_assoc (append_var_int [] (length (body packet_id payload))) (body packet_id payload)
            rest,
        read_var_int-append_var_int (length (body packet_id payload))
            (body packet_id payload ++ rest) (omega arith),
      )
      (ground (
        arith,
        length-append (append_var_int [] packet_id) payload,
        length-var_int packet_id hid,
        read_full-append (body packet_id payload) rest (length (body packet_id payload)) refl,
        read_var_int-append_var_int packet_id payload,
      ))

-- What is in an empty writer when WritePacket has returned nil.
module _ (w : Writer) (s : w.State) (packet_id : ℕ) (payload : List ℕ) (max : ℕ)
    (hid : packet_id < 2 ^ 32) (hmax : max < 2 ^ 31) (fresh : w.written s ≡ [])
    (sent : (write_packet w s packet_id payload max).0 ≡ ok tt) where
  all_written :
      (r : Outcome Error (Unit {0}) × w.State)
      → Wrote w s (frame packet_id payload) r
      → r.0 ≡ ok tt
      → w.written r.1 ≡ frame packet_id payload
  all_written r wrote e =
      wrote.result
      ∙ ap (λ t. t ++ wrote.took) fresh
      ∙ sym (wrote.split ∙ ap (◌++◌ wrote.took) (wrote.complete e) ∙ append-nil wrote.took)

  within : length (body packet_id payload) ≤ max
  within = elim (dec_lt max (length (body packet_id payload))) [
    | yes long ↦ absurd (cc (write_packet_too_long w s packet_id payload max long))
    | no short ↦ omega arith
  ]

  sent_frame : w.written (write_packet w s packet_id payload max).1 ≡ frame packet_id payload
  sent_frame =
      all_written _ (write_packet-Wrote w s packet_id payload max hid (omega arith) within) sent

-- If WritePacket into an empty writer returns nil, then for a packet id below 2 ^ 32 and a limit
-- below 2 ^ 31 ReadPacket under the same limit reads the id and the payload back and leaves the
-- bytes that follow.
pub read_packet-write_packet :
    (w : Writer) (s : w.State) (packet_id : ℕ) (payload rest : List ℕ) (max : ℕ)
    → packet_id < 2 ^ 32
    → max < 2 ^ 31
    → w.written s ≡ []
    → (write_packet w s packet_id payload max).0 ≡ ok tt
    → read_packet max (w.written (write_packet w s packet_id payload max).1 ++ rest)
      ≡ ok (packet_id, payload, rest)
read_packet-write_packet w s packet_id payload rest max hid hmax fresh sent =
    rw (sent_frame w s packet_id payload max hid hmax fresh sent) (
      read_packet-frame packet_id payload rest max hid hmax
        (within w s packet_id payload max hid hmax fresh sent))

read_packet-frame_over :
    (packet_id : ℕ) (payload rest : List ℕ) (limit : ℕ)
    → length (body packet_id payload) < 2 ^ 31
    → limit < length (body packet_id payload)
    → read_packet limit (frame packet_id payload ++ rest)
      ≡ err (invalid_packet_length (length (body packet_id payload)) limit)
unfolding read_packet read_body
read_packet-frame_over packet_id payload rest limit small over =
    rw
      (
        append_assoc (append_var_int [] (length (body packet_id payload))) (body packet_id payload)
            rest,
        read_var_int-append_var_int (length (body packet_id payload))
            (body packet_id payload ++ rest) (omega arith),
      )
      (ground arith)

-- What WritePacket has put into an empty writer, under a limit below 2 ^ 31 and for a packet id below
-- 2 ^ 32, is refused by ReadPacket under every limit that the packet id and the payload together
-- exceed, with their length and that limit in the error.
pub read_packet-write_packet_over :
    (w : Writer) (s : w.State) (packet_id : ℕ) (payload rest : List ℕ) (max limit : ℕ)
    → packet_id < 2 ^ 32
    → max < 2 ^ 31
    → w.written s ≡ []
    → (write_packet w s packet_id payload max).0 ≡ ok tt
    → limit < length (body packet_id payload)
    → read_packet limit (w.written (write_packet w s packet_id payload max).1 ++ rest)
      ≡ err (invalid_packet_length (length (body packet_id payload)) limit)
read_packet-write_packet_over w s packet_id payload rest max limit hid hmax fresh sent over =
    let fits = within w s packet_id payload max hid hmax fresh sent in
    rw (sent_frame w s packet_id payload max hid hmax fresh sent)
      (read_packet-frame_over packet_id payload rest limit (omega arith) over)

split_packet_takes :
    (raw rest payload rest' : List ℕ) (id : ℕ)
    → split_packet raw rest ≡ ok (id, payload, rest')
    → (id < 2 ^ 32) × (length payload < length raw) × (rest ≡ rest')
unfolding split_packet
split_packet_takes raw rest payload rest' id e = elim (Outcome-cases (read_var_int raw)) [
  | inl ((v, inner), r) ↦ ground (arith, read_var_int_takes raw inner v r)
  | inr (x, r) ↦ ground (arith, r)
]

read_body_takes :
    (max len : ℕ) (bs payload rest : List ℕ) (id : ℕ)
    → read_body max len bs ≡ ok (id, payload, rest)
    → (id < 2 ^ 32) × (length payload < max) × (length payload + length rest < length bs)
unfolding read_body
read_body_takes max len bs payload rest id e = elim (Outcome-cases (read_full len bs)) [
  | inl ((raw, rest'), r) ↦ ground (
    arith,
    r,
    read_full_takes len bs raw rest' r,
    length-append raw rest',
    split_packet_takes raw rest' payload rest id,
  )
  | inr (x, r) ↦ ground (arith, r)
]

-- A packet that ReadPacket returns has an id below 2 ^ 32 and a payload shorter than the limit, and
-- payload and rest together are at least two bytes shorter than the input.
pub read_packet_bounds :
    (max : ℕ) (bs payload rest : List ℕ) (packet_id : ℕ)
    → read_packet max bs ≡ ok (packet_id, payload, rest)
    → (packet_id < 2 ^ 32) × (length payload < max) × (length payload + length rest + 2 ≤ length bs)
unfolding read_packet
read_packet_bounds max bs payload rest packet_id e = elim (Outcome-cases (read_var_int bs)) [
  | inl ((len, after), r) ↦ ground (
    arith,
    r,
    read_var_int_takes bs after len r,
    read_body_takes max len after payload rest packet_id,
  )
  | inr (x, r) ↦ ground (arith, r)
]
