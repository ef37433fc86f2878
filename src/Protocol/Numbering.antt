-- ===== src/Protocol/Numbering.antt =====
-- src/usb3_protocol_layer.cpp, the transmit path: the sequence numbers of a run of packets.
use usb3_otg.Base.{
  ℕ, zero, suc, ◌+◌, ◌^◌, ◌≤◌, ◌<◌, ◌≡◌, ◌≢◌, Bool, true, false, Option, none, some, inl, inr,
  Bool-cases, List, [], ◌∷◌, ◌++◌, append-nil, append_assoc, arith, u32, get_or, if◌then◌else◌,
}
use usb3_otg.Types.{Role, PktExt}
use usb3_otg.Types.Tlm.{Trans}
use usb3_otg.Protocol.{Protocol, Ports, uses_sequence, host_b_transport, device_b_transport}

-- A link that keeps what it is given, and sends nothing back.
abbrev pub recorder : Ports (List Trans)
recorder = record {
  to_link = λ t w. (t, (w.0, w.1 ++ t ∷ []));
  to_host = λ t w. (t, w);
  to_device = λ t w. (t, w);
  current_role = λ _. Role.none;
}

pub data Origin : Type 0 where
  from_host from_device : Origin

abbrev pub send : Origin → Trans → Protocol × List Trans → Protocol × List Trans
send from_host t w = (host_b_transport recorder t w).1
send from_device t w = (device_b_transport recorder t w).1

-- Both controllers send through the one layer, in any order.
unfoldable pub send_all :
    List (Origin × Trans × PktExt) → Protocol × List Trans → Protocol × List Trans
send_all [] w = w
send_all ((o, t, e) ∷ ts) w = send_all ts (send o (record t { ext = some e }) w)

abbrev pub is_sequenced : Origin × Trans × PktExt → Bool
is_sequenced (o, t, e) = uses_sequence e.pkt_type

unfoldable pub sequenced : List (Origin × Trans × PktExt) → ℕ
sequenced [] = 0
sequenced (x ∷ xs) = if is_sequenced x then suc (sequenced xs) else sequenced xs

-- The packets with the numbers that they should have: consecutive from `n`, and none for a packet
-- that takes none.
unfoldable pub numbered : ℕ → List (Origin × Trans × PktExt) → List Trans
numbered n [] = []
numbered n ((o, t, e) ∷ ts) =
    if uses_sequence e.pkt_type
    then record t { ext = some (record e { seq_num = u32 n }) } ∷ numbered (suc n) ts
    else record t { ext = some e } ∷ numbered n ts

send_sequenced :
    (o : Origin) (t : Trans) (e : PktExt) (n : ℕ) (log : List Trans)
    → uses_sequence e.pkt_type ≡ true
    → send o (record t { ext = some e }) (record { seq_num = u32 n }, log) ≡ (
      record { seq_num = u32 (suc n) },
      log ++ record t { ext = some (record e { seq_num = u32 n }) } ∷ [],
    )
unfolding host_b_transport device_b_transport
send_sequenced from_host t e n log h = ground arith
send_sequenced from_device t e n log h = ground arith

send_plain :
    (o : Origin) (t : Trans) (e : PktExt) (w : Protocol × List Trans)
    → uses_sequence e.pkt_type ≡ false
    → send o (record t { ext = some e }) w ≡ (w.0, w.1 ++ record t { ext = some e } ∷ [])
unfolding host_b_transport device_b_transport
send_plain from_host t e w h = ground arith
send_plain from_device t e w h = ground arith

-- Over a link that sends nothing back, and however the two controllers take turns, the packets
-- reach the link in order, numbered consecutively modulo 2 ^ 32 from the counter, the unnumbered
-- kinds as they are; the counter then stands behind the last number.
pub send_all-numbered :
    (n : ℕ) (ts : List (Origin × Trans × PktExt)) (log : List Trans)
    → send_all ts (record { seq_num = u32 n }, log)
      ≡ (record { seq_num = u32 (n + sequenced ts) }, log ++ numbered n ts)
unfolding send_all numbered sequenced
send_all-numbered n [] log = ground (arith, append-nil log)
send_all-numbered n ((o, t, e) ∷ ts) log = elim (Bool-cases (uses_sequence e.pkt_type)) [
  | inl h ↦
      rw (h, send_sequenced o t e n log h)
        (ground (
          arith,
          send_all-numbered (suc n) ts
              (log ++ record t { ext = some (record e { seq_num = u32 n }) } ∷ []),
          append_assoc log (record t { ext = some (record e { seq_num = u32 n }) } ∷ [])
              (numbered (suc n) ts),
        ))
  | inr h ↦
      rw (h, send_plain o t e _ h)
        (ground (
          arith,
          send_all-numbered n ts (log ++ record t { ext = some e } ∷ []),
          append_assoc log (record t { ext = some e } ∷ []) (numbered n ts),
        ))
]

-- The numbers that a list of packets carries, in order.
abbrev number_of : Option PktExt → List ℕ → List ℕ
number_of none ns = ns
number_of (some e) ns = if uses_sequence e.pkt_type then e.seq_num ∷ ns else ns

unfoldable pub numbers : List Trans → List ℕ
numbers [] = []
numbers (t ∷ ts) = number_of t.ext (numbers ts)

nth_number :
    (n k : ℕ) (ts : List (Origin × Trans × PktExt))
    → k < sequenced ts
    → get_or (numbers (numbered n ts)) k 0 ≡ u32 (n + k)
unfolding numbers numbered sequenced
nth_number n k [] h = elim h [ ]
nth_number n k ((o, t, e) ∷ ts) h = elim (Bool-cases (uses_sequence e.pkt_type)) [
  | inl q ↦
      rw (q, numbered)
        (rw (q, numbers) (next k (rw (q, sequenced) at h) (λ j. nth_number (suc n) j ts)))
  | inr q ↦ rw (q, numbered) (rw (q, numbers) (nth_number n k ts (rw (q, sequenced) at h)))
]
  where
    next :
        (j : ℕ)
        → j < suc (sequenced ts)
        → ((i : ℕ)
            → i < sequenced ts
            → get_or (numbers (numbered (suc n) ts)) i 0 ≡ u32 (suc n + i))
        → get_or (u32 n ∷ numbers (numbered (suc n) ts)) j 0 ≡ u32 (n + j)
    next zero g rest = omega arith
    next (suc j) g rest = omega (arith, rest j (omega arith))

-- Among up to 2 ^ 32 numbered packets in a row, over a link that sends nothing back, no two carry
-- the same number.
pub numbers_distinct :
    (n i j : ℕ) (ts : List (Origin × Trans × PktExt))
    → i < j
    → j < sequenced ts
    → sequenced ts ≤ 2 ^ 32
    → get_or (numbers (send_all ts (record { seq_num = u32 n }, [])).1) i 0
      ≢ get_or (numbers (send_all ts (record { seq_num = u32 n }, [])).1) j 0
numbers_distinct n i j ts h p q =
    rw (send_all-numbered n ts [])
      (omega (arith, nth_number n i ts (omega arith), nth_number n j ts p))
