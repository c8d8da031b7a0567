-- ===== src/Rtcp.antt =====
-- livemedia/rtcp_linux_amd64.go, `processIncomingReport`, with `ADVANCE` of livemedia/utils.go: the parser of
-- compound packets. What it tells the statistics and the handlers is a list of calls. `none` is a panic.
pub mod Blocks
pub mod Spec
pub mod Totality
pub mod EncodedBlock
pub mod Encoded
pub mod RoundTrip
mod Tests
use dorsvr.Common.{
  ℕ, zero, suc, ◌+◌, ◌-◌, ◌*◌, ◌/◌, ◌%◌, ◌^◌, Bool, true, false, not, ◌&&◌, List, [], ◌∷◌, ◌++◌,
  Option, none, some, ◌>>=◌, length, drop, ltb, leb, ◌==◌, if◌then◌else◌, guard, bit_and, ◌>>>◌,
}
use dorsvr.RtpPacket.{ntohl}

-- What is set of an instance: its source, the SSRC of its sink, and its handlers.
pub record RtcpInstance : Type 0 where
  pub has_source : Bool
  pub sink_ssrc : Option ℕ
  pub has_sr_handler : Bool
  pub has_rr_handler : Bool
  pub has_bye_handler : Bool

pub record ReportBlock : Type 0 where
  pub source_ssrc : ℕ
  pub loss_stats : ℕ
  pub highest_received : ℕ
  pub jitter : ℕ
  pub time_last_sr : ℕ
  pub time_since_last_sr : ℕ

-- `noteIncomingSR` of the reception statistics, `noteIncomingRR` of the transmission statistics, and
-- the handlers' tasks.
pub data Call : Type 0 where
  note_incoming_sr : (ssrc ntp_msw ntp_lsw rtp_timestamp : ℕ) → Call
  note_incoming_rr : (reporter : ℕ) → ReportBlock → Call
  sr_handler : Call
  rr_handler : Call
  bye_handler : Call

-- `typeOfPacket`
pub data PacketType : Type 0 where
  unknown : PacketType
  rtcp_report : PacketType
  bye : PacketType

-- `ADVANCE`: the size that it keeps beside the slice is the slice's length here, as it is in the code.
unfoldable pub advance : List ℕ → ℕ → Option (List ℕ)
advance packet n = guard (leb n (length packet)) (some (drop n packet))

unfoldable pub take_word : List ℕ → Option (ℕ × List ℕ)
take_word packet = advance packet 4 >>= λ rest. some (ntohl packet, rest)

-- Within a subpacket: the packet from the next byte on, the bytes left of the subpacket, and the calls.
pub record Subpacket : Type 0 where
  pub rest : List ℕ
  pub left : ℕ
  pub calls : List Call

abbrev pub when : Bool → Call → List Call
when true call = call ∷ []
when false call = []

-- The case of a sender report, up to the fall through.
unfoldable pub read_sr : RtcpInstance → ℕ → Subpacket → Option Subpacket
read_sr r reporter s =
    let reading = (do
      msw ← take_word s.rest
      lsw ← take_word msw.1
      timestamp ← take_word lsw.1
      rest ← advance timestamp.1 8
      some (record {
        rest = rest;
        left = s.left - 20;
        calls =
            s.calls
            ++ (when r.has_source (note_incoming_sr reporter msw.0 lsw.0 timestamp.0)
                ++ when r.has_sr_handler sr_handler);
      })) in
    if leb 20 s.left then reading else some s

unfoldable pub read_own_block : ℕ → ℕ → Subpacket → List ℕ → Option Subpacket
read_own_block reporter sender s rest = do
  loss ← take_word rest
  highest ← take_word loss.1
  jitter ← take_word highest.1
  last_sr ← take_word jitter.1
  since ← take_word last_sr.1
  some (record s {
    rest = since.1;
    calls =
        s.calls
        ++ note_incoming_rr reporter (record {
          source_ssrc = sender;
          loss_stats = loss.0;
          highest_received = highest.0;
          jitter = jitter.0;
          time_last_sr = last_sr.0;
          time_since_last_sr = since.0;
        })
          ∷ [];
  })

-- A report about another's transmission is skipped.
unfoldable pub read_block : ℕ → ℕ → Subpacket → Option Subpacket
unfolding read_own_block
read_block ssrc reporter s = take_word s.rest >>= λ sender.
    (if sender.0 == ssrc
      then read_own_block reporter sender.0 s sender.1
      else advance sender.1 20 >>= λ rest. some (record s { rest = rest }))

unfoldable pub read_blocks : ℕ → ℕ → ℕ → Subpacket → Option Subpacket
read_blocks ssrc reporter zero s = some s
read_blocks ssrc reporter (suc rc) s =
    read_block ssrc reporter s >>= λ t. read_blocks ssrc reporter rc t

-- Without a sink the blocks are skipped.
unfoldable pub read_all_blocks : Option ℕ → ℕ → ℕ → Subpacket → Option Subpacket
read_all_blocks (some ssrc) reporter rc s = read_blocks ssrc reporter rc s
read_all_blocks none reporter rc s =
    advance s.rest (rc * 24) >>= λ rest. some (record s { rest = rest })

-- How far a packet is known: the calls made, its type, whether it says goodbye, and its last sender.
pub record Progress : Type 0 where
  pub calls : List Call
  pub type_of_packet : PacketType
  pub call_bye_handler : Bool
  pub report_sender_ssrc : ℕ

-- A subpacket that was read, with `subPacketOk`.
pub record Checked : Type 0 where
  pub subpacket : Subpacket
  pub progress : Progress
  pub sub_packet_ok : Bool

-- The case of a receiver report, which that of a sender report falls through to.
unfoldable pub read_rr : RtcpInstance → (reporter pt rc : ℕ) → Progress → Subpacket → Option Checked
read_rr r reporter pt rc p s =
    let reading =
      (read_all_blocks r.sink_ssrc reporter rc (record s { left = s.left - rc * 24 }) >>= λ t.
      some (record {
        subpacket = record t {
          calls = t.calls ++ (if pt == 201 then when r.has_rr_handler rr_handler else []);
        };
        progress = record p { type_of_packet = rtcp_report };
        sub_packet_ok = true;
      })) in
    if leb (rc * 24) s.left
    then reading
    else some (record { subpacket = s; progress = p; sub_packet_ok = false })

unfoldable pub read_subpacket :
    RtcpInstance → (reporter pt rc : ℕ) → Progress → Subpacket → Option Checked
read_subpacket r reporter pt rc p s =
    if pt == 200
    then (read_sr r reporter s >>= λ t. read_rr r reporter pt rc p t)
    else if pt == 201
    then read_rr r reporter pt rc p s
    else if pt == 203
    then some (record {
      subpacket = s;
      progress = record p { call_bye_handler = true; type_of_packet = bye };
      sub_packet_ok = true;
    })
    else some (record { subpacket = s; progress = p; sub_packet_ok = true })

-- How the loop over the subpackets ends.
pub data Outcome : Type 0 where
  panicked : Outcome
  out_of_fuel : Outcome
  finished : (packet_ok : Bool) → Progress → Outcome

abbrev pub or_panic {ℓ} : {A : Type ℓ} → Option A → (A → Outcome) → Outcome
or_panic none f = panicked
or_panic (some a) f = f a

-- The calls that a subpacket made are kept whatever comes behind it.
abbrev pub noted : Checked → Progress
noted c = record c.progress { calls = c.subpacket.calls }

-- Behind a subpacket: the end of the packet, or the next header.
unfoldable pub next_header : (ℕ → List ℕ → Progress → Outcome) → Checked → Outcome
next_header go_on c = or_panic (advance c.subpacket.rest c.subpacket.left) λ rest.
    (if length rest == 0
      then finished true (noted c)
      else if ltb (length rest) 4
      then finished false (noted c)
      else if not (bit_and (ntohl rest) 0xc0000000 == 0x80000000)
      then finished false (noted c)
      else go_on (ntohl rest) rest (noted c))

-- One round of the loop; `go_on` are the rounds behind it.
unfoldable pub round :
    RtcpInstance → (ℕ → List ℕ → Progress → Outcome) → ℕ → List ℕ → Progress → Outcome
round r go_on hdr packet p =
    let size = 4 * bit_and hdr 0xffff in
    or_panic (advance packet 4) λ body.
      (if ltb (length body) size
        then finished false p
        else if ltb size 4
        then finished false p
        else or_panic (take_word body) λ sender.
          or_panic
            (read_subpacket r sender.0 (bit_and (hdr >>> 16) 0xff) (bit_and (hdr >>> 24) 0x1f)
              (record p { report_sender_ssrc = sender.0 })
              (record { rest = sender.1; left = size - 4; calls = p.calls }))
            λ c. if c.sub_packet_ok then next_header go_on c else finished false (noted c))

unfoldable pub rounds : RtcpInstance → ℕ → ℕ → List ℕ → Progress → Outcome
rounds r zero hdr packet p = out_of_fuel
rounds r (suc fuel) hdr packet p = round r (rounds r fuel) hdr packet p

abbrev pub start : Progress
start = record {
  calls = [];
  type_of_packet = unknown;
  call_bye_handler = false;
  report_sender_ssrc = 0;
}

-- The last call, of a packet that passed.
abbrev pub say_bye : RtcpInstance → Outcome → Outcome
say_bye r (finished true p) =
    finished true
      (record p { calls = p.calls ++ when (p.call_bye_handler && r.has_bye_handler) bye_handler })
say_bye r other = other

-- `packet` is what was read of the input buffer. Each round takes eight bytes at least.
unfoldable pub process_incoming_report : RtcpInstance → List ℕ → Outcome
process_incoming_report r packet =
    if ltb (length packet) 4
    then finished false start
    else if not (bit_and (ntohl packet) 0xe0fe0000 == 0x80c80000)
    then finished false start
    else say_bye r (rounds r (length packet) (ntohl packet) packet start)
