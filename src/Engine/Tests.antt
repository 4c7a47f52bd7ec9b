-- ===== src/Engine/Tests.antt =====
-- Runs of an engine on a concrete record protection, and its theorems there.
use bearssl.Common.{
  ℕ, ◌+◌, ◌-◌, ◌≤◌, ◌<◌, ◌≡◌, ◌≢◌, ◌⊎◌, refl, arith, true, false, not, ◌&&◌, ◌||◌, inl, inr, none,
  some, List, [], ◌∷◌, ◌++◌,
}
use bearssl.Engine.State.{failed, inout, Memory, RecordLayer, clear, Engine}
use bearssl.Engine.Buffers.{
  is_failed, write_bytes, clear_encrypt, max_plaintext, set_buffers_bidi, set_buffer,
}
use bearssl.Engine.Buffers.Laws.{Started, set_buffers_bidi_lem}
use bearssl.Engine.Buffers.Split.{set_buffer_split}
use bearssl.Engine.Receive.{recvrec_buf, recvrec_ack, recvpld_buf, recvpld_ack, take_header}
use bearssl.Engine.Receive.Registers.{IsReceiving}
use bearssl.Engine.Receive.Ack.{HeaderChecked, DecryptsInPlace, HoldsBytes, recvrec_ack-IsReceiving}
use bearssl.Engine.Send.{sendpld_buf, sendpld_ack, sendrec_buf}
use bearssl.Engine.Send.Registers.{Protects, IsSending, IsDraining}
use bearssl.Engine.Send.Laws.{sendpld_ack-IsSending}
use bearssl.Engine.Send.Header.{clear_record_received}
use bearssl.Engine.Api.{current_state, jump_handshake}
use bearssl.Engine.Api.Handshake.{KeepsInput, jump_handshake_ends}
use bearssl.Engine.Buffers.Laws.{IsStarted}
use bearssl.Engine.Keys.{cbc_first, cbc_second}
use bearssl.Engine.Keys.Mirror.{cbc_key_block_lem}
use bearssl.Engine.Run.{AtRecordEnd, Reach, here, next, receive}
use bearssl.Engine.Run.Live.{Reach-progress}
use bearssl.Engine.Run.Steps.{IsLayer}
use bearssl.Engine.Api.States.{current_state-exclusive}

-- A protection that leaves the data as it is.
abbrev layer : RecordLayer
layer = record {
  In = Unit {0};
  Out = Unit {0};
  Cpu = Unit {0};
  check_length = λ c len. true;
  decrypt = λ c type version addr len m. (some (addr, len), c, m);
  max_plaintext = λ c start end. (start, end);
  encrypt = λ c type version addr len m. (addr - 5, len + 5, c, m);
}

abbrev zeros : Memory
zeros p = 0

-- the header of a handshake record of ten bytes
abbrev arrived : Memory
arrived = write_bytes zeros 1000 (22 ∷ 3 ∷ 3 ∷ 0 ∷ 10 ∷ [])

abbrev fresh : Engine layer
fresh = record {
  iomode = inout;
  err = 0;
  mem = arrived;
  ibuf = 1000;
  ibuf_len = 16709;
  obuf = 20000;
  obuf_len = 16469;
  max_frag_len = 16384;
  log_max_frag_len = 14;
  peer_log_max_frag_len = 0;
  ixa = 0;
  ixb = 0;
  ixc = 5;
  oxa = 5;
  oxb = 16389;
  oxc = 5;
  incrypt = false;
  record_in = tt;
  record_out = clear;
  record_type_in = 0;
  record_type_out = 22;
  version_in = 0;
  version_out = 0x303;
  shutdown_recv = false;
  application_data = false;
  reneg = 0;
  no_renegotiation = false;
  hbuf_in = 0;
  hlen_in = 0;
  hbuf_out = 0;
  saved_hbuf_out = 0;
  hlen_out = 0;
  action = 0;
  cpu = tt;
}

-- ten bytes of payload have been received
abbrev reading : Engine layer
reading = record fresh { ixa = 5; ixb = 15; ixc = 0; record_type_in = 22 }

-- a record of ten bytes is going out
abbrev writing : Engine layer
writing = record fresh { oxa = 0; oxb = 0; oxc = 15 }

layer-DecryptsInPlace : DecryptsInPlace layer
layer-DecryptsInPlace ctx type version addr len m p n accepted short wrap e = ground arith

arrived-HoldsBytes : HoldsBytes arrived
arrived-HoldsBytes p = ground arith

layer-Protects : Protects layer
layer-Protects = record {
  area = λ c len h small. (omega arith, omega arith, omega arith);
  fits = λ c type version obuf len n m room wrap h. (omega arith, omega arith, omega arith);
}

fresh-IsReceiving : IsReceiving layer fresh
fresh-IsReceiving = record {
  room = omega arith;
  no_wrap = omega arith;
  left = omega arith;
  phase = inl (refl, omega arith, refl);
}

reading-IsReceiving : IsReceiving layer reading
reading-IsReceiving = record {
  room = omega arith;
  no_wrap = omega arith;
  left = omega arith;
  phase = inr (inr (omega arith, omega arith, omega arith, refl));
}

fresh-IsSending : IsSending layer fresh
unfolding max_plaintext
fresh-IsSending = record {
  room = omega arith;
  no_wrap = omega arith;
  fragment = (omega arith, omega arith);
  phase = inl (refl, omega arith, omega arith, omega arith);
}

writing-IsSending : IsSending layer writing
writing-IsSending = record {
  room = omega arith;
  no_wrap = omega arith;
  fragment = (omega arith, omega arith);
  phase = inr (refl, omega arith, omega arith);
}

-- a processor that reads everything it is offered
abbrev read_all : Engine layer → Engine layer
read_all e = record e { hlen_in = 0 }

read_all-KeepsInput : KeepsInput layer read_all
read_all-KeepsInput = record {
  consumes = λ e. omega arith;
  same_ixa = λ e. refl;
  same_ixb = λ e. refl;
}

-- The header of a record is taken, and its ten bytes are then awaited.
header_run : ((recvrec_ack layer fresh 5).ixc ≡ 10) × ((recvrec_ack layer fresh 5).ixa ≡ 5)
unfolding recvrec_ack bearssl.Engine.Receive.dec16be_at bearssl.Codec.dec16be
header_run = (refl, refl)

set_buffers_bidi_lem_example :
    Started layer 16709 16469 (set_buffers_bidi layer fresh 1000 16709 20000 16469)
set_buffers_bidi_lem_example =
    set_buffers_bidi_lem layer fresh 1000 16709 20000 16469 (omega arith) (omega arith)
      (omega arith)

-- BR_SSL_BUFSIZE_BIDI
abbrev bufsize_bidi : ℕ
bufsize_bidi = 33178

set_buffer_split_example :
    let rc' = set_buffer layer fresh 1000 bufsize_bidi true in
    ((rc'.ibuf ≡ 1000)
      × (rc'.ibuf_len ≡ 16709)
      × (rc'.obuf ≡ 1000 + 16469)
      × (rc'.obuf_len ≡ 16469))
    × (((bufsize_bidi < 33418) × (rc'.ibuf ≤ rc'.obuf) × (rc'.obuf < rc'.ibuf + rc'.ibuf_len))
        ⊎ ((bufsize_bidi ≡ 33418)
            × (rc'.obuf ≡ rc'.ibuf + rc'.ibuf_len)
            × (rc'.obuf + rc'.obuf_len ≡ 1000 + bufsize_bidi))
        ⊎ ((33418 < bufsize_bidi) × (1000 + bufsize_bidi < rc'.obuf + rc'.obuf_len)))
set_buffer_split_example =
    set_buffer_split layer fresh 1000 bufsize_bidi (omega arith) (omega arith) (omega arith)

recvpld_offers : 4 ≤ (recvpld_buf layer reading).1
unfolding recvpld_buf
recvpld_offers = omega arith

recvrec_offers : 5 ≤ (recvrec_buf layer fresh).1
unfolding recvrec_buf
recvrec_offers = omega arith

recvrec_ack-IsReceiving_example :
    ((recvrec_ack layer fresh 5).iomode ≡ failed)
    ⊎ (IsReceiving layer (recvrec_ack layer fresh 5)
        × ((true ≡ false) ⊎ HeaderChecked layer fresh (recvrec_ack layer fresh 5)))
recvrec_ack-IsReceiving_example =
    recvrec_ack-IsReceiving layer fresh 5 layer-DecryptsInPlace arrived-HoldsBytes fresh-IsReceiving
      (omega arith) recvrec_offers

sendpld_offers : 16384 ≤ (sendpld_buf layer fresh).1
unfolding sendpld_buf
sendpld_offers = omega arith

sendpld_ack-IsSending_example :
    IsSending layer (sendpld_ack layer fresh 16384)
    × ((5 + 16384 < 16389) ⊎ IsDraining layer (sendpld_ack layer fresh 16384))
sendpld_ack-IsSending_example =
    sendpld_ack-IsSending layer layer-Protects fresh 16384 fresh-IsSending (omega arith)
      sendpld_offers

sendrec_offers : 15 ≤ (sendrec_buf layer writing).1
unfolding sendrec_buf
sendrec_offers = omega arith

-- The bytes that were sent are where the receiving engine reads them.
abbrev sent_to : Engine layer
sent_to = record fresh { mem = (clear_encrypt 22 0x303 1005 10 zeros).2 }

clear_record_received_example :
    take_header layer sent_to
    ≡ record sent_to { record_type_in = 22; version_in = 0x303; ixa = 5; ixb = 5; ixc = 10 }
clear_record_received_example =
    clear_record_received 22 0x303 1005 10 zeros (omega arith) (omega arith) (omega arith)
      (omega arith) (omega arith) layer sent_to refl refl refl refl (inl refl) (omega arith)
      (omega arith)

jump_handshake_ends_example : jump_handshake layer read_all 2 reading 0 ≢ none
jump_handshake_ends_example =
    jump_handshake_ends layer read_all read_all-KeepsInput 0 reading 0 (omega arith) (omega arith)

current_state-exclusive_example :
    ((current_state layer fresh).is_closed ≡ is_failed inout)
    × (((current_state layer fresh).sendrec && (current_state layer fresh).sendapp) ≡ false)
    × (((current_state layer fresh).recvrec && (current_state layer fresh).recvapp) ≡ false)
    × (((current_state layer fresh).is_closed && (current_state layer fresh).sendrec) ≡ false)
    × (((current_state layer fresh).is_closed && (current_state layer fresh).recvrec) ≡ false)
    × (((current_state layer fresh).is_closed && (current_state layer fresh).sendapp) ≡ false)
    × (((current_state layer fresh).is_closed && (current_state layer fresh).recvapp) ≡ false)
    × ((((current_state layer fresh).sendapp || (current_state layer fresh).recvapp) && not false)
        ≡ false)
current_state-exclusive_example =
    current_state-exclusive layer fresh fresh-IsReceiving fresh-IsSending

layer-IsLayer : IsLayer layer
layer-IsLayer = record {
  in_place = layer-DecryptsInPlace;
  protects = layer-Protects;
  writes_bytes = record {
    by_decrypt = λ ctx type version addr len m h. h;
    by_encrypt = λ ctx type version addr len m h. h;
  };
}

fresh-IsStarted : IsStarted fresh
fresh-IsStarted = record {
  mode = refl;
  plain = refl;
  plain_out = refl;
  least = omega arith;
  most = omega arith;
  in_fits = omega arith;
  out_fits = omega arith;
  at_header = (refl, refl, refl);
  out_empty = (refl, refl, refl);
}

-- the engine after a header
abbrev headed : Engine layer
headed = recvrec_ack layer (record fresh { mem = arrived }) 5

headed_path : Reach layer fresh headed
headed_path = next here (receive arrived 5 arrived-HoldsBytes (omega arith) recvrec_offers)

Reach-progress_example :
    (headed.iomode ≡ failed)
    ⊎ (headed.shutdown_recv ≡ true)
    ⊎ (0 < (recvrec_buf layer headed).1)
    ⊎ (0 < (recvpld_buf layer headed).1)
    ⊎ (0 < (sendpld_buf layer headed).1)
    ⊎ (0 < (sendrec_buf layer headed).1)
Reach-progress_example =
    Reach-progress layer layer-IsLayer fresh headed fresh-IsStarted (omega arith) (omega arith)
      arrived-HoldsBytes headed_path

cbc_key_block_lem_example :
    let kb : List ℕ = 1 ∷ 2 ∷ 3 ∷ 4 ∷ 5 ∷ 6 ∷ 7 ∷ 8 ∷ 9 ∷ 10 ∷ 11 ∷ 12 ∷ [] in
    let client = cbc_first kb 1 2 3 in
    let server = cbc_second kb 1 2 3 in
    kb
    ≡ client.mac_key
      ++ (server.mac_key
          ++ (client.cipher_key ++ (server.cipher_key ++ (client.iv ++ (server.iv ++ [])))))
cbc_key_block_lem_example =
    cbc_key_block_lem (1 ∷ 2 ∷ 3 ∷ 4 ∷ 5 ∷ 6 ∷ 7 ∷ 8 ∷ 9 ∷ 10 ∷ 11 ∷ 12 ∷ []) 1 2 3 refl

-- The input may be switched while the byte of a ChangeCipherSpec is not yet acknowledged.
abbrev ccs_read : Engine layer
ccs_read = record fresh { ixa = 5; ixb = 6; ixc = 0 }

ccs_read-AtRecordEnd : AtRecordEnd layer ccs_read
ccs_read-AtRecordEnd = inr (omega arith, refl)
