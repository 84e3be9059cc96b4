-- ===== src/GridConnect/Server/Tests.antt =====
-- The server on a concrete stack whose packet buffers are texts, and the theorems at inputs that meet their hypotheses.
use cbuspico_lib.Common.{
  ℕ, ◌+◌, ◌*◌, ◌≡◌, refl, false, none, some, List, [], ◌∷◌, ◌++◌, arith, length, set, take, drop,
  replicate, length-replicate,
}
use cbuspico_lib.Frame.{CanFrame}
use cbuspico_lib.GridConnect.Hex.{upper, lower, uint8_to_hex}
use cbuspico_lib.GridConnect.Codec.{blank, encode_gc, finish, standard_header, encode_bytes}
use cbuspico_lib.GridConnect.Server.Frames.{queue_all}
use cbuspico_lib.GridConnect.Server.Spoken.{AllEncodable, received}
use cbuspico_lib.GridConnect.Server.Relay.{send_all, written_text, feed-send_all}
use cbuspico_lib.GridConnect.Server.{Clock, Server, Lwip, err_ok, cs_accepted, cs_received, extract}
use cbuspico_lib.GridConnect.Server.Send.{Answers, send_can_frame, server_send}
use cbuspico_lib.GridConnect.Server.Client.{new_server}
use cbuspico_lib.GridConnect.Server.Client.Step.{accepts, receives, sent, step, run}
use cbuspico_lib.GridConnect.Server.Client.Keeps.{IsBounded}
use cbuspico_lib.GridConnect.Server.Client.Bounds.{run-IsBounded}
use cbuspico_lib.GridConnect.Server.Client.Moves.{Moves, step-Moves}
use cbuspico_lib.GridConnect.Server.Laws.{LwipLaws, position}
use cbuspico_lib.GridConnect.Server.Extract.{padded}
use cbuspico_lib.GridConnect.Server.Ownership.{FreesOnce, extract-FreesOnce}
use cbuspico_lib.GridConnect.Server.Scan.{Fits}
use cbuspico_lib.GridConnect.Server.Index.{index}
use cbuspico_lib.GridConnect.Server.Stream.{Heard, holding, feed, text_of, AllPieces, feed-scan}

abbrev texts : Lwip (List ℕ)
texts = record {
  tot_len = length;
  memfind = λ p b start. position start (index b (drop start p));
  copy_partial = λ p len start. take len (drop start p);
  alloc = λ n. some (replicate n 0);
  put_at = set;
  cat = λ p q. p ++ q;
}

abbrev texts_laws : LwipLaws texts
texts_laws = record {
  contents = λ p. p;
  total = λ p. refl;
  found = λ p b start. refl;
  copied = λ p len start. refl;
  written = λ p i b. refl;
  joined = λ p q. refl;
}

abbrev no_answers : Answers
no_answers = record { write = err_ok; output = err_ok }

abbrev connected : Server (List ℕ)
connected = record {
  server_cb = some 1;
  client_cb = some 2;
  client_state = cs_accepted;
  buffer_recv = padded [];
  buffer_sent = blank;
  sent_len = 0;
  can_buffer = none;
  to_can = [];
  calls = [];
}

-- "x:S002" and "0N;:S": one message between other text, in two pieces.
abbrev first_piece : List ℕ
first_piece = b'x' ∷ b':' ∷ b'S' ∷ b'0' ∷ b'0' ∷ b'2' ∷ []

abbrev second_piece : List ℕ
second_piece = b'0' ∷ b'N' ∷ b';' ∷ b':' ∷ b'S' ∷ []

abbrev clock : Clock
clock n = 1000 + 7 * n

feed-scan_example :
    Heard clock connected []
      (first_piece ++ (second_piece ++ []))
      (feed texts texts_laws no_answers clock 2 connected (first_piece ∷ second_piece ∷ []))
unfolding AllPieces text_of Fits
feed-scan_example =
    feed-scan texts texts_laws no_answers clock 2 connected first_piece (second_piece ∷ [])
      (λ n. (replicate n 0, refl, length-replicate n 0)) refl
      ((omega arith, omega arith), ((omega arith, omega arith), _)) (ground arith)

extract-FreesOnce_example :
    FreesOnce first_piece connected (extract texts clock 7 connected 0 first_piece)
extract-FreesOnce_example =
    extract-FreesOnce texts clock texts_laws first_piece 7 0 connected (omega arith) (omega arith)
      (omega arith)

run-IsBounded_example : IsBounded (
    run texts (new_server none) (
      accepts (some 2) err_ok
      ∷ receives no_answers clock 2 (some first_piece) err_ok
      ∷ sent 3
      ∷ []))
run-IsBounded_example =
    run-IsBounded texts texts_laws none (
      accepts (some 2) err_ok ∷ receives no_answers clock 2 (some first_piece) err_ok ∷ sent 3 ∷ [])

step-Moves_example :
    Moves
      (receives no_answers clock 2 (some first_piece) err_ok)
      cs_accepted
      (step texts connected (receives no_answers clock 2 (some first_piece) err_ok)).client_state
step-Moves_example =
    step-Moves texts texts_laws connected (receives no_answers clock 2 (some first_piece) err_ok)

-- A frame with one data byte, whose text is ":S0200N12;".
abbrev one_byte : CanFrame
one_byte = record {
  id = 0x10;
  ext = false;
  rtr = false;
  len = 1;
  bytes = 0x12 ∷ 0 ∷ 0 ∷ 0 ∷ 0 ∷ 0 ∷ 0 ∷ 0 ∷ [];
}

abbrev start_of_text : List ℕ
start_of_text = b':' ∷ b'S' ∷ b'0' ∷ b'2' ∷ []

abbrev end_of_text : List ℕ
end_of_text = b'0' ∷ b'0' ∷ b'N' ∷ b'1' ∷ b'2' ∷ b';' ∷ []

feed-send_all_example :
    let s' =
      feed texts texts_laws no_answers clock 2 connected (start_of_text ∷ end_of_text ∷ []) in
    (s'.to_can ≡ connected.to_can ++ received ((one_byte, false) ∷ []))
    × (s'.can_buffer
        ≡ queue_all clock
            (length connected.to_can)
            connected.can_buffer
            (received ((one_byte, false) ∷ [])))
    × (s' ≡ holding s' cs_received [])
unfolding AllPieces AllEncodable text_of send_all written_text send_can_frame server_send encode_gc
    finish standard_header encode_bytes upper lower uint8_to_hex
feed-send_all_example =
    feed-send_all texts texts_laws no_answers clock 2 connected 2 err_ok ((one_byte, false) ∷ [])
      connected start_of_text (end_of_text ∷ []) refl
      (
        record {
          width = refl;
          byte_range = (
            omega arith,
            (
              omega arith,
              (
                omega arith,
                (omega arith, (omega arith, (omega arith, (omega arith, (omega arith, _))))),
              ),
            ),
          );
        },
        refl,
        _,
      )
      (λ n. (replicate n 0, refl, length-replicate n 0)) refl
      ((omega arith, omega arith), ((omega arith, omega arith), _)) refl
