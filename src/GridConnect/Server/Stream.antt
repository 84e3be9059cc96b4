-- ===== src/GridConnect/Server/Stream.antt =====
-- The stream of a client in GridConnectPicoW/CBUSGridConnect.cpp: serverRecv for one piece after the other.
use cbuspico_lib.Common.{
  ℕ, ◌+◌, ◌<◌, ◌≡◌, refl, sym, ap, ap₂, ◌∙◌, subst, true, false, some, List, [], ◌∷◌, ◌++◌,
  append-nil, append_assoc, arith, ltb, ◌==◌, length, get_or, set, drop, length-append,
}
use cbuspico_lib.GridConnect.Codec.{gc_max_msg}
use cbuspico_lib.Frame.{CanFrame}
use cbuspico_lib.GridConnect.Server.{
  Clock, Server, Lwip, err_ok, ClientState, cs_accepted, cs_received, extract_and_queue_gc, log,
  frees, recved, not_found,
}
use cbuspico_lib.GridConnect.Server.Client.{server_recv, recv_data, recv_first, recv_more, put_text}
use cbuspico_lib.GridConnect.Server.Send.{Answers}
use cbuspico_lib.GridConnect.Server.Laws.{LwipLaws, Allocates}
use cbuspico_lib.GridConnect.Server.Extract.{padded, hold, after, extract_and_queue_gc-scan}
use cbuspico_lib.GridConnect.Server.Frames.{
  frames, queue_all, accept_all-with_frames, frames-append, queue_all-append,
}
use cbuspico_lib.GridConnect.Server.Scan.{
  scan, Fits, IsOpen, shut, started, scan-append, Fits-append, scan-IsOpen, scan-continue,
  Fits-again, Fits-length,
}

set-middle : (xs ys : List ℕ) (o v : ℕ) → set (xs ++ o ∷ ys) (length xs) v ≡ xs ++ v ∷ ys
set-middle [] ys o v = refl
set-middle (x ∷ xs) ys o v = ap (λ zs. x ∷ zs) (set-middle xs ys o v)

get_or-middle : (xs ys : List ℕ) (v d : ℕ) → get_or (xs ++ v ∷ ys) (length xs) d ≡ v
get_or-middle [] ys v d = refl
get_or-middle (x ∷ xs) ys v d = get_or-middle xs ys v d

module _ {P : Type 0} (w : Lwip P) (laws : LwipLaws w) where
  -- The loop writes the text over what the buffer held.
  put_text-contents :
      (pre qs tail old : List ℕ) (p : P)
      → laws.contents p ≡ pre ++ old
      → length old ≡ length qs
      → laws.contents (put_text w p (pre ++ (qs ++ tail)) (length qs) (length pre)) ≡ pre ++ qs
  unfolding put_text
  put_text-contents pre [] tail [] p e l = e
  put_text-contents pre [] tail (o ∷ old) p e l = absurd (omega arith)
  put_text-contents pre (v ∷ qs) tail [] p e l = absurd (omega arith)
  put_text-contents pre (v ∷ qs) tail (o ∷ old) p e l =
      let byte = pre ++ (v ∷ (qs ++ tail)) in
      let byte' : (pre ++ v ∷ []) ++ (qs ++ tail) ≡ byte = append_assoc pre (v ∷ []) (qs ++ tail) in
      let put =
        laws.written p (length pre) v
        ∙ ap (λ xs. set xs (length pre) v) e
        ∙ set-middle pre old o v
        ∙ sym (append_assoc pre (v ∷ []) old) in
      let rest =
        put_text-contents (pre ++ v ∷ []) qs tail old (w.put_at p (length pre) v) put
          (omega arith) in
      ap
        (λ b.
          laws.contents (put_text w (w.put_at p (length pre) b) byte (length qs) (length pre + 1)))
        (get_or-middle pre (qs ++ tail) v 0)
      ∙ ap
          (λ b.
            laws.contents (put_text w (w.put_at p (length pre) v) b (length qs) (length pre + 1)))
          (sym byte')
      ∙ ap
          (λ n. laws.contents (
            put_text w (w.put_at p (length pre) v) ((pre ++ v ∷ []) ++ (qs ++ tail)) (length qs) n))
          {x = length pre + 1} {y = length (pre ++ v ∷ [])}
          (omega (arith, length-append pre (v ∷ [])))
      ∙ rest
      ∙ append_assoc pre (v ∷ []) qs

  -- The fragment that was filled with an open text, and the new data behind it.
  put_text-cat :
      (q : List ℕ) (fragment p : P)
      → length (laws.contents fragment) ≡ length q
      → laws.contents (w.cat (put_text w fragment (padded q).byte (length q) 0) p)
        ≡ q ++ laws.contents p
  put_text-cat q fragment p l =
      laws.joined (put_text w fragment (padded q).byte (length q) 0) p
      ∙ ap (λ xs. xs ++ laws.contents p)
          (put_text-contents [] q (drop (length q) (padded []).byte) (laws.contents fragment)
            fragment refl l)

-- A server whose client has sent data, with an open text.
module _ {P : Type 0} where
  abbrev pub holding : Server P → ClientState → List ℕ → Server P
  holding s c q = record s { client_state = c; buffer_recv = padded q }

  -- What a piece of text does to the server.
  abbrev pub Heard : Clock → Server P → List ℕ → List ℕ → Server P → Type 0
  Heard clock s q xs s' =
      (s'.to_can ≡ s.to_can ++ frames (scan q xs).1)
      × (s'.can_buffer ≡ queue_all clock (length s.to_can) s.can_buffer (frames (scan q xs).1))
      × (s' ≡ holding s' cs_received (scan q xs).0)

  Heard-append :
      (clock : Clock) (s : Server P) (q xs ys : List ℕ) (s' s'' : Server P)
      → Heard clock s q xs s'
      → Heard clock s' (scan q xs).0 ys s''
      → Heard clock s q (xs ++ ys) s''
  Heard-append clock s q xs ys s' s'' (c, b, h) (c', b', h') =
      let r = scan q xs in
      let t = scan r.0 ys in
      subst
        (λ z.
          (s''.to_can ≡ s.to_can ++ frames z.1)
          × (s''.can_buffer ≡ queue_all clock (length s.to_can) s.can_buffer (frames z.1))
          × (s'' ≡ holding s'' cs_received z.0))
        (sym (scan-append q xs ys))
        (
          c'
              ∙ ap (λ l. l ++ frames t.1) c
              ∙ append_assoc s.to_can (frames r.1) (frames t.1)
              ∙ ap (λ l. s.to_can ++ l) (sym (frames-append r.1 t.1)),
          b'
              ∙ ap₂ (λ n l. queue_all clock n l (frames t.1)) (ap (length {A = CanFrame}) c) b
              ∙ sym (
                  queue_all-append clock (length s.to_can) (length (s.to_can ++ frames r.1))
                    s.can_buffer (frames r.1) (frames t.1) (length-append s.to_can (frames r.1)))
              ∙ ap (queue_all clock (length s.to_can) s.can_buffer) (sym (frames-append r.1 t.1)),
          h',
        )

module _ {P : Type 0} (w : Lwip P) (laws : LwipLaws w) (a : Answers) (clock : Clock) (pcb : ℕ) where
  Heard-after :
      (s t : Server P) (q xs : List ℕ) (p : P) (n : ℕ)
      → s.client_state ≡ cs_received
      → t ≡ log (log (after clock s (scan q xs)) (frees p)) (recved pcb n)
      → Heard clock s q xs t
  Heard-after s t q xs p n c e =
      let r = scan q xs in
      let framed = accept_all-with_frames clock s r.1 in
      let z = log (log (after clock s r) (frees p)) (recved pcb n) in
      subst (Heard clock s q xs) (sym e) (
        ap (λ u. u.to_can) framed,
        ap (λ u. u.can_buffer) framed,
        ap (λ k. record z { client_state = k }) (ap (λ u. u.client_state) framed ∙ c),
      )

  -- The extraction from a buffer that begins with the open text.
  extract-Heard :
      (s : Server P) (q xs : List ℕ) (p : P) (n : ℕ)
      → s.client_state ≡ cs_received
      → IsOpen q
      → laws.contents p ≡ q ++ xs
      → length (q ++ xs) < not_found
      → Fits q xs
      → Heard clock s q xs (log (extract_and_queue_gc w clock (hold s q) p) (recved pcb n))
  extract-Heard s q xs p n c o e l fits =
      Heard-after s (log (extract_and_queue_gc w clock (hold s q) p) (recved pcb n)) q xs p n c (
        ap (λ u. log u (recved pcb n))
          (extract_and_queue_gc-scan w clock laws p s q xs
              (subst (λ z. length z < not_found) (sym e) l) o e
              (subst (Fits []) (sym e) (Fits-again q xs o fits))
            ∙ ap (λ z. log (after clock s (scan [] z)) (frees p)) e
            ∙ ap (λ r. log (after clock s r) (frees p)) (scan-continue q xs o)))

  -- A piece is not empty, and leaves room for an open text.
  abbrev pub IsPiece : P → Type 0
  IsPiece p = (0 < length (laws.contents p)) × (length (laws.contents p) + gc_max_msg < not_found)

  recv_first-Heard :
      (s : Server P) (p : P)
      → IsPiece p
      → Fits [] (laws.contents p)
      → Heard clock s []
          (laws.contents p)
          (server_recv w a clock (holding s cs_accepted []) pcb (some p) err_ok).0
  unfolding server_recv recv_data recv_first
  recv_first-Heard s p (l, h) fits =
      let size = laws.total p in
      let some_data : ltb 0 (w.tot_len p) ≡ true = ground arith in
      rw some_data (
        extract-Heard (record s { client_state = cs_received }) [] (laws.contents p) p (w.tot_len p)
          refl shut refl (omega arith) fits)

  recv_more-Heard :
      (s : Server P) (q : List ℕ) (p : P)
      → Allocates laws
      → IsOpen q
      → IsPiece p
      → Fits q (laws.contents p)
      → Heard clock s q
          (laws.contents p)
          (server_recv w a clock (holding s cs_received q) pcb (some p) err_ok).0
  unfolding server_recv recv_data recv_more
  recv_more-Heard s _ p alloc shut (l, h) fits =
      let size = laws.total p in
      let some_data : ltb 0 (w.tot_len p) ≡ true = ground arith in
      rw some_data (
        extract-Heard (record s { client_state = cs_received }) [] (laws.contents p) p (w.tot_len p)
          refl shut refl (omega arith) fits)
  recv_more-Heard s _ p alloc (started q n) (l, h) fits =
      let open_text = b':' ∷ q in
      let size = laws.total p in
      let some_data : ltb 0 (w.tot_len p) ≡ true = ground arith in
      let stored : (length open_text == 0) ≡ false = ground arith in
      let (fragment, got, len) = alloc (length open_text) in
      rw (some_data, stored, got)
        (extract-Heard (record s { client_state = cs_received }) open_text (laws.contents p)
          (w.cat (put_text w fragment (padded open_text).byte (length open_text) 0) p) (w.tot_len p)
          refl (started q n) (put_text-cat w laws open_text fragment p len)
          (omega (
            arith,
            length-append open_text (laws.contents p),
            Fits-length open_text (laws.contents p) fits,
          ))
          fits)

  -- A client that sends the pieces one after the other.
  unfoldable pub feed : Server P → List P → Server P
  feed s [] = s
  feed s (p ∷ ps) = feed (server_recv w a clock s pcb (some p) err_ok).0 ps

  unfoldable pub text_of : List P → List ℕ
  text_of [] = []
  text_of (p ∷ ps) = laws.contents p ++ text_of ps

  unfoldable pub AllPieces : List P → Type 0
  AllPieces [] = Unit {0}
  AllPieces (p ∷ ps) = IsPiece p × AllPieces ps

  feed_more-Heard :
      (s : Server P) (q : List ℕ) (ps : List P)
      → Allocates laws
      → s ≡ holding s cs_received q
      → IsOpen q
      → AllPieces ps
      → Fits q (text_of ps)
      → Heard clock s q (text_of ps) (feed s ps)
  unfolding feed text_of AllPieces scan frames queue_all
  feed_more-Heard s q [] alloc e o pieces fits = (sym (append-nil s.to_can), refl, e)
  feed_more-Heard s q (p ∷ ps) alloc e o (piece, pieces) fits =
      let (fits1, fits2) = Fits-append q (laws.contents p) (text_of ps) fits in
      let s' = (server_recv w a clock s pcb (some p) err_ok).0 in
      let first : Heard clock s q (laws.contents p) s' =
        subst
          (λ z. Heard clock s q (laws.contents p) (server_recv w a clock z pcb (some p) err_ok).0)
          (sym e) (recv_more-Heard s q p alloc o piece fits1) in
      Heard-append clock s q (laws.contents p) (text_of ps) s' (feed s' ps) first (
        feed_more-Heard s' (scan q (laws.contents p)).0 ps alloc first.2
          (scan-IsOpen q (laws.contents p) o) pieces fits2)

  -- A client that was accepted, with no text stored, sends a text in pieces, none of them empty and all short enough for
  -- the 16-bit lengths, and memory is there for them. If no message in the text, and no open rest of it, is longer than
  -- a Grid Connect message may be, then wherever the text is cut the frames of its messages go to the bus and to
  -- the queue, each once and in order, whatever stands between the messages; the open rest is what is stored.
  pub feed-scan :
      (s : Server P) (p : P) (ps : List P)
      → Allocates laws
      → s ≡ holding s cs_accepted []
      → AllPieces (p ∷ ps)
      → Fits [] (text_of (p ∷ ps))
      → Heard clock s [] (text_of (p ∷ ps)) (feed s (p ∷ ps))
  unfolding feed text_of AllPieces
  feed-scan s p ps alloc e (piece, pieces) fits =
      let (fits1, fits2) = Fits-append [] (laws.contents p) (text_of ps) fits in
      let s' = (server_recv w a clock s pcb (some p) err_ok).0 in
      let first : Heard clock s [] (laws.contents p) s' =
        subst
          (λ z. Heard clock s [] (laws.contents p) (server_recv w a clock z pcb (some p) err_ok).0)
          (sym e) (recv_first-Heard s p piece fits1) in
      Heard-append clock s [] (laws.contents p) (text_of ps) s' (feed s' ps) first (
        feed_more-Heard s' (scan [] (laws.contents p)).0 ps alloc first.2
          (scan-IsOpen [] (laws.contents p) shut) pieces fits2)
