-- ===== src/GridConnect/Server/Ownership.antt =====
-- extractAndQueueGC of GridConnectPicoW/CBUSGridConnect.cpp on any text: it ends, and frees the buffer that it was given.
use cbuspico_lib.Common.{
  ℕ, zero, suc, ◌+◌, ◌-◌, ◌^◌, ◌≤◌, ◌<◌, ◌≡◌, refl, ap, ◌∙◌, inl, inr, false, Option, none, some,
  arith, ltb, leb, ◌==◌, Bool-cases, Option-cases, length, drop, length-drop, u16,
}
use cbuspico_lib.Frame.{CanFrame, empty_frame}
use cbuspico_lib.GridConnect.Codec.{GcMessage, gc_max_msg, decode_gc}
use cbuspico_lib.GridConnect.Server.{
  Clock, Server, Lwip, parsed, keep, take_message, keep_partial, extract, log, frees, not_found,
  copy_over,
}
use cbuspico_lib.GridConnect.Server.Laws.{LwipLaws, position}
use cbuspico_lib.GridConnect.Server.Index.{index, index-drop}

module _ {P : Type 0} where
  -- The buffer is freed last, and nothing else is called.
  abbrev pub FreesOnce : P → Server P → Option (Server P) → Type 0
  FreesOnce p s o = (s' : Server P) × (o ≡ some (log s' (frees p))) × (s'.calls ≡ s.calls)

module _ {P : Type 0} (w : Lwip P) (clock : Clock) where
  parsed-calls : (s : Server P) (o : Option CanFrame) → (parsed s clock o).calls ≡ s.calls
  parsed-calls s none = refl
  parsed-calls s (some f) = refl

  take_message-calls :
      (s : Server P) (p : P) (first len : ℕ) → (take_message w clock s p first len).calls ≡ s.calls
  unfolding take_message
  take_message-calls s p first len =
      let bytes = w.copy_partial p len first in
      let m : GcMessage = record { byte = copy_over s.buffer_recv.byte bytes; len = len } in
      elim (Bool-cases (leb len gc_max_msg)) [
        | inr long ↦ rw long refl
        | inl short ↦ elim (Bool-cases (ltb 0 (length bytes))) [
          | inl some_bytes ↦
              rw (short, some_bytes) (parsed-calls (keep s m) (decode_gc m empty_frame))
          | inr no_bytes ↦ rw (short, no_bytes) refl
        ]
      ]

  keep_partial-calls :
      (s : Server P) (p : P) (first : ℕ) → (keep_partial w s p first).calls ≡ s.calls
  unfolding keep_partial
  keep_partial-calls s p first =
      elim (Bool-cases (leb (u16 (w.tot_len p + 2 ^ 16 - first)) gc_max_msg)) [
        | inl short ↦ rw short refl
        | inr long ↦ rw long refl
      ]

  module _ (laws : LwipLaws w) (p : P) where
    -- A character that is found stands at the start position or behind it, inside the text.
    found_from :
        (b start : ℕ)
        → (w.memfind p b start == not_found) ≡ false
        → (start ≤ w.memfind p b start) × (w.memfind p b start < w.tot_len p)
    found_from b start h = elim (Option-cases (index b (drop start (laws.contents p)))) [
      | inl e ↦
          let missing : w.memfind p b start ≡ 0xFFFF =
            laws.found p b start ∙ ap (position start) e in
          absurd (ground arith)
      | inr (i, e) ↦
          let there : w.memfind p b start ≡ start + i =
            laws.found p b start ∙ ap (position start) e in
          let bound = (index-drop b (drop start (laws.contents p)) i e).1 in
          omega (arith, laws.total p, length-drop start (laws.contents p))
    ]

    -- With fewer than 0xFFFF characters in the buffer, the recursion of the extraction ends within as many rounds as
    -- there are characters left, and one, whatever the text is; the last call is the one and only call of pbuf_free.
    pub extract-FreesOnce :
        (rounds start : ℕ) (s : Server P)
        → w.tot_len p < not_found
        → start ≤ w.tot_len p
        → w.tot_len p < start + rounds
        → FreesOnce p s (extract w clock rounds s start p)
    unfolding extract
    extract-FreesOnce zero start s small inside enough = absurd (omega arith)
    extract-FreesOnce (suc rounds) start s small inside enough =
        let first = w.memfind p b':' start in
        let last = w.memfind p b';' first in
        let len = u16 (last + 1 + 2 ^ 16 - first) in
        let taken = take_message w clock s p first len in
        elim (Bool-cases (first == not_found)) [
          | inl none_left ↦ rw none_left (s, refl, refl)
          | inr starts ↦ elim (Bool-cases (last == not_found)) [
            | inl open_end ↦
                rw (starts, open_end) (keep_partial w s p first, refl, keep_partial-calls s p first)
            | inr ends ↦ elim (Bool-cases (ltb (len + first) (w.tot_len p))) [
              | inr all ↦ rw (starts, ends, all) (taken, refl, take_message-calls s p first len)
              | inl more ↦
                  let (le, lt) = found_from b':' start starts in
                  let (le', lt') = found_from b';' first ends in
                  let (s', e, c) =
                    extract-FreesOnce rounds (u16 (len + first)) taken small (ground arith)
                      (ground arith) in
                  rw (starts, ends, more) (s', e, c ∙ take_message-calls s p first len)
            ]
          ]
        ]
