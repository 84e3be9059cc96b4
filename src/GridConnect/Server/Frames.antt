-- ===== src/GridConnect/Server/Frames.antt =====
-- The frames that extractAndQueueGC of GridConnectPicoW/CBUSGridConnect.cpp gives to the queue and to the bus.
use cbuspico_lib.Common.{
  ℕ, ◌+◌, ◌≡◌, refl, sym, ap, ap₂, ◌∙◌, Option, none, some, List, [], ◌∷◌, ◌++◌, append-nil,
  append_assoc, arith, length, length-append,
}
use cbuspico_lib.Frame.{CanFrame, empty_frame}
use cbuspico_lib.CircularBuffer.{CircularBuffer}
use cbuspico_lib.GridConnect.Codec.{decode_gc}
use cbuspico_lib.GridConnect.Server.{Clock, Server, queued, parsed}
use cbuspico_lib.GridConnect.Server.Extract.{padded, accept_all}

-- The frames in some messages, in order; a message that does not parse has none.
abbrev pub frame_in : Option CanFrame → List CanFrame
frame_in none = []
frame_in (some f) = f ∷ []

unfoldable pub frames : List (List ℕ) → List CanFrame
frames [] = []
frames (m ∷ ms) = frame_in (decode_gc (padded m) empty_frame) ++ frames ms

-- The frames are put into the queue, the first of them at the `n`-th reading of the clock.
unfoldable pub queue_all : Clock → ℕ → Option CircularBuffer → List CanFrame → Option CircularBuffer
queue_all clock n b [] = b
queue_all clock n b (f ∷ fs) = queue_all clock (n + 1) (queued b (clock n) f) fs

pub frames-append : (ms ns : List (List ℕ)) → frames (ms ++ ns) ≡ frames ms ++ frames ns
unfolding frames
frames-append [] ns = refl
frames-append (m ∷ ms) ns =
    ap (λ fs. frame_in (decode_gc (padded m) empty_frame) ++ fs) (frames-append ms ns)
    ∙ sym (append_assoc (frame_in (decode_gc (padded m) empty_frame)) (frames ms) (frames ns))

pub queue_all-append :
    (clock : Clock) (n m : ℕ) (b : Option CircularBuffer) (fs gs : List CanFrame)
    → m ≡ n + length fs
    → queue_all clock n b (fs ++ gs) ≡ queue_all clock m (queue_all clock n b fs) gs
unfolding queue_all
queue_all-append clock n m b [] gs e = ap (λ k. queue_all clock k b gs) (omega (arith, sym e))
queue_all-append clock n m b (f ∷ fs) gs e =
    queue_all-append clock (n + 1) m (queued b (clock n) f) fs gs (omega (arith, e))

module _ {P : Type 0} where
  -- The frames are queued and sent.
  abbrev pub with_frames : Clock → Server P → List CanFrame → Server P
  with_frames clock s fs = record s {
    can_buffer = queue_all clock (length s.to_can) s.can_buffer fs;
    to_can = s.to_can ++ fs;
  }

  with_frames-append :
      (clock : Clock) (s : Server P) (fs gs : List CanFrame)
      → with_frames clock (with_frames clock s fs) gs ≡ with_frames clock s (fs ++ gs)
  with_frames-append clock s fs gs =
      ap₂ (λ b l. record s { can_buffer = b; to_can = l })
        (sym (
          queue_all-append clock (length s.to_can) (length (s.to_can ++ fs)) s.can_buffer fs gs
            (length-append s.to_can fs)))
        (append_assoc s.to_can fs gs)

  parsed-with_frames :
      (clock : Clock) (s : Server P) (o : Option CanFrame)
      → parsed s clock o ≡ with_frames clock s (frame_in o)
  unfolding queue_all
  parsed-with_frames clock s none = ap (λ l. record s { to_can = l }) (sym (append-nil s.to_can))
  parsed-with_frames clock s (some f) = refl

  pub accept_all-with_frames :
      (clock : Clock) (s : Server P) (ms : List (List ℕ))
      → accept_all clock s ms ≡ with_frames clock s (frames ms)
  unfolding accept_all frames queue_all
  accept_all-with_frames clock s [] = ap (λ l. record s { to_can = l }) (sym (append-nil s.to_can))
  accept_all-with_frames clock s (m ∷ ms) =
      let o = decode_gc (padded m) empty_frame in
      accept_all-with_frames clock (parsed s clock o) ms
      ∙ ap (λ t. with_frames clock t (frames ms)) (parsed-with_frames clock s o)
      ∙ with_frames-append clock s (frame_in o) (frames ms)
