-- ===== src/Sse/Chunks.antt =====
-- The read loop of `streamGet` against the whole text: where the chunks are split does not matter.
use usezombie.Prelude.{
  ℕ, zero, suc, ◌<◌, ◌≡◌, refl, Option, none, some, List, [], ◌∷◌, ◌++◌, arith, Text, length,
  String, Bool, ◌⊎◌, Option-cases, inl, inr,
}
use mathlib.Core.List.{append-nil, append_assoc}
use usezombie.Http.{Runtime}
use usezombie.Sse.Frame.{SseFrame, parse_sse_frame}
use usezombie.Sse.Stream.{
  Ending, body, finish, on_frame, stream_get, Progress, stopped, going, cut, drain, pump,
}
use usezombie.Sse.Framing.{blocks, blocks-append, cut-none, cut-some, cons_frame}

Progress-cases :
    {S : Type 0} (p : Progress S) → ((t : S) × (p ≡ stopped t)) ⊎ ((t : S) × (p ≡ going t))
Progress-cases (stopped t) = inl (t, refl)
Progress-cases (going t) = inr (t, refl)

-- `chunks.join("")`
abbrev pub concat : List Text → Text
concat [] = []
concat (chunk ∷ chunks) = chunk ++ concat chunks

module _ {S : Type 0} (handle : S → Text → Progress S) where
  -- The frames one after the other, up to the first that stops.
  unfoldable pub deliver : S → List Text → Progress S
  deliver s [] = going s
  deliver s (f ∷ fs) = elim (handle s f) [ stopped t ↦ stopped t | going t ↦ deliver t fs ]

  abbrev then_deliver : Progress S → List Text → Progress S
  then_deliver (stopped t) fs = stopped t
  then_deliver (going t) fs = deliver t fs

  deliver-append :
      (s : S) (fs gs : List Text) → deliver s (fs ++ gs) ≡ then_deliver (deliver s fs) gs
  unfolding deliver
  deliver-append s [] gs = refl
  deliver-append s (f ∷ fs) gs = elim (Progress-cases (handle s f)) [
    | inl (t, e) ↦ rw (e, deliver)
    | inr (t, e) ↦ rw (e, deliver) (deliver-append t fs gs)
  ]

  -- With enough fuel the inner loop delivers the frames of the buffer; if it goes on, what is left
  -- in the buffer is what follows the last of them.
  data IsDrained (s : S) (buf : Text) : Option (Progress S × Text) → Type 0 where
    halted :
        {t : S} {rest : Text}
        → deliver s (blocks buf).0 ≡ stopped t
        → IsDrained s buf (some (stopped t, rest))
    emptied :
        {t : S} {rest : Text}
        → deliver s (blocks buf).0 ≡ going t
        → (blocks buf).1 ≡ rest
        → cut rest ≡ none
        → IsDrained s buf (some (going t, rest))

  IsDrained-cons :
      (s t : S) (buf f rest : Text) {o : Option (Progress S × Text)}
      → handle s f ≡ going t
      → blocks buf ≡ cons_frame f (blocks rest)
      → IsDrained t rest o
      → IsDrained s buf o
  unfolding deliver
  IsDrained-cons s t buf f rest e framed (halted d) = halted (rw framed (rw (e, deliver) d))
  IsDrained-cons s t buf f rest e framed (emptied d r c) =
      emptied (rw framed (rw (e, deliver) d)) (rw framed r) c

  drain-IsDrained :
      (fuel : ℕ) (s : S) (buf : Text)
      → length buf < fuel
      → IsDrained s buf (drain handle fuel s buf)
  unfolding drain deliver
  drain-IsDrained zero s buf h = absurd (omega arith)
  drain-IsDrained (suc fuel) s buf h = elim (Option-cases (cut buf)) [
    | inl gone ↦
        let whole = cut-none buf gone in rw (gone, drain) (emptied (rw whole) (rw whole) gone)
    | inr ((f, rest), found) ↦
        let (framed, shorter) = cut-some buf f rest found in
        elim (Progress-cases (handle s f)) [
          | inl (t, e) ↦ rw (found, drain) (rw (e, drain) (halted (rw framed (rw (e, deliver)))))
          | inr (t, e) ↦
              rw (found, drain)
                (rw (e, drain)
                  (IsDrained-cons s t buf f rest e framed
                    (drain-IsDrained fuel t rest (omega arith))))
        ]
  ]

  pump_round :
      (s : S) (buf chunk : Text) (chunks : List Text) {o : Option (Progress S × Text)}
      → IsDrained s (buf ++ chunk) o
      → drain handle (suc (length (buf ++ chunk))) s (buf ++ chunk) ≡ o
      → ((t : S) (rest : Text)
          → cut rest ≡ none
          → pump handle t rest chunks ≡ some (deliver t (blocks (rest ++ concat chunks)).0))
      → pump handle s buf (chunk ∷ chunks)
        ≡ some (deliver s (blocks ((buf ++ chunk) ++ concat chunks)).0)
  unfolding pump
  pump_round s buf chunk chunks (halted d) e later =
      rw (e, pump)
        (rw
          (blocks-append (buf ++ chunk) (concat chunks), deliver-append s (blocks (buf ++ chunk)).0)
          (rw d))
  pump_round s buf chunk chunks (emptied {t} {rest} d r gone) e later =
      rw (e, pump)
        (rw (later t rest gone) (
          rw
            (
              blocks-append (buf ++ chunk) (concat chunks),
              deliver-append s (blocks (buf ++ chunk)).0,
            )
            (rw (d, r))))

  pump-deliver :
      (s : S) (buf : Text) (chunks : List Text)
      → cut buf ≡ none
      → pump handle s buf chunks ≡ some (deliver s (blocks (buf ++ concat chunks)).0)
  unfolding pump deliver
  pump-deliver s buf [] gone = rw (append-nil buf, cut-none buf gone)
  pump-deliver s buf (chunk ∷ chunks) gone = rw (← append_assoc buf chunk (concat chunks)) (
      pump_round s buf chunk chunks (drain-IsDrained _ s (buf ++ chunk) (omega arith)) refl
        (λ t rest gone'. pump-deliver t rest chunks gone'))

  -- The read loop ends, and however the text is split into chunks, it hands the frames of the whole
  -- text to the callback, in order and up to the first that stops; what follows the last empty line
  -- is dropped.
  pub pump_chunks :
      (s : S) (chunks : List Text)
      → pump handle s [] chunks ≡ some (deliver s (blocks (concat chunks)).0)
  unfolding cut
  pump_chunks s chunks = pump-deliver s [] chunks refl

-- So `streamGet` on a body: its result depends on the text of the body and on how the reads end, and
-- not on where the chunks are split. It never runs out of fuel. A callback that stops the stream
-- makes a later failure of the reads unseen.
pub stream_get_chunks :
    {S V : Type 0} (rt : Runtime) (parse : Text → Option V) (on_event : S → SseFrame V → S × Bool)
    (timed_out : String) (aborted : Bool) (chunks : List Text) (ending : Ending) (s : S)
    → stream_get rt parse on_event timed_out aborted (some (body chunks ending)) s
      ≡ some (
          finish timed_out aborted ending
            (deliver (on_frame (parse_sse_frame parse) on_event) s (blocks (concat chunks)).0))
unfolding stream_get
stream_get_chunks rt parse on_event timed_out aborted chunks ending s =
    rw (pump_chunks (on_frame (parse_sse_frame parse) on_event) s chunks, stream_get)
