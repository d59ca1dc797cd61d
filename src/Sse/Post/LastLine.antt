-- ===== src/Sse/Post/LastLine.antt =====
-- What the POST transport makes of a frame that the GET transport reads whole.
use usezombie.Prelude.{ℕ, ◌≡◌, ◌≢◌, refl, some, List, [], ◌∷◌, Text, All, Option}
use usezombie.Sse.Frame.{payload}
use usezombie.Sse.RoundTrip.{
  IsLine, print_frame, id_text, event_text, data_texts, id_text-IsLine, event_text-IsLine,
  data_texts-IsLine, split_lines-unlines,
}
use usezombie.Sse.Post.{Fields, read_line, apply_line, read_lines, parse_sse_event}

abbrev pub last_of : Text → List Text → Text
last_of l [] = l
last_of l (m ∷ ls) = last_of m ls

read_lines-last :
    (fields : Fields) (l : Text) (ls : List Text)
    → read_lines fields (data_texts (l ∷ ls)) ≡ record fields { content = last_of l ls }
unfolding read_lines apply_line read_line
read_lines-last fields l [] = refl
read_lines-last fields l (m ∷ ls) = read_lines-last (record fields { content = l }) m ls

last_of-some : (l : Text) → l ≢ [] → (k : Text) × (m : ℕ) × (l ≡ m ∷ k)
last_of-some [] h = absurd (h refl)
last_of-some (c ∷ l) h = (l, c, refl)

-- A frame with several lines of data loses all but the last: where the GET transport joins the lines,
-- this one keeps the last one, which is not to be empty. The id is not read.
pub parse_sse_event-print_frame :
    {V : Type 0} (json_parse : Text → Option V) (id type first : Text) (lines : List Text)
    → IsLine id
    → IsLine type
    → All IsLine (first ∷ lines)
    → last_of first lines ≢ []
    → parse_sse_event json_parse (print_frame id type (first ∷ lines))
      ≡ some (record { type = type; content = payload json_parse (last_of first lines) })
unfolding parse_sse_event read_lines apply_line read_line
parse_sse_event-print_frame json_parse id type first lines hi ht hl some_last =
    let whole =
      split_lines-unlines (id_text id) (event_text type ∷ data_texts (first ∷ lines))
        (id_text-IsLine id hi, (event_text-IsLine type ht, data_texts-IsLine (first ∷ lines) hl)) in
    let (k, c, e) = last_of-some (last_of first lines) some_last in
    rw (whole, parse_sse_event)
      (rw (read_lines-last (record { type = type; content = [] }) first lines) (rw e))
