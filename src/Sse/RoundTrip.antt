-- ===== src/Sse/RoundTrip.antt =====
-- A server's frame, printed and parsed.
use usezombie.Prelude.{
  ◌≡◌, ◌≢◌, refl, ap, ◌∙◌, Option, some, List, [], ◌∷◌, ◌++◌, arith, Text, codes, newline,
  carriage_return, All, All-append, is_empty, false,
}
use mathlib.Core.List.{append_assoc}
use usezombie.Sse.Frame.{
  split_lines, strip_cr, read_line, id_line, event_line, data_line, read_lines, apply_line, Fields,
  no_fields, payload, parse_sse_frame, add_content, Line,
}

-- One line of text.
abbrev pub IsLine : Text → Type 0
IsLine = All (λ c. (c ≢ newline) × (c ≢ carriage_return))

-- Lines, each but the last ended by a line feed.
abbrev pub unlines : List Text → Text
unlines [] = []
unlines (l ∷ []) = l
unlines (l ∷ m ∷ ls) = l ++ newline ∷ unlines (m ∷ ls)

split_lines-line : (l : Text) → IsLine l → split_lines l ≡ l ∷ []
unfolding split_lines
split_lines-line [] h = refl
split_lines-line (c ∷ l) ((p, _), h) = ground (arith, split_lines-line l h)

split_lines-cons : (l s : Text) → IsLine l → split_lines (l ++ newline ∷ s) ≡ l ∷ split_lines s
unfolding split_lines
split_lines-cons [] s h = refl
split_lines-cons (c ∷ l) s ((p, _), h) = ground (arith, split_lines-cons l s h)

pub split_lines-unlines :
    (l : Text) (ls : List Text) → All IsLine (l ∷ ls) → split_lines (unlines (l ∷ ls)) ≡ l ∷ ls
split_lines-unlines l [] (h, _) = split_lines-line l h
split_lines-unlines l (m ∷ ls) (h, hs) =
    rw (split_lines-cons l (unlines (m ∷ ls)) h, split_lines-unlines m ls hs)

strip_cr-line : (l : Text) → IsLine l → strip_cr l ≡ l
unfolding strip_cr
strip_cr-line [] h = refl
strip_cr-line (c ∷ []) ((_, p), _) = ground arith
strip_cr-line (c ∷ d ∷ l) (_, h) = rw (strip_cr-line (d ∷ l) h)

abbrev pub id_text : Text → Text
id_text v = codes "id: " ++ v

abbrev pub event_text : Text → Text
event_text v = codes "event: " ++ v

abbrev pub data_text : Text → Text
data_text v = codes "data: " ++ v

abbrev pub data_texts : List Text → List Text
data_texts [] = []
data_texts (v ∷ vs) = data_text v ∷ data_texts vs

-- The frame as the server writes it, without the empty line behind it.
abbrev pub print_frame : Text → Text → List Text → Text
print_frame id type lines = unlines (id_text id ∷ event_text type ∷ data_texts lines)

pub id_text-IsLine : (v : Text) → IsLine v → IsLine (id_text v)
id_text-IsLine v h = All-append _ (codes "id: ") v (omega arith) h

pub event_text-IsLine : (v : Text) → IsLine v → IsLine (event_text v)
event_text-IsLine v h = All-append _ (codes "event: ") v (omega arith) h

data_text-IsLine : (v : Text) → IsLine v → IsLine (data_text v)
data_text-IsLine v h = All-append _ (codes "data: ") v (omega arith) h

pub data_texts-IsLine : (lines : List Text) → All IsLine lines → All IsLine (data_texts lines)
data_texts-IsLine [] h = tt
data_texts-IsLine (l ∷ ls) (h, hs) = (data_text-IsLine l h, data_texts-IsLine ls hs)

read_line-id : (v : Text) → IsLine v → read_line (strip_cr (id_text v)) ≡ id_line v
unfolding read_line
read_line-id v h = rw (strip_cr-line (id_text v) (id_text-IsLine v h))

read_line-event : (v : Text) → IsLine v → read_line (strip_cr (event_text v)) ≡ event_line v
unfolding read_line
read_line-event v h = rw (strip_cr-line (event_text v) (event_text-IsLine v h))

read_line-data : (v : Text) → IsLine v → read_line (strip_cr (data_text v)) ≡ data_line v
unfolding read_line
read_line-data v h = rw (strip_cr-line (data_text v) (data_text-IsLine v h))

add_content-some : (a v : Text) → a ≢ [] → add_content a v ≡ a ++ newline ∷ v
add_content-some [] v h = absurd (h refl)
add_content-some (c ∷ a) v h = refl

append-ne-nil : (a v : Text) → a ≢ [] → a ++ newline ∷ v ≢ []
append-ne-nil [] v h = absurd (h refl)
append-ne-nil (c ∷ a) v h = λ e. cc

unlines_merge :
    (a b : Text) (ls : List Text)
    → unlines ((a ++ newline ∷ b) ∷ ls) ≡ a ++ newline ∷ unlines (b ∷ ls)
unlines_merge a b [] = refl
unlines_merge a b (m ∷ ls) = append_assoc a (newline ∷ b) (newline ∷ unlines (m ∷ ls))

read_lines-cons :
    (fields : Fields) (text : Text) (line : Line) (rest : List Text)
    → read_line (strip_cr text) ≡ line
    → read_lines fields (text ∷ rest) ≡ read_lines (apply_line fields line) rest
unfolding read_lines
read_lines-cons fields text line rest e = rw e

read_data_texts :
    (fields : Fields) (a : Text) (lines : List Text)
    → fields.content ≡ a
    → a ≢ []
    → All IsLine lines
    → read_lines fields (data_texts lines) ≡ record fields { content = unlines (a ∷ lines) }
unfolding read_lines apply_line
read_data_texts fields a [] e some_content h = rw (← e)
read_data_texts fields a (l ∷ ls) e some_content (h, hs) =
    let with_content : Text → Fields = λ (c : Text). record fields { content = c } in
    read_lines-cons fields (data_text l) (data_line l) (data_texts ls) (read_line-data l h)
    ∙ ap (λ c. read_lines (with_content c) (data_texts ls))
        (ap (λ c. add_content c l) e ∙ add_content-some a l some_content)
    ∙ read_data_texts (with_content (a ++ newline ∷ l)) (a ++ newline ∷ l) ls refl
        (append-ne-nil a l some_content) hs
    ∙ ap with_content (unlines_merge a l ls)

read_print_frame :
    (id type first : Text) (lines : List Text)
    → IsLine id
    → IsLine type
    → All IsLine (first ∷ lines)
    → first ≢ []
    → read_lines no_fields (id_text id ∷ event_text type ∷ data_texts (first ∷ lines))
      ≡ record { id = some id; type = type; content = unlines (first ∷ lines) }
unfolding read_lines apply_line
read_print_frame id type first lines hi ht (hf, hl) some_first =
    let with_id : Fields = record no_fields { id = some id } in
    let with_type : Fields = record with_id { type = type } in
    let tail = data_text first ∷ data_texts lines in
    read_lines-cons no_fields (id_text id) (id_line id) (event_text type ∷ tail)
      (read_line-id id hi)
    ∙ read_lines-cons with_id (event_text type) (event_line type) tail (read_line-event type ht)
    ∙ read_lines-cons with_type (data_text first) (data_line first) (data_texts lines)
        (read_line-data first hf)
    ∙ read_data_texts (record with_type { content = first }) first lines refl some_first hl

unlines-some : (a : Text) (ls : List Text) → a ≢ [] → is_empty (unlines (a ∷ ls)) ≡ false
unlines-some [] ls h = absurd (h refl)
unlines-some (c ∷ a) [] h = refl
unlines-some (c ∷ a) (l ∷ ls) h = refl

-- A frame with an id, a type and one or more lines of data, of which the first is not empty, comes
-- back from the parser: the id, the type, and the lines joined by line feeds, as parsed JSON where
-- they are JSON. No part of it may hold a line feed or a carriage return.
pub parse_sse_frame-print_frame :
    {V : Type 0} (json_parse : Text → Option V) (id type first : Text) (lines : List Text)
    → IsLine id
    → IsLine type
    → All IsLine (first ∷ lines)
    → first ≢ []
    → parse_sse_frame json_parse (print_frame id type (first ∷ lines))
      ≡ some (record {
        id = some id;
        type = type;
        content = payload json_parse (unlines (first ∷ lines));
      })
unfolding parse_sse_frame read_lines apply_line
parse_sse_frame-print_frame json_parse id type first lines hi ht (hf, hl) some_first =
    let whole = split_lines-unlines (id_text id) (event_text type ∷ data_texts (first ∷ lines)) (
      id_text-IsLine id hi,
      (event_text-IsLine type ht, data_texts-IsLine (first ∷ lines) (hf, hl)),
    ) in
    rw (whole, parse_sse_frame)
      (rw (read_print_frame id type first lines hi ht (hf, hl) some_first)
        (rw (unlines-some first lines some_first)))
