-- ===== src/Sse/Frame.antt =====
-- `parseSseFrame` of agentsfleet/src/lib/sse.ts.
use usezombie.Prelude.{
  ℕ, Option, none, some, List, [], ◌∷◌, ◌++◌, ◌==◌, if◌then◌else◌, Text, codes, newline,
  carriage_return, is_empty, strip, trim_start,
}

-- `s.split("\n")`
abbrev pub push_first : ℕ → List Text → List Text
push_first c [] = (c ∷ []) ∷ []
push_first c (l ∷ ls) = (c ∷ l) ∷ ls

unfoldable pub split_lines : Text → List Text
split_lines [] = [] ∷ []
split_lines (c ∷ s) =
    let rest = split_lines s in if c == newline then [] ∷ rest else push_first c rest

-- `raw.replace(/\r$/, "")`
unfoldable pub strip_cr : Text → Text
strip_cr [] = []
strip_cr (c ∷ []) = if c == carriage_return then [] else c ∷ []
strip_cr (c ∷ d ∷ s) = c ∷ strip_cr (d ∷ s)

-- What a line says; `skip` is a blank line, a comment, or a field that is not read.
pub data Line : Type 0 where
  skip : Line
  id_line event_line data_line : Text → Line

-- One `else if (line.startsWith(prefix)) …`
abbrev pub on_prefix {ℓ} : {A : Type ℓ} → Text → Text → (Text → A) → A → A
on_prefix prefix line then_do otherwise = elim (strip prefix line) [
  | some rest ↦ then_do rest
  | none ↦ otherwise
]

unfoldable pub read_line : Text → Line
unfolding trim_start
read_line line =
    if is_empty line
    then skip
    else on_prefix (codes ":") line (λ _. skip)
        (on_prefix (codes "id: ") line id_line (
          on_prefix (codes "id:") line (λ v. id_line (trim_start v))
            (on_prefix (codes "event: ") line event_line (
              on_prefix (codes "event:") line (λ v. event_line (trim_start v))
                (on_prefix (codes "data: ") line data_line
                  (on_prefix (codes "data:") line (λ v. data_line (trim_start v)) skip))))))

-- The variables of the loop.
pub record Fields : Type 0 where
  pub id : Option Text
  pub type : Text
  pub content : Text

abbrev pub no_fields : Fields
no_fields = record { id = none; type = codes "message"; content = [] }

abbrev pub add_content : Text → Text → Text
add_content content v = if is_empty content then v else content ++ (newline ∷ v)

unfoldable pub apply_line : Fields → Line → Fields
apply_line fields skip = fields
apply_line fields (id_line v) = record fields { id = some v }
apply_line fields (event_line v) = record fields { type = v }
apply_line fields (data_line v) = record fields { content = add_content fields.content v }

unfoldable pub read_lines : Fields → List Text → Fields
read_lines fields [] = fields
read_lines fields (raw ∷ lines) = read_lines (apply_line fields (read_line (strip_cr raw))) lines

-- `data` is the parsed JSON, or the text where it does not parse.
pub data Payload (V : Type 0) : Type 0 where
  parsed : V → Payload V
  raw : Text → Payload V

pub record SseFrame (V : Type 0) : Type 0 where
  pub id : Option Text
  pub type : Text
  pub content : Payload V

abbrev pub payload : {V : Type 0} → (Text → Option V) → Text → Payload V
payload json_parse text = elim (json_parse text) [ none ↦ raw text | some v ↦ parsed v ]

module _ {V : Type 0} (json_parse : Text → Option V) where
  unfoldable pub frame_of : Fields → Option (SseFrame V)
  frame_of fields =
      if is_empty fields.content
      then none
      else some (record {
        id = fields.id;
        type = fields.type;
        content = payload json_parse fields.content;
      })

  unfoldable pub parse_sse_frame : Text → Option (SseFrame V)
  unfolding frame_of split_lines strip_cr read_line apply_line read_lines
  parse_sse_frame frame = frame_of (read_lines no_fields (split_lines frame))
