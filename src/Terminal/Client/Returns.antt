-- ===== src/Terminal/Client/Returns.antt =====
-- What happens to an event whose lines end by a carriage return and a line feed, where a read ends
-- between the two.
use rune_terminal.Base.{
  ℕ, ◌≡◌, refl, ap, ◌∙◌, Bool, true, false, not, ◌&&◌, ◌||◌, Option, none, some, List, [], ◌∷◌,
  ◌++◌, ◌==◌, All, All-imp, arith,
}
use rune_terminal.Text.{Text, text, text_eq, starts_with, trim, trim_start}
use rune_terminal.EventStream.{
  line_feed, carriage_return, normalize_from, normalize_newlines, split_blocks, push_unit,
  split_lines, cut_field, strip_space, read_line, read_lines, join_lines, parse_event_block,
  deliver_then, then_deliver, flush_remainder, consume_stream,
}
use rune_terminal.EventStream.Blocks.{
  HasNoReturn, normalize_from-append, is_cut, split_blocks_cut, split_blocks_longer,
}
use rune_terminal.Terminal.Types.{TerminalOutputChunk}
use rune_terminal.Terminal.Client.{deliver_output, on_terminal_block, consume_terminal_stream}

-- The text is one line.
abbrev pub IsLine : Text → Type 0
IsLine = All (λ c. (c == line_feed || c == carriage_return) ≡ false)

split_lines-IsLine : (s : Text) → IsLine s → split_lines s ≡ s ∷ []
unfolding split_lines
split_lines-IsLine [] h = refl
split_lines-IsLine (c ∷ s) (hc, h) = rw (split_lines-IsLine s h) (ground arith)

-- Neither holds an empty line nor ends by a line feed.
is_block : Text → Bool
is_block [] = true
is_block (c ∷ []) = not (c == line_feed)
is_block (c ∷ d ∷ s) = not (is_cut c d) && is_block (d ∷ s)

split_blocks-is_block :
    (s t : Text)
    → is_block s ≡ true
    → split_blocks (s ++ line_feed ∷ line_feed ∷ t) ≡ (s ∷ (split_blocks t).0, (split_blocks t).1)
unfolding is_block
split_blocks-is_block [] t h = split_blocks_cut line_feed line_feed t refl
split_blocks-is_block (c ∷ []) t h =
    rw (split_blocks_longer c line_feed (line_feed ∷ t) (ground arith))
      (rw (split_blocks_cut line_feed line_feed t refl) (unfold push_unit in refl))
split_blocks-is_block (c ∷ d ∷ s) t h =
    rw (split_blocks_longer c d (s ++ line_feed ∷ line_feed ∷ t) (ground arith))
      (rw (split_blocks-is_block (d ∷ s) t (ground arith)) (unfold push_unit in refl))

is_block-IsLine : (c : ℕ) (s : Text) → IsLine (c ∷ s) → is_block (c ∷ s) ≡ true
unfolding is_block
is_block-IsLine c [] (hc, h) = ground arith
is_block-IsLine c (d ∷ s) (hc, h) = ground (arith, is_block-IsLine d s h)

IsLine-HasNoReturn : (s : Text) → IsLine s → HasNoReturn s
IsLine-HasNoReturn s h = All-imp s (λ c k. ground arith) h

-- The lines of an output event, each with its line feed.
abbrev pub named : Text
named = text "event: output"

abbrev output_block : Text → Text
output_block json = named ++ line_feed ∷ text "data: " ++ json

-- The line of data and the empty line that ends the event.
abbrev pub data_lines : Text → Text
data_lines json =
    text "data: " ++ json ++ carriage_return ∷ line_feed ∷ carriage_return ∷ line_feed ∷ []

-- An output event with one line of data.
abbrev pub output_event : Text → Text
output_event json = named ++ carriage_return ∷ line_feed ∷ data_lines json

normalize-data_lines :
    (json : Text)
    → IsLine json
    → normalize_from false (data_lines json) ≡ text "data: " ++ json ++ line_feed ∷ line_feed ∷ []
unfolding normalize_from
normalize-data_lines json h =
    ap (λ s. text "data: " ++ s) (normalize_from-append json _ (IsLine-HasNoReturn json h))

-- The first read leaves the name of the event behind, with its line feed.
split-named :
    split_blocks (normalize_newlines (named ++ carriage_return ∷ []))
    ≡ ([], named ++ line_feed ∷ [])
unfolding split_blocks push_unit normalize_from
split-named = refl

parse-output_block :
    (json : Text)
    → IsLine json
    → parse_event_block (output_block json)
      ≡ some (record { content = json; event = text "output" })
unfolding parse_event_block split_lines read_lines read_line cut_field strip_space join_lines
    text_eq starts_with
parse-output_block json h = rw (split_lines-IsLine json h) refl

parse-data_block :
    (json : Text)
    → IsLine json
    → parse_event_block (text "data: " ++ json)
      ≡ some (record { content = json; event = text "message" })
unfolding parse_event_block split_lines read_lines read_line cut_field strip_space join_lines
    text_eq starts_with
parse-data_block json h = rw (split_lines-IsLine json h) refl

split-data :
    (json : Text)
    → IsLine json
    → split_blocks (text "data: " ++ json ++ line_feed ∷ line_feed ∷ [])
      ≡ ((text "data: " ++ json) ∷ [], [])
unfolding is_block split_blocks
split-data json h =
    split_blocks-is_block (text "data: " ++ json) [] (is_block-IsLine b' ' json (refl, h))

split-output :
    (json : Text)
    → IsLine json
    → split_blocks (normalize_newlines (output_event json)) ≡ (output_block json ∷ [], [])
unfolding is_block split_blocks normalize_from
split-output json h =
    ap (λ s. split_blocks (named ++ line_feed ∷ s)) (normalize-data_lines json h)
    ∙ split_blocks-is_block (output_block json) [] (is_block-IsLine b' ' json (refl, h))

split-halves :
    (json : Text)
    → IsLine json
    → split_blocks (normalize_newlines ((named ++ line_feed ∷ []) ++ line_feed ∷ data_lines json))
      ≡ (named ∷ (text "data: " ++ json) ∷ [], [])
unfolding normalize_from is_block
split-halves json h =
    ap (λ s. split_blocks (named ++ line_feed ∷ line_feed ∷ s)) (normalize-data_lines json h)
    ∙ split_blocks-is_block named _ refl
    ∙ ap (λ p. let q : List Text × Text = (named ∷ p.0, p.1) in q) (split-data json h)

parse-named : parse_event_block named ≡ none
unfolding parse_event_block split_lines read_lines read_line cut_field strip_space text_eq
    starts_with
parse-named = refl

module _ (parse : Text → Option TerminalOutputChunk) (json : Text) (h : IsLine json) where
  -- An output event of one line whose lines end by a carriage return and a line feed: read at once, it
  -- is delivered; read in two pieces, of which the first ends between the two behind the event's name,
  -- it is lost, and nothing is reported.
  pub consume_terminal_stream-lost :
      (chunk : TerminalOutputChunk)
      → parse json ≡ some chunk
      → (consume_terminal_stream parse [] (output_event json)
          ≡ record { events = chunk ∷ []; failed = false })
        × (consume_terminal_stream parse
              ((named ++ carriage_return ∷ []) ∷ [])
              (line_feed ∷ data_lines json)
            ≡ record { events = []; failed = false })
  unfolding consume_terminal_stream consume_stream deliver_then then_deliver on_terminal_block
      deliver_output text_eq flush_remainder trim trim_start
  consume_terminal_stream-lost chunk good = (
    rw (split-output json h) (rw (parse-output_block json h) (rw good refl)),
    rw split-named (rw (split-halves json h) (rw (parse-named, parse-data_block json h) refl)),
  )
