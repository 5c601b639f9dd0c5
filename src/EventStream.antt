-- ===== src/EventStream.antt =====
-- The reading of an event stream, which frontend/src/features/terminal/api/client.ts and
-- frontend/src/features/agent/api/client.ts hold twice: parseEventBlock, and the loop that collects
-- the decoded texts in a buffer and cuts it at its empty lines.
pub mod Blocks
pub mod Chunking
use rune_terminal.Base.{
  ℕ, Bool, true, false, ◌&&◌, ◌||◌, Option, none, some, List, [], ◌∷◌, ◌++◌, ◌==◌, if◌then◌else◌,
  is_nil,
}
use rune_terminal.Text.{Text, text, text_eq, is_empty, starts_with, trim}

abbrev pub line_feed : ℕ
line_feed = 10

abbrev pub carriage_return : ℕ
carriage_return = 13

-- `buffer.replace(/\r\n?/g, '\n')`, and whether a carriage return stands directly before the text
unfoldable pub normalize_from : (after_return : Bool) → Text → Text
normalize_from after_return [] = []
normalize_from after_return (c ∷ s) =
    let returned = line_feed ∷ normalize_from true s in
    let kept = c ∷ normalize_from false s in
    let skipped = normalize_from false s in
    if c == carriage_return
    then returned
    else if after_return && c == line_feed
    then skipped
    else kept

abbrev pub normalize_newlines : Text → Text
normalize_newlines = normalize_from false

-- a code unit before the first block, or before the remainder
unfoldable pub push_unit : ℕ → List Text × Text → List Text × Text
push_unit c ([], rest) = ([], c ∷ rest)
push_unit c (block ∷ blocks, rest) = ((c ∷ block) ∷ blocks, rest)

-- `while (boundaryIndex >= 0)`: the blocks before the leftmost "\n\n", again and again, and what
-- remains
unfoldable pub split_blocks : Text → List Text × Text
split_blocks [] = ([], [])
split_blocks (c ∷ []) = ([], c ∷ [])
split_blocks (c ∷ d ∷ s) =
    let after = split_blocks s in
    let cut : List Text × Text = ([] ∷ after.0, after.1) in
    let longer = push_unit c (split_blocks (d ∷ s)) in
    if c == line_feed && d == line_feed then cut else longer

-- `block.split('\n')`
unfoldable pub split_lines : Text → List Text
split_lines [] = [] ∷ []
split_lines (c ∷ s) = elim (split_lines s) [
  | [] ↦ []
  | line ∷ lines ↦ if c == line_feed then [] ∷ line ∷ lines else (c ∷ line) ∷ lines
]

-- `[field, rawValue]` of a line that is cut at its first colon
unfoldable pub cut_field : Text → Text × Text
cut_field [] = ([], [])
cut_field (c ∷ s) = let rest = cut_field s in if c == b':' then ([], s) else (c ∷ rest.0, rest.1)

-- `rawValue.startsWith(' ') ? rawValue.slice(1) : rawValue`
unfoldable pub strip_space : Text → Text
strip_space [] = []
strip_space (c ∷ s) = if c == b' ' then s else c ∷ s

pub record EventBlock : Type 0 where
  pub event : Text
  pub data_lines : List Text

unfoldable pub read_line : EventBlock → Text → EventBlock
read_line block line =
    let (field, raw) = cut_field line in
    if is_empty line || starts_with line (text ":")
    then block
    else if text_eq field (text "event")
    then record block { event = strip_space raw }
    else if text_eq field (text "data")
    then record block { data_lines = block.data_lines ++ strip_space raw ∷ [] }
    else block

unfoldable pub read_lines : EventBlock → List Text → EventBlock
read_lines block [] = block
read_lines block (line ∷ lines) = read_lines (read_line block line) lines

-- `lines.join('\n')`
unfoldable pub join_lines : List Text → Text
join_lines [] = []
join_lines (line ∷ []) = line
join_lines (line ∷ next ∷ lines) = line ++ line_feed ∷ join_lines (next ∷ lines)

pub record ParsedEvent : Type 0 where
  pub content : Text
  pub event : Text

unfoldable pub parse_event_block : Text → Option ParsedEvent
parse_event_block block =
    let read =
      read_lines (record { event = text "message"; data_lines = [] }) (split_lines block) in
    if is_nil read.data_lines
    then none
    else some (record { content = join_lines read.data_lines; event = read.event })

-- What a block leads to: nothing, a call of the listener, or an exception.
pub data Delivery (A : Type 0) : Type 0 where
  skipped : Delivery A
  delivered : A → Delivery A
  thrown : Delivery A

-- What the listener was called with, and whether the reading ended by an exception.
pub record Delivered (A : Type 0) : Type 0 where
  pub events : List A
  pub failed : Bool

module _ {A : Type 0} (on_block : Text → Delivery A) where
  unfoldable pub then_deliver : Delivery A → Delivered A → Delivered A
  then_deliver skipped rest = rest
  then_deliver (delivered event) rest = record rest { events = event ∷ rest.events }
  then_deliver thrown rest = record { events = []; failed = true }

  -- The blocks in their order, and then what follows them, unless one throws.
  unfoldable pub deliver_then : List Text → Delivered A → Delivered A
  deliver_then [] rest = rest
  deliver_then (block ∷ blocks) rest = then_deliver (on_block block) (deliver_then blocks rest)

  -- `flushBuffer(true)`: the remainder counts as a block if it is not blank
  unfoldable pub flush_remainder : Text → Delivered A
  flush_remainder rest =
      if is_empty (trim rest)
      then record { events = []; failed = false }
      else deliver_then (rest ∷ []) (record { events = []; failed = false })

  -- The texts that `reader.read()` gives until it is done, and the one that the decoder gives then.
  unfoldable pub consume_stream : (buffer : Text) (reads : List Text) (last : Text) → Delivered A
  consume_stream buffer [] last =
      let (blocks, rest) = split_blocks (normalize_newlines (buffer ++ last)) in
      deliver_then blocks (flush_remainder rest)
  consume_stream buffer (read ∷ reads) last =
      let (blocks, rest) = split_blocks (normalize_newlines (buffer ++ read)) in
      deliver_then blocks (consume_stream rest reads last)
