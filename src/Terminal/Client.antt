-- ===== src/Terminal/Client.antt =====
-- consumeTerminalStream of frontend/src/features/terminal/api/client.ts.
pub mod Returns
use rune_terminal.Base.{Option, none, some, List, [], if◌then◌else◌}
use rune_terminal.Text.{Text, text, text_eq}
use rune_terminal.EventStream.{
  Delivery, skipped, delivered, thrown, Delivered, ParsedEvent, parse_event_block, consume_stream,
}
use rune_terminal.Terminal.Types.{TerminalOutputChunk}

-- `parse` is `parseTerminalOutputChunk`: `JSON.parse`, and the schema of a chunk, with `none` for the
-- exception of either.
module _ (parse : Text → Option TerminalOutputChunk) where
  unfoldable pub deliver_output : Option ParsedEvent → Delivery TerminalOutputChunk
  deliver_output none = skipped
  deliver_output (some parsed) =
      if text_eq parsed.event (text "output")
      then elim (parse parsed.content) [ none ↦ thrown | some chunk ↦ delivered chunk ]
      else skipped

  unfoldable pub on_terminal_block : Text → Delivery TerminalOutputChunk
  on_terminal_block block = deliver_output (parse_event_block block)

  unfoldable pub consume_terminal_stream :
      (reads : List Text) (last : Text) → Delivered TerminalOutputChunk
  consume_terminal_stream reads last = consume_stream on_terminal_block [] reads last
