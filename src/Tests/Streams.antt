-- ===== src/Tests/Streams.antt =====
-- The theorems on event streams at concrete inputs.
use rune_terminal.Base.{◌≡◌, refl, false, Option, some, List, [], ◌∷◌, ◌++◌}
use rune_terminal.Text.{Text, text, join}
use rune_terminal.EventStream.{carriage_return, line_feed, consume_stream}
use rune_terminal.EventStream.Chunking.{consume_stream-join}
use rune_terminal.Terminal.Types.{TerminalOutputChunk}
use rune_terminal.Terminal.Client.{consume_terminal_stream}
use rune_terminal.Terminal.Client.Returns.{
  named, data_lines, output_event, consume_terminal_stream-lost,
}
use rune_terminal.Agent.Conversation.{AgentConversationStreamEvent, text_delta}
use rune_terminal.Agent.Client.{on_agent_block}

abbrev greeting : Text → Option AgentConversationStreamEvent
greeting json = some (text_delta (text "m1") json)

abbrev pieces : List Text
pieces = text "event: text-" ∷ text "delta\ndata: hel" ∷ text "lo\n" ∷ []

consume_stream-join_example :
    consume_stream (on_agent_block greeting) [] pieces (text "\n")
    ≡ consume_stream (on_agent_block greeting) [] [] (join pieces ++ text "\n")
consume_stream-join_example =
    consume_stream-join (on_agent_block greeting) pieces (text "\n") (refl, (refl, (refl, tt)))

abbrev chunk_of : Text → Option TerminalOutputChunk
chunk_of json = some (record { seq = 4; content = json; timestamp = text "t" })

consume_terminal_stream-lost_example :
    (consume_terminal_stream chunk_of [] (output_event (text "{}")) ≡ record {
      events = record { seq = 4; content = text "{}"; timestamp = text "t" } ∷ [];
      failed = false;
    })
    × (consume_terminal_stream chunk_of
          ((named ++ carriage_return ∷ []) ∷ [])
          (line_feed ∷ data_lines (text "{}"))
        ≡ record { events = []; failed = false })
consume_terminal_stream-lost_example =
    consume_terminal_stream-lost chunk_of (text "{}") (refl, (refl, tt))
      (record { seq = 4; content = text "{}"; timestamp = text "t" }) refl
