-- ===== src/Lib.antt =====
-- A model of the core logic of rune-terminal's frontend, and what makes it correct.
--
-- The two-pane file manager, frontend/src/features/commander/model:
--   * Commander/Types: types.ts, the state of a widget with its two panes, the pending operation and
--     the file dialog, and what of them is stored.
--   * Commander/Mask: store-selection.ts, from a mask such as `*.ts; *.md` to the patterns it is split
--     into, the source text of each regular expression, the terms that `RegExp` reads from that text,
--     and the entries whose names match (splitCommanderMaskPatterns, escapeCommanderMaskRegExp,
--     commanderMaskPatternToRegExp, getCommanderMatchedEntries, filterEntriesByMask).
--   * Commander/Ordering: sortCommanderEntries of pane-state.ts. Sort holds the stable sort that
--     `Array.prototype.sort` is.
--   * Commander/PaneState: the rest of pane-state.ts with commander-defaults.ts; a pane is always
--     built by buildCommanderPaneState, which projects the directory and cuts the cursor, the anchor
--     and the selection down to the rows that are shown. Commander/ParentPath: getCommanderParentPath.
--   * Commander/Persistence: the serialisation and the completing schemas of persistence.ts.
--   * Commander/Navigation: store-navigation.ts, a pane's rebuilding and its history.
--   * Commander/Selection: the cursor, the ranges, the marks and the quick search of
--     store-selection.ts.
--   * Commander/Template and Commander/Preview: operation-preview.ts, rename templates with their
--     tokens, the preview of batch renames, clone names and name conflicts.
--   * Commander/Request, Commander/Operations and Commander/Confirm: store-operations.ts, opening,
--     editing, stepping through and confirming the pending operation of a widget. The arguments
--     `deps` are instantiated by their defaults.
--   * Commander/Handlers and Commander/Store: store.ts and store-widget-state.ts. An event of the
--     store is a constructor of `Event`, the handlers of one widget are `handle`, and `reduce` is the
--     store's step on the record of widgets; `run` is a sequence of events in the order of arrival.
--   * Commander/Keyboard: keyboard.ts and keyboard-handlers.ts, from a key to the action it triggers. An
--     action is a constructor of `Action`, and the time of a key an argument.
--   * Commander/ViewModel: the view of a pane of view-model.ts, with the display of a path of
--     frontend/src/shared/api/runtime.ts.
--   * Commander/RuntimePath: the joining and resolving of paths of frontend/src/shared/api/runtime.ts, and
--     the ids of entries that view-model.ts makes from them.
--   * Commander/StorePersistence: store-persistence.ts, the delayed write of the widgets as a state
--     machine of changes, timers and the end.
--
-- The agent panel, frontend/src/features/agent/model:
--   * Agent/Types: the messages of types.ts that a flow of interaction creates.
--   * Agent/Intent, Agent/Flow and Agent/Audit: interaction-flow.ts, from a prompt to the tools and
--     steps of a plan and to its intent; the messages and the flow that are started for it; and the
--     audit entries, which advance, complete and fail. The generator of sort keys is a function on
--     its state, and the clock a function of the entry's index, since the code reads it for each entry.
--
--   * Agent/Conversation: panel-state.ts and the types of frontend/src/features/agent/api/client.ts,
--     the messages of a conversation and what the events of a stream do to them.
--   * Agent/Client: consumeAgentConversationStream of that client.
--   * Agent/Submission: agent-panel-streaming.ts. The panel's state that the callbacks set is the record
--     `Panel`, the local variables of a run are `Submission`, and `step_submission` does what the run
--     does from one await to the next; `cancel_active_submission` is cancelActiveSubmissionForPanel.
--   * Agent/Conversations: agent-panel-conversations.ts, the list of conversations and the moves between
--     them, with the summaries of agent-panel-context.ts. Agent/Context: the widgets of that file.
--   * Agent/MessageView: chat-message-view.ts, the messages as they are shown.
--
-- The terminal, frontend/src/features/terminal:
--   * EventStream: what api/client.ts and the agent's client both hold, the reading of a stream of
--     events in pieces. The callback returns what it delivers, or that it throws.
--   * Terminal/Types and Terminal/Client: the types of api/client.ts and consumeTerminalStream.
--   * Terminal/Session: model/use-terminal-session.ts, the state of a session with what each operation
--     does to it before its request, after its answer and after its failure. Terminal/Session/Store:
--     the record of a widget in the map, with its stream, its timer and its retainers. What reaches it
--     is a constructor of `Event`, an answer with the generation of the record that waits for it, since
--     the code compares records by reference; `step` is one of them, `run` a sequence.
--
-- Base, Text and Sort hold what of the language the code uses: lists counted by native numbers,
-- strings as lists of UTF-16 code units with `trim`, `includes` and the like, and sorting. Null and
-- undefined are `none`; the index -1 of a search that fails is `none` too. What the code takes from
-- the host's Unicode tables and collation (localeCompare, the case mappings, the folding of the
-- expression flag `i`) is the record `Locale`, a parameter of every definition that uses it; where the
-- order counts, the hypothesis is that localeCompare is a consistent comparison, as the language asks
-- of a comparison function. Tests holds a locale over ASCII, of which that is proved.
--
-- Bounds: byte sizes, counters and positions are natural numbers, as the code keeps them within the
-- integers that a double holds exactly. `decimal` spends one round of fuel for each digit and a number
-- n has at most n + 1 digits. The loop of suggestCommanderCloneName runs 999 rounds in the code too.
-- All else is structural recursion on a list or a text.
--
-- Not modelled: the React hooks, and the requests to the backend with the schemas of their answers,
-- which are arguments of the steps; the parsing of JSON, which is a parameter; the view of the widgets
-- around the panes and of a terminal session; the reading and writing of the browser's storage; the
-- agent panel's planning runtime; the other features' clients, the widgets, and the programs in other
-- languages.
pub mod Base
pub mod Text
pub mod Locale
pub mod Sort
pub mod EventStream
pub mod Agent
pub mod Commander
pub mod Terminal
pub mod Tests
