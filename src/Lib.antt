-- ===== src/Lib.antt =====
-- The browser part of serial-tcp-proxy, a proxy that shares one serial device behind a TCP converter
-- between clients, with a web page that shows its packets. The page is JavaScript under
-- internal/web/static; a line of the server's log becomes a row of the packet table.
--
-- How the parts interact: `LogPacket` of internal/logger/logger.go writes a line and the server sends
-- it to the page. `addPacketEntry` of modules/packets.js reads the line, stores a packet, and either
-- appends a row (`appendPacket`) or computes all rows anew (`renderPackets`). Both ask modules/filter.js
-- whether a packet matches the filter that the user has typed, and which bytes to highlight. The rows
-- go to modules/virtual-table.js. app.js keeps the connection to the server and hands each message on.
--
-- Which module models what (paths from internal/web/static/modules, if nothing else is said):
--   Wire       internal/logger/logger.go, `LogPacket`: the line's text.
--   Utils      utils.js: `Time` is formatTime, `Csv` escapeCsv, `Debounce` debounce.
--   RegExp     The RegExp objects of the language: the search is a parameter, an `Engine`, and
--              `lastIndex` is written out. An engine promises that a match lies in the text, at or
--              behind the index where the search began.
--   Filter     filter.js: `Parse` is parseFilter, `Match` matchesFilter, `Positions` findMatchPositions,
--              `Presets` loadPresets, savePresets, addPreset and removePreset.
--   Packets    packets.js: `Entry` and `Html` are addPacketEntry's reader and the hex column,
--              `Sort`, `Sorted` and `Headers` the sorting, `State` the variables of the module with the
--              scrolling, `Invariant` and `FastPath` what is said of them, `Handlers`
--              togglePacketSelection, clearPackets, appendPacket, renderPackets, addPacketEntry and the
--              listeners of initPackets, `Events` the events in sequence.
--              `Row` is renderTableRow, `Typing` the input of the filter with its
--              debounced rendering, and `PresetDialog` the dialogs.
--   Table      virtual-table.js, with the options that packets.js gives it: `Range` and `Rows` the
--              rows that are drawn, `Layout` their elements, `Scroll` the positions; `Dom` is what it does
--              to the children of the table's body.
--   Screen     packets.js with its table: the calls that the handlers make are carried out, and clicks,
--              scrolling, resizing and the columns' checkboxes reach both.
--   Export     export.js: the text of the file, against the reader of rows in `Utils.Csv`.
--   Logs       logs.js: the entries, and `Scroll` for the position of the list.
--   Ui         ui.js: updateUptime, with `Status` and `Tabs` for the others.
--   Api        api.js: the addresses.
--   Clients    clients.js: the dialog, as a step relation, and its rows.
--   Injection  injection.js: the panel and the button with its timers.
--   Theme      theme.js: the two themes and the system's.
--   Inspector  inspector.js: the numbers of the selected bytes, with `Float32` for the floats, and `Diff`
--              for renderDiff.
--   Connection internal/web/static/app.js: the WebSocket, its timer, the event stream and the first
--              request for the status, with the badge that all of them write. The callbacks are a step
--              relation, since each comes only from what the page has at that time.
--   App        internal/web/static/app.js: messages and controls, over Packets, Logs,
--              the status, Inspector and Export.
--   Prelude    What the modules share: texts with the string methods of JavaScript, lists, numbers.
--   Examples   Concrete packets, histories, an engine and a store.
--
-- The language's `sort` is a stable insertion sort by the comparator's sign.
--
-- A text is a list of UTF-16 code units. Packet objects have an identity (`Stored`), since the code
-- compares the selected packets as objects. The state changes by explicit passing, and what the module
-- asks of the virtual table is a list of calls. localStorage is one slot that may refuse to be written,
-- and JSON is a codec that reads what it wrote.
--
-- Fuel: the searches of findMatchPositions take a round more than the digits of the packet, since each
-- round but the last finds a match behind the one before; running out is a result of its own. The
-- groups of eight bytes take a round for each byte. The decimal digits of a number take a round more
-- than its value, the eight binary digits of a byte one each.
--
-- A scroll that the code asks for is only a position; the browser answers it with a scroll event, which
-- is an event of its own. A position that the content no longer has becomes the bottom; that a browser may
-- move the position to keep what is shown in its place when content above is removed is not modelled.
-- The body of the table is the list of its row elements between the spacers.
--
-- Not modelled: toLowerCase beyond the ASCII letters; the text of floats from 10^21 on; the link that
-- downloads the export; the parsing of JSON, whose results the handlers take; the markup and the styles
-- of the page, and the server, save the line that it logs: the library is about the program in the
-- browser.
mod Prelude
pub mod Wire
pub mod Utils
pub mod Packets
pub mod RegExp
pub mod Filter
pub mod Dom
pub mod Table
pub mod Screen
pub mod Theme
pub mod Inspector
pub mod Ui
pub mod Api
pub mod Logs
pub mod Connection
pub mod Clients
pub mod Injection
pub mod App
pub mod Export
mod Examples
