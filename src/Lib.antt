-- ===== src/Lib.antt =====
-- Verification of the JavaScript clients of the stock dashboard: the desktop shell, the browser
-- extension and the single-page application. The server (backend/app) answers them over HTTP and is
-- a parameter: its replies, successful or not, are arguments of the definitions.
--
-- How the parts interact. The desktop shell (desktop/src/main.js) waits for the server, loads the
-- application in its window, polls for alerts and offers updates at launch. The extension's worker
-- (extension/src/background/index.js) polls the same alerts and serves its popup and content script.
-- The application keeps the drawings of a chart, on both sides of the network, one event stream per
-- tab, the user's order of a list, the state of the sign-in, the data behind every panel, the watch
-- lists, the risk status and the sorting of tables; it places its menus and tooltips, keeps one
-- tooltip open at a time, and follows an update until the page reloads.
--
-- Files. A function of the source keeps its name, in lower case with underscores; a handler that
-- changes state returns the new state and the list of its effects; a sequence of events is a list,
-- and `run` takes its steps one after the other.
--   Prelude            Boolean tests, lists over native numbers, JavaScript objects, integers.
--   Desktop/Seen       desktop/src/alerts/seen.js
--   Desktop/Poller     desktop/src/alerts/poller.js: `poll`, `Session` on sequences of polls,
--                      `Click` on the link of a notification and `Timer` on the interval
--   Desktop/Store      desktop/src/alerts/store.js
--   Desktop/Updates    desktop/src/updates/pending.js (Pending) and launch.js (Launch)
--   Desktop/Window     desktop/src/window.js: the navigation policy and the health wait
--   Desktop/Oauth      desktop/src/oauth.js
--   Desktop/Shell      desktop/src/main.js: concurrent calls of `showWaitingThenLoad` are numbered,
--                      and each step of each call is an event
--   Extension/Cache    extension/src/lib/storage.js
--   Extension/Api      extension/src/lib/api.js
--   Extension/Background  extension/src/background/index.js; its Handle is the message broker
--   Extension/Detect   extension/src/content/detect.js; Guard is about the quick test before a scan
--   Extension/Annotate extension/src/content/annotate.js: the insertion of badges
--   Extension/Walk     extension/src/content/walk.js: the text nodes that are collected; Annotated
--                      joins it to Extension/Annotate
--   Extension/Sites    extension/src/lib/sites.js and the switch of extension/src/popup/Popup.jsx
--   Extension/Content  extension/src/content/index.js: when the overlay runs on a page
--   Frontend/Drawings  frontend/src/lib/drawings: Tools (tools.js), Shapes (geometry.js), Storage
--                      (storage.js), Anchors and Editor (useDrawings.js; Editor/Pointer has the
--                      pointer handlers and Editor/Events the keyboard and all events together)
--   Frontend/EventStream  frontend/src/lib/eventStream.js; Delivery has what it calls back
--   Frontend/LocalOrder   frontend/src/hooks/useLocalOrder.js; Saved has its reading and writing
--   Frontend/Nav       frontend/src/lib/nav.js and routes.js; Alerts joins it to Desktop/Poller/Click
--   Frontend/Api       frontend/src/api.js: one request, with what Frontend/Auth hears of it
--   Frontend/Auth      frontend/src/hooks/useAuth.js
--   Frontend/Dashboard frontend/src/hooks/useDashboardData.js: `load` and the actions; Workers has the
--                      four workers of `refreshOne`, and Refresh the wait after them
--   Frontend/SortableRows  frontend/src/hooks/useSortableRows.js; Stable says what a stable sort is
--   Frontend/RiskStatus    frontend/src/hooks/useRiskStatus.js
--   Frontend/UpdateStatus  frontend/src/hooks/useUpdateStatus.js: the shared request
--   Frontend/Floating  frontend/src/lib/floating.js: where menus and tooltips stand
--   Frontend/Tooltip   frontend/src/components/Tooltip.jsx: Step has its handlers, Rule what a property
--                      needs to survive them
--   Frontend/Updates   frontend/src/components/UpdatesSection.jsx: the progress of an update;
--                      Step has its handlers, timers and replies
--   Frontend/ServerStatus    frontend/src/hooks/useServerStatus.js
--   Frontend/CommandPalette  frontend/src/components/CommandPalette.jsx
--   Frontend/Watchlists    frontend/src/hooks/useWatchlists.js
-- A module's Laws, or a child named for what it proves, has its theorems, and Tests has runs of the
-- definitions and the theorems at concrete inputs.
--
-- Bounds and fuel. The wait for a new commit has fuel for 901 rounds: each takes at least two
-- seconds of the thirty minutes. The wait for the server's health has fuel for 61 turns of at least
-- one second of its minute. The wait for a refresh has fuel for 61 tests of its deadline: a round
-- takes at least a second and a half of the minute and a half. That the fuel of the first and of
-- the last is enough for any clock and any answers is among the results. Counts and times are
-- natural numbers, far below what JavaScript's numbers hold exactly; chart offsets are counted in
-- thousandths of a bar, to which the source rounds them, and coordinates on the screen in 128ths of a
-- pixel, half of the browser's unit.
--
-- Parameters. `new URL`, the location after a push and `URLSearchParams`, `Date.parse`,
-- `JSON.parse` and `JSON.stringify`, the text operations of the platform (among them
-- `localeCompare`), the arithmetic of prices (JavaScript's floating-point numbers), the clock and
-- the answers of the user and the server.
--
-- Not modelled. The rendering of React components, canvas drawing and hit tests, styles, tables of
-- texts, the browser's and Electron's own calls, which are effects here, the Python server and the
-- scripts for the Windows service.
pub mod Prelude
pub mod Desktop
pub mod Frontend
pub mod Extension
