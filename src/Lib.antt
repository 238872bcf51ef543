-- ===== src/Lib.antt =====
-- The client of DFCHAT (client/): its stores, its connection to the server and its encrypted archive
-- of messages.
--
-- A message comes in through the WebSocket client (client/src/ws/client.ts) or through a sync round
-- (client/src/sync/engine.ts), and goes to the chat store (client/src/store/chatStore.ts), which
-- keeps it in memory, in a cache in localStorage and, through the preload, in the archive of the
-- Electron main process (client/electron/archive.ts), and which lifts the conversation's sequence
-- number (client/src/sync/seqStore.ts). Notifications (client/src/notify/notify.ts) announce it.
--
-- Common: JavaScript's conditional, `??`, lists and objects used as maps.
-- Types: the shapes of client/src/types/index.ts.
-- Seq: client/src/sync/seqStore.ts, with what localStorage holds under the two keys.
-- Archive: client/electron/archive.ts. Key is `loadOrCreateDataKey`, Table the SQL statements as
--   functions on a list of rows and the two translations of a message, Api the exported functions
--   with `none` for one that throws. The other modules hold the proofs.
-- Chat: client/src/store/chatStore.ts with its state, the cache and the calls of the archive as one
--   record; Messages has the setters of messages, Marks the others. The other modules hold proofs,
--   Mirror those that join the chat store and the archive.
-- Ws: client/src/ws/client.ts with the sockets that it has opened; Step makes calls, browser events
--   and timers into steps of its state.
-- Sync: client/src/sync/engine.ts, a round being a start and the answers in any order; Shared is how
--   callers share a round.
-- Notify: client/src/notify/notify.ts.
-- Call: client/src/call/store.ts, with the peer connection, the streams and the tracks that devices
--   have given; Media has the helpers, Handlers the actions, Callbacks the callbacks and events,
--   Events their sequences; Awaits cuts the handlers that wait at their awaits.
-- Home: the handler of server events, the badge and the names of announcements in
--   client/src/pages/Home.tsx.
-- View: client/src/components/ChatView.tsx. Render is `buildRenderList`, Reactions the click on a
--   reaction, Opening what happens when a conversation is opened, Text what is read off a text,
--   Compose the handlers of messages, cut in two where they wait, Bubbles what a bubble
--   offers, and Typing the typing signals.
-- Markdown: client/src/utils/markdown.tsx. Inline is `tokenizeInline`, Mentions `renderMentions`,
--   Blocks `renderMarkdown`; Matches and Spans hold proofs.
-- Live: the viewer of a room in client/src/pages/Live.tsx, on the WebSocket client; Player is what
--   it does with the errors of hls.js.
-- Register: client/src/pages/Register.tsx. Flow has the handlers, Requests the page as a step relation
--   of what its user does and the server answers.
-- Sidebar: client/src/components/FriendSidebar.tsx, with the counts, the filters and invite codes; Dialogs
--   has its dialogs and Rows the rows of channels.
-- Search: client/src/components/SearchModal.tsx, the marks, the search while it is typed and the keys.
-- Settings: the forms of client/src/pages/Settings.tsx.
-- Members: what client/src/components/MembersPanel.tsx offers for a member, and the handlers of
--   server/internal/group/handler.go that allow it.
-- Api: the requests of client/src/api/client.ts, by what they are about; Routes is what the handlers
--   of server/internal register, Url and Encode the text of a path, Served the two together.
-- Session: the tokens, the refresh that requests share and the response interceptor of
--   client/src/api/client.ts, each await ending in an event of its own, and
--   client/src/store/userStore.ts.
-- Updates: the comparison of versions in client/electron/main.ts.
-- Desktop: the windows of client/electron/main.ts, its channels to the archive and the life of the
--   program; parsing and normalising of URLs and paths are parameters.
-- Tests: concrete data and the theorems applied to them.
--
-- A setter of a zustand store runs to its end before the next, so an operation is a function of
-- the state. Times and sequence numbers are natural numbers; the limits of the source (fifty
-- cached messages, thirty days, 500 rows, thirty seconds) are kept, and no operation needs fuel,
-- since every loop runs over a list or a text. The cipher, the keychain, JSON texts, the parsing
-- of dates, the server's answers and the clock are parameters. An assignment to localStorage that
-- throws is a flag of the state. A handler of a call runs whole, with what its awaits give as
-- arguments, and once more in pieces between which other handlers run; a handler of the chat view,
-- of the live pages or of a registration is cut where it waits. Not modelled: what views draw, the
-- tray, the crash log, the answers to requests (they are arguments), the upload to another host,
-- `stats` of the archive, the dialogs of groups and of friend requests, the administration and the
-- studio of the live pages, which are forms over the requests of Api, and the server but for its
-- routes and two of its handlers.
pub mod Common
pub mod Types
pub mod Seq
pub mod Archive
pub mod Chat
pub mod Ws
pub mod Sync
pub mod Notify
pub mod Call
pub mod Home
pub mod Session
pub mod Updates
pub mod Desktop
pub mod View
pub mod Markdown
pub mod Live
pub mod Register
pub mod Sidebar
pub mod Search
pub mod Settings
pub mod Members
pub mod Api
pub mod Tests
