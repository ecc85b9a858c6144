-- ===== src/Lib.antt =====
-- RealTube: the browser extension, in realtube-extension/src: its service worker in background, the
-- content scripts in content, the popup and the settings page.
--
-- The extension keeps the scores of videos and channels in IndexedDB, syncs them with a server, and
-- answers the messages of its pages and content scripts. A vote goes to the server, or waits in an
-- offline queue that is flushed later. The parts and their files, below realtube-extension/src:
--
--   * background/cache.ts: `Cache`, over `ObjectStore`, a store with a key path. One function for each
--     operation, and a read and a write that stand for its transaction. `Cache/Refinement` compares the
--     stores with maps.
--   * background/api-client.ts: `ApiClient`. `getConfig` is `get_config`, `fetchWithRetry` is
--     `fetch_with_retry`, with a function for each of the six endpoints. `ApiClient/Retry` and
--     `ApiClient/Rounds` are about the retries, `ApiClient/BaseUrl` about the server that requests go to, `ApiClient/Frame` about what
--     the calls leave alone, `ApiClient/Votes` about a vote that was submitted.
--   * background/identity.ts: `Identity`, with the local id and the public user id in `Identity/Laws`,
--     the text of a digest in `Identity/Hex`, and the fallback of the UUID in `Identity/Uuid`.
--   * background/sync.ts: `Sync`. `performDeltaSync`, `performFullSync` and `autoSync` are
--     `perform_delta_sync`, `perform_full_sync` and `auto_sync`; `Sync/Delta`, `Sync/Full`,
--     `Sync/RateLimit` and `Sync/Schedule` are about them.
--   * background/offline-queue.ts: `OfflineQueue`. `flushPendingVotes` is `flush_pending_votes`, its
--     loop `flush_votes`; `OfflineQueue/Loop` is about the loop, `OfflineQueue/Flush` about the whole,
--     `OfflineQueue/Retries` about the votes that a flush leaves, and
--     `OfflineQueue/Race` has votes that are queued and timers that fire meanwhile, as a step
--     relation, with the timers in `OfflineQueue/Race/Timer`.
--   * background/background.ts: `Background`. `handleMessage` is `handle_message`, the listener
--     `on_message`, the start of the worker `start`. `Background/Queueing` is about SUBMIT_VOTE,
--     `Background/Lookup`, `Background/Privacy`, `Background/Grouping` and `Background/Again` are about
--     CHECK_VIDEOS,
--     `Background/Gate` is about who may ask, `Background/Kinds` about the data of each response,
--     `Background/Secure` has an invariant. `Background/Worker` is the worker
--     as a whole, woken by messages, timers, the event `online`, changes of the settings and its own
--     loads, with flushes at once or in steps; `Background/Worker/Runs` is about all its runs, and
--     `Background/Worker/Flushes` compares a flush in steps with a flush at once.
--     `Background/Overlap` has the lookups of CHECK_VIDEOS as a step relation:
--     `Background/Overlap/Results` compares their orders and `Background/Overlap/Handler` compares them
--     with the handler, over lemmas in `Turns`, `Stored` and `Start`.
--   * content/hide.ts: `Content/Hide`, on a page that is the list of its elements.
--     `Content/Hide/Flagged` is about the elements that a check hides.
--   * content/content.ts: `Content/Session`, a state machine over what happens to a page.
--     `onNavigate` is `on_navigate`, the listener of the settings `on_enabled_changed` and
--     `on_shorts_changed`; `Content/Session/Observers` is about its observer. `scanVisibleVideos` with
--     the functions that it calls is `scan_page` in `Content/Scan`.
--   * content/dom-utils.ts: `Content/DomUtils`, with a function for each of the file.
--     `Content/DomUtils/Ids` is about the ids in paths, `Content/DomUtils/Found` about the map of ids.
--   * content/shorts.ts: `Content/Shorts`, on a page that is the list of its renderers.
--     `checkAndSkipCurrentShort` is `start_check` up to its message and `finish_check` after it;
--     `Content/Shorts/Skipping` is about the two.
--   * content/vote-ui.ts: `Content/VoteUi`, a state machine over clicks, keys, answers and timeouts.
--     `Content/VoteUi/Sound` is an invariant of all its runs, `Content/VoteUi/Reported` about a vote on
--     its way through the worker.
--   * popup/popup.tsx: `Popup`, the state of its components over what happens to them, with the
--     helper functions in `Popup/Helpers`. `Popup/Voting` is an invariant, and `Popup/Voting/Steps`
--     that every event keeps it; `Popup/Urls` compares its video id with those of the content
--     scripts, `Popup/Helpers/Ago` is about `formatTimeAgo`, `Popup/Bars` has the bars of the
--     categories. `Popup/View` is what the components render, with a function for each;
--     `Popup/Reported` is about a vote on its way through the worker.
--     `Popup/Session` lets events reach the handlers, and clicks only where the view has the button
--     and it is enabled; `Popup/Session/Enabled` is about the button "Vote".
--   * options/options.tsx: `Options`, with the edits of its controls and the delayed write.
--     `Options/Reload` is about settings that are stored and loaded, `Options/Ttl` about the lifetime
--     of the cache. `Options/View` is what the page renders, with its controls in order;
--     `Options/View/Controls` is about their edits.
--
-- `Effects` has the asynchronous functions: a state goes in, and a result or an error comes out with
-- the state that is left. `Effects/Returns` is about the value that comes out. `Effects/Keeps` and `Invariant` carry an invariant from the calls of the API
-- and the writes to the cache through every handler; `Sync/Keeps`, `OfflineQueue/Keeps` and
-- `Background/Keeps` are the steps. `Browser` has the state, which is IndexedDB, the extension's storage
-- and the variables of the modules, and the services that are not part of the code: the network and
-- the server, the clock, dates, SHA-256, random numbers. These are a parameter, the record
-- `Platform`. What they answer depends on the trace of the requests and waits so far, so it may change
-- from one call to the next in any way. `Records` has the interfaces, `Prelude` what the modules share.
-- `Tests` has examples.
--
-- Choices. Numbers are the native ones; a score is a multiple of the smallest positive double. The
-- loop of `fetchWithRetry` runs on the rounds that are left, four at the start, and so many are always
-- enough for its three retries. All other loops are over lists. Requests to IndexedDB succeed. Outside
-- of `OfflineQueue/Race`, and of the flushes in steps of `Background/Worker`, the reads and writes of one
-- message are not interleaved with those of another.
-- The lookups of one message, which the code starts together, are done one after the other in
-- `Background`, and in any order in `Background/Overlap`, where `answer` names what each of them comes
-- to.
--
-- Not modelled: the elements, class names and icons of the pages and of the vote button; the privacy
-- text and the links of the settings page; the two servers; logging; the JSON of requests and answers,
-- which are typed values here.
pub mod ApiClient
pub mod Background
pub mod Content
pub mod Browser
pub mod OfflineQueue
pub mod Sync
pub mod Cache
pub mod Options
pub mod Popup
pub mod Identity
pub mod Invariant
pub mod Effects
pub mod Records
pub mod ObjectStore
pub mod Prelude
pub mod Tests
