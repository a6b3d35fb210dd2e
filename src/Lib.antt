-- ===== src/Lib.antt =====
-- Kiosk screen: the display and the core of the administration in the Angular frontend.
--
-- A kiosk shows a queue of photos and videos in its top region and a band of ads below. An operator
-- controls it remotely: next, previous, pause, resume, jump to an item, pin an item (fixed mode) or
-- show an iframe, and manages the contents and the ads in the administration. The code is
-- frontend/src/app; a file that is named without its folder below is in its display, with the
-- data of core/api/display.api.ts. Its parts and the files that model them:
--
-- - Display/Item and Display/Payloads: the data of the display, of core/api/display.api.ts,
--   shared/media-upload.models.ts and display-stream.models.ts, field by field.
-- - Display/Rotation: display-rotation.service.ts (`pickNext`, `pickPrevious`, `pendingNovelties`).
-- - Display/Cadence: recurring-cadence.service.ts, the counters of the recurring items. A `Map` is an
--   association list of distinct keys (Prelude/Maps), a `Set` a list (Prelude/Sets).
-- - Display/Cursor: cursor.service.ts. Display/Scheduler: rotation-scheduler.service.ts.
-- - Display/Controller: kiosk-rotation.controller.ts. State holds its signals and private fields in one
--   record, with the scheduler's two timers; Advance its `_advanceContent`, `_rewindContent` and
--   `_advanceAd`; Inputs the effect of `bindInputs`; Commands the remote commands, fixed mode and
--   the listeners; Events all entry points as one step function. The controller calls the
--   rotation, the cadence, the cursor and the scheduler.
-- - Display/Fingerprint: display-fingerprint.ts and `equalByDisplayFingerprint`, by which the polling
--   drops states that bring nothing new.
-- - Display/Viewer: display-viewer.controller.ts, what the stream of the server puts on screen.
-- - Display/Gate: display-content-gate.service.ts, which holds a content back until its medium is
--   ready and then passes it to the viewer.
-- - Display/MediaCache: display-media-cache.service.ts, which downloads the media, three at a time, and
--   keeps the Blobs of those that are retained. The gate asks it for a medium.
-- - Display/Polling: display-polling.service.ts, the polling that takes over when the stream is down. An
--   observable is a request in flight, and its answer an event. `Math.random()` is given in
--   thousandths.
-- - Display/Stream: display-stream.service.ts, the connection to the server. Display/IframeScale:
--   iframe-scale.service.ts, the scales of the iframes, which the stream updates.
-- - Display/NoveltyQueue: novelty-queue-tracker.service.ts, the icons of the novelties that wait.
--   Display/PreloadReady: novelty-preload-ready.service.ts, which tells the server once that a novelty is
--   ready. Both ask the media cache for the media.
-- - Display/Screen: the class of display-screen.component.ts, which joins all of these: what the effects of
--   its constructor do with the stream's events, Seed the state of the server on screen, Upkeep the
--   polling in place of the stream, the reload of an iframe, start and end, and Runs all of the
--   events of the display as one step function.
-- - Admin/Facade: the state of features/content/content.facade.ts and features/ads/ads.facade.ts, with
--   the operations that they share, as requests in flight and their answers; Admin/Catalog what
--   they do to their lists before the server answers, over any item with an id and an order.
--   Admin/Content and Admin/Ads: the operations of one facade each.
-- - Admin/Errors: core/errors/api-error-adapter.ts, by which the facades report failures.
-- - Admin/Pages: shared/util/client-pagination.ts and client-pagination-storage.ts. Admin/ContentList: the
--   class of features/content/content-list.component.ts, with the drag and drop in Drop.
-- - Admin/RemoteControl: features/remote-control/remote-control.facade.ts. Admin/Dashboard:
--   features/dashboard/dashboard.facade.ts and features/readiness/readiness-routes.ts.
-- - Session: core/auth/auth.service.ts, core/auth/auth-expired.interceptor.ts and
--   auth/session.guard.ts, with the two keys of `localStorage`.
-- - Activation: auth/login.component.ts, the login and the activation of a device by a code, with the
--   polling of core/auth/device-activation.service.ts. It writes the session and Display/Label,
--   which is display-label.service.ts.
-- - Admin/ContentStream: features/content/admin-content-stream.service.ts, which tells the page of the
--   contents that the inventory has changed, and holds that back during a drag.
--
-- How the code is read. Numbers are natural numbers: orders, durations, counters and times in
-- milliseconds are not negative in the code. Ratios and scales, which the code only copies
-- or compares, are in thousandths. `null` and `undefined` are both `none` where the code treats
-- them alike. `Date.now()` is an argument `now`. A fingerprint is the value whose `JSON.stringify`
-- the code takes: two texts are equal exactly when the values are. A signal is a field; a
-- computed signal is a function of the state. A promise that is settled at once goes on at
-- once. The places that wait for something outside are suspended runs in the
-- state: the claim of a novelty (`Claim`, which `resolve_claim` continues with the answer of the
-- server), the wait for a medium (`Waiter`, which `settle` continues with the answer of the cache) and
-- the download of a medium (`in_flight`, which `finish_preparation` continues with its outcome),
-- so that every other event can come in between. A timer that is armed is a field, and its
-- firing an event. A listener is a number, and the calls of the listeners are recorded; the
-- sink of the rotation events is taken to be set.
--
-- No definition needs fuel but `decimal` of Prelude/Templates, which prints a number n with n + 1
-- steps, more than its digits. The loop of `_tryAdvanceNovelty` is driven by the answers of the server.
--
-- Requests of the administration are answered in any order. A subscription that Angular cancels when
-- its page is left is not cut short here, so that its answer still comes. A `File` is a number. A message of
-- the dashboard is the list of its UTF-16 units. `moveItemInArray` of the Angular CDK is a parameter
-- of Admin/ContentList/Drop: it keeps the ids, and the order of all but the moved one. The parsing of
-- numbers is a parameter of Admin/Pages, and that of dates one of Admin/Dashboard.
--
-- Not modelled: the server, HTTP and sockets, DOM elements, templates, backdrops and fullscreen,
-- the label modal, the QR code, the snack bars, the forms, and the other pages of the
-- administration, which are forms and tables over thin clients.
pub mod Prelude
pub mod Display
pub mod Admin
pub mod Session
pub mod Activation
