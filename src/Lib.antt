-- ===== src/Lib.antt =====
-- Verification library of the web frontend of the Hunger Beauty Platform (frontend/src): the parts of
-- it that decide who may see and do what, that keep the session, and that talk to the backend.
--
-- The parts, and how they interact:
-- - Permissions (frontend/src/lib/permissions.ts): `can`, `pget` and `can_export_clients` over a user
--   with a role and page permissions; Permissions.Defaults is
--   frontend/src/lib/page-permissions-defaults.ts, with the defaults of each role and the deep merge;
--   Permissions.Hook is frontend/src/hooks/usePermissions.ts, and Permissions.Editor the switches of
--   frontend/src/components/users/user-page-permissions-tab.tsx.
-- - Middleware (frontend/src/middleware.ts): the gate in front of the pages, as a function of its
--   environment, the cookie and the path. Two branches of it are functions of their own,
--   `master_route` and `salon_route`.
-- - Session (frontend/src/app/api/auth/login, invite, refresh, logout and ws-ticket, route.ts): each
--   route is a function from a jar of cookies to an answer and a jar. The gate and the proxy read the
--   cookies that these routes set. Session.User is frontend/src/lib/server-session.ts.
-- - Bff (frontend/src/app/api/bff/[...path]/route.ts): the proxy, which adds the session's token.
-- - Api (frontend/src/lib/api.ts): the browser's client of the proxy. A server is a function of the
--   requests that it has answered, and the log of the requests is the state.
-- - Storage: the browser's storage, as the mini app uses it; it may be blocked or full.
-- - Guest (frontend/src/app/mini-app/lib/guest-client.ts) and Referral
--   (frontend/src/app/mini-app/lib/referral.ts): the identity of a guest and the referral codes, on
--   that storage.
-- - Chat (frontend/src/hooks/useChatData.ts): Chat.Socket is `useChatWebSocket` as a machine whose steps
--   are the callbacks of the browser; Chat.Cache is what the mutations do to the list of chats, and
--   Chat.Messages is `handleWsEvent` of frontend/src/app/(admin)/chats/page.tsx.
-- - Notifications (frontend/src/hooks/useBookingNotifications.ts): the poll for new bookings, a step for
--   each reply.
-- - Booking (frontend/src/lib/booking-duration-label.ts and
--   frontend/src/app/mini-app/lib/booking-price-duration.ts): how long a booking takes.
-- - Wizard (frontend/src/app/mini-app/book/page.tsx): the booking wizard as a machine whose steps are the
--   handlers and effects of the page; Wizard.Stages is what it promises, Wizard.Refinement that the page
--   keeps to it, Wizard.Requests what it sends, and Wizard.Price what the confirmation shows. What the
--   hooks hand the page comes with each event, so it may change from one to the next.
-- - Assistant (frontend/src/app/mini-app/hooks/useMiniAppChat.ts and
--   frontend/src/app/mini-app/components/ChatDrawer.tsx): the chat with the salon's assistant, a machine
--   too.
-- - Dates (frontend/src/lib/date-local.ts): the salon's time and UTC. The wizard sends its start through
--   it, and the details of a booking its new time; both send nothing where it throws.
-- - Periods (frontend/src/app/(admin)/statistics/statistics-context.tsx and
--   frontend/src/app/(admin)/reports/reports-context.tsx): the ranges of days of the statistics and of
--   the reports. Periods.Walks and Periods.Calendar are what they use of `Date`, as ECMAScript defines it.
-- - WeekGrid (frontend/src/app/(admin)/bookings/week-calendar.tsx and
--   frontend/src/components/masters/MasterSchedule.tsx): where the grids of a week draw what.
-- - Broadcasts (frontend/src/app/(admin)/broadcasts/new/broadcast-wizard.tsx): the wizard of a broadcast
--   as a machine whose steps are the handlers and the answers to saves, sends, translations and uploads.
--   Broadcasts.Schema is backend/app/schemas/segment.py, which the criteria are checked against.
-- - Navigation: Navigation and Navigation.Events are the order of the menu in the settings
--   (frontend/src/app/(admin)/settings/settings-section.tsx); Navigation.Menu is the menu that the shell
--   makes of it (frontend/src/components/layout/admin-app-shell.tsx), with `can` of Permissions.
-- - WorkHours (frontend/src/app/(admin)/settings/settings-section.tsx): the working hours of the salon.
-- - Dashboard (frontend/src/app/(admin)/dashboard/admin-dashboard.tsx): the figures, the series of its
--   charts and its lists.
-- - Formulas (frontend/src/app/(admin)/formulas/formulas-page.tsx): the rows of the drawer, what it
--   suggests and what it saves.
-- - BookingDetail (frontend/src/app/(admin)/bookings/booking-detail-drawer.tsx): how the times of a booking
--   are changed.
-- - Scheduler (frontend/src/components/schedule/WeekScheduler.tsx): where the week of several masters
--   draws what. Services (frontend/src/hooks/useServices.ts): the switch of a service and the pages of the
--   cache. Inventory (frontend/src/app/(admin)/inventory/inventory-page.tsx): the levels of the stock and
--   the lines of a new invoice.
-- - Sorting: `sort` with a comparison, which the menu, the dashboard and the formulas use.
-- - Prelude: tests, lists and objects with text keys, texts as lists of code units; Examples: the
--   theorems at concrete inputs.
--
-- Names are those of the source in snake case: `apiFetch` is `api_fetch`. A function that the source
-- writes as one body with early returns is sometimes several here, each named for what follows a test.
-- Promises are not modelled where nothing can come between the calls; an exception is a value
-- (`threw`, or `none`).
--
-- Numbers are natural numbers, and nothing is computed that can overflow; where a number may be below
-- zero it is one of Prelude.Integers. `settle` has fuel for three requests, which is enough for every
-- path. The walks of Periods.Walks have fuel: a year takes a day at least, so a day number and one more is
-- enough for the years, and twelve is enough for the months. Days are those since 1970, and prices are
-- whole cents.
--
-- Parameters, since their code is not here: the backend's answers, the clock of the salon's zone as
-- `Intl` and `Date` read it, `toUpperCase` in the wizard, `jwtVerify` and `decodeJwt`, `fetch`,
-- how `Date` and `localeCompare` order two texts, `encodeURIComponent`, `parseFloat` and `parseInt`, and
-- whether a text is a key of the database.
--
-- Not modelled: the markup of the pages, the tables of translations, the
-- forms of the salon's services and products, the other sections of the settings, the lists of the broadcasts and
-- of the formulas, the status and the price of a booking in its drawer, the rail of days of the wizard, and
-- the message to the salon in the drawer of the chat; `config.matcher` of the gate; the device that records
-- a voice; and, but for the schema of the segments, the backend, which is written in another language.
pub mod Prelude
pub mod Permissions
pub mod Inventory
pub mod Middleware
pub mod Scheduler
pub mod Services
pub mod Session
pub mod Bff
pub mod Api
pub mod Sorting
pub mod Storage
pub mod Dashboard
pub mod Dates
pub mod Periods
pub mod Wizard
pub mod WeekGrid
pub mod WorkHours
pub mod Assistant
pub mod Formulas
pub mod Guest
pub mod Referral
pub mod BookingDetail
pub mod Broadcasts
pub mod Chat
pub mod Examples
pub mod Navigation
pub mod Notifications
pub mod Booking
