-- ===== src/Lib.antt =====
-- The browser client of the MARC Comparator (client/src), a React application that lists catalogue
-- records, their comparisons with authorities and their validations, and starts tasks on them.
-- The model is of its logic: the pure functions, the handlers of the components and their
-- state, and the interceptor of the HTTP client. Markup is left out.
--
-- The files, and the code that they model:
--   Base            lists, sets as lists in insertion order (`new Set`), strings as lists of code
--                   units, integers, a stable sort
--   Permission      client/src/types/permission.ts and hooks/use-permissions.ts. `getAllDependencies`
--                   and `removeDependents` recurse along the dependencies; the fuel `depth_bound` is
--                   enough because the dependencies have no cycle, and the theorems say so: the
--                   toggle always gives a result.
--   Filters         client/src/features/records/use-record-filters.ts and `countActiveFilters` of
--                   records-page.tsx. A partial `setFilters` is a record update.
--   Records         client/src/features/records/types.ts
--   Carousel        client/src/features/records/carousel: Key, View and Navigation model
--                   carousel-view.tsx, MarcTable, MarcRow and PidLinks model marc-table.tsx, and
--                   Header record-header.tsx; Navigation also has the
--                   keys of table/table-view.tsx and the index shown by records-page.tsx
--   Summaries       client/src/features/records/utils.ts
--   ApiClient       client/src/lib/api-client.ts: a step per stretch between two awaits
--   WsClient        client/src/lib/ws-client.ts; sockets and timers are numbers, and the sockets and
--                   timers of the browser are a part of the state
--   Notifications   the store of client/src/layout/toast-history.tsx
--   Sections        client/src/features/records/plots/use-section-visibility.ts
--   Facets          client/src/features/records/plots/plots-view.tsx and use-facets.ts
--   TaskEvents      client/src/hooks/use-ws-events.ts; a timer of the browser is a number with its message
--   RecordTasks     client/src/features/records/record-task-actions.tsx: an event of the user is possible
--                   where the page shows an enabled control for it; Process has the simple button
--   Table           client/src/features/records/table; the timer of the search input is a part of the
--                   state
--   Reviews         client/src/features/records/carousel/review-button.tsx and use-reviews.ts
--   Charts          the charts of client/src/features/records/plots, by their data and clicks
--   Addition        client/src/features/records/addition
--   Settings        client/src/features/settings; the library for forms is the interface `FormLib`
--   Tasks           client/src/features/tasks and the banners of client/src/layout
--   Access          client/src/features/access-control; the dialog uses `togglePermission` of Permission
--   Session         client/src/layout/app-layout.tsx, menu-panel.tsx, client/src/router.tsx,
--                   client/src/features/auth and errors
--   Maintenance     client/src/features/maintenance
--   Queries         the keys of all queries, and on which occasions they are marked as stale
-- The state of the filters is the record `Filters`, which the carousel and the request share. The
-- carousel writes it through the same setters as the other views, and the request is a function of
-- it. Scores are compared by an interface (`Scores`) that gives 0, 1 and the strict order, since
-- they are floating-point numbers.
--
-- Not modelled: the libraries for state in the URL, queries, forms and tables, the translations,
-- the markup, and the server (app/), whose answers are arguments of the definitions. Functions of
-- the platform such as `parseInt` and `encodeURIComponent` are arguments too.
pub mod Base
pub mod Access
pub mod Addition
pub mod ApiClient
pub mod Carousel
pub mod Charts
pub mod Facets
pub mod Filters
pub mod Maintenance
pub mod Notifications
pub mod Permission
pub mod Queries
pub mod RecordTasks
pub mod Records
pub mod Reviews
pub mod Sections
pub mod Session
pub mod Settings
pub mod Summaries
pub mod Table
pub mod TaskEvents
pub mod Tasks
pub mod WsClient
