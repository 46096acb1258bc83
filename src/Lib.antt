-- ===== src/Lib.antt =====
-- Verification of the API of Safeer, a NestJS application on MySQL: staff accounts and content.
--
-- The program. Requests pass the guards (src/auth/guards: session, role, CSRF) and reach services,
-- which read and write the tables of the database. src/auth/auth.service.ts signs staff in, keeps
-- their sessions and passwords and the links of invitations and resets; src/users/users.service.ts
-- keeps their accounts. The collections of the site (posts, pages, partners and so on) are instances of
-- one kernel, src/common/crud/crud.factory.ts, which purges the cache of what it changes and writes
-- to the table of redirects when a published page moves. src/mail/mail.service.ts queues mails and
-- retries them.
--
-- The model. A table is a list of rows (Common/Table.antt), a query is a function on it, and a request
-- is a function from the state to a result and the next state (Common/Effects.antt); a problem response
-- is an error value, and a transaction undoes its writes on an error. Time is a number of milliseconds
-- that is passed in, row ids are numbers. Every loop is recursion on a list or a text but for the three
-- walks of the organisation chart, whose fuel is the number of rows and two, which OrgChart/Walks.antt
-- shows to be enough on every table; the public chart, whose levels the source itself bounds by
-- ORG_MAX_DEPTH; and the search for a free slug, see Slugs.antt below.
--   Accounts.antt       the tables users, sessions, auth_tokens, audit_log (src/database/entities) and
--                       src/users/public-user.ts
--   Users.antt          src/users/users.service.ts: update, remove, createInvitedUser
--   Auth.antt           the functions of the platform that src/auth calls, as parameters: SHA-256,
--                       Argon2, the CSRF code, the LRU cache, the collation of the database
--   Auth/Lockout.antt   registerFailedAttempt of src/auth/auth.service.ts
--   Auth/Login.antt     login, with the counter of attempts per address. What other requests write
--                       between its SELECT and its UPDATE is an arbitrary function.
--   Auth/Sessions.antt  logout, listSessions, endSession, endOtherSessions, changePassword
--   Auth/Tokens.antt    invite, acceptInvite, sendPasswordReset, resetPassword, consumeToken
--   Auth/Guards.antt    src/auth/guards, in the order of src/auth/auth.module.ts
--   Crud.antt           src/common/crud/crud.factory.ts: create, update, publish, reorder, remove, for any
--                       collection; its options and TypeORM's part are the record CrudOptions
--   Redirects.antt      src/redirects, and the statements on redirects of the kernel; the collation of the
--                       table is a parameter, the weight of a text
--   Mail.antt           src/mail/mail.service.ts: the queue over mail_log, one attempt being one step
--   Cache.antt          src/cache/cache.service.ts: tags and versions; lru-cache is a parameter
--   OrgChart.antt       the admin's requests of src/org-chart/admin-org-positions.controller.ts;
--                       OrgChart/Guard.antt is src/org-chart/tree-guard.ts and OrgChart/Chart.antt is
--                       src/org-chart/public-org-chart.ts
--   ListParams.antt     src/common/query/list-params.ts; Number.parseInt is a parameter
--   Contact.antt        what the public forms share (src/contact/contact.service.ts) and
--                       src/common/links/frontend-url.ts
--   Newsletter.antt     subscribe, confirmSubscription, unsubscribe of src/contact/contact.service.ts, and
--                       src/contact/newsletter-token.util.ts; the HMAC and JavaScript's numbers and
--                       texts are parameters
--   Messages.antt       src/messages/messages.service.ts; Messages/Submit.antt is submit of
--                       src/contact/contact.service.ts
--   Maintenance.antt    src/maintenance/maintenance.service.ts: the nightly sweep; each step has its own
--                       reading of the clock, and may fail
--   Csv.antt            src/common/csv.ts; Csv/Reader.antt is a reader of the format, for comparison
--   Slugs.antt          generateUniqueSlug of src/common/text/slugify.ts, and
--                       src/common/validation/slug.ts; the fuel of its loop is one round for each row
--                       and one more
-- An id in the address of a request is a text that the code compares as such and MySQL reads as a number;
-- where both happen (Users.antt, OrgChart.antt, Redirects.antt) a request says both, as they differ
-- for 07.
-- Crud/Paths.antt shows that the kernel acts on the redirects by the operations of Redirects.antt alone.
-- The theorems on a file stand in the modules below it, and examples of them in the Tests modules.
--
-- Not modelled: controllers, DTO validation, mail transport, image processing and the wiring of the
-- framework, which pass calls on or are libraries; columns that the database fills in by itself;
-- the unique key on users.email, whose violation is a database error; a database or audit write
-- that fails, but for a step of the nightly sweep and for the update of a row after SMTP accepted
-- its mail.
pub mod Common
pub mod Accounts
pub mod Users
pub mod Auth
pub mod Redirects
pub mod Crud
pub mod Mail
pub mod Cache
pub mod OrgChart
pub mod Contact
pub mod Newsletter
pub mod Messages
pub mod Maintenance
pub mod Csv
pub mod Slugs
pub mod Samples
pub mod ListParams
