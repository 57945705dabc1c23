-- ===== src/Lib.antt =====
-- Foodler: the mobile client's receipts, categories, store names, assistant's reports, transport,
-- synchronisation and product analytics.
--
-- The client keeps receipts in SQLite (mobile/src/storage.ts), puts a product into a category by
-- rules (mobile/src/category.ts), tells the screens of changes once per microtask
-- (mobile/src/features/receipts/receiptChanges.ts), exchanges receipts with the server
-- (mobile/src/api/sync.ts) and queues analytics events (mobile/src/analytics/service.ts).
-- `saveReceipt`, `deleteReceipt` and the category operations write the tables and then notify; the
-- synchronisation reads and writes the tables only by those operations, and keeps two sets of
-- identifiers in AsyncStorage; analytics keeps a preference and a queue there. The assistant's reports
-- are a table of their own (mobile/src/ai/storage.ts), to which the synchronisation adds those of the
-- server. All requests go through `authenticatedFetch` (mobile/src/api/transport.ts), whose calls
-- share one refresh of the tokens. The provider of the screens' data
-- (mobile/src/features/app/AppDataContext.tsx) runs these parts one after the other.
--
-- Files:
--   Common, Text, Json, Keys: names from the libraries, JavaScript's strings and JSON values, lists
--     of rows with keys. A string is the list of its UTF-16 units.
--   Category and below: mobile/src/category.ts and mobile/src/categories/*.ts. `Category` has the
--     labels and `normalizeCategory`, `Category.Regex` the patterns, with `test` as the language defines
--     it for them (`RegExp` is no code of the repository), `Category.Rules` the 19 rules,
--     `Category.Detect` `detectCategory`.
--   ReceiptChanges: receiptChanges.ts. The module's variables are the record `Changes`; the calls and
--     the microtask are the steps of the relation `Reaches`.
--   Receipts: mobile/src/types.ts.
--   Storage and below: `Storage.Database` has the statements of mobile/src/database/receiptQueries.ts
--     on tables that are lists of rows, `Storage.Identity` the normalised codes and the hash of
--     storage.ts, `Storage.Response` the reading of a provider's answer, `Storage.Operations` its
--     exported functions under their names, `Storage.Joined` `loadJoinedItems`.
--   Analytics and below: `Analytics.Service` has the methods of service.ts as functions of the record
--     `Device`, the keys of AsyncStorage, and `Analytics.Triggers` has triggers.ts.
--   Ai and below: `Ai.Types` is mobile/src/ai/types.ts, `Ai.Sections` `parseServerSections` of
--     ai/llmService.ts, `Ai.Service` `generateAiResponse` there, `Ai.Reports`
--     ai/storage.ts over the statements of ai/reportQueries.ts.
--   Transport and below: mobile/src/api/transport.ts. `Transport.Network` has what runs between two
--     `await`s as the steps of the relation `Reach` on the record `Net`, `Transport.Tokens` the end of
--     `refreshAccessToken`, `Transport.Results` `unwrap`.
--   App and below: mobile/src/features/app/AppDataContext.tsx. `App.Uploads` is one run of the
--     synchronisation effect as steps, with its flags and the notifications of ReceiptChanges;
--     `App.Refreshes` the refreshes of the screens' data, each with three queries; `App.Background` the
--     synchronisation after signing in, from its start to its end.
--   Profile and below: mobile/src/profileStorage.ts and mobile/src/profileNutrition.ts.
--   ManualReceipt and below: mobile/src/features/receipts/manualReceipt.ts.
--   Grouping and below: the sums by key of mobile/src/utils.ts and mobile/src/stats.ts.
--   StoreAliases and below: mobile/src/storeAliases.ts, with what is stored as an argument.
--   Sync and below: api/sync.ts. `Sync.Ids` has the stored sets, `Sync.Deletions` the queue of
--     deletions, `Sync.Pull` `pullServerReceipts`, `Sync.Upload` the uploads, `Sync.Reports`
--     `syncAiReports`; `SyncState` has the keys of AsyncStorage, `Local` the tables and the
--     notifications.
--
-- What the code takes from elsewhere is a parameter: `Locale` is the runtime's lowercasing and case
-- folding, with laws that the Unicode tables have; `Numbers` is JavaScript's arithmetic, of which
-- nothing is assumed; `datetime` is SQLite's; `random` gives the identifiers; the server's answers
-- are arguments of each call, and `none` or `thrown` where a request fails. `getAccessToken` is the
-- argument `token`. Exclusive transactions and the operations of the analytics service (`run`) come
-- one after the other, AsyncStorage and the database do not fail, and foreign keys are unchecked, as
-- SQLite leaves them. A table of labels is searched among its own keys only. `Number`, `Math.round`,
-- `localeCompare`, local dates, `JSON.parse` of a section's text, `JSON.stringify` and `String` of an
-- item are parameters too; of `JSON.parse` a theorem assumes that strings in an array are shorter than
-- the text it is read from, and of `String` of a number that it has no unit 0. `toLocaleLowerCase()`
-- of a store's name follows the device's locale and is taken as the same `Locale`. SQLite orders names
-- and keys by the bytes of UTF-8, which is modelled for well-formed texts. An object's key `__proto__`
-- is a key like others. Of the steps of `authenticatedFetch`, reading or writing AsyncStorage is one
-- step with what follows it; a timeout is a request that throws.
--
-- Fuel: the hash of a receipt is below 2 ^ 32, so `to_hex` gives its digits 8 rounds, one for each;
-- the download gives `list_pages` a number of pages, and one more page than the server's list fills
-- is enough (`pull_complete`); sections within texts have the length of all texts as their fuel, which
-- is enough for a parser that shortens (`parse_server_sections-recursion`).
--
-- Not modelled: `openDb` with the migration of old columns, the prompts, the facade of analytics, the
-- dimensions that its triggers send, periods and series of the statistics, the session, the constants of
-- config.ts and subscriptionPlans.ts, and the screens. The backend is an oracle; mobile/src/api/generated is
-- generated code.
pub mod Common
pub mod Text
pub mod Json
pub mod Keys
pub mod Category
pub mod ReceiptChanges
pub mod Receipts
pub mod Storage
pub mod Analytics
pub mod Sync
pub mod StoreAliases
pub mod Ai
pub mod Transport
pub mod ManualReceipt
pub mod Grouping
pub mod App
pub mod Profile
