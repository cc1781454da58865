-- ===== src/Lib.antt =====
-- The backend of VyaparaFlow, an ERP for small businesses: its stock, its payments, its approval
-- chains, its outbox, its document numbers, its goods receipts and supplier invoices, their
-- three-way match, its pricing, its sales and its idempotency keys. The services are functions on
-- a database session; here each table is a list of rows in a record, an operation is a function
-- from the record to a `Result` of its answer and the record after it, and an exception is an
-- `err`, after which the caller rolls back.
--
-- Prelude has the names and lemmas that the parts share: tests, lists, integers over the native
-- numbers (`Int`), Python's stable `sorted` (`Sorting`) and sums. Errors has the exceptions of
-- backend/app/core/exceptions.py.
--
-- Inventory is backend/app/services/inventory.py over backend/app/db/models/inventory.py. `Table`
-- has the rows, the CHECK constraints and the one form of UPDATE; `Movements` has
-- `_build_statement`, `_apply` and the five operations (`reserve` is `reserve_stock`, and so on);
-- `Reads` has the queries. `Contract` says what a movement does to a position, `Refinement` that
-- the guarded statements implement it, `Orders`, `Reservation`, `Intake`, `Outflow`, `Undoing` and
-- `Failures` what whole orders do.
--
-- Payments is backend/app/services/payments.py over the invoices of backend/app/db/models/sales.py
-- and purchase.py and the payments of finance.py: `Allocation` (`allocate_payment`), `Recording`
-- (`record_payment`) and `Reports` (balances and aging).
--
-- Approvals is backend/app/services/approvals.py over backend/app/db/models/workflow.py: `Rules`
-- (`determine_approval_chain`), `Creation`, `Decisions`, `Handover` (delegation and escalation)
-- and `Status`. `History` has any sequence of the operations as a step relation.
--
-- Outbox is backend/app/services/outbox.py (`write_event`) and the worker
-- backend/app/workers/outbox_publisher.py, whose loop is structural recursion on the batch.
-- `Backoff` is about the retry rule, `Bounds` and `Tries` count attempts, `Kept` and `Starved` say
-- what a run leaves as it is.
--
-- Numbering is backend/app/services/numbering.py over backend/app/db/models/numbering.py: the
-- counters (`Sequences`) and the numbers that they give (`Gapless`).
--
-- Purchase has the tables of purchasing, of backend/app/db/models/purchase.py, catalog.py and
-- partners.py (`Tables`), and what a look-up in them gives (`Lookup`). Receiving is
-- backend/app/services/receiving.py over them, Inventory and Numbering: `Requests`, `Checks` and
-- `Receipts` (`create_goods_receipt`) and `Invoices` (`create_supplier_invoice`). `Stocking`,
-- `Soundness`, `Posting` and `Outcome` say what a receipt needs and writes, `Counting`, `Limits`
-- and `Repeats` how much of an order is accepted and which status it gets, `Billing` what an
-- invoice writes.
--
-- Matching is backend/app/services/matching.py: `Lines` (`_evaluate_line`), `Verdict`
-- (`evaluate_three_way_match`) and `Documents` (`match_three_way`). `Clean` and `Approval` say
-- when a match passes, `Ordering` is about the order of the lines, `Loading`, `Agreed` and
-- `Records` about what a run reads and writes, `Repeated` and `Taxed` about lines that repeat a
-- product or carry tax. A percentage is an exact fraction; Python's decimals have digits enough to
-- compare those of the columns as exactly.
--
-- Idempotency is `IdempotencyMiddleware.dispatch` of backend/app/core/idempotency.py: a world of
-- the table, the Redis locks and any number of requests, each of which takes one step from one
-- await to the next (`Middleware`); `Claims`, `Exclusion` and `Replay` are about all sequences of
-- such steps.
--
-- Pricing is backend/app/services/pricing.py: `Lines` (the amounts of a line), `Summary`
-- (`_build_hsn_summary`) and `Orders` (`price_order`). `Groups` says what the summary sums up,
-- `Balance` what the amounts of an order add up to. Amounts before rounding are exact, in
-- ten-millionths and then 10 ^ -11 parts of a paisa; the pro-rata quotient of the header discount
-- is the parameter `pro_rata`, which gives it in whole parts of that size, fewer places than a
-- decimal's 28 digits. Python's decimals round at 28 digits, which the products here reach only
-- beyond the columns' scale.
--
-- Sales is backend/app/services/sales.py over backend/app/db/models/sales.py, with Inventory,
-- Numbering, Pricing and the outbox: `Tables`, `Requests`, `Checks` (validation, pricing and
-- credit), `Reserving` (`_best_effort_reserve` and its loops), `Ordering` (`create_sales_order`),
-- `Confirming` (`confirm_sales_order`, `retry_reservation`), `Counter` (`create_counter_sale`),
-- `Dispatch` (`create_delivery`) and `Invoicing` (`create_customer_invoice_from_delivery`).
-- `Effort` and `Orders` are about reservations, `Statuses`, `Answered`, `Placed`, `Asked`,
-- `Ordered`, `Confirmed`, `Topped` and `Retried` about orders, `Selling` about counter sales,
-- `Delivering` and `Shipped` about deliveries, `Billing` and `Amounts` about invoices. An `except
-- ConflictError` goes on with the tables as the failed call left them. The JSON text of an event,
-- the slice of an amount that an invoice bills and the days of payment terms are parameters.
--
-- Decimals are integers of their smallest unit: thousandths for stock, paise for money. A request
-- is taken to be in these units, which are those of the columns: what a column makes of more
-- places is not modelled, so a CHECK constraint that fails only after such rounding does not show.
-- The overflow of a column, and of a text beyond its length, shows as `data_error` in
-- `record_payment` and `create_supplier_invoice`; elsewhere the columns are taken to be wide
-- enough. Dates are day numbers and times are seconds. A UUID is a number, and the new ids that
-- the database gives, its clock, the HTTP client and the texts of ids in comments are parameters.
-- No definition needs fuel.
--
-- Outside Idempotency an operation is one atomic step: rows are locked by the UPDATE itself, and
-- concurrent transactions show as sequences of steps. Not modelled are procurement, the rendering
-- of invoices, nor the identity scope of an idempotency key, and, as glue, the API, the settings,
-- the authentication and the object storage.
pub mod Prelude
pub mod Errors
pub mod Inventory
pub mod Payments
pub mod Approvals
pub mod Outbox
pub mod Numbering
pub mod Purchase
pub mod Receiving
pub mod Sales
pub mod Matching
pub mod Idempotency
pub mod Pricing
