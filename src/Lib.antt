-- ===== src/Lib.antt =====
-- The core of the Baytna backend: orders of home-cooked meals, their stock, payment, preparation and
-- delivery.
--
-- The program's parts. A request runs one operation of a service on a database session and commits
-- it; an operation that raises an ApiError is rolled back. Services call each other on the same
-- session: a payment's webhook settles the order, its holds and its benefits; a chef's rejection
-- refunds through the payment service and gives the stock back; an order that becomes ready gets a
-- delivery task; a completed delivery awards loyalty points. A checkout
-- asks the customer's zone for admission, prices the cart, reserves the coupon and the points, and takes
-- the stock. A worker publishes the outbox and runs the background jobs.
--
-- Files and the code that they model (paths from the repository's root):
--   Entities, Entities/Status, Entities/Market: the rows and status columns of backend/app/core/db_models.py.
--   Session: the database as a record of tables, ApiError, and a computation that may raise. A handler
--     is a function from the database to the one that it commits, or to its error. `Ended` is for
--     requests that commit before they raise.
--   Journal: order status events, AuditRepository.add, OutboxService.enqueue, NotificationService.emit.
--   Inventory: reserve_inventory and release_inventory of backend/app/modules/orders/repository.py, and
--     the loops over reservations. Inventory/Balance: what these do to the stock.
--   Orders: release_expired_holds and cancel_pending_order of backend/app/modules/orders/service.py.
--     Orders/Cart: the operations on carts. Orders/Lines, Orders/Checkout: create_pending_order, in the
--     steps that Orders/Placing names. Proofs are in Orders/Holds, Frame, Safety, Contents, Outcome,
--     Upkeep, Zones, Spent and Cart/Upkeep.
--   Pricing, Pricing/Discounts, Pricing/Reserve: quote_cart, active_subscription, _valid_coupon,
--     _coupon_discount and reserve_for_order of backend/app/modules/pricing/service.py. Benefits:
--     apply_for_paid_order and release_for_unpaid_order of the same file. Proofs are in Pricing/Bounds,
--     Pricing/Points, Benefits/Accounts, Settled and Once.
--   Governance: admit_or_raise and attach_admitted_order of
--     backend/app/modules/launch_governance/service.py; Governance/Caps: what an admission promises.
--   Reliability/Rows, Queue, Outbox, Jobs: backend/app/modules/reliability/outbox.py and jobs.py. The
--     two queues share Queue. Proofs are in Reliability/Budget, Progress, Settling, Crashes, Dedupe and
--     Schedule.
--   Specials, Specials/Schedule, Specials/Answers: backend/app/modules/special_orders/service.py up to the
--     payment; Specials/Calls: its calls in any order. Proofs are in Specials/Capacity, Staffing, Steps
--     and Refinement.
--   Loyalty: backend/app/modules/loyalty/service.py.
--   Payments, Payments/Intents, Webhook, Refunds: create_payment_intent, process_webhook,
--     _apply_payment_success, _apply_payment_failure and create_refund of
--     backend/app/modules/payments/service.py. Proofs are in Payments/Stock, Road, Redelivery and Payable.
--   Fulfillment, Fulfillment/Stages, Fulfillment/Rejection: backend/app/modules/fulfillment. Proofs are
--     in Fulfillment/Chain, Ready, Refusal, Shortfall and Queue.
--   Delivery/Repository, Dispatch, Transit, Completion, Issues: backend/app/modules/delivery. Coupling
--     says what a mission has to do with its order; Effects, Finish, Runs and Apart prove that it stays.
--   Timing, Timing/Promise: evaluate, stamp_task, snapshot and apply of
--     backend/app/modules/delivery_timing/service.py.
--   System: requests to all of these in any order, with the proofs in System/Frame, Money, Settlement,
--     Returns and Health. Scenarios: a small shop, and examples on it.
--
-- How state is modelled. A table is an association list under its primary key; a conditional UPDATE is
-- a function on the named row that answers none where it matches no row. Identifiers are numbers, and
-- money, quantities and instants (microseconds) are natural numbers: columns with a CHECK
-- constraint are not negative, and where the source subtracts, the model compares first. The time of a
-- request is one instant. Every loop is structural recursion over a table or a list, so
-- there is no fuel. An identifier that uuid4 would draw is one that no row has (`new_id`).
--
-- What is a parameter: the provider's answers to an intent and to a refund, which may differ each
-- time and may also raise;
-- Python's str of an identifier, strip, upper and lower; the hash behind a rollout bucket; reading a
-- clock time, and placing it in a time zone; the day of an instant; what a publisher or a background job
-- does; the settings.
--
-- What is not modelled: the checkout of special orders, the parsing and signatures of webhooks,
-- accounting, the monitoring of zones, and notification delivery. Responses, messages for people,
-- request identifiers and the planning of push notifications are left out of the modelled operations. Requests are taken one after another: what two concurrent transactions see of each other
-- is the database's own.
pub mod Prelude
pub mod Entities
pub mod Settings
pub mod Session
pub mod Journal
pub mod Timing
pub mod Loyalty
pub mod Delivery
pub mod Inventory
pub mod Benefits
pub mod Orders
pub mod Governance
pub mod Pricing
pub mod Reliability
pub mod Specials
pub mod Payments
pub mod Fulfillment
pub mod System
pub mod Scenarios
