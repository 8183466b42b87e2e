-- ===== src/Lib.antt =====
-- The commerce core of the Oorvashee backend: the reservation of stock by a checkout, its payment, and
-- the capture or the failure that ends it; the cart; and the administration of orders, stock, categories
-- and products.
--
-- The program is a FastAPI application over PostgreSQL. A request runs in one transaction that commits
-- what a service returns and rolls back what it raises (app/db/session.py). A service is modelled as
-- functions from the tables (`Db`, of Database.antt) to a `Result`, which is an error of
-- app/core/exceptions.py or the new tables with what the call answers; a test, a loop or a SQL
-- statement of the source is a function of the same name where it has one. Clocks, new identifiers and
-- the answer of the payment gateway are arguments. A call holds the row locks that make it atomic, so
-- transactions are steps that follow one another; a lost connection is not modelled. The order in which
-- rows are locked is in InventoryService/Locks.antt, for a transaction that locks them by one call.
--
-- The parts, and the code that they are about:
--   Models            app/models: the enums and the columns that the services read and write.
--   Exceptions        app/core/exceptions.py as `Result`, and the reasoning on loops that may raise.
--   InventoryService  app/services/inventory_service.py: reserve, release_reservation,
--                     consume_reservation, commit_sale, decrement, restock,
--                     recompute_product_availability and lock_inventory_rows, with the CHECK
--                     constraints and the 32-bit columns of app/models/inventory.py at the flush.
--   ReservationRepository, OrderRepository
--                     app/repositories/reservation_repo.py and order_repo.py: the lookups.
--   CheckoutSessionService
--                     app/services/checkout_session_service.py: start_checkout holds a cart whole or
--                     not at all, and cancel releases it.
--   CheckoutPaymentService
--                     app/services/checkout_payment_service.py: start_payment makes a held session a
--                     pending order and extends the hold.
--   ReservationLifecycleService
--                     app/services/reservation_lifecycle.py and app/tasks/reservation_sweeper.py: the
--                     sale, the cancellation, and the two expiry sweeps.
--   PaymentService    app/services/payment_service.py: handle_webhook, verify_and_capture and the
--                     transitions of a payment below them.
--   CheckoutService   app/services/checkout_service.py: the quote, and the direct placement of an order.
--   AdminOrderService app/services/admin_order_service.py: the transitions of an order, its payment gates,
--                     cancellation, cash payments, shipments and notes; `Requests` serves a list of them.
--   AdminInventoryService
--                     app/services/admin_inventory_service.py: adjustments of the stock, the threshold, and
--                     the aggregates of app/repositories/inventory_repo.py.
--   AdminImportService
--                     app/services/admin_import_service.py: the walk over a CSV file in chunks, with its
--                     tallies, and the rows of an inventory file.
--   CategoryRepository, AdminCategoryService
--                     app/repositories/category_repo.py and app/services/admin_category_service.py: the
--                     walks over the hierarchy, and the requests that change it.
--   AdminProductService
--                     app/services/admin_product_service.py: the lifecycle of a product, and its variants.
--   CartService       app/services/cart_service.py with app/repositories/cart_repo.py: the cart, and the
--                     merge of a guest's.
--   Idempotency       app/core/idempotency.py: writes under a key, and their replay.
--   Pagination        app/core/pagination.py: pages by number.
--   Slugs             The slugs of app/services/admin_category_service.py and admin_product_service.py.
--   OrderLifecycle    What a call may do to an order, and how the table of orders evolves.
--   Soundness         The invariant of the checkout tables, against each service.
--   System            Interleavings of the checkout's calls and of the passage of time.
--   Examples          The theorems and the code on concrete tables.
--
-- Loops are structural recursion on the lists they walk, but for the two walks over the hierarchy of
-- categories, which are given as many rounds as the table has rows, and two more: each round meets a
-- row that was not met before. Identifiers and JSON bodies are numbers, and so are texts but for the
-- names and slugs of categories; amounts are whole paise; times are whole seconds. Counts are
-- integers, and the width of the columns is checked where the database checks it.
--
-- Not modelled: HTTP routing, authentication, rate limits, the creation and the update of products, the
-- imported rows of products and variants, wishlists, couriers, the administration of customers,
-- analytics, media, pages by cursor, which nothing calls, and the texts that are only shown; signatures
-- of the gateway are a Boolean.
pub mod Prelude
pub mod Models
pub mod Exceptions
pub mod Idempotency
pub mod Pagination
pub mod InventoryService
pub mod Database
pub mod Schemas
pub mod ReservationRepository
pub mod CheckoutSessionService
pub mod ReservationLifecycleService
pub mod CheckoutPaymentService
pub mod NoOversell
pub mod Slugs
pub mod Soundness
pub mod System
pub mod OrderRepository
pub mod PaymentService
pub mod AdminImportService
pub mod AdminProductService
pub mod AdminCategoryService
pub mod AdminInventoryService
pub mod CategoryRepository
pub mod AdminOrderService
pub mod OrderLifecycle
pub mod CheckoutService
pub mod CartService
mod Examples
