-- ===== src/Push.antt =====
-- src/push.rs: the web push subscriptions, their two debounce maps, the guard on the endpoints that a
-- user registers, and the handlers of src/web.rs that write the table. A statement of SQL is a function on the
-- rows in their order.
pub mod Endpoint
pub mod Table
pub mod Debounce
