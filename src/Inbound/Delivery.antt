-- ===== src/Inbound/Delivery.antt =====
-- What a claim of a due batch comes to.
